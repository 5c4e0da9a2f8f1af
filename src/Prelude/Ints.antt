-- ===== src/Prelude/Ints.antt =====
-- Python's int: `negsuc n` is -(n + 1).
use Prim.Native.Nat.{ℕ, suc, ◌+◌, ◌-◌, ◌*◌}
use mathlib.Core.Bool.{Bool, true, false}
use tt_lang.Prelude.Tests.{if◌then◌else◌, ltb, leb, ◌==◌}

pub data ℤ : Type 0 where
  pos : ℕ → ℤ
  negsuc : ℕ → ℤ

-- a - b
abbrev pub sub_ℕ : ℕ → ℕ → ℤ
sub_ℕ a b = if leb b a then pos (a - b) else negsuc (b - a - 1)

-- x + n and x - n
abbrev pub raise_by : ℤ → ℕ → ℤ
raise_by (pos a) n = pos (a + n)
raise_by (negsuc a) n = sub_ℕ n (suc a)

abbrev pub lower_by : ℤ → ℕ → ℤ
lower_by (pos a) n = sub_ℕ a n
lower_by (negsuc a) n = negsuc (a + n)

-- x * n
abbrev pub times : ℤ → ℕ → ℤ
times (pos a) n = pos (a * n)
times (negsuc a) n = sub_ℕ 0 (suc a * n)

-- y - x, and 0 where y is less.
abbrev pub distance : ℤ → ℤ → ℕ
distance (pos a) (pos b) = b - a
distance (pos a) (negsuc b) = 0
distance (negsuc a) (pos b) = suc a + b
distance (negsuc a) (negsuc b) = a - b

-- x < y and x <= y
abbrev pub int_lt : ℤ → ℤ → Bool
int_lt (pos a) (pos b) = ltb a b
int_lt (pos a) (negsuc b) = false
int_lt (negsuc a) (pos b) = true
int_lt (negsuc a) (negsuc b) = ltb b a

abbrev pub int_le : ℤ → ℤ → Bool
int_le (pos a) (pos b) = leb a b
int_le (pos a) (negsuc b) = false
int_le (negsuc a) (pos b) = true
int_le (negsuc a) (negsuc b) = leb b a

-- A natural number against an int.
abbrev pub same_int : ℕ → ℤ → Bool
same_int c (pos n) = c == n
same_int c (negsuc n) = false
