-- ===== src/Stats/Counts.antt =====
-- python/sim/stats.py: what a change of one entry does to a counter of every entry, and to the
-- counter's sum over a table.
use Prim.Native.String.{String}
use text.Mathlib.Text.{◌==◌ as str_eq}
use text.Mathlib.TextEquality.{eq_iff}
use tt_lang.Prelude.{ℕ, ◌+◌, ◌≡◌, refl, List, [], ◌∷◌, Bool, true, false, if◌then◌else◌, arith}
use tt_lang.Stats.{Table, entry, change}

-- A table that is not empty after a change.
abbrev pub is_empty {ℓ} : {A : Type ℓ} → List A → Bool
is_empty [] = true
is_empty (x ∷ xs) = false

abbrev pub sum_of : {V : Type 0} → (V → ℕ) → Table V → ℕ
sum_of counter [] = 0
sum_of counter ((k, v) ∷ t) = counter v + sum_of counter t

module _ {V : Type 0} (default : V) (k : String) (f : V → V) where
  pub is_empty-change : (t : Table V) → is_empty (change default k f t) ≡ false
  is_empty-change [] = refl
  is_empty-change ((j, v) ∷ t) = ground (arith, eq_iff j k)

  module _ (counter : V → ℕ) (n : ℕ) (grows : (v : V) → counter (f v) ≡ counter v + n) where
    pub entry-change :
        (m : String) (t : Table V)
        → counter (entry default m (change default k f t))
          ≡ counter (entry default m t) + (if str_eq k m then n else 0)
    entry-change m [] = ground (arith, eq_iff k m, grows default)
    entry-change m ((j, v) ∷ t) =
        ground (arith, eq_iff j k, eq_iff j m, eq_iff k m, grows v, entry-change m t)

    pub sum_of-change :
        counter default ≡ 0
        → (t : Table V) → sum_of counter (change default k f t) ≡ sum_of counter t + n
    sum_of-change z [] = omega (arith, grows default)
    sum_of-change z ((j, v) ∷ t) = ground (arith, eq_iff j k, grows v, sum_of-change z t)
