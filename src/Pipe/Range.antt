-- ===== src/Pipe/Range.antt =====
-- What `expand_core_range` enumerates along each dimension, and over all of them.
use native.Mathlib.Nat.{mod-eq_of_lt, mod-eq-sub-mod}
use tt_lang.Prelude.{
  ℤ, pos, negsuc, raise_by, distance, int_lt, int_le, same_int, map, leb-false→lt, ℕ, zero, suc,
  ◌+◌, ◌-◌, ◌%◌, ◌≤◌, ◌<◌, ◌≡◌, refl, ap, ap₂, sym, ◌∙◌, inl, inr, List, [], ◌∷◌, ◌++◌, Bool, true,
  false, ◌&&◌, ◌||◌, ltb, leb, ◌==◌, Bool-cases, leb→le, ltb→lt, arith,
}
use tt_lang.Pipe.{upward, range_from, same_numbers, for_values, cartesian}

abbrev pub elem : ℕ → List ℤ → Bool
elem c [] = false
elem c (v ∷ vs) = same_int c v || elem c vs

abbrev elem_ℕ : ℕ → List ℕ → Bool
elem_ℕ c [] = false
elem_ℕ c (v ∷ vs) = (c == v) || elem_ℕ c vs

abbrev in_slice : ℕ → ℕ → ℕ → ℕ → Bool
in_slice start stop step c = (leb start c && ltb c stop) && ((c - start) % step == 0)

mod-beyond :
    (start step c : ℕ) → start + step ≤ c → (c - start) % step ≡ (c - (start + step)) % step
mod-beyond start step c h =
    let sub : c - start - step ≡ c - (start + step) = omega arith in
    mod-eq-sub-mod (omega arith) ∙ ap (λ k. k % step) sub

in_slice-next :
    (start stop step c : ℕ)
    → 0 < step
    → start < stop
    → in_slice start stop step c ≡ (c == start) || in_slice (start + step) stop step c
in_slice-next start stop step c h l = elim (Bool-cases (leb (start + step) c)) [
  | inl e ↦ (let far = mod-beyond start step c (leb→le (start + step) c e) in ground arith)
  | inr e ↦ elim (Bool-cases (ltb start c)) [
    | inl f ↦
        (let near : (c - start) % step ≡ c - start = mod-eq_of_lt (ground arith) in ground arith)
    | inr f ↦
        (let near : (c - start) % step ≡ c - start = mod-eq_of_lt (ground arith) in ground arith)
  ]
]

-- A number is among those of `range_from` exactly if it lies within the bounds and is a whole number of
-- steps away from the start, if the fuel reaches the stop.
elem-range_from :
    (fuel start stop step c : ℕ)
    → 0 < step
    → stop ≤ start + fuel
    → elem_ℕ c (range_from fuel start stop step) ≡ in_slice start stop step c
elem-range_from zero start stop step c h l = ground arith
elem-range_from (suc fuel) start stop step c h l = elim (Bool-cases (ltb start stop)) [
  | inl e ↦ rw e (
      ap (λ b. (c == start) || b) (elem-range_from fuel (start + step) stop step c h (omega arith))
      ∙ sym (in_slice-next start stop step c h (ltb→lt start stop e)))
  | inr e ↦ rw e (ground arith)
]

and-or : (a b c : Bool) → (a && b) || (a && c) ≡ a && (b || c)
and-or a b c = ground arith

same_int-raise_by :
    (c : ℕ) (start : ℤ) (n : ℕ)
    → same_int c (raise_by start n) ≡ int_le start (pos c) && (distance start (pos c) == n)
same_int-raise_by c (pos a) n = ground arith
same_int-raise_by c (negsuc a) n = elim (Bool-cases (leb (suc a) n)) [
  | inl e ↦ (let far : suc a ≤ n = leb→le (suc a) n e in rw e (ground arith))
  | inr e ↦ (let near : n < suc a = leb-false→lt (suc a) n e in rw e (ground arith))
]

elem-raise_by :
    (c : ℕ) (start : ℤ) (ns : List ℕ)
    → elem c (map (raise_by start) ns) ≡ int_le start (pos c) && elem_ℕ (distance start (pos c)) ns
elem-raise_by c start [] = ground arith
elem-raise_by c start (n ∷ ns) =
    ap₂ (λ a b. a || b) (same_int-raise_by c start n) (elem-raise_by c start ns)
    ∙ and-or (int_le start (pos c)) (distance start (pos c) == n)
        (elem_ℕ (distance start (pos c)) ns)

-- Before a stop, and less far from a start than it.
distance-before :
    (start stop : ℤ) (c : ℕ)
    → int_le start (pos c) ≡ true
    → ltb (distance start (pos c)) (distance start stop) ≡ int_lt (pos c) stop
distance-before (pos a) (pos b) c h = ground arith
distance-before (pos a) (negsuc b) c h = ground arith
distance-before (negsuc a) (pos b) c h = ground arith
distance-before (negsuc a) (negsuc b) c h = ground arith

-- A number is among those of a range upward exactly if it lies within the bounds and is a whole number
-- of steps away from the start.
pub elem-upward :
    (start stop : ℤ) (step c : ℕ)
    → 0 < step
    → elem c (upward start stop step)
      ≡ (int_le start (pos c) && int_lt (pos c) stop) && (distance start (pos c) % step == 0)
elem-upward start stop step c h =
    let d : ℕ = distance start (pos c) in
    let n : ℕ = distance start stop in
    let zeros : d - 0 ≡ d = omega arith in
    elem-raise_by c start (range_from n 0 n step)
    ∙ ap (λ b. int_le start (pos c) && b) (elem-range_from n 0 n step d h (omega arith))
    ∙ elim (Bool-cases (int_le start (pos c))) [
      | inl e ↦ rw (e, zeros, distance-before start stop c e) (ground arith)
      | inr e ↦ rw e refl
    ]

-- Whether a list of coordinates is among some lists.
abbrev pub elem_list : List ℕ → List (List ℤ) → Bool
elem_list cs [] = false
elem_list cs (l ∷ ls) = same_numbers cs l || elem_list cs ls

abbrev pub all_in : List ℕ → List (List ℤ) → Bool
all_in [] [] = true
all_in (c ∷ cs) (r ∷ rs) = elem c r && all_in cs rs
all_in [] (r ∷ rs) = false
all_in (c ∷ cs) [] = false

-- `cs` begins with `current`, and goes on with a number of each range.
abbrev extends : List ℤ → List (List ℤ) → List ℕ → Bool
extends [] rs cs = all_in cs rs
extends (k ∷ current) rs [] = false
extends (k ∷ current) rs (c ∷ cs) = same_int c k && extends current rs cs

abbrev any_extends : List ℤ → List ℤ → List (List ℤ) → List ℕ → Bool
any_extends [] current rs cs = false
any_extends (v ∷ vs) current rs cs =
    extends (current ++ (v ∷ [])) rs cs || any_extends vs current rs cs

elem_list-append :
    (cs : List ℕ) (xs ys : List (List ℤ))
    → elem_list cs (xs ++ ys) ≡ elem_list cs xs || elem_list cs ys
elem_list-append cs [] ys = refl
elem_list-append cs (x ∷ xs) ys = ground (arith, elem_list-append cs xs ys)

any_extends-nil : (vs current : List ℤ) (rs : List (List ℤ)) → any_extends vs current rs [] ≡ false
any_extends-nil [] current rs = refl
any_extends-nil (v ∷ vs) [] rs = any_extends-nil vs [] rs
any_extends-nil (v ∷ vs) (k ∷ current) rs = any_extends-nil vs (k ∷ current) rs

any_extends-eq :
    (vs current : List ℤ) (rs : List (List ℤ)) (cs : List ℕ)
    → any_extends vs current rs cs ≡ extends current (vs ∷ rs) cs
any_extends-eq [] [] rs [] = refl
any_extends-eq [] [] rs (c ∷ cs) = refl
any_extends-eq (v ∷ vs) [] rs [] = any_extends-nil vs [] rs
any_extends-eq (v ∷ vs) [] rs (c ∷ cs) = ground (arith, any_extends-eq vs [] rs (c ∷ cs))
any_extends-eq vs (k ∷ current) rs [] = any_extends-nil vs (k ∷ current) rs
any_extends-eq [] (k ∷ current) rs (c ∷ cs) = ground (arith, any_extends-eq [] current rs cs)
any_extends-eq (v ∷ vs) (k ∷ current) rs (c ∷ cs) =
    let now : Bool = extends (current ++ (v ∷ [])) rs cs in
    ap (λ b. (same_int c k && now) || b)
      (any_extends-eq vs (k ∷ current) rs (c ∷ cs)
        ∙ ap (λ b. same_int c k && b) (sym (any_extends-eq vs current rs cs)))
    ∙ and-or (same_int c k) now (any_extends vs current rs cs)
    ∙ ap (λ b. same_int c k && b) (any_extends-eq (v ∷ vs) current rs cs)

same_numbers-extends :
    (current : List ℤ) (cs : List ℕ) → same_numbers cs current ≡ extends current [] cs
same_numbers-extends [] [] = refl
same_numbers-extends [] (c ∷ cs) = refl
same_numbers-extends (k ∷ current) [] = refl
same_numbers-extends (k ∷ current) (c ∷ cs) =
    ap (λ b. same_int c k && b) (same_numbers-extends current cs)

elem-for_values :
    (current : List ℤ) (rs : List (List ℤ)) (cs : List ℕ)
    → ((v : ℤ)
        → elem_list cs (cartesian rs (current ++ (v ∷ []))) ≡ extends (current ++ (v ∷ [])) rs cs)
    → (vs : List ℤ)
    → elem_list cs (for_values vs λ v. cartesian rs (current ++ (v ∷ [])))
      ≡ any_extends vs current rs cs
elem-for_values current rs cs ih [] = refl
elem-for_values current rs cs ih (v ∷ vs) =
    elem_list-append cs (cartesian rs (current ++ (v ∷ [])))
      (for_values vs λ v. cartesian rs (current ++ (v ∷ [])))
    ∙ ap₂ (λ a b. a || b) (ih v) (elem-for_values current rs cs ih vs)

elem-cartesian :
    (rs : List (List ℤ)) (current : List ℤ) (cs : List ℕ)
    → elem_list cs (cartesian rs current) ≡ extends current rs cs
elem-cartesian [] current cs = ground (arith, same_numbers-extends current cs)
elem-cartesian (r ∷ rs) current cs =
    elem-for_values current rs cs (λ v. elem-cartesian rs (current ++ (v ∷ [])) cs) r
    ∙ any_extends-eq r current rs cs

-- The lists that `cartesian` makes from nothing are those with one number of each range.
pub elem-cartesian_all :
    (rs : List (List ℤ)) (cs : List ℕ) → elem_list cs (cartesian rs []) ≡ all_in cs rs
elem-cartesian_all rs cs = elem-cartesian rs [] cs
