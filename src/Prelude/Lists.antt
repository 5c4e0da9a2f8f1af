-- ===== src/Prelude/Lists.antt =====
-- Lists measured and indexed by native numbers, under the library's names.
use Prim.Native.Nat.{ℕ, zero, suc, ◌+◌, ◌-◌, ◌*◌, ◌≤◌, ◌<◌}
use mathlib.Core.Path.{◌≡◌, refl, ap, ◌∙◌}
use mathlib.Core.Logic.{◌≢◌}
use mathlib.Core.List.{List, [], ◌∷◌, ◌++◌, map}
use mathlib.Core.Bool.{Bool, true, false, ◌||◌, ◌&&◌}
use tt_lang.Prelude.Tests.{◌==◌, ltb, if◌then◌else◌}
use mathlib.Core.Option.{Option, none, some}
use native.Mathlib.Omega.{arith}

module _ {ℓ} {A : Type ℓ} where
  abbrev pub length : List A → ℕ
  length [] = 0
  length (x ∷ xs) = suc (length xs)

  abbrev pub get_elem? : List A → ℕ → Option A
  get_elem? [] i = none
  get_elem? (x ∷ xs) zero = some x
  get_elem? (x ∷ xs) (suc i) = get_elem? xs i

  -- A write out of bounds changes nothing.
  abbrev pub set : List A → ℕ → A → List A
  set [] i v = []
  set (x ∷ xs) zero v = v ∷ xs
  set (x ∷ xs) (suc i) v = x ∷ set xs i v

  abbrev pub replicate : ℕ → A → List A
  replicate zero a = []
  replicate (suc n) a = a ∷ replicate n a

  abbrev pub take : ℕ → List A → List A
  take zero xs = []
  take (suc n) [] = []
  take (suc n) (x ∷ xs) = x ∷ take n xs

  abbrev pub drop : ℕ → List A → List A
  drop zero xs = xs
  drop (suc n) [] = []
  drop (suc n) (x ∷ xs) = drop n xs

  pub length-append : (xs ys : List A) → length (xs ++ ys) ≡ length xs + length ys
  length-append [] ys = omega arith
  length-append (x ∷ xs) ys = omega (arith, length-append xs ys)

  pub length-set : (xs : List A) (i : ℕ) (v : A) → length (set xs i v) ≡ length xs
  length-set [] i v = refl
  length-set (x ∷ xs) zero v = refl
  length-set (x ∷ xs) (suc i) v = ap suc (length-set xs i v)

  pub length-replicate : (n : ℕ) (a : A) → length (replicate n a) ≡ n
  length-replicate zero a = refl
  length-replicate (suc n) a = ap suc (length-replicate n a)

  pub get_elem?-set_self :
      (xs : List A) (i : ℕ) (v : A) → i < length xs → get_elem? (set xs i v) i ≡ some v
  get_elem?-set_self [] i v h = elim h [ ]
  get_elem?-set_self (x ∷ xs) zero v h = refl
  get_elem?-set_self (x ∷ xs) (suc i) v h = get_elem?-set_self xs i v (omega arith)

  pub get_elem?-set_ne :
      (xs : List A) (i j : ℕ) (v : A) → i ≢ j → get_elem? (set xs i v) j ≡ get_elem? xs j
  get_elem?-set_ne [] i j v h = refl
  get_elem?-set_ne (x ∷ xs) zero zero v h = absurd (h refl)
  get_elem?-set_ne (x ∷ xs) zero (suc j) v h = refl
  get_elem?-set_ne (x ∷ xs) (suc i) zero v h = refl
  get_elem?-set_ne (x ∷ xs) (suc i) (suc j) v h = get_elem?-set_ne xs i j v (λ e. h (ap suc e))

  pub get_elem?-in_range :
      (xs : List A) (i : ℕ) → i < length xs → (a : A) × (get_elem? xs i ≡ some a)
  get_elem?-in_range [] i h = elim h [ ]
  get_elem?-in_range (x ∷ xs) zero h = (x, refl)
  get_elem?-in_range (x ∷ xs) (suc i) h = get_elem?-in_range xs i (omega arith)

-- `x in xs`
abbrev pub has : ℕ → List ℕ → Bool
has x [] = false
has x (y ∷ ys) = (x == y) || has x ys

-- How often a number occurs.
abbrev pub count : ℕ → List ℕ → ℕ
count x [] = 0
count x (y ∷ ys) = if x == y then suc (count x ys) else count x ys

-- `range(start, start + n)`
abbrev pub count_up : ℕ → ℕ → List ℕ
count_up start zero = []
count_up start (suc n) = start ∷ count_up (suc start) n

-- The lists of a function's results, one after the other.
abbrev pub concat_map {ℓ κ} : {A : Type ℓ} {B : Type κ} → (A → List B) → List A → List B
concat_map f [] = []
concat_map f (x ∷ xs) = f x ++ concat_map f xs

-- `@validate_call` on sizes: all are positive.
abbrev pub all_positive : List ℕ → Bool
all_positive [] = true
all_positive (d ∷ ds) = ltb 0 d && all_positive ds

-- `math.prod`, and the `for d in grid: n *= d` loops.
abbrev pub product : List ℕ → ℕ
product [] = 1
product (x ∷ xs) = x * product xs

module _ {ℓ} {A : Type ℓ} where
  -- Two ways to split one list at the same place.
  pub append-injective :
      (as' bs cs ds : List A)
      → length as' ≡ length cs
      → as' ++ bs ≡ cs ++ ds
      → (as' ≡ cs) × (bs ≡ ds)
  append-injective [] bs [] ds l e = (refl, e)
  append-injective [] bs (c ∷ cs) ds l e = absurd (omega arith)
  append-injective (a ∷ as') bs [] ds l e = absurd (omega arith)
  append-injective (a ∷ as') bs (c ∷ cs) ds l e =
      let (p, q) = append-injective as' bs cs ds (omega arith) (cc) in (cc, q)

  pub take-append : (xs ys : List A) → take (length xs) (xs ++ ys) ≡ xs
  take-append [] ys = refl
  take-append (x ∷ xs) ys = ap (λ r. x ∷ r) (take-append xs ys)

  pub drop-append : (xs ys : List A) → drop (length xs) (xs ++ ys) ≡ ys
  drop-append [] ys = refl
  drop-append (x ∷ xs) ys = drop-append xs ys

pub length-map {ℓ κ} :
    {A : Type ℓ} {B : Type κ} (f : A → B) (xs : List A) → length (map f xs) ≡ length xs
length-map f [] = refl
length-map f (x ∷ xs) = ap suc (length-map f xs)

module _ {ℓ κ} {A : Type ℓ} {B : Type κ} (f : A → B) where
  pub map-take-drop : (n : ℕ) (xs : List A) → map f xs ≡ map f (take n xs) ++ map f (drop n xs)
  map-take-drop zero xs = refl
  map-take-drop (suc n) [] = refl
  map-take-drop (suc n) (x ∷ xs) = ap (λ r. f x ∷ r) (map-take-drop n xs)

pub length-take {ℓ} : {A : Type ℓ} (n : ℕ) (xs : List A) → n ≤ length xs → length (take n xs) ≡ n
length-take zero xs h = refl
length-take (suc n) [] h = absurd (omega arith)
length-take (suc n) (x ∷ xs) h = ap suc (length-take n xs (omega arith))

pub set-append {ℓ} :
    {A : Type ℓ} (xs : List A) (y : A) (ys : List A) (v : A)
    → set (xs ++ (y ∷ ys)) (length xs) v ≡ xs ++ (v ∷ ys)
set-append [] y ys v = refl
set-append (x ∷ xs) y ys v = ap (λ r. x ∷ r) (set-append xs y ys v)

pub take_all {ℓ} : {A : Type ℓ} (n : ℕ) (xs : List A) → length xs ≡ n → take n xs ≡ xs
take_all zero [] h = refl
take_all zero (x ∷ xs) h = absurd (omega arith)
take_all (suc n) [] h = refl
take_all (suc n) (x ∷ xs) h = ap (λ r. x ∷ r) (take_all n xs (omega arith))

pub take_first {ℓ} : {B : Type ℓ} (n : ℕ) (xs ys : List B) → length xs ≡ n → take n (xs ++ ys) ≡ xs
take_first n xs ys e = rw (← e) (take-append xs ys)

pub drop_first {ℓ} : {B : Type ℓ} (n : ℕ) (xs ys : List B) → length xs ≡ n → drop n (xs ++ ys) ≡ ys
drop_first n xs ys e = rw (← e) (drop-append xs ys)

pub product-append : (xs ys : List ℕ) → product (xs ++ ys) ≡ product xs * product ys
product-append [] ys = omega arith
product-append (x ∷ xs) ys = rw (product-append xs ys) (omega arith)

pub length-drop {ℓ} : {A : Type ℓ} (n : ℕ) (xs : List A) → length (drop n xs) ≡ length xs - n
length-drop zero xs = omega arith
length-drop (suc n) [] = omega arith
length-drop (suc n) (x ∷ xs) = omega (arith, length-drop n xs)

pub length-count_up : (start n : ℕ) → length (count_up start n) ≡ n
length-count_up start zero = refl
length-count_up start (suc n) = ap suc (length-count_up (suc start) n)

pub length-concat_map {ℓ κ} :
    {A : Type ℓ} {B : Type κ} (f : A → List B) (k : ℕ) (xs : List A)
    → ((x : A) → length (f x) ≡ k)
    → length (concat_map f xs) ≡ length xs * k
length-concat_map f k [] h = omega arith
length-concat_map f k (x ∷ xs) h =
    length-append (f x) (concat_map f xs) ∙ rw (h x) (rw (length-concat_map f k xs h) (omega arith))
