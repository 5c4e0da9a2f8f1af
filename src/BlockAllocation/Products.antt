-- ===== src/BlockAllocation/Products.antt =====
-- python/utils/block_allocation.py: the products of the factors of a number divide it.
use native.Mathlib.Nat.{mul_assoc, mul-pos}
use tt_lang.Prelude.{
  ℕ, ◌*◌, ◌≤◌, ◌<◌, ◌≡◌, refl, ap, ◌∙◌, subst, List, [], ◌∷◌, map, true, false, ltb, leb, ◌==◌,
  arith, product, has, Bool-cases, inl, inr,
}
use tt_lang.BlockAllocation.Matmul.{
  insert_sorted, insert_all, products_from, get_possible_products, above, within, grow,
  last_fitting,
}

abbrev pub All : (ℕ → Type 0) → List ℕ → Type 0
All P [] = Unit
All P (x ∷ xs) = P x × All P xs

-- A positive number that divides another.
abbrev pub Divides : ℕ → ℕ → Type 0
Divides n a = (0 < a) × ((c : ℕ) × (n ≡ a * c))

module _ (P : ℕ → Type 0) where
  All-insert_sorted : (x : ℕ) (ys : List ℕ) → P x → All P ys → All P (insert_sorted x ys)
  All-insert_sorted x [] p h = (p, tt)
  All-insert_sorted x (y ∷ ys) p h = elim (Bool-cases (x == y)) [
    | inl e ↦ rw e h
    | inr e ↦ elim (Bool-cases (ltb x y)) [
      | inl f ↦ rw (e, f) (p, h)
      | inr f ↦ rw (e, f) (h.0, All-insert_sorted x ys p h.1)
    ]
  ]

  All-insert_all : (xs ys : List ℕ) → All P xs → All P ys → All P (insert_all xs ys)
  All-insert_all [] ys h k = k
  All-insert_all (x ∷ xs) ys h k =
      All-insert_sorted x (insert_all xs ys) h.0 (All-insert_all xs ys h.1 k)

  -- What the two loops that pick a block keep.
  pub All-last_fitting :
      (most block : ℕ) (xs : List ℕ) → All P xs → P block → P (last_fitting most block xs)
  All-last_fitting most block [] h p = p
  All-last_fitting most block (x ∷ xs) h p = elim (Bool-cases (leb x most)) [
    | inl e ↦ rw e (All-last_fitting most x xs h.1 h.0)
    | inr e ↦ rw e (All-last_fitting most block xs h.1 p)
  ]

All-map :
    (P Q : ℕ → Type 0) (f : ℕ → ℕ)
    → ((x : ℕ) → P x → Q (f x))
    → (xs : List ℕ) → All P xs
    → All Q (map f xs)
All-map P Q f k [] h = tt
All-map P Q f k (x ∷ xs) h = (k x h.0, All-map P Q f k xs h.1)

All-weaken : (P Q : ℕ → Type 0) → ((x : ℕ) → P x → Q x) → (xs : List ℕ) → All P xs → All Q xs
All-weaken P Q k [] h = tt
All-weaken P Q k (x ∷ xs) h = (k x h.0, All-weaken P Q k xs h.1)

Divides-mul : (n p a : ℕ) → Divides n a → Divides (n * p) a
Divides-mul n p a h = (h.0, (h.1.0 * p, ap (λ (t : ℕ). t * p) h.1.1 ∙ mul_assoc a h.1.0 p))

Divides-mul_mul : (n p a : ℕ) → 0 < p → Divides n a → Divides (n * p) (a * p)
Divides-mul_mul n p a q h = (mul-pos h.0 q, (h.1.0, ap (λ (t : ℕ). t * p) h.1.1 ∙ grind arith))

All-products_from :
    (n : ℕ) (factors us : List ℕ)
    → All (λ p. 0 < p) factors
    → All (Divides n) us
    → All (Divides (n * product factors)) (products_from factors us)
All-products_from n [] us h k =
    rw (ap (λ m. n * m) refl) (subst (λ m. All (Divides m) us) (omega arith) k)
All-products_from n (p ∷ fs) us h k =
    subst (λ m. All (Divides m) (products_from (p ∷ fs) us)) (grind arith)
      (All-products_from (n * p) fs (insert_all (map (λ (x : ℕ). x * p) us) us) h.1 (
        All-insert_all (Divides (n * p)) (map (λ (x : ℕ). x * p) us) us
          (All-map (Divides n) (Divides (n * p)) (λ (x : ℕ). x * p)
            (λ x d. Divides-mul_mul n p x h.0 d) us k)
          (All-weaken (Divides n) (Divides (n * p)) (λ x d. Divides-mul n p x d) us k)))

pub get_possible_products-Divides :
    (factors : List ℕ)
    → All (λ p. 0 < p) factors
    → All (Divides (product factors)) (get_possible_products factors)
unfolding get_possible_products
get_possible_products-Divides factors h =
    subst (λ m. All (Divides m) (products_from factors (1 ∷ []))) (omega arith)
      (All-products_from 1 factors (1 ∷ []) h ((omega arith, (1, refl)), tt))

-- 1 is one of the products.
has-insert_sorted : (e x : ℕ) (ys : List ℕ) → has e ys ≡ true → has e (insert_sorted x ys) ≡ true
has-insert_sorted e x [] h = cc
has-insert_sorted e x (y ∷ ys) h = ground (arith, has-insert_sorted e x ys)

has-insert_all : (e : ℕ) (xs ys : List ℕ) → has e ys ≡ true → has e (insert_all xs ys) ≡ true
has-insert_all e [] ys h = h
has-insert_all e (x ∷ xs) ys h = has-insert_sorted e x (insert_all xs ys) (has-insert_all e xs ys h)

has-products_from :
    (e : ℕ) (factors us : List ℕ) → has e us ≡ true → has e (products_from factors us) ≡ true
has-products_from e [] us h = h
has-products_from e (p ∷ fs) us h =
    has-products_from e fs _ (has-insert_all e (map (λ (x : ℕ). x * p) us) us h)

pub get_possible_products-one : (factors : List ℕ) → has 1 (get_possible_products factors) ≡ true
unfolding get_possible_products
get_possible_products-one factors = has-products_from 1 factors (1 ∷ []) refl

pub last_fitting-le :
    (most block : ℕ) (xs : List ℕ) → block ≤ most → last_fitting most block xs ≤ most
last_fitting-le most block [] h = h
last_fitting-le most block (x ∷ xs) h =
    ground (arith, last_fitting-le most x xs, last_fitting-le most block xs)

-- Where one of the elements fits, the block that the loop ends with does.
pub last_fitting-has :
    (most block e : ℕ) (xs : List ℕ)
    → has e xs ≡ true
    → e ≤ most
    → last_fitting most block xs ≤ most
last_fitting-has most block e [] h k = absurd (cc)
last_fitting-has most block e (x ∷ xs) h k =
    ground (arith, last_fitting-le most x xs, last_fitting-has most block e xs)

pub grow-le : (least most block : ℕ) (xs : List ℕ) → block ≤ most → grow least most block xs ≤ most
grow-le least most block [] h = h
grow-le least most block (x ∷ xs) h = ground (arith, grow-le least most (x * least) xs)

-- A block is the least one times a product of the factors that are left.
pub grow-Divides :
    (least most n block : ℕ) (xs : List ℕ)
    → 0 < least
    → All (Divides n) xs
    → Divides (least * n) block
    → Divides (least * n) (grow least most block xs)
grow-Divides least most n block [] l h d = d
grow-Divides least most n block (x ∷ xs) l h d = elim (Bool-cases (leb (x * least) most)) [
  | inl e ↦ rw e (
      grow-Divides least most n (x * least) xs l h.1
        (subst (λ m. Divides m (x * least)) (grind arith) (Divides-mul_mul n least x l h.0)))
  | inr e ↦ rw e d
]

-- The factors above a bound and those within it.
pub product-above-within :
    (n : ℕ) (fs : List ℕ) → product (above n fs) * product (within n fs) ≡ product fs
product-above-within n [] = refl
product-above-within n (f ∷ fs) = elim (Bool-cases (leb f n)) [
  | inl e ↦
      let e' : ltb n f ≡ false = ground arith in
      rw (e, e') (grind (arith, ap (λ (t : ℕ). f * t) (product-above-within n fs)))
  | inr e ↦
      let e' : ltb n f ≡ true = ground arith in
      rw (e, e') (grind (arith, ap (λ (t : ℕ). f * t) (product-above-within n fs)))
]

pub All-within : (P : ℕ → Type 0) (n : ℕ) (fs : List ℕ) → All P fs → All P (within n fs)
All-within P n [] h = tt
All-within P n (f ∷ fs) h = elim (Bool-cases (leb f n)) [
  | inl e ↦ rw e (h.0, All-within P n fs h.1)
  | inr e ↦ rw e (All-within P n fs h.1)
]

pub product-above-pos : (n : ℕ) (fs : List ℕ) → All (λ p. 0 < p) fs → 0 < product (above n fs)
product-above-pos n [] h = omega arith
product-above-pos n (f ∷ fs) h = elim (Bool-cases (ltb n f)) [
  | inl e ↦ rw e (mul-pos h.0 (product-above-pos n fs h.1))
  | inr e ↦ rw e (product-above-pos n fs h.1)
]
