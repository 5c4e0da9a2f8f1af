-- ===== src/CoreContext/Ranks.antt =====
-- A core's number and its coordinates determine each other.
use mathlib.Core.List.{reverse, reverse-cons, append-nil}
use native.Mathlib.Nat.{
  div-add-mod, div-div-eq-div-mul, mod-eq_of_lt, mul_comm, div-one, mod-one, add_left_cancel,
  mul-one, sub_self,
}
use tt_lang.Prelude.{
  ℕ, suc, ◌+◌, ◌-◌, ◌*◌, ◌/◌, ◌%◌, ◌<◌, true, ◌≡◌, refl, ap, ap₂, sym, ◌∙◌, List, [], ◌∷◌, ◌++◌, ok,
  bind_ok, length, product, product-append, length-append, take-append, drop-append, lt→ltb,
  ltb_irrefl, ltb, arith,
}
use tt_lang.CoreContext.{
  CoreCoord, flatten_from, flatten_core_index, flatten_coords, divide, all_coords, as_coord,
  core_dims, core,
}

-- The coordinates of `cid`, from the first.
abbrev pub places : List ℕ → ℕ → List ℕ
places [] cid = []
places (g ∷ grid) cid = cid / product grid % g ∷ places grid cid

product_snoc : (xs : List ℕ) (x : ℕ) → product (xs ++ (x ∷ [])) ≡ x * product xs
product_snoc [] x = refl
product_snoc (y ∷ xs) x = rw (product_snoc xs x) (omega arith)

pub product-reverse : (xs : List ℕ) → product (reverse xs) ≡ product xs
product-reverse [] = refl
product-reverse (x ∷ xs) =
    rw (reverse-cons x xs) (product_snoc (reverse xs) x ∙ ap (λ k. x * k) (product-reverse xs))

divide_snoc :
    (xs : List ℕ) (g cid : ℕ) (cs : List ℕ)
    → divide (xs ++ (g ∷ [])) cid cs ≡ cid / product xs % g ∷ divide xs cid cs
divide_snoc [] g cid cs = rw (div-one cid) refl
divide_snoc (x ∷ xs) g cid cs =
    divide_snoc xs g (cid / x) (cid % x ∷ cs)
    ∙ ap (λ k. k % g ∷ divide xs (cid / x) (cid % x ∷ cs)) (div-div-eq-div-mul cid x (product xs))

pub divide-reverse :
    (grid : List ℕ) (cid : ℕ) (cs : List ℕ) → divide (reverse grid) cid cs ≡ places grid cid ++ cs
divide-reverse [] cid cs = refl
divide-reverse (g ∷ grid) cid cs = rw (reverse-cons g grid) (
    divide_snoc (reverse grid) g cid cs
    ∙ ap₂ (λ k r. cid / k % g ∷ r) (product-reverse grid) (divide-reverse grid cid cs))

regroup : (g p q r m : ℕ) → g * p * q + (r * p + m) ≡ p * (g * q + r) + m
regroup g p q r m = omega arith

pub mod-mul : (c g p : ℕ) → c % (g * p) ≡ c / p % g * p + c % p
mod-mul c g p =
    let q : ℕ = c / p / g in
    let e₁ : g * p * q + (c / p % g * p + c % p) ≡ c =
      regroup g p q (c / p % g) (c % p)
      ∙ ap (λ k. p * k + c % p) (div-add-mod (c / p) g)
      ∙ div-add-mod c p in
    let e₂ : g * p * q + c % (g * p) ≡ c =
      ap (λ k. g * p * k + c % (g * p)) (div-div-eq-div-mul c p g ∙ ap (λ k. c / k) (mul_comm p g))
      ∙ div-add-mod c (g * p) in
    add_left_cancel (g * p * q) (e₂ ∙ sym e₁)

-- The loop of `flatten_core_index` on the coordinates of `cid`.
flatten_from-places :
    (grid : List ℕ) (linear cid : ℕ)
    → flatten_from linear grid (places grid cid) ≡ ok (linear * product grid + cid % product grid)
flatten_from-places [] linear cid = ap ok (omega (arith, mod-one cid))
flatten_from-places (g ∷ grid) linear cid =
    let p : ℕ = product grid in
    flatten_from-places grid (linear * g + cid / p % g) cid
    ∙ ap ok (
        regroup₂ linear g p (cid / p % g) (cid % p)
        ∙ ap (λ k. linear * (g * p) + k) (sym (mod-mul cid g p)))
  where
    regroup₂ : (l g p r m : ℕ) → (l * g + r) * p + m ≡ l * (g * p) + (r * p + m)
    regroup₂ l g p r m = omega arith

pub all_coords-places : (grid : List ℕ) (cid : ℕ) → all_coords grid cid ≡ places grid cid
all_coords-places grid cid = divide-reverse grid cid [] ∙ append-nil (places grid cid)

pub length-places : (grid : List ℕ) (cid : ℕ) → length (places grid cid) ≡ length grid
length-places [] cid = refl
length-places (g ∷ grid) cid = ap suc (length-places grid cid)

places-append :
    (xs ys : List ℕ) (cid : ℕ)
    → places (xs ++ ys) cid ≡ places xs (cid / product ys) ++ places ys cid
places-append [] ys cid = refl
places-append (x ∷ xs) ys cid =
    ap₂ (λ k r. k % x ∷ r)
      (ap (λ k. cid / k) (product-append xs ys ∙ mul_comm (product xs) (product ys))
        ∙ sym (div-div-eq-div-mul cid (product ys) (product xs)))
      (places-append xs ys cid)

flatten_from-prefix :
    (xs ys : List ℕ) (linear c : ℕ)
    → flatten_from linear (xs ++ ys) (places xs c) ≡ flatten_from linear xs (places xs c)
flatten_from-prefix [] ys linear c = refl
flatten_from-prefix (x ∷ xs) ys linear c =
    flatten_from-prefix xs ys (linear * x + c / product xs % x) c

-- Flattening the coordinates along the first dimensions of a grid.
pub flatten_coords-places :
    (g : ℕ) (xs ys : List ℕ) (c : ℕ)
    → flatten_coords ((g ∷ xs) ++ ys) (places (g ∷ xs) c) ≡ ok (c % product (g ∷ xs))
flatten_coords-places g xs ys c =
    flatten_from-prefix xs ys (c / product xs % g) c
    ∙ flatten_from-places xs (c / product xs % g) c
    ∙ ap ok (sym (mod-mul c g (product xs)))

core_dims-exact : (grid coords : List ℕ) → core_dims (length coords) grid coords ≡ ok coords
core_dims-exact grid coords =
    rw (ltb_irrefl (length coords), sub_self (length coords), append-nil coords) refl

core_dims-fewer :
    (grid cs ps : List ℕ)
    → 1 < length cs
    → core_dims (suc (length ps)) grid (cs ++ ps)
      ≡ bind_ok (flatten_coords grid cs) (λ f. ok (f ∷ ps))
core_dims-fewer grid cs ps h =
    let size = length-append cs ps in
    let less : ltb (suc (length ps)) (length (cs ++ ps)) ≡ true =
      lt→ltb (suc (length ps)) (length (cs ++ ps)) (omega arith) in
    let k : length (cs ++ ps) - length ps ≡ length cs = omega arith in
    rw (less, k, take-append cs ps, drop-append cs ps) refl

-- In fewer dimensions than the grid has, or as many, the coordinates of a core are those in the grid
-- whose first sizes are multiplied into one: each is the core's number divided by the product of
-- the later sizes, modulo its own size.
pub core-merged :
    (g : ℕ) (xs ys : List ℕ) (cid : ℕ)
    → core (suc (length ys)) ((g ∷ xs) ++ ys) cid
      ≡ as_coord (suc (length ys)) (places (product (g ∷ xs) ∷ ys) cid)
unfolding core
core-merged g xs ys cid = ap (λ r. bind_ok r (as_coord (suc (length ys)))) (merged xs)
  where
    both :
        (zs : List ℕ)
        → all_coords ((g ∷ zs) ++ ys) cid ≡ places (g ∷ zs) (cid / product ys) ++ places ys cid
    both zs = all_coords-places ((g ∷ zs) ++ ys) cid ∙ places-append (g ∷ zs) ys cid

    size : length (places ys cid) ≡ length ys
    size = length-places ys cid

    merged :
        (zs : List ℕ)
        → core_dims (suc (length ys)) ((g ∷ zs) ++ ys) (all_coords ((g ∷ zs) ++ ys) cid)
          ≡ ok (places (product (g ∷ zs) ∷ ys) cid)
    merged [] =
        ap (λ k. core_dims (suc (length ys)) (g ∷ ys) k) (both [])
        ∙ ap (λ n. core_dims (suc n) (g ∷ ys) (cid / product ys / 1 % g ∷ places ys cid)) (sym size)
        ∙ core_dims-exact (g ∷ ys) (cid / product ys / 1 % g ∷ places ys cid)
        ∙ ap₂ (λ k m. ok (k % m ∷ places ys cid)) (div-one (cid / product ys)) (sym (mul-one g))
    merged (z ∷ zs) =
        ap₂ (λ n r. core_dims (suc n) ((g ∷ z ∷ zs) ++ ys) r) (sym size) (both (z ∷ zs))
        ∙ core_dims-fewer ((g ∷ z ∷ zs) ++ ys) (places (g ∷ z ∷ zs) (cid / product ys))
            (places ys cid) (omega (arith, length-places (g ∷ z ∷ zs) (cid / product ys)))
        ∙ ap (λ r. bind_ok r (λ f. ok (f ∷ places ys cid)))
            (flatten_coords-places g (z ∷ zs) ys (cid / product ys))

as_coord-many :
    (n c : ℕ) (cs : List ℕ) → as_coord (suc (suc n)) (c ∷ cs) ≡ ok (CoreCoord.tuple (c ∷ cs))
as_coord-many n c cs = ground arith

-- For a core of the grid, `core` in one dimension gives its number, and flattening its coordinates
-- in all dimensions of the grid gives the number back.
pub core_round_trip :
    (g : ℕ) (grid : List ℕ) (cid : ℕ)
    → cid < product (g ∷ grid)
    → (core 1 (g ∷ grid) cid ≡ ok (CoreCoord.index cid))
      × (bind_ok (core (length (g ∷ grid)) (g ∷ grid) cid) (flatten_core_index (g ∷ grid)) ≡ ok cid)
unfolding flatten_core_index
core_round_trip g grid cid h = (flat grid h, back grid h)
  where
    flat : (xs : List ℕ) → cid < product (g ∷ xs) → core 1 (g ∷ xs) cid ≡ ok (CoreCoord.index cid)
    flat xs l =
        ap (λ r. core 1 (g ∷ r) cid) (sym (append-nil xs))
        ∙ core-merged g xs [] cid
        ∙ ap (λ k. ok (CoreCoord.index k))
            (ap (λ k. k % product (g ∷ xs)) (div-one cid) ∙ mod-eq_of_lt l)

    back :
        (xs : List ℕ)
        → cid < product (g ∷ xs)
        → bind_ok (core (length (g ∷ xs)) (g ∷ xs) cid) (flatten_core_index (g ∷ xs)) ≡ ok cid
    back [] l = rw (flat [] l) refl
    back (x ∷ xs) l =
        ap (λ r. bind_ok r (flatten_core_index (g ∷ x ∷ xs))) (core-merged g [] (x ∷ xs) cid)
        ∙ ap (λ r. bind_ok r (flatten_core_index (g ∷ x ∷ xs)))
            (as_coord-many (length xs) (cid / product (x ∷ xs) % (g * 1)) (places (x ∷ xs) cid))
        ∙ ap (λ k. flatten_coords (g ∷ x ∷ xs) (places (k ∷ x ∷ xs) cid)) (mul-one g)
        ∙ flatten_from-places (x ∷ xs) (cid / product (x ∷ xs) % g) cid
        ∙ ap ok (sym (mod-mul cid g (product (x ∷ xs))) ∙ mod-eq_of_lt l)
