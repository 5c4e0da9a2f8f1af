-- ===== src/CoreContext/Grid.antt =====
-- The size of the grid in another number of dimensions.
use native.Mathlib.Nat.{mul-one}
use tt_lang.Prelude.{
  ℕ, zero, suc, ◌-◌, ◌*◌, ◌≡◌, refl, ap, ◌∙◌, inl, inr, List, [], ◌∷◌, Bool-cases, ltb, ◌==◌, take,
  drop, replicate, length, product, product-append, arith,
}
use tt_lang.CoreContext.{grid_dims}

take-drop-product : (n : ℕ) (xs : List ℕ) → product (take n xs) * product (drop n xs) ≡ product xs
take-drop-product zero xs = omega arith
take-drop-product (suc n) [] = refl
take-drop-product (suc n) (x ∷ xs) =
    let p : ℕ = product (take n xs) in
    let q : ℕ = product (drop n xs) in
    let e : x * p * q ≡ x * (p * q) = omega arith in e ∙ ap (λ k. x * k) (take-drop-product n xs)

product-replicate : (n : ℕ) → product (replicate n 1) ≡ 1
product-replicate zero = refl
product-replicate (suc n) = omega (arith, product-replicate n)

-- In any number of dimensions, the sizes that `grid_size` makes of a grid multiply to the number of
-- its cores.
product-grid_dims : (dims : ℕ) (grid : List ℕ) → product (grid_dims dims grid) ≡ product grid
product-grid_dims dims grid = elim (Bool-cases (dims == length grid)) [
  | inl e ↦ rw e refl
  | inr e ↦ elim (Bool-cases (ltb dims (length grid))) [
    | inl l ↦
        rw (e, l)
          (product-append (take (dims - 1) grid) (product (drop (dims - 1) grid) ∷ [])
            ∙ ap (λ k. product (take (dims - 1) grid) * k)
                (mul-one (product (drop (dims - 1) grid)))
            ∙ take-drop-product (dims - 1) grid)
    | inr l ↦
        rw (e, l)
          (product-append grid (replicate (dims - length grid) 1)
            ∙ ap (λ k. product grid * k) (product-replicate (dims - length grid))
            ∙ mul-one (product grid))
  ]
]
