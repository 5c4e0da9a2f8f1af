-- ===== src/Math/Tests.antt =====
-- The reductions at a concrete grid of numbers, which stand for tiles.
use tt_lang.Prelude.{
  ℕ, ◌+◌, ◌*◌, ◌≡◌, refl, [], ◌∷◌, map, drop, count_up, some, raise, value_error, rows, true, false,
  ok,
}
use tt_lang.Math.Reduce.{reduce_grid, fold_from, check_ones, check_dims, given_dims}
use tt_lang.Math.Reduced.{reduce_grid-combines}

-- Two rows of three.
abbrev numbers : ℕ → ℕ → ℕ
numbers i j = 10 * i + j

column_sums : reduce_grid ◌+◌ ◌*◌ 2 true false 2 3 (rows numbers 2 3) ≡ ok (20 ∷ 24 ∷ 28 ∷ [])
unfolding reduce_grid
column_sums = refl

reduce_grid-combines_example :
    (reduce_grid ◌+◌ ◌*◌ 2 true false 2 3 (map (λ (k : ℕ). k + 1) (rows numbers 2 3))
      ≡ ok
          (rows (λ _ j. fold_from ◌+◌ (j + 1) (map (λ i. numbers i j + 1) (count_up 1 1)) * 2) 1 3))
    × (reduce_grid ◌+◌ ◌*◌ 2 false true 2 3 (map (λ (k : ℕ). k + 1) (rows numbers 2 3))
        ≡ ok (
            rows
              (λ i _.
                fold_from ◌+◌ (numbers i 0 + 1) (map (λ j. numbers i j + 1) (count_up 1 2)) * 2)
              2
              1))
    × (reduce_grid ◌+◌ ◌*◌ 2 true true 2 3 (map (λ (k : ℕ). k + 1) (rows numbers 2 3))
        ≡ ok (fold_from ◌+◌ 1 (drop 1 (rows (λ i j. numbers i j + 1) 2 3)) * 2 ∷ []))
reduce_grid-combines_example = reduce_grid-combines ◌+◌ ◌*◌ 2 (λ (k : ℕ). k + 1) numbers 1 2

no_dims : given_dims (some []) ≡ raise value_error
no_dims = refl

third_dim : check_dims (0 ∷ 2 ∷ []) ≡ raise value_error
third_dim = refl

not_of_one : check_ones (0 ∷ []) (2 ∷ 1 ∷ []) ≡ raise value_error
not_of_one = refl
