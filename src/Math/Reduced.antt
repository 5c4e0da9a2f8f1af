-- ===== src/Math/Reduced.antt =====
-- python/sim/math.py: which tiles a reduction of a grid combines.
use tt_lang.Prelude.{
  ℕ, zero, suc, ◌+◌, ◌*◌, ◌≤◌, ◌<◌, ◌≡◌, refl, ap, ◌∙◌, List, [], ◌∷◌, map, rows, count_up,
  concat_map, drop, get_elem?, get_elem?-rows, Bool, true, false, ◌&&◌, ◌||◌, if◌then◌else◌, ◌==◌,
  Outcome, ok, bind_ok, arith, Bool-cases, inl, inr, ==→eq,
}
use mathlib.Core.List.{append-nil}
use tt_lang.Block.Store.{found}
use tt_lang.Math.{gather}
use tt_lang.Math.Transpose.{gather-rows, gather-row, map-rows}
use tt_lang.Math.Reduce.{fold_from, fold_tiles, tiles_for, reduce_grid}

-- A loop whose test picks one round.
module _ {B : Type 0} (f : ℕ → List B) (r : ℕ) where
  loop-none :
      (start n : ℕ)
      → r < start
      → concat_map (λ i. if i == r then f i else []) (count_up start n) ≡ []
  loop-none start zero h = refl
  loop-none start (suc n) h =
      let e : (start == r) ≡ false = ground arith in
      rw (e, loop-none (suc start) n (omega arith)) refl

  loop-one :
      (start n : ℕ)
      → start ≤ r
      → r < start + n
      → concat_map (λ i. if i == r then f i else []) (count_up start n) ≡ f r
  loop-one start zero h k = absurd (omega arith)
  loop-one start (suc n) h k = elim (Bool-cases (start == r)) [
    | inl e ↦
        let e' : start ≡ r = ==→eq start r e in
        rw (e, loop-none (suc start) n (omega arith), append-nil) (ap f e')
    | inr e ↦ rw e (loop-one (suc start) n (ground arith) (omega arith))
  ]

loop-each {ℓ} : {B : Type ℓ} (f : ℕ → B) (xs : List ℕ) → concat_map (λ i. f i ∷ []) xs ≡ map f xs
loop-each f [] = refl
loop-each f (x ∷ xs) = ap (λ r. f x ∷ r) (loop-each f xs)

loop-guarded :
    {B : Type 0} (b : Bool) (f : ℕ → B) (xs : List ℕ)
    → concat_map (λ j. if b && true then f j ∷ [] else []) xs ≡ (if b then map f xs else [])
loop-guarded true f xs = loop-each f xs
loop-guarded false f [] = refl
loop-guarded false f (x ∷ xs) = loop-guarded false f xs

module _ {A : Type 0} (g : ℕ → ℕ → Outcome A) (m n : ℕ) where
  -- The tiles that the two loops append, for each pair of dimensions that is reduced.
  abbrev appended : Bool → Bool → ℕ → ℕ → List (Outcome A)
  appended in0 in1 res_i res_j =
      concat_map
        (λ i.
          concat_map (λ j. if (in0 || i == res_i) && (in1 || j == res_j) then g i j ∷ [] else [])
            (count_up 0 n))
        (count_up 0 m)

  appended-all : (res_i res_j : ℕ) → appended true true res_i res_j ≡ rows g m n
  appended-all res_i res_j =
      ap (λ (f : ℕ → List (Outcome A)). concat_map f (count_up 0 m))
        (λ t i. loop-each (g i) (count_up 0 n) t)

  appended-column :
      (res_i res_j : ℕ)
      → res_j < n
      → appended true false res_i res_j ≡ map (λ i. g i res_j) (count_up 0 m)
  appended-column res_i res_j h =
      ap (λ (f : ℕ → List (Outcome A)). concat_map f (count_up 0 m))
        (λ t i. loop-one (λ j. g i j ∷ []) res_j 0 n (omega arith) (omega arith) t)
      ∙ loop-each (λ i. g i res_j) (count_up 0 m)

  appended-row :
      (res_i res_j : ℕ) → res_i < m → appended false true res_i res_j ≡ map (g res_i) (count_up 0 n)
  appended-row res_i res_j h =
      ap (λ (f : ℕ → List (Outcome A)). concat_map f (count_up 0 m))
        (λ t i. loop-guarded (i == res_i) (g i) (count_up 0 n) t)
      ∙ loop-one (λ i. map (g i) (count_up 0 n)) res_i 0 m (omega arith) (omega arith)

module _ {A : Type 0} (f : A → A) (a : ℕ → ℕ → A) (m n : ℕ) where
  -- The tiles that step 1 makes of a grid.
  abbrev tiles : List A
  tiles = map f (rows a m n)

  abbrev found_at : ℕ → ℕ → Outcome A
  found_at i j = found (get_elem? tiles (i * n + j))

  found_at-lem : (i j : ℕ) → i < m → j < n → found_at i j ≡ ok (f (a i j))
  found_at-lem i j h k =
      ap (λ ts. found (get_elem? ts (i * n + j))) (map-rows f a m n)
      ∙ ap found (get_elem?-rows (λ y x. f (a y x)) m n i j h k)

  tiles_for-all :
      (res_i res_j : ℕ)
      → tiles_for true true m n tiles res_i res_j ≡ ok (rows (λ i j. f (a i j)) m n)
  unfolding tiles_for
  tiles_for-all res_i res_j =
      ap gather (appended-all found_at m n res_i res_j)
      ∙ gather-rows found_at (λ i j. f (a i j)) m n found_at-lem

  tiles_for-column :
      (res_i res_j : ℕ)
      → res_j < n
      → tiles_for true false m n tiles res_i res_j ≡ ok (map (λ i. f (a i res_j)) (count_up 0 m))
  unfolding tiles_for
  tiles_for-column res_i res_j h =
      ap gather (appended-column found_at m n res_i res_j h)
      ∙ gather-row (λ j i. found_at i j) (λ j i. f (a i j)) n m (λ j i k l. found_at-lem i j l k)
          res_j 0 m h (omega arith)

  tiles_for-row :
      (res_i res_j : ℕ)
      → res_i < m
      → tiles_for false true m n tiles res_i res_j ≡ ok (map (λ j. f (a res_i j)) (count_up 0 n))
  unfolding tiles_for
  tiles_for-row res_i res_j h =
      ap gather (appended-row found_at m n res_i res_j h)
      ∙ gather-row found_at (λ i j. f (a i j)) m n found_at-lem res_i 0 n h (omega arith)

-- A grid of `m + 1` rows and `n + 1` columns, whose tiles `f` has reduced: with 0 in `dims` the result
-- is one row, in which each tile combines those of its column from the top down; with 1 it is one
-- column, in which each tile combines those of its row from the left; with both it is one tile, which
-- combines all of them row by row. Each combination is scaled at its end.
pub reduce_grid-combines :
    {A : Type 0} (combine times : A → A → A) (scaler : A) (f : A → A) (a : ℕ → ℕ → A) (m n : ℕ)
    → (reduce_grid combine times scaler true false (suc m) (suc n) (map f (rows a (suc m) (suc n)))
        ≡ ok (
            rows
              (λ _ j.
                times (fold_from combine (f (a 0 j)) (map (λ i. f (a i j)) (count_up 1 m))) scaler)
              1
              (suc n)))
      × (reduce_grid combine times scaler false true
            (suc m)
            (suc n)
            (map f (rows a (suc m) (suc n)))
          ≡ ok (
              rows
                (λ i _.
                  times
                    (fold_from combine (f (a i 0)) (map (λ j. f (a i j)) (count_up 1 n)))
                    scaler)
                (suc m)
                1))
      × (reduce_grid combine times scaler true true (suc m) (suc n) (map f (rows a (suc m) (suc n)))
          ≡ ok (
              times
                (fold_from combine (f (a 0 0)) (drop 1 (rows (λ i j. f (a i j)) (suc m) (suc n))))
                scaler
              ∷ []))
unfolding reduce_grid
reduce_grid-combines {A} combine times scaler f a m n =
    let scaled : List A → Outcome A =
      λ ts. bind_ok (fold_tiles combine ts) λ t. ok (times t scaler) in
    (
      gather-rows _ _ 1 (suc n)
          (λ i j h k. ap (λ o. bind_ok o scaled) (tiles_for-column f a (suc m) (suc n) i j k)),
      gather-rows _ _ (suc m) 1
          (λ i j h k. ap (λ o. bind_ok o scaled) (tiles_for-row f a (suc m) (suc n) i j h)),
      gather-rows _
          (λ _ _.
            times (fold_from combine (f (a 0 0)) (drop 1 (rows (λ i j. f (a i j)) (suc m) (suc n))))
              scaler)
          1 1 (λ i j h k. ap (λ o. bind_ok o scaled) (tiles_for-all f a (suc m) (suc n) i j)),
    )
