-- ===== src/Math/Transpose.antt =====
-- Transposing a grid of tiles.
use tt_lang.Prelude.{
  ℕ, zero, suc, ◌+◌, ◌*◌, ◌≤◌, ◌<◌, ◌≡◌, refl, ap, ap₂, ◌∙◌, List, [], ◌∷◌, ◌++◌, map, rows,
  count_up, concat_map, get_elem?, get_elem?-rows, Outcome, ok, raise, bind_ok, bind_ok-eq-ok,
  ok-injective, arith,
}
use tt_lang.Block.Store.{found}
use tt_lang.Math.{gather, transpose_tiles}
use mathlib.Core.List.{map-append}

module _ {A : Type 0} where
  gather-append :
      (os ps : List (Outcome A)) {as' bs : List A}
      → gather os ≡ ok as'
      → gather ps ≡ ok bs
      → gather (os ++ ps) ≡ ok (as' ++ bs)
  gather-append [] ps {bs = bs} e f = f ∙ ap (λ u. ok (u ++ bs)) (ok-injective e)
  gather-append (ok a ∷ os) ps {bs = bs} e f =
      let (rest, e₁, e₂) = bind_ok-eq-ok (gather os) (λ rest. ok (a ∷ rest)) e in
      ap (λ o. bind_ok o (λ rest. ok (a ∷ rest))) (gather-append os ps e₁ f)
      ∙ ap (λ u. ok (u ++ bs)) (ok-injective e₂)
  gather-append (raise x ∷ os) ps e f = absurd (cc)

  module _ (f : ℕ → ℕ → Outcome A) (g : ℕ → ℕ → A) (h w : ℕ)
      (same : (y x : ℕ) → y < h → x < w → f y x ≡ ok (g y x)) where
    pub gather-row :
        (y x n : ℕ)
        → y < h
        → x + n ≤ w
        → gather (map (f y) (count_up x n)) ≡ ok (map (g y) (count_up x n))
    gather-row y x zero l k = refl
    gather-row y x (suc n) l k =
        rw (same y x l (omega arith), gather-row y (suc x) n l (omega arith)) refl

    gather-rest :
        (y n : ℕ)
        → y + n ≤ h
        → gather (concat_map (λ y. map (f y) (count_up 0 w)) (count_up y n))
          ≡ ok (concat_map (λ y. map (g y) (count_up 0 w)) (count_up y n))
    gather-rest y zero k = refl
    gather-rest y (suc n) k =
        gather-append (map (f y) (count_up 0 w)) _ (gather-row y 0 w (omega arith) (omega arith))
          (gather-rest (suc y) n (omega arith))

    pub gather-rows : gather (rows f h w) ≡ ok (rows g h w)
    gather-rows = gather-rest 0 h (omega arith)

  pub map-rows :
      {B : Type 0} (k : A → B) (f : ℕ → ℕ → A) (h w : ℕ)
      → map k (rows f h w) ≡ rows (λ y x. k (f y x)) h w
  map-rows k f h w = rest (count_up 0 h)
    where
      row : (y : ℕ) (xs : List ℕ) → map k (map (f y) xs) ≡ map (λ x. k (f y x)) xs
      row y [] = refl
      row y (x ∷ xs) = ap (λ r. k (f y x) ∷ r) (row y xs)

      rest :
          (ys : List ℕ)
          → map k (concat_map (λ y. map (f y) (count_up 0 w)) ys)
            ≡ concat_map (λ y. map (λ x. k (f y x)) (count_up 0 w)) ys
      rest [] = refl
      rest (y ∷ ys) =
          map-append k (map (f y) (count_up 0 w)) _
          ∙ ap₂ (λ u v. u ++ v) (row y (count_up 0 w)) (rest ys)

  transpose_tiles-rows :
      (flip : A → A) (a : ℕ → ℕ → A) (m n : ℕ)
      → transpose_tiles flip m n (rows a m n) ≡ ok (rows (λ j i. flip (a i j)) n m)
  unfolding transpose_tiles
  transpose_tiles-rows flip a m n =
      gather-rows _ (λ j i. flip (a i j)) n m
        λ j i l k.
          ap (λ ts. found (get_elem? ts (i * n + j))) (map-rows flip a m n)
          ∙ ap found (get_elem?-rows (λ y x. flip (a y x)) m n i j k l)

  -- The tile of row `i` and column `j` is turned and goes to row `j` and column `i`; if turning a tile
  -- twice gives it back, transposing a grid of tiles twice gives it back.
  transpose_tiles-twice :
      (flip : A → A) (a : ℕ → ℕ → A) (m n : ℕ)
      → ((v : A) → flip (flip v) ≡ v)
      → (transpose_tiles flip m n (rows a m n) ≡ ok (rows (λ j i. flip (a i j)) n m))
        × (bind_ok (transpose_tiles flip m n (rows a m n)) (transpose_tiles flip n m)
            ≡ ok (rows a m n))
  transpose_tiles-twice flip a m n back =
      let once = transpose_tiles-rows flip a m n in
      (
        once,
        ap (λ o. bind_ok o (transpose_tiles flip n m)) once
            ∙ transpose_tiles-rows flip (λ j i. flip (a i j)) n m
            ∙ ap (λ f. ok (rows f m n)) (λ t i j. back (a i j) t),
      )
