-- ===== src/Prelude/Grids.antt =====
-- Lists that a nested loop writes, and where its elements stand.
use native.Mathlib.Nat.{div-add-mod', mod-lt, div-lt_iff_lt-mul}
use Prim.Native.Nat.{ℕ, zero, suc, ◌+◌, ◌*◌, ◌/◌, ◌%◌, ◌<◌}
use mathlib.Core.Path.{◌≡◌, refl, ap, ap₂, sym, ◌∙◌}
use mathlib.Core.List.{List, [], ◌∷◌, ◌++◌, map}
use mathlib.Core.Option.{some}
use native.Mathlib.Omega.{arith}
use tt_lang.Prelude.Lists.{
  length, get_elem?, count_up, concat_map, length-map, length-count_up, length-concat_map,
}

module _ {ℓ} {A : Type ℓ} where
  pub get_elem?-append_left :
      (xs ys : List A) (i : ℕ) → i < length xs → get_elem? (xs ++ ys) i ≡ get_elem? xs i
  get_elem?-append_left [] ys i h = absurd (omega arith)
  get_elem?-append_left (x ∷ xs) ys zero h = refl
  get_elem?-append_left (x ∷ xs) ys (suc i) h = get_elem?-append_left xs ys i (omega arith)

  pub get_elem?-append_right :
      (xs ys : List A) (i : ℕ) → get_elem? (xs ++ ys) (length xs + i) ≡ get_elem? ys i
  get_elem?-append_right [] ys i = ap (get_elem? ys) (omega arith)
  get_elem?-append_right (x ∷ xs) ys i =
      ap (get_elem? (x ∷ (xs ++ ys))) (suc_add (length xs)) ∙ get_elem?-append_right xs ys i
    where
      suc_add : (n : ℕ) → suc n + i ≡ suc (n + i)
      suc_add n = omega arith

  pub get_elem?-count_up :
      (f : ℕ → A) (start n i : ℕ)
      → i < n
      → get_elem? (map f (count_up start n)) i ≡ some (f (start + i))
  get_elem?-count_up f start zero i h = absurd (omega arith)
  get_elem?-count_up f start (suc n) zero h = ap (λ k. some (f k)) (omega arith)
  get_elem?-count_up f start (suc n) (suc i) h =
      get_elem?-count_up f (suc start) n i (omega arith) ∙ ap (λ k. some (f k)) (omega arith)

  pub get_elem?-concat_map :
      (f : ℕ → List A) (w : ℕ)
      → ((y : ℕ) → length (f y) ≡ w)
      → (start h y r : ℕ) → y < h
      → r < w
      → get_elem? (concat_map f (count_up start h)) (y * w + r) ≡ get_elem? (f (start + y)) r
  get_elem?-concat_map f w e start zero y r l k = absurd (omega arith)
  get_elem?-concat_map f w e start (suc h) zero r l k =
      let width = e start in
      ap (get_elem? (f start ++ concat_map f (count_up (suc start) h))) (omega arith)
      ∙ get_elem?-append_left (f start) (concat_map f (count_up (suc start) h)) r (omega arith)
      ∙ ap (λ s. get_elem? (f s) r) (omega arith)
  get_elem?-concat_map f w e start (suc h) (suc y) r l k =
      ap (get_elem? (f start ++ concat_map f (count_up (suc start) h)))
        (expand y ∙ ap (λ v. v + (y * w + r)) (sym (e start)))
      ∙ get_elem?-append_right (f start) (concat_map f (count_up (suc start) h)) (y * w + r)
      ∙ get_elem?-concat_map f w e (suc start) h y r (omega arith) k
      ∙ ap (λ s. get_elem? (f s) r) (omega arith)
    where
      expand : (y : ℕ) → suc y * w + r ≡ w + (y * w + r)
      expand y = omega arith

  -- The loop `for y in range(h): for x in range(w)`.
  abbrev pub rows : (ℕ → ℕ → A) → ℕ → ℕ → List A
  rows f h w = concat_map (λ y. map (f y) (count_up 0 w)) (count_up 0 h)

  row_length : (f : ℕ → ℕ → A) (w y : ℕ) → length (map (f y) (count_up 0 w)) ≡ w
  row_length f w y = length-map (f y) (count_up 0 w) ∙ length-count_up 0 w

  pub length-rows : (f : ℕ → ℕ → A) (h w : ℕ) → length (rows f h w) ≡ h * w
  length-rows f h w =
      length-concat_map (λ y. map (f y) (count_up 0 w)) w (count_up 0 h) (row_length f w)
      ∙ ap (λ n. n * w) (length-count_up 0 h)

  pub get_elem?-rows :
      (f : ℕ → ℕ → A) (h w y x : ℕ)
      → y < h
      → x < w
      → get_elem? (rows f h w) (y * w + x) ≡ some (f y x)
  get_elem?-rows f h w y x k l =
      get_elem?-concat_map (λ y. map (f y) (count_up 0 w)) w (row_length f w) 0 h y x k l
      ∙ get_elem?-count_up (f (0 + y)) 0 w x l
      ∙ ap₂ (λ i j. some (f i j)) (omega arith) (omega arith)

  -- The element of number `i` is the one of row `i / w` and column `i % w`.
  pub get_elem?-rows_at :
      (f : ℕ → ℕ → A) (h w i : ℕ)
      → i < h * w
      → 0 < w
      → get_elem? (rows f h w) i ≡ some (f (i / w) (i % w))
  get_elem?-rows_at f h w i k l =
      ap (get_elem? (rows f h w)) (sym (div-add-mod' i w))
      ∙ get_elem?-rows f h w (i / w) (i % w) ((div-lt_iff_lt-mul l).1 k) (mod-lt i l)
