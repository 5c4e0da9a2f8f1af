-- ===== src/Block/Products.antt =====
-- The tiles of a product of two blocks.
use tt_lang.Prelude.{
  ℕ, zero, suc, ◌+◌, ◌≤◌, ◌<◌, ◌≡◌, refl, ap, ◌∙◌, List, [], ◌∷◌, ◌++◌, map, rows, count_up,
  concat_map, get_elem?, get_elem?-rows, Option, none, some, ok, Exec, ◌>>=◌, >>=-ok, ==_refl,
  arith,
}
use tt_lang.Block.Slots.{to_list}
use tt_lang.Block.Store.{Heap, Cell, found, tracked, block_at, on_slots}
use tt_lang.Block.Operators.{
  plus_partial, dot, matmul_row, matmul_rows, matmul_dims, matmul, new_temporary, lift,
}

module _ {A : Type 0} (times plus : A → A → A) where
  -- f 0 + f 1 + ... + f n, added up from the left.
  abbrev pub sum_to : (ℕ → A) → ℕ → A
  sum_to f zero = f 0
  sum_to f (suc n) = plus (sum_to f n) (f (suc n))

  -- Blocks of `m` rows of `suc inner` tiles, and `suc inner` rows of `width` tiles.
  module _ (a b : ℕ → ℕ → A) (m inner width : ℕ) where
    abbrev pub product_tile : ℕ → ℕ → A
    product_tile i j = sum_to (λ k. times (a i k) (b k j)) inner

    left : List A
    left = rows a m (suc inner)

    right : List A
    right = rows b (suc inner) width

    dot-step :
        (i j k n : ℕ) (acc : Option A)
        → i < m
        → j < width
        → k < suc inner
        → dot times plus left right (suc inner) width i j k (suc n) acc
          ≡ dot times plus left right
              (suc inner)
              width
              i
              j
              (suc k)
              n
              (some (plus_partial times plus acc (times (a i k) (b k j))))
    unfolding left right
    dot-step i j k n acc hi hj hk =
        rw (get_elem?-rows a m (suc inner) i k hi hk, get_elem?-rows b (suc inner) width k j hk hj)
          refl

    dot-rest :
        (i j k n : ℕ)
        → i < m
        → j < width
        → k + n ≡ inner
        → dot times plus left right
            (suc inner)
            width
            i
            j
            (suc k)
            n
            (some (sum_to (λ k. times (a i k) (b k j)) k))
          ≡ ok (some (product_tile i j))
    dot-rest i j k zero hi hj e =
        ap (λ l. ok (some (sum_to (λ k. times (a i k) (b k j)) l))) (omega arith)
    dot-rest i j k (suc n) hi hj e =
        dot-step i j (suc k) n (some (sum_to (λ k. times (a i k) (b k j)) k)) hi hj (omega arith)
        ∙ dot-rest i j (suc k) n hi hj (omega arith)

    dot-sum :
        (i j : ℕ)
        → i < m
        → j < width
        → dot times plus left right (suc inner) width i j 0 (suc inner) none
          ≡ ok (some (product_tile i j))
    dot-sum i j hi hj =
        dot-step i j 0 inner none hi hj (omega arith) ∙ dot-rest i j 0 inner hi hj (omega arith)

    row-tiles :
        (i j n : ℕ)
        → i < m
        → j + n ≤ width
        → matmul_row times plus left right (suc inner) width i j n
          ≡ ok (map (product_tile i) (count_up j n))
    row-tiles i j zero hi h = refl
    row-tiles i j (suc n) hi h =
        rw (dot-sum i j hi (omega arith), row-tiles i (suc j) n hi (omega arith)) refl

    rows-tiles :
        (i n : ℕ)
        → i + n ≤ m
        → matmul_rows times plus left right (suc inner) width i n
          ≡ ok (concat_map (λ i. map (product_tile i) (count_up 0 width)) (count_up i n))
    rows-tiles i zero h = refl
    rows-tiles i (suc n) h =
        rw (row-tiles i 0 width (omega arith) (omega arith), rows-tiles (suc i) n (omega arith))
          refl

  matmul_rows-product :
      (a b : ℕ → ℕ → A) (m inner width : ℕ)
      → matmul_rows times plus
          (rows a m (suc inner))
          (rows b (suc inner) width)
          (suc inner)
          width
          0
          m
        ≡ ok (rows (product_tile a b m inner width) m width)
  unfolding left right
  matmul_rows-product a b m inner width = rows-tiles a b m inner width 0 m (omega arith)

  -- The product of two blocks that can be read, of `m` rows of tiles and of as many rows as those have
  -- columns, at least one, is a new block. Its tiles are, row by row, the sums of the products of a row
  -- of the left block with a column of the right one, and its sources are those of both blocks.
  pub matmul-product :
      (a b : ℕ → ℕ → A) (m inner width r r' : ℕ) (h : Heap A) (c c' : Cell)
      → get_elem? h.cells r ≡ some c
      → get_elem? h.cells r' ≡ some c'
      → c.block.shape ≡ m ∷ suc inner ∷ []
      → c'.block.shape ≡ suc inner ∷ width ∷ []
      → on_slots r to_list h ≡ (ok (rows a m (suc inner)), h)
      → on_slots r' to_list h ≡ (ok (rows b (suc inner) width), h)
      → matmul times plus r r' h
        ≡ new_temporary
            (rows (product_tile a b m inner width) m width)
            (m ∷ width ∷ [])
            (tracked r c.block ++ tracked r' c'.block)
            h
  unfolding matmul block_at
  matmul-product a b m inner width r r' h c c' e e' s s' l l' =
      let sources : List ℕ = tracked r c.block ++ tracked r' c'.block in
      let as' : List A = rows a m (suc inner) in
      let times_all : Cell → Cell → Exec (Heap A) ℕ = λ c c'.
        lift (matmul_dims times plus c.block.shape c'.block.shape) >>= λ dims.
        on_slots r to_list >>= λ as'. on_slots r' to_list >>= λ bs.
        lift (matmul_rows times plus as' bs dims.1 dims.2 0 dims.0) >>= λ tiles.
        new_temporary tiles (dims.0 ∷ dims.2 ∷ []) (tracked r c.block ++ tracked r' c'.block) in
      let dims : matmul_dims times plus c.block.shape c'.block.shape ≡ ok (m, suc inner, width) =
        rw (s, s', ==_refl (suc inner)) refl in
      let multiply : List A → Exec (Heap A) ℕ = λ bs.
        lift (matmul_rows times plus as' bs (suc inner) width 0 m) >>= λ tiles.
        new_temporary tiles (m ∷ width ∷ []) sources in
      >>=-ok (block_at r) (λ c. block_at r' >>= λ c'. times_all c c') h (ap (λ o. (found o, h)) e)
      ∙ >>=-ok (block_at r') (λ c'. times_all c c') h (ap (λ o. (found o, h)) e')
      ∙ >>=-ok (lift (matmul_dims times plus c.block.shape c'.block.shape))
          (λ dims. on_slots r to_list >>= λ as'. on_slots r' to_list >>= λ bs.
            lift (matmul_rows times plus as' bs dims.1 dims.2 0 dims.0) >>= λ tiles.
            new_temporary tiles (dims.0 ∷ dims.2 ∷ []) sources)
          h (ap (λ o. (o, h)) dims)
      ∙ >>=-ok (on_slots r to_list)
          (λ as'. on_slots r' to_list >>= λ bs.
            lift (matmul_rows times plus as' bs (suc inner) width 0 m) >>= λ tiles.
            new_temporary tiles (m ∷ width ∷ []) sources)
          h l
      ∙ >>=-ok (on_slots r' to_list) multiply h l'
      ∙ >>=-ok (lift (matmul_rows times plus as' (rows b (suc inner) width) (suc inner) width 0 m))
          (λ tiles. new_temporary tiles (m ∷ width ∷ []) sources) h
          (ap (λ o. (o, h)) (matmul_rows-product a b m inner width))
