-- ===== src/Copy/Tiles.antt =====
-- The tiles that a copy moves, and where they go.
use native.Mathlib.Nat.{mul-add-div_right, mul-add-mod_self_right, div-eq_of_lt, mod-eq_of_lt}
use mathlib.Core.List.{map-append}
use tt_lang.Prelude.{
  pos, ℕ, zero, suc, ◌+◌, ◌*◌, ◌/◌, ◌%◌, ◌≤◌, ◌<◌, ◌≡◌, refl, ap, ap₂, sym, ◌∙◌, [], ◌∷◌, ◌++◌, map,
  length, product, rows, concat_map, count_up, length-rows, none, some, true, ok, arith,
}
use tt_lang.Block.{Block}
use tt_lang.Block.Slots.{Slots}
use tt_lang.Block.Windows.{copy_as_dest-window}
use tt_lang.DfbState.Window.{window}
use tt_lang.Tensor.{
  Torch, tile_size, tiles_along, is_aligned, ensure_accessor, tensor_get, get_tiles,
}
use tt_lang.Copy.{tile_at, tiles_from, read_tiles, tensor_to_block}

module _ {ℓ} {A : Type ℓ} (f : ℕ → ℕ → A) (w : ℕ) where
  abbrev numbered : ℕ → A
  numbered i = f (i / w) (i % w)

  numbered-row :
      (y x n : ℕ) → x + n ≤ w → map numbered (count_up (y * w + x) n) ≡ map (f y) (count_up x n)
  numbered-row y x zero h = refl
  numbered-row y x (suc n) h =
      let less : x < w = omega arith in
      let row : (y * w + x) / w ≡ y =
        mul-add-div_right (omega arith) y x ∙ ap (λ k. y + k) (div-eq_of_lt less) ∙ omega arith in
      let column : (y * w + x) % w ≡ x = mul-add-mod_self_right y w x ∙ mod-eq_of_lt less in
      let later : suc (y * w + x) ≡ y * w + suc x = omega arith in
      ap₂ (λ a as'. a ∷ as') (ap₂ f row column)
        (ap (λ k. map numbered (count_up k n)) later ∙ numbered-row y (suc x) n (omega arith))

  count_up-add : (s m n : ℕ) → count_up s (m + n) ≡ count_up s m ++ count_up (s + m) n
  count_up-add s zero n = ap₂ count_up (omega arith) (omega arith)
  count_up-add s (suc m) n =
      let e : suc m + n ≡ suc (m + n) = omega arith in
      let e' : suc s + m ≡ s + suc m = omega arith in
      ap (count_up s) e
      ∙ ap (λ r. s ∷ r) (count_up-add (suc s) m n ∙ ap (λ k. count_up (suc s) m ++ count_up k n) e')

  numbered_from :
      (y h : ℕ)
      → map numbered (count_up (y * w) (h * w))
        ≡ concat_map (λ y. map (f y) (count_up 0 w)) (count_up y h)
  numbered_from y zero =
      let none_left : 0 * w ≡ 0 = omega arith in
      ap (λ n. map numbered (count_up (y * w) n)) none_left
  numbered_from y (suc h) =
      let e : suc h * w ≡ w + h * w = omega arith in
      let e' : y * w + w ≡ suc y * w = omega arith in
      let e'' : y * w ≡ y * w + 0 = omega arith in
      ap (λ n. map numbered (count_up (y * w) n)) e
      ∙ ap (map numbered) (count_up-add (y * w) w (h * w))
      ∙ map-append numbered (count_up (y * w) w) (count_up (y * w + w) (h * w))
      ∙ ap₂ (λ u v. u ++ v)
          (ap (λ k. map numbered (count_up k w)) e'' ∙ numbered-row y 0 w (omega arith))
          (ap (λ k. map numbered (count_up k (h * w))) e' ∙ numbered_from (suc y) h)

  -- The loop over tile numbers goes through the tiles row by row.
  pub numbered-rows : (h : ℕ) → map numbered (count_up 0 (h * w)) ≡ rows f h w
  numbered-rows h = ap (λ k. map numbered (count_up k (h * w))) (omega arith) ∙ numbered_from 0 h

module _ {T : Type 0} (torch : Torch T) (t : T) where
  -- The tile of row `y` and column `x`.
  abbrev pub tile : ℕ → ℕ → T
  tile y x =
      torch.read t (pos (y * tile_size), pos ((y + 1) * tile_size))
        (pos (x * tile_size), pos ((x + 1) * tile_size))

  tiles_from-numbered :
      (w first count : ℕ)
      → ensure_accessor (torch.shape t) ≡ none
      → tiles_from torch t w first count ≡ ok (map (numbered tile w) (count_up first count))
  unfolding tiles_from tile_at tensor_get get_tiles
  tiles_from-numbered w first zero h = refl
  tiles_from-numbered w first (suc count) h = rw (h, tiles_from-numbered w (suc first) count h)

  aligned_accessor :
      (r c : ℕ)
      → torch.shape t ≡ r ∷ c ∷ []
      → is_aligned r ≡ true
      → is_aligned c ≡ true
      → ensure_accessor (torch.shape t) ≡ none
  aligned_accessor r c e a a' = rw (e, a, a')

  read_tiles-rows :
      (r c : ℕ)
      → torch.shape t ≡ r ∷ c ∷ []
      → is_aligned r ≡ true
      → is_aligned c ≡ true
      → read_tiles torch t ≡ ok (rows tile (tiles_along r) (tiles_along c))
  unfolding read_tiles
  read_tiles-rows r c e a a' =
      let h : ℕ = tiles_along r in
      let w : ℕ = tiles_along c in
      let count : product (h ∷ w ∷ []) ≡ h * w = omega arith in
      rw e (
        tiles_from-numbered w 0 (product (h ∷ w ∷ [])) (aligned_accessor r c e a a')
        ∙ ap (λ n. ok (map (numbered tile w) (count_up 0 n))) count
        ∙ ap ok (numbered-rows tile w h))

  -- A transfer from a tensor of two aligned dimensions to a block of as many tiles succeeds; the block
  -- then holds the tiles of the tensor, row by row.
  pub tensor_to_block-rows :
      (b : Block) (buf : Slots T) (r c : ℕ)
      → torch.shape t ≡ r ∷ c ∷ []
      → is_aligned r ≡ true
      → is_aligned c ≡ true
      → length buf ≡ b.capacity
      → b.span.len ≡ tiles_along r * tiles_along c
      → b.span.len ≤ b.capacity
      → (buf' : Slots T) × (tensor_to_block torch t b buf ≡ (ok tt, buf'))
        × (window buf' b.capacity b.span.start b.span.len
            ≡ map some (rows tile (tiles_along r) (tiles_along c)))
        × (length buf' ≡ length buf)
  unfolding tensor_to_block
  tensor_to_block-rows b buf r c e a a' size len fits = rw (read_tiles-rows r c e a a') (
      copy_as_dest-window b (rows tile (tiles_along r) (tiles_along c)) buf size
        (length-rows tile (tiles_along r) (tiles_along c) ∙ sym len) fits)
