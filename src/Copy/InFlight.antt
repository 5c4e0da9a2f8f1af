-- ===== src/Copy/InFlight.antt =====
-- Whole copies between tensors and blocks that were just acquired.
use tt_lang.Prelude.{
  ℕ, ◌*◌, ◌≤◌, ◌≡◌, refl, ap, ◌∙◌, List, [], ◌∷◌, map, length, rows, Option, none, some, Bool, true,
  false, ==_refl, Outcome, ok, raise, is_ok, value_error, >>=-ok, ◌>>◌, arith,
}
use tt_lang.BlockState.{no_access_writing, must_read, ExpectedOp, dm, by_reserve}
use tt_lang.Block.{
  Block, Span, new_block, check_can_read, check_can_write, mark_push_complete,
  mark_tx_wait_complete,
}
use tt_lang.Block.Slots.{Slots}
use tt_lang.Block.Legal.{Action, act}
use tt_lang.Block.Lifecycle.{is_copy_done}
use tt_lang.DfbState.Window.{window}
use tt_lang.Tensor.{Torch, tiles_along, is_aligned}
use tt_lang.Copy.{
  Endpoint, tensor, block, Handler, Transaction, validate_shapes, tensor_to_block, tensor_handler,
  transfer_ends, transferred, completing, mark_src, mark_dst, copy, wait,
}
use tt_lang.Copy.Tiles.{tile, tensor_to_block-rows}

module _ (capacity : ℕ) (span : Span) (shape : List ℕ) (dfb : Option ℕ) where
  -- The block that a data-movement thread reserved, then with a copy into it in flight, then with
  -- the copy finished.
  abbrev pub reserved : Block
  unfolding new_block
  reserved = new_block capacity span shape by_reserve dm false dfb

  abbrev pub filling : Block
  unfolding reserved
  filling = record reserved {
    access_state = no_access_writing;
    expected_ops = ExpectedOp.tx_wait ∷ [];
  }

  abbrev pub filled : Block
  unfolding reserved
  filled = record reserved {
    access_state = must_read;
    expected_ops = ExpectedOp.push ∷ ExpectedOp.copy_src ∷ [];
  }

module _ {T P : Type 0} where
  -- The transaction between a tensor and the block, in a given state.
  abbrev pub into : Block → Bool → T → Slots T → Transaction T P
  into b completed t buf = record { src = tensor t; dst = block b buf; completed = completed }

module _ {T P : Type 0} (torch : Torch T)
    (pipes : Endpoint T P → Endpoint T P → Option (Handler T P)) (capacity : ℕ) (span : Span)
    (shape : List ℕ) (dfb : Option ℕ) where
  marked :
      (t : T) (buf : Slots T)
      → validate_shapes (torch.shape t) shape ≡ none
      → copy torch pipes (tensor t) (block (reserved capacity span shape dfb) buf)
        ≡ (ok tt, into (filling capacity span shape dfb) false t buf)
  unfolding copy filling reserved
  marked t buf h = rw h refl

  -- A copy into a reserved block for which the validation of shapes raises a ValueError raises it too.
  -- It does so after it has marked the block, so the block is left as if a copy into it were in flight:
  -- it can be neither read nor written, and of the calls of its state machine only the one that ends
  -- a copy succeeds.
  pub copy_refused :
      (t : T) (buf : Slots T) (a : Action)
      → validate_shapes (torch.shape t) shape ≡ some value_error
      → (copy torch pipes (tensor t) (block (reserved capacity span shape dfb) buf)
          ≡ (raise value_error, into (filling capacity span shape dfb) false t buf))
        × (check_can_read (filling capacity span shape dfb) ≡ false)
        × (check_can_write (filling capacity span shape dfb) ≡ false)
        × (is_ok (act a (filling capacity span shape dfb)) ≡ is_copy_done a)
  unfolding copy filling reserved act check_can_read check_can_write
  copy_refused t buf a h = (rw h refl, refl, refl, ground arith)

  validated :
      (t : T) (r c : ℕ)
      → torch.shape t ≡ r ∷ c ∷ []
      → shape ≡ tiles_along r ∷ tiles_along c ∷ []
      → validate_shapes (torch.shape t) shape ≡ none
  validated t r c e f = rw (e, f, ==_refl (tiles_along r), ==_refl (tiles_along c)) refl

  moved_tiles :
      (t : T) (buf buf' : Slots T)
      → tensor_to_block torch t (filling capacity span shape dfb) buf ≡ (ok tt, buf')
      → transferred {P = P}
          (tensor_handler torch)
          (into (filling capacity span shape dfb) false t buf)
        ≡ (ok tt, into (filling capacity span shape dfb) false t buf')
  unfolding tensor_handler transfer_ends filling reserved
  moved_tiles t buf buf' e =
      ap
        (λ (r : Outcome (Unit {0}) × Slots T).
          (r.0, into {P = P} (filling capacity span shape dfb) false t r.1))
        e

  waited :
      (others : Transaction T P → Transaction T P) (t t' : T) (buf buf' buf'' : Slots T)
      → others (into (filling capacity span shape dfb) false t buf)
        ≡ into (filling capacity span shape dfb) false t' buf'
      → tensor_to_block torch t' (filling capacity span shape dfb) buf' ≡ (ok tt, buf'')
      → wait torch pipes others (into (filling capacity span shape dfb) false t buf)
        ≡ (ok tt, into (filled capacity span shape dfb) true t' buf'')
  unfolding wait filling filled reserved
  waited others t t' buf buf' buf'' o e = rw o (
      >>=-ok (transferred (tensor_handler torch))
        (λ _. completing >> (mark_src mark_tx_wait_complete >> mark_dst mark_tx_wait_complete))
        (into (filling capacity span shape dfb) false t' buf') (moved_tiles t' buf' buf'' e))

  -- A copy of a tensor, of two aligned dimensions, into a block that a data-movement thread has just
  -- reserved for as many tiles succeeds. Meanwhile the block can be neither read nor written. If other
  -- threads leave the block and the shape of the tensor as they are, the wait succeeds, and then the
  -- block holds the tiles that the tensor has by then, row by row, and can be pushed.
  pub copy-wait-tiles :
      (others : Transaction T P → Transaction T P) (t t' : T) (buf buf' : Slots T) (r c : ℕ)
      → torch.shape t ≡ r ∷ c ∷ []
      → is_aligned r ≡ true
      → is_aligned c ≡ true
      → shape ≡ tiles_along r ∷ tiles_along c ∷ []
      → span.len ≡ tiles_along r * tiles_along c
      → span.len ≤ capacity
      → others (into (filling capacity span shape dfb) false t buf)
        ≡ into (filling capacity span shape dfb) false t' buf'
      → torch.shape t' ≡ torch.shape t
      → length buf' ≡ capacity
      → (copy torch pipes (tensor t) (block (reserved capacity span shape dfb) buf)
          ≡ (ok tt, into (filling capacity span shape dfb) false t buf))
        × (check_can_read (filling capacity span shape dfb) ≡ false)
        × (check_can_write (filling capacity span shape dfb) ≡ false)
        × (buf'' : Slots T) × (wait torch pipes others
              (into (filling capacity span shape dfb) false t buf)
            ≡ (ok tt, into (filled capacity span shape dfb) true t' buf''))
        × (window buf'' capacity span.start span.len
            ≡ map some (rows (tile torch t') (tiles_along r) (tiles_along c)))
        × (is_ok (mark_push_complete (filled capacity span shape dfb)) ≡ true)
  unfolding filling filled reserved check_can_read check_can_write mark_push_complete
  copy-wait-tiles others t t' buf buf' r c e a a' f len fits o same size =
      let (buf'', done, here, size') =
        tensor_to_block-rows torch t' (filling capacity span shape dfb) buf' r c (same ∙ e) a a'
          size len fits in
      (
        marked t buf (validated t r c e f),
        refl,
        refl,
        buf'',
        waited others t t' buf buf' buf'' o done,
        here,
        refl,
      )
