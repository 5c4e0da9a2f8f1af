-- ===== src/Block/Store.antt =====
-- python/sim/dfb.py, class Block: store, the element-wise operators, and matmul.
--
-- Blocks refer to each other: the result of an operator remembers the blocks that it was computed
-- from, and a store of it marks them. So the state is a heap, in which a reference is a number. The
-- blocks of one DataflowBuffer share its ring. On tensors, the operations are parameters.
use tt_lang.Prelude.{
  ℕ, suc, max, List, [], ◌∷◌, length, get_elem?, set, Option, none, some, Bool, true, false, not,
  ◌&&◌, ◌||◌, if◌then◌else◌, ◌==◌, value_error, index_error, runtime_error, Outcome, ok, raise,
  bind_ok, Exec, ◌>>=◌, ◌>>◌, pure, require,
}
use tt_lang.BlockState.{AccessState, must_write, ExpectedOp, mem_op}
use tt_lang.Block.{
  Block, is_by_reserve, is_compute, check_can_write, mark_store_read_complete, mark_store_complete,
}
use tt_lang.Block.Slots.{Slots, get_item, write_slot, to_list}

-- `_infer_broadcast_shape`
abbrev pub broadcast_dims : List ℕ → List ℕ → Outcome (List ℕ)
broadcast_dims [] [] = ok []
broadcast_dims [] (r ∷ rs) = raise value_error
broadcast_dims (l ∷ ls) [] = raise value_error
broadcast_dims (l ∷ ls) (r ∷ rs) =
    if (l == 1) || (r == 1) || (l == r)
    then bind_ok (broadcast_dims ls rs) (λ shape. ok (max l r ∷ shape))
    else raise value_error

-- Whether two tuples are equal.
abbrev pub same_dims : List ℕ → List ℕ → Bool
same_dims [] [] = true
same_dims [] (r ∷ rs) = false
same_dims (l ∷ ls) [] = false
same_dims (l ∷ ls) (r ∷ rs) = if l == r then same_dims ls rs else false

-- `self._access_state == AccessState.MW`
abbrev pub is_must_write : AccessState → Bool
is_must_write must_write = true
is_must_write _ = false

module _ {A : Type 0} where
  -- `for i, v in enumerate(items): self.write_slot(i, v)`, from index `i` on.
  unfoldable pub write_items : Block → ℕ → List A → Exec (Slots A) (Unit {0})
  unfolding write_slot
  write_items b i [] = pure tt
  write_items b i (v ∷ vs) = write_slot b i v >> write_items b (suc i) vs

  -- `for i, v in enumerate(items): self.write_slot(i, self.get_item(i) + v)`
  unfoldable pub add_items : (A → A → A) → Block → ℕ → List A → Exec (Slots A) (Unit {0})
  unfolding write_slot get_item
  add_items add b i [] = pure tt
  add_items add b i (v ∷ vs) =
      (get_item b i >>= λ w. write_slot b i (add w v)) >> add_items add b (suc i) vs

  -- The end of `store`, on the block after its mark; `first` is `is_first_acc_store`.
  unfoldable pub store_items :
      (A → A → A) → Bool → Bool → Block → List A → Exec (Slots A) (Unit {0})
  unfolding write_items add_items
  store_items add acc first b items =
      if acc && not first then add_items add b 0 items else write_items b 0 items

-- A block, with the number of its ring.
pub record Cell : Type 0 where
  pub block : Block
  pub ring : ℕ

pub record Heap (A : Type 0) : Type 0 where
  pub cells : List Cell
  pub rings : List (Slots A)

-- What is stored: a block, or a sequence of tensors.
pub data Items (A : Type 0) : Type 0 where
  of_block : ℕ → Items A
  tensors : List A → Items A

abbrev pub is_waited_compute : Block → Bool
is_waited_compute b = not (is_by_reserve b.acquisition) && is_compute b.thread_type

-- What an operand adds to the sources of a result (`_binary_op`, `track_source_blocks`).
abbrev pub tracked : ℕ → Block → List ℕ
tracked r b = if b.is_temporary then b.source_blocks else if is_waited_compute b then r ∷ [] else []

abbrev pub found {ℓ} : {B : Type ℓ} → Option B → Outcome B
found none = raise index_error
found (some x) = ok x

module _ {A : Type 0} where
  -- A reference outside of the heap has no counterpart in the source.
  unfoldable pub block_at : ℕ → Exec (Heap A) Cell
  block_at r h = (found (get_elem? h.cells r), h)

  abbrev pub marked_in : ℕ → Cell → Outcome Block → Exec (Heap A) (Unit {0})
  marked_in r c (ok b) h = (ok tt, record h { cells = set h.cells r (record c { block = b }) })
  marked_in r c (raise e) h = (raise e, h)

  -- A call of the state machine of a block.
  unfoldable pub mark : ℕ → (Block → Outcome Block) → Exec (Heap A) (Unit {0})
  unfolding block_at
  mark r m = block_at r >>= λ c. marked_in r c (m c.block)

  abbrev pub in_ring : {B : Type 0} → ℕ → Outcome B × Slots A → Exec (Heap A) B
  in_ring k (r, buf) h = (r, record h { rings = set h.rings k buf })

  abbrev pub run_in : {B : Type 0} → ℕ → Exec (Slots A) B → Outcome (Slots A) → Exec (Heap A) B
  run_in k m (ok buf) h = in_ring k (m buf) h
  run_in k m (raise e) h = (raise e, h)

  -- A method on the slots of a block.
  unfoldable pub on_slots : {B : Type 0} → ℕ → (Block → Exec (Slots A) B) → Exec (Heap A) B
  unfolding block_at
  on_slots r m =
      block_at r >>= λ c. λ h. run_in c.ring (m c.block) (found (get_elem? h.rings c.ring)) h

  -- The references whose blocks expect to be the source of a store.
  unfoldable pub expecting : List ℕ → Exec (Heap A) (List ℕ)
  unfolding block_at
  expecting [] = pure []
  expecting (r ∷ rs) = block_at r >>= λ c. expecting rs >>= λ rest.
      pure (if mem_op ExpectedOp.store_src c.block.expected_ops then r ∷ rest else rest)

  -- The blocks that a store of a block marks.
  unfoldable pub sources_to_mark : ℕ → Block → Exec (Heap A) (List ℕ)
  unfolding expecting
  sources_to_mark r b =
      if is_waited_compute b && mem_op ExpectedOp.store_src b.expected_ops
      then pure (r ∷ [])
      else if b.is_temporary
      then expecting b.source_blocks
      else pure []

  -- The tensors to store, and the blocks to mark.
  unfoldable pub items_of : Items A → Exec (Heap A) (List A × List ℕ)
  unfolding on_slots to_list sources_to_mark
  items_of (tensors vs) = pure (vs, [])
  items_of (of_block r) = on_slots r to_list >>= λ vs.
      block_at r >>= λ c. sources_to_mark r c.block >>= λ sources. pure (vs, sources)

  unfoldable pub mark_sources : List ℕ → Exec (Heap A) (Unit {0})
  unfolding mark mark_store_read_complete
  mark_sources [] = pure tt
  mark_sources (r ∷ rs) = mark r mark_store_read_complete >> mark_sources rs

  unfoldable pub store : (A → A → A) → ℕ → Items A → Bool → Exec (Heap A) (Unit {0})
  unfolding items_of mark_sources mark mark_store_complete on_slots store_items check_can_write
  store add r items acc = do
    (vs, sources) ← items_of items
    c ← block_at r
    require (length vs == c.block.span.len) value_error
    require (check_can_write c.block) runtime_error
    mark_sources sources
    c ← block_at r
    let first : Bool = acc && is_must_write c.block.access_state
    mark r (mark_store_complete acc)
    on_slots r (λ b. store_items add acc first b vs)
