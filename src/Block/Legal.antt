-- ===== src/Block/Legal.antt =====
-- The state machine of class Block: the states that a block can be in, and what each allows.
use tt_lang.Prelude.{
  ℕ, List, [], ◌∷◌, Option, none, some, false, true, Outcome, ok, is_ok, ◌≡◌, arith,
}
use tt_lang.BlockState.{
  AccessState, must_write, must_read, read_write, accumulate, no_access_reading, no_access_writing,
  out_of_scope, ThreadType, dm, compute, BlockAcquisition, by_reserve, by_wait, ExpectedOp, mem_op,
  stores_and,
}
use tt_lang.Block.{
  Block, Span, new_block, mark_copy_as_source, mark_copy_as_dest, mark_tx_wait_complete,
  mark_store_read_complete, mark_store_complete, mark_push_complete, mark_pop_complete,
}

-- The calls that move a block's state machine.
pub data Action : Type 0 where
  read_by_copy written_by_copy copy_done read_by_store : Action
  stored stored_acc pushed popped : Action

unfoldable pub act : Action → Block → Outcome Block
unfolding mark_copy_as_source mark_copy_as_dest mark_tx_wait_complete mark_store_read_complete
    mark_store_complete mark_push_complete mark_pop_complete
act read_by_copy = mark_copy_as_source
act written_by_copy = mark_copy_as_dest
act copy_done = mark_tx_wait_complete
act read_by_store = mark_store_read_complete
act stored = mark_store_complete false
act stored_acc = mark_store_complete true
act pushed = mark_push_complete
act popped = mark_pop_complete

-- The expected operation that each call must find.
abbrev pub op_of : Action → ExpectedOp
op_of read_by_copy = ExpectedOp.copy_src
op_of written_by_copy = ExpectedOp.copy_dst
op_of copy_done = ExpectedOp.tx_wait
op_of read_by_store = ExpectedOp.store_src
op_of stored = ExpectedOp.store
op_of stored_acc = ExpectedOp.store_acc
op_of pushed = ExpectedOp.push
op_of popped = ExpectedOp.pop

-- The life cycle of a block, read off the documented diagrams: in each context the access state
-- determines the operations that are expected next; `none` is a state outside the diagram.
abbrev pub diagram : BlockAcquisition → ThreadType → AccessState → Option (List ExpectedOp)
diagram _ _ out_of_scope = some []
diagram by_wait dm must_read = some (ExpectedOp.copy_src ∷ [])
diagram by_wait dm read_write =
    some (ExpectedOp.copy_dst ∷ ExpectedOp.copy_src ∷ ExpectedOp.pop ∷ [])
diagram by_reserve dm must_write = some (ExpectedOp.copy_dst ∷ [])
diagram by_reserve dm must_read = some (ExpectedOp.push ∷ ExpectedOp.copy_src ∷ [])
diagram by_reserve dm read_write =
    some (ExpectedOp.copy_dst ∷ ExpectedOp.copy_src ∷ ExpectedOp.push ∷ [])
diagram _ dm no_access_reading = some (ExpectedOp.tx_wait ∷ [])
diagram _ dm no_access_writing = some (ExpectedOp.tx_wait ∷ [])
diagram by_wait compute must_read = some (ExpectedOp.store_src ∷ [])
diagram by_wait compute read_write = some (stores_and ExpectedOp.pop)
diagram by_wait compute accumulate = some (ExpectedOp.store_src ∷ ExpectedOp.store_acc ∷ [])
diagram by_reserve compute must_write = some (ExpectedOp.store ∷ ExpectedOp.store_acc ∷ [])
diagram by_reserve compute must_read = some (ExpectedOp.store_src ∷ ExpectedOp.push ∷ [])
diagram by_reserve compute read_write = some (stores_and ExpectedOp.push)
diagram by_reserve compute accumulate =
    some (ExpectedOp.store_src ∷ ExpectedOp.store_acc ∷ ExpectedOp.push ∷ [])
diagram _ _ _ = none

pub record IsLegal (b : Block) : Type 0 where
  pub in_ring : b.is_temporary ≡ false
  pub on_diagram : diagram b.acquisition b.thread_type b.access_state ≡ some b.expected_ops

pub new_block-IsLegal :
    (capacity : ℕ) (span : Span) (shape : List ℕ) (acq : BlockAcquisition) (thr : ThreadType)
    (dfb : Option ℕ)
    → IsLegal (new_block capacity span shape acq thr false dfb)
unfolding new_block
new_block-IsLegal capacity span shape acq thr dfb = ground arith

-- A call that succeeds on a legal block leaves a legal block: the access state and the expected
-- operations stay on the diagram.
pub act-IsLegal : (a : Action) (b : Block) {c : Block} → IsLegal b → act a b ≡ ok c → IsLegal c
unfolding act
act-IsLegal a b l e = ground arith

-- On a legal block a call succeeds exactly when its operation is among the expected ones: the other
-- checks (table lookup, acquisition, access state) never fail.
pub is_ok-act :
    (a : Action) (b : Block) → IsLegal b → is_ok (act a b) ≡ mem_op (op_of a) b.expected_ops
unfolding act
is_ok-act a b l = ground arith
