-- ===== src/Block.antt =====
-- python/sim/dfb.py, class Block: the object, its constructor and its state machine. A block is a
-- window into a ring buffer, or a temporary that holds the result of a computation. The buffer
-- itself (`_buf`) is a list that the ring shares with its blocks: the methods of Block.Slots take it
-- as their state. Other blocks and the owning DataflowBuffer are references (numbers).
pub mod Legal
pub mod Lifecycle
pub mod Slots
pub mod SlotLaws
pub mod Store
pub mod Operators
pub mod Windows
pub mod StoreLaws
pub mod StoreSteps
pub mod Accumulate
pub mod Products
mod Tests
mod StoreTests
use tt_lang.Prelude.{
  ℕ, List, [], ◌∷◌, Option, none, some, Bool, true, false, if◌then◌else◌, Outcome, ok, raise,
  runtime_error, bind_ok,
}
use tt_lang.BlockState.{
  AccessState, must_write, must_read, read_write, accumulate, no_access_reading, no_access_writing,
  out_of_scope, ThreadType, dm, compute, BlockAcquisition, by_reserve, by_wait, ExpectedOp,
  Operation, copy_src_key, copy_dst_key, tx_wait_key, store_src_key, store_dst_key,
  store_dst_acc_key, mem_op, state_transitions,
}

-- typedefs.py, Span
pub record Span : Type 0 where
  pub start : ℕ
  pub len : ℕ

pub record Block : Type 0 where
  pub capacity : ℕ
  pub span : Span
  pub shape : List ℕ
  pub acquisition : BlockAcquisition
  pub thread_type : ThreadType
  pub access_state : AccessState
  pub expected_ops : List ExpectedOp
  pub is_temporary : Bool
  pub source_blocks : List ℕ
  pub dfb : Option ℕ

-- The access state and the expected operations of a block that was just acquired.
abbrev pub initial_state : BlockAcquisition → ThreadType → AccessState × List ExpectedOp
initial_state by_reserve dm = (must_write, ExpectedOp.copy_dst ∷ [])
initial_state by_reserve compute = (must_write, ExpectedOp.store ∷ ExpectedOp.store_acc ∷ [])
initial_state by_wait dm = (must_read, ExpectedOp.copy_src ∷ [])
initial_state by_wait compute = (must_read, ExpectedOp.store_src ∷ [])

-- `_initialize_state`
pub initialize_state : Block → Block
initialize_state b =
    let (access, ops) = initial_state b.acquisition b.thread_type in
    record b { access_state = access; expected_ops = ops }

-- `__init__`
unfoldable pub new_block :
    ℕ → Span → List ℕ → BlockAcquisition → ThreadType → Bool → Option ℕ → Block
unfolding initialize_state
new_block capacity span shape acquisition thread_type is_temporary dfb =
    if is_temporary
    then record blank { access_state = read_write; expected_ops = [] }
    else initialize_state blank
  where
    blank : Block
    blank = record {
      capacity = capacity;
      span = span;
      shape = shape;
      acquisition = acquisition;
      thread_type = thread_type;
      access_state = out_of_scope;
      expected_ops = [];
      is_temporary = is_temporary;
      source_blocks = [];
      dfb = dfb;
    }

-- `from_list`, for a computation result of `count` tensors
unfoldable pub from_list : ℕ → List ℕ → Block
unfolding new_block
from_list count shape =
    new_block count (record { start = 0; len = count }) shape by_reserve compute true none

abbrev pub is_empty : List ExpectedOp → Bool
is_empty [] = true
is_empty (o ∷ os) = false

-- `_validate_state`: the operation is among the expected ones. The result is the block itself.
unfoldable pub validate_state : ExpectedOp → Block → Outcome Block
validate_state op b =
    if is_empty b.expected_ops
    then raise runtime_error
    else if mem_op op b.expected_ops
    then ok b
    else raise runtime_error

-- What a lookup in the table does to the block; `None` is the error "Impossible!".
abbrev pub apply_transition : Option (AccessState × List ExpectedOp) → Block → Outcome Block
apply_transition none b = raise runtime_error
apply_transition (some (access, ops)) b =
    ok (record b { access_state = access; expected_ops = ops })

-- `_transition_state`
unfoldable pub transition_state : Operation → ExpectedOp → Block → Outcome Block
unfolding validate_state state_transitions
transition_state key op b =
    bind_ok (validate_state op b)
      λ c. apply_transition (state_transitions c.acquisition c.thread_type key c.access_state) c

unfoldable pub mark_copy_as_source : Block → Outcome Block
unfolding transition_state
mark_copy_as_source b = transition_state copy_src_key ExpectedOp.copy_src b

unfoldable pub mark_copy_as_dest : Block → Outcome Block
unfolding transition_state
mark_copy_as_dest b = transition_state copy_dst_key ExpectedOp.copy_dst b

unfoldable pub mark_tx_wait_complete : Block → Outcome Block
unfolding transition_state
mark_tx_wait_complete b = transition_state tx_wait_key ExpectedOp.tx_wait b

unfoldable pub mark_store_read_complete : Block → Outcome Block
unfolding transition_state
mark_store_read_complete b = transition_state store_src_key ExpectedOp.store_src b

unfoldable pub mark_store_complete : Bool → Block → Outcome Block
unfolding transition_state
mark_store_complete acc b =
    if acc
    then transition_state store_dst_acc_key ExpectedOp.store_acc b
    else transition_state store_dst_key ExpectedOp.store b

abbrev pub is_by_reserve : BlockAcquisition → Bool
is_by_reserve by_reserve = true
is_by_reserve by_wait = false

abbrev pub is_compute : ThreadType → Bool
is_compute compute = true
is_compute dm = false

-- The block's last state, which both releases leave.
abbrev pub released : Block → Block
released b = record b { access_state = out_of_scope; expected_ops = [] }

unfoldable pub mark_push_complete : Block → Outcome Block
unfolding validate_state
mark_push_complete b =
    bind_ok (validate_state ExpectedOp.push b)
      λ c. if is_by_reserve c.acquisition then ok (released c) else raise runtime_error

-- The access states that `mark_pop_complete` lets through.
abbrev pub can_pop : AccessState → Bool
can_pop must_read = true
can_pop read_write = true
can_pop accumulate = true
can_pop _ = false

unfoldable pub mark_pop_complete : Block → Outcome Block
unfolding validate_state
mark_pop_complete b = bind_ok (validate_state ExpectedOp.pop b) λ c.
    if is_by_reserve c.acquisition
    then raise runtime_error
    else if can_pop c.access_state
    then ok (released c)
    else raise runtime_error

-- The access states in which `_check_can_read` lets a read through.
abbrev pub readable : AccessState → Bool
readable must_write = false
readable no_access_writing = false
readable out_of_scope = false
readable _ = true

abbrev pub writable : AccessState → Bool
writable no_access_writing = false
writable no_access_reading = false
writable out_of_scope = false
writable _ = true

-- `_check_can_read` and `_check_can_write`: whether they return; they raise RuntimeError if not.
unfoldable pub check_can_read : Block → Bool
check_can_read b = if b.is_temporary then true else readable b.access_state

unfoldable pub check_can_write : Block → Bool
check_can_write b = if b.is_temporary then true else writable b.access_state
