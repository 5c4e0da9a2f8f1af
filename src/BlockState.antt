-- ===== src/BlockState.antt =====
-- python/sim/blockstate.py: the enumerations of the block state machine and its transition table.
use tt_lang.Prelude.{List, [], ◌∷◌, Option, none, some, Bool, true, false, ◌||◌}

-- MW, MR, RW, A, NAR, NAW, OS
pub data AccessState : Type 0 where
  must_write must_read read_write accumulate : AccessState
  no_access_reading no_access_writing out_of_scope : AccessState

pub data ThreadType : Type 0 where
  dm compute : ThreadType

pub data BlockAcquisition : Type 0 where
  by_reserve by_wait : BlockAcquisition

pub data ExpectedOp : Type 0 where
  copy_src copy_dst tx_wait push pop store store_acc store_src : ExpectedOp
  done : ExpectedOp

-- The strings that key the transition table.
pub data Operation : Type 0 where
  copy_src_key copy_dst_key tx_wait_key store_src_key store_dst_key store_dst_acc_key : Operation

-- `==` on the enumeration, which compares the members.
abbrev pub same_op : ExpectedOp → ExpectedOp → Bool
same_op copy_src copy_src = true
same_op copy_dst copy_dst = true
same_op tx_wait tx_wait = true
same_op push push = true
same_op pop pop = true
same_op store store = true
same_op store_acc store_acc = true
same_op store_src store_src = true
same_op done done = true
same_op _ _ = false

-- `op in ops`, for a set of expected operations written as a list.
abbrev pub mem_op : ExpectedOp → List ExpectedOp → Bool
mem_op o [] = false
mem_op o (p ∷ ps) = same_op o p || mem_op o ps

-- The operations after a store that reads a block, with the one that releases it.
abbrev pub stores_and : ExpectedOp → List ExpectedOp
stores_and release = store_src ∷ store ∷ store_acc ∷ release ∷ []

-- `STATE_TRANSITIONS[(acquisition, thread)].get((operation, access))`. All four contexts have an
-- entry in the table, so the `None` of the outer lookup does not occur.
unfoldable pub state_transitions :
    BlockAcquisition → ThreadType → Operation → AccessState → Option (AccessState × List ExpectedOp)
state_transitions by_wait dm copy_src_key must_read = some (no_access_reading, tx_wait ∷ [])
state_transitions by_wait dm copy_src_key read_write = some (no_access_reading, tx_wait ∷ [])
state_transitions by_wait dm copy_dst_key read_write = some (no_access_writing, tx_wait ∷ [])
state_transitions by_wait dm tx_wait_key no_access_reading =
    some (read_write, copy_dst ∷ copy_src ∷ pop ∷ [])
state_transitions by_wait dm tx_wait_key no_access_writing = some (must_read, copy_src ∷ [])
state_transitions by_reserve dm copy_src_key must_read = some (no_access_reading, tx_wait ∷ [])
state_transitions by_reserve dm copy_src_key read_write = some (no_access_reading, tx_wait ∷ [])
state_transitions by_reserve dm copy_dst_key must_write = some (no_access_writing, tx_wait ∷ [])
state_transitions by_reserve dm copy_dst_key read_write = some (no_access_writing, tx_wait ∷ [])
state_transitions by_reserve dm tx_wait_key no_access_writing =
    some (must_read, push ∷ copy_src ∷ [])
state_transitions by_reserve dm tx_wait_key no_access_reading =
    some (read_write, copy_dst ∷ copy_src ∷ push ∷ [])
state_transitions by_wait compute store_src_key must_read = some (read_write, stores_and pop)
state_transitions by_wait compute store_src_key read_write = some (read_write, stores_and pop)
state_transitions by_wait compute store_src_key accumulate = some (read_write, stores_and pop)
state_transitions by_wait compute store_dst_acc_key read_write =
    some (accumulate, store_src ∷ store_acc ∷ [])
state_transitions by_wait compute store_dst_acc_key accumulate =
    some (accumulate, store_src ∷ store_acc ∷ [])
state_transitions by_wait compute store_dst_key read_write = some (must_read, store_src ∷ [])
state_transitions by_reserve compute store_src_key must_read = some (read_write, stores_and push)
state_transitions by_reserve compute store_src_key read_write = some (read_write, stores_and push)
state_transitions by_reserve compute store_src_key accumulate = some (read_write, stores_and push)
state_transitions by_reserve compute store_dst_acc_key must_write =
    some (accumulate, store_src ∷ store_acc ∷ push ∷ [])
state_transitions by_reserve compute store_dst_acc_key read_write =
    some (accumulate, store_src ∷ store_acc ∷ push ∷ [])
state_transitions by_reserve compute store_dst_acc_key accumulate =
    some (accumulate, store_src ∷ store_acc ∷ push ∷ [])
state_transitions by_reserve compute store_dst_key must_write =
    some (must_read, store_src ∷ push ∷ [])
state_transitions by_reserve compute store_dst_key read_write =
    some (must_read, store_src ∷ push ∷ [])
state_transitions _ _ _ _ = none
