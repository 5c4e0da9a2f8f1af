-- ===== src/Block/Tests.antt =====
-- The theorems on blocks at concrete blocks, and runs of the state machine.
use tt_lang.Prelude.{[], ◌∷◌, none, true, false, raise, runtime_error, is_ok, ◌≡◌, ◌↔◌, refl, inl}
use tt_lang.BlockState.{
  AccessState, read_write, no_access_reading, dm, compute, by_reserve, by_wait, ExpectedOp,
}
use tt_lang.Block.{Block, new_block, check_can_read, check_can_write}
use tt_lang.Block.Legal.{
  read_by_copy, copy_done, read_by_store, stored, stored_acc, pushed, popped, act, IsLegal,
  is_ok-act,
}
use tt_lang.Block.Lifecycle.{
  run, run-IsLegal, release_needs_use, released_is_final, in_flight_locked, begins,
}

abbrev waited : Block
waited = record {
  capacity = 4;
  span = record { start = 2; len = 2 };
  shape = 1 ∷ 2 ∷ [];
  acquisition = by_wait;
  thread_type = dm;
  access_state = no_access_reading;
  expected_ops = ExpectedOp.tx_wait ∷ [];
  is_temporary = false;
  source_blocks = [];
  dfb = none;
}

-- The block after the copy ended.
abbrev used : Block
used = record waited {
  access_state = read_write;
  expected_ops = ExpectedOp.copy_dst ∷ ExpectedOp.copy_src ∷ ExpectedOp.pop ∷ [];
}

waited-IsLegal : IsLegal waited
waited-IsLegal = record { in_ring = refl; on_diagram = refl }

used-IsLegal : IsLegal used
used-IsLegal = record { in_ring = refl; on_diagram = refl }

is_ok-act_example : is_ok (act popped waited) ≡ false
is_ok-act_example = is_ok-act popped waited waited-IsLegal

released_is_final_example :
    let b = record used { access_state = AccessState.out_of_scope; expected_ops = [] } in
    (act read_by_copy b ≡ raise runtime_error)
    × (check_can_read b ≡ false)
    × (check_can_write b ≡ false)
unfolding act
released_is_final_example = released_is_final used by_wait read_by_copy used-IsLegal refl

in_flight_locked_example :
    (is_ok (act popped waited) ≡ false)
    × (check_can_write waited ≡ false)
    × ((check_can_read waited ≡ true) ↔ (no_access_reading ≡ no_access_reading))
in_flight_locked_example = in_flight_locked waited popped waited-IsLegal (inl refl)

release_needs_use_example :
    begins by_wait compute (read_by_store ∷ stored ∷ read_by_store ∷ []) ≡ true
unfolding run act new_block
release_needs_use_example =
    release_needs_use 4 (record { start = 0; len = 2 }) (1 ∷ 2 ∷ []) by_wait compute none
      (read_by_store ∷ stored ∷ read_by_store ∷ []) refl

run-IsLegal_example : IsLegal used
unfolding run act
run-IsLegal_example = run-IsLegal (copy_done ∷ []) waited waited-IsLegal refl

-- A pop right after an accumulation is refused, a push is not.
pop_after_accumulate :
    is_ok (
      run
        (read_by_store ∷ stored_acc ∷ popped ∷ [])
        (new_block 4 (record { start = 0; len = 2 }) [] by_wait compute false none))
    ≡ false
unfolding run act new_block
pop_after_accumulate = refl

push_after_accumulate :
    is_ok (
      run
        (stored_acc ∷ stored_acc ∷ pushed ∷ [])
        (new_block 4 (record { start = 0; len = 2 }) [] by_reserve compute false none))
    ≡ true
unfolding run act new_block
push_after_accumulate = refl
