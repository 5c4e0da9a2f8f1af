-- ===== src/DataflowBuffer.antt =====
-- python/sim/dfb.py, class DataflowBuffer: the buffer that a kernel works with. It hands out a block
-- to read (`wait`) or to write (`reserve`), at most one of each at a time, and releases it.
--
-- `state` is the entry of the pool of DFBAPI under the buffer's `_dfb_id`: the identifiers are
-- unique (DfbApi.antt), so no other buffer has that entry; it is none for a buffer that was made
-- outside of a kernel, with no API. The pending blocks are the objects that the user holds: what the
-- user does to a block is done to them here. What other threads do while `block_if_needed` has
-- switched to the scheduler is the parameter `others`.
pub mod Sound
pub mod Steps
pub mod Wait
pub mod Pop
pub mod Fill
pub mod Reserve
pub mod Push
mod Tests
use tt_lang.Prelude.{
  all_positive, ℕ, ◌*◌, List, Option, none, some, Bool, true, false, not, ◌&&◌, ◌||◌, if◌then◌else◌,
  ltb, leb, ◌==◌, Exec, Outcome, ok, raise, Error, when, after, length, product, runtime_error,
  value_error, validation_error,
}
use tt_lang.BlockState.{ThreadType}
use tt_lang.Block.{Block, mark_push_complete, mark_pop_complete, is_by_reserve}
use tt_lang.Block.Slots.{for_range, write_slot}
use tt_lang.DfbState.{
  DfbState, DfbStats, new_state, host_configure_dfb, host_reset_dfb, dfb_stats, dfb_wait_front,
  dfb_reserve_back, dfb_push_back, dfb_pop_front, get_read_ptr, get_write_ptr,
}

pub record DataflowBuffer (A : Type 0) : Type 0 where
  pub shape : List ℕ
  pub buffer_factor : ℕ
  pub pending_reserved_block : Option Block
  pub pending_waited_block : Option Block
  pub tiles_per_operation : ℕ
  pub capacity_tiles : ℕ
  pub state : Option (DfbState A)

-- Whether `__init__` was given an API, and with it the new entry of the pool.
abbrev pub has_block : Option Block → Bool
has_block none = false
has_block (some b) = true

module _ {A : Type 0} where
  abbrev unattached : List ℕ → ℕ → DataflowBuffer A
  unattached shape buffer_factor = record {
    shape = shape;
    buffer_factor = buffer_factor;
    pending_reserved_block = none;
    pending_waited_block = none;
    tiles_per_operation = product shape;
    capacity_tiles = product shape * buffer_factor;
    state = none;
  }

  -- `__init__`: with an API the entry of the pool is made, configured and reset.
  unfoldable pub new_buffer : List ℕ → ℕ → Bool → Outcome (DataflowBuffer A)
  unfolding host_configure_dfb host_reset_dfb
  new_buffer shape buffer_factor with_api =
      if not (length shape == 2)
      then raise value_error
      else if not with_api
      then ok (unattached shape buffer_factor)
      else if not (ltb 0 (product shape * buffer_factor) && all_positive shape)
      then raise validation_error
      else ok (record d {
        state = some (host_reset_dfb (host_configure_dfb d.capacity_tiles shape new_state)).1;
      })
    where
      d : DataflowBuffer A
      d = unattached shape buffer_factor

  -- `_ensure_initialized`, and a call of the API on the buffer's entry of the pool.
  abbrev pub on_state : {B : Type 0} → Exec (DfbState A) B → Exec (DataflowBuffer A) B
  on_state m d = elim d.state [
    | none ↦ (raise runtime_error, d)
    | some s ↦ (let (o, s') = m s in (o, record d { state = some s' }))
  ]

  -- A pointer call, which changes nothing.
  abbrev pub look : {B : Type 0} → (DfbState A → Outcome B) → DataflowBuffer A → Outcome B
  look m d = elim d.state [ none ↦ raise runtime_error | some s ↦ m s ]

  unfoldable pub stats : Exec (DataflowBuffer A) (DfbStats A)
  unfolding dfb_stats
  stats = on_state dfb_stats

  unfoldable pub reset : Exec (DataflowBuffer A) (Unit {0})
  unfolding host_reset_dfb
  reset = on_state host_reset_dfb

  abbrev pub test_stats :
      (DfbStats A → Bool) → Outcome (DfbStats A) × DataflowBuffer A → Outcome Bool
  test_stats f (ok r, d) = ok (f r)
  test_stats f (raise e, d) = raise e

  unfoldable pub can_wait : DataflowBuffer A → Outcome Bool
  unfolding stats
  can_wait d = test_stats (λ r. leb d.tiles_per_operation r.stat_visible) (stats d)

  unfoldable pub can_reserve : DataflowBuffer A → Outcome Bool
  unfolding stats
  can_reserve d = test_stats (λ r. leb d.tiles_per_operation r.stat_free) (stats d)

  -- The end of `wait`, once `dfb_wait_front` returned: the read pointer becomes the pending block.
  unfoldable pub keep_read : Option ThreadType → ℕ → Exec (DataflowBuffer A) Block
  keep_read t self d = elim (look (get_read_ptr t) d) [
    | raise e ↦ (raise e, d)
    | ok b ↦
        (let c = record b { dfb = some self } in (ok c, record d { pending_waited_block = some c }))
  ]

  -- A further step, after one that may have raised.
  abbrev pub then_do :
      {B C : Type 0}
      → Outcome B × DataflowBuffer A
      → Exec (DataflowBuffer A) C
      → Outcome C × DataflowBuffer A
  then_do (ok _, d) k = k d
  then_do (raise e, d) k = (raise e, d)

  -- The zero tensors of `reserve`, on the list that the block shares with the buffer.
  unfoldable pub fill : Block → A → Exec (DfbState A) (Unit {0})
  unfolding write_slot
  fill b zero_tensor s =
      let (o, buf) = for_range (λ i. write_slot b i zero_tensor) 0 b.span.len s.buf in
      (o, record s { buf = buf })

  -- The end of `reserve`, for the block that the write pointer gave.
  unfoldable pub hold_write : A → Block → Exec (DataflowBuffer A) Block
  hold_write zero_tensor b d =
      then_do (on_state (fill b zero_tensor) d)
        λ d'. (ok b, record d' { pending_reserved_block = some b })

  unfoldable pub keep_write : Option ThreadType → ℕ → A → Exec (DataflowBuffer A) Block
  keep_write t self zero_tensor d = elim (look (get_write_ptr t) d) [
    | raise e ↦ (raise e, d)
    | ok b ↦ hold_write zero_tensor (record b { dfb = some self }) d
  ]

  -- The thread: its type, its number, and the number that stands for the buffer object itself.
  module _ (meanwhile : DfbState A → DfbState A) (t : Option ThreadType) (thread self : ℕ) where
    -- What `wait` and `reserve` do once the thread goes on.
    unfoldable pub acquire_read : Exec (DataflowBuffer A) Block
    acquire_read d =
        then_do (on_state (dfb_wait_front meanwhile thread d.tiles_per_operation) d)
          (keep_read t self)

    unfoldable pub acquire_write : A → Exec (DataflowBuffer A) Block
    acquire_write zero_tensor d =
        then_do (on_state (dfb_reserve_back meanwhile thread d.tiles_per_operation) d)
          (keep_write t self zero_tensor)

    unfoldable pub wait : (DataflowBuffer A → DataflowBuffer A) → Exec (DataflowBuffer A) Block
    wait others d = elim d.state [
      | none ↦ (raise runtime_error, d)
      | some _ ↦
          after (when (has_block d.pending_waited_block) runtime_error) d (acquire_read (others d))
    ]

    unfoldable pub reserve :
        (DataflowBuffer A → DataflowBuffer A) → A → Exec (DataflowBuffer A) Block
    reserve others zero_tensor d = elim d.state [
      | none ↦ (raise runtime_error, d)
      | some _ ↦
          after (when (has_block d.pending_reserved_block) runtime_error) d
            (acquire_write zero_tensor (others d))
    ]

  -- The state machine of the pending block takes the release first; if it refuses, nothing changes.
  unfoldable pub push_block : Exec (DataflowBuffer A) (Unit {0})
  push_block d = elim d.pending_reserved_block [
    | none ↦ on_state (dfb_push_back d.tiles_per_operation) d
    | some b ↦ elim (mark_push_complete b) [
      | raise e ↦ (raise e, d)
      | ok _ ↦
          on_state (dfb_push_back d.tiles_per_operation)
            (record d { pending_reserved_block = none })
    ]
  ]

  unfoldable pub pop_block : Option ThreadType → Exec (DataflowBuffer A) (Unit {0})
  pop_block t d = elim d.pending_waited_block [
    | none ↦ on_state (dfb_pop_front t d.tiles_per_operation) d
    | some b ↦ elim (mark_pop_complete b) [
      | raise e ↦ (raise e, d)
      | ok _ ↦
          on_state (dfb_pop_front t d.tiles_per_operation)
            (record d { pending_waited_block = none })
    ]
  ]

  -- `Block.__exit__` of a block of this buffer: with no exception in the `with` block, it is released.
  unfoldable pub exit : Option ThreadType → Bool → Block → Exec (DataflowBuffer A) (Unit {0})
  exit t raised b d =
      if raised
      then (ok tt, d)
      else if is_by_reserve b.acquisition
      then push_block d
      else pop_block t d

  unfoldable pub validate_no_pending_blocks : DataflowBuffer A → Option Error
  validate_no_pending_blocks d =
      when (has_block d.pending_reserved_block || has_block d.pending_waited_block) runtime_error
