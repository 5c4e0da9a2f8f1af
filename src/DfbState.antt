-- ===== src/DfbState.antt =====
-- python/sim/dfbstate.py: the state of one circular buffer, and the operations of python/sim/dfb.py,
-- class DFBAPI, that work on it once its entry of the pool was found (DfbApi.antt has the pool).
--
-- Of the locks nothing is kept but this: `Condition.wait_for` gives up the lock while it waits, so
-- what other threads do to the buffer meanwhile is the parameter `meanwhile`. The result of the wait
-- is the value of its test after that; the wait times out if the test is false then. A thread is a
-- number.
pub mod Inv
pub mod Window
pub mod Fifo
pub mod Views
pub mod Acquire
pub mod Calls
mod Tests
use tt_lang.Prelude.{
  ℕ, ◌+◌, ◌-◌, ◌%◌, List, [], Option, none, some, Bool, true, false, not, if◌then◌else◌, ltb, leb,
  ◌==◌, Exec, Outcome, ok, raise, Error, ◌then_check◌, unless, when, after, replicate,
  contract_error, not_configured, runtime_error, validation_error, timeout_error,
}
use tt_lang.BlockState.{ThreadType, by_reserve, by_wait}
use tt_lang.Block.{Block, Span, new_block}
use tt_lang.Block.Slots.{Slots, for_range, pop_idx}

pub record DfbState (A : Type 0) : Type 0 where
  pub cap : ℕ
  pub buf : Slots A
  pub head : ℕ
  pub visible : ℕ
  pub reserved : ℕ
  pub step : Option ℕ
  pub last_wait_target : ℕ
  pub last_reserve_target : ℕ
  pub configured : Bool
  pub consumer_waiting : Option ℕ
  pub producer_reserving : Option ℕ
  pub shape : List ℕ

-- `DFBStats`
pub record DfbStats (A : Type 0) : Type 0 where
  pub capacity : ℕ
  pub stat_visible : ℕ
  pub stat_reserved : ℕ
  pub stat_free : ℕ
  pub stat_step : Option ℕ
  pub stat_head : ℕ
  pub slots : Slots A

-- `x != thread`, for an `x` that may be None
abbrev pub other_thread : Option ℕ → ℕ → Bool
other_thread none thread = false
other_thread (some x) thread = not (x == thread)

abbrev pub first_step : ℕ → Option ℕ → Option ℕ
first_step num_tiles none = some num_tiles
first_step num_tiles (some step) = some step

-- What a method returns behind checks that leave the object alone.
abbrev pub bind_check : Option Error → Outcome Block → Outcome Block
bind_check none r = r
bind_check (some e) r = raise e

module _ {A : Type 0} where
  -- `__init__`; the attribute `shape` has no value before `host_configure_dfb` sets it.
  abbrev pub new_state : DfbState A
  new_state = record {
    cap = 1;
    buf = [];
    head = 0;
    visible = 0;
    reserved = 0;
    step = none;
    last_wait_target = 0;
    last_reserve_target = 0;
    configured = false;
    consumer_waiting = none;
    producer_reserving = none;
    shape = [];
  }

  -- `require_configured` and `check_num_tiles`: what they raise, if anything.
  abbrev pub require_configured : DfbState A → Option Error
  require_configured s = unless s.configured not_configured

  abbrev pub check_num_tiles : ℕ → DfbState A → Option Error
  check_num_tiles num_tiles s =
      when (ltb s.cap num_tiles) contract_error
      then_check unless (s.cap % num_tiles == 0) contract_error

  abbrev pub free : DfbState A → ℕ
  free s = s.cap - (s.visible + s.reserved)

  abbrev pub front_span : ℕ → DfbState A → Span
  front_span len s = record { start = s.head; len = len }

  abbrev pub back_span : ℕ → DfbState A → Span
  back_span len s = record { start = (s.head + s.visible) % s.cap; len = len }

  -- `reset`; `last_reserve_target` stays as it is.
  unfoldable pub reset : DfbState A → DfbState A
  reset s = record s {
    buf = replicate s.cap none;
    head = 0;
    visible = 0;
    reserved = 0;
    step = none;
    last_wait_target = 0;
    consumer_waiting = none;
    producer_reserving = none;
    configured = true;
  }

  unfoldable pub host_configure_dfb : ℕ → List ℕ → DfbState A → DfbState A
  unfolding reset
  host_configure_dfb capacity_tiles shape s =
      reset (record s { cap = capacity_tiles; shape = shape })

  unfoldable pub host_reset_dfb : Exec (DfbState A) (Unit {0})
  unfolding reset
  host_reset_dfb s = after (unless s.configured contract_error) s (ok tt, reset s)

  unfoldable pub dfb_stats : Exec (DfbState A) (DfbStats A)
  dfb_stats s = after (require_configured s) s (
    ok (record {
      capacity = s.cap;
      stat_visible = s.visible;
      stat_reserved = s.reserved;
      stat_free = free s;
      stat_step = s.step;
      stat_head = s.head;
      slots = s.buf;
    }),
    s,
  )

  -- The checks that open the calls on `num_tiles` tiles: `@validate_call` refuses a size that is not
  -- positive.
  unfoldable pub checked : ℕ → DfbState A → Option Error
  checked num_tiles s =
      unless (ltb 0 num_tiles) validation_error
      then_check require_configured s
      then_check check_num_tiles num_tiles s

  unfoldable pub dfb_pages_available_at_front : ℕ → Exec (DfbState A) Bool
  dfb_pages_available_at_front num_tiles s =
      after (checked num_tiles s) s (ok (leb num_tiles s.visible), s)

  unfoldable pub dfb_pages_reservable_at_back : ℕ → Exec (DfbState A) Bool
  dfb_pages_reservable_at_back num_tiles s =
      after (checked num_tiles s) s (ok (leb num_tiles (free s)), s)

  -- `Condition.wait_for(test, timeout)`: the state in which the wait ends.
  abbrev pub wait_for : (DfbState A → DfbState A) → (DfbState A → Bool) → DfbState A → DfbState A
  wait_for meanwhile test s = if test s then s else meanwhile s

  -- The test on `step`: it is set by the first wait, and each later wait asks for `step` tiles more
  -- than the last one, until a pop.
  abbrev pub step_allows : ℕ → DfbState A → Option ℕ → Bool
  step_allows num_tiles s none = true
  step_allows num_tiles s (some step) = num_tiles == s.last_wait_target + step

  -- The end of `dfb_wait_front`, in the state `s` in which the wait ended.
  unfoldable pub finish_wait : ℕ → Exec (DfbState A) (Unit {0})
  finish_wait num_tiles s =
      after (unless (leb num_tiles s.visible) timeout_error) s
        (ok tt, record s { last_wait_target = num_tiles })

  -- Once the thread is recorded as the waiting one, a refusal on `step` leaves it recorded.
  unfoldable pub dfb_wait_front : (DfbState A → DfbState A) → ℕ → ℕ → Exec (DfbState A) (Unit {0})
  dfb_wait_front meanwhile thread num_tiles s =
      let s₁ = record s { consumer_waiting = some thread } in
      let s₂ = record s₁ { step = first_step num_tiles s.step } in
      after
        (checked num_tiles s
          then_check when (other_thread s.consumer_waiting thread) contract_error)
        s
        (after (unless (step_allows num_tiles s s.step) contract_error) s₁
          (finish_wait num_tiles (wait_for meanwhile (λ t. leb num_tiles t.visible) s₂)))

  unfoldable pub finish_reserve : ℕ → Exec (DfbState A) (Unit {0})
  finish_reserve num_tiles s =
      after (unless (leb num_tiles (free s)) timeout_error) s
        (ok tt, record s { reserved = num_tiles; last_reserve_target = num_tiles })

  unfoldable pub dfb_reserve_back : (DfbState A → DfbState A) → ℕ → ℕ → Exec (DfbState A) (Unit {0})
  dfb_reserve_back meanwhile thread num_tiles s =
      let s₁ = record s { producer_reserving = some thread } in
      after
        (checked num_tiles s
          then_check when (other_thread s.producer_reserving thread) contract_error)
        s
        (after (when (ltb num_tiles s.reserved) contract_error) s₁
          (finish_reserve num_tiles (wait_for meanwhile (λ t. leb num_tiles (free t)) s₁)))

  abbrev pub publish : ℕ → DfbState A → DfbState A
  publish num_tiles s = record s {
    reserved = s.reserved - num_tiles;
    visible = s.visible + num_tiles;
    producer_reserving = if s.reserved - num_tiles == 0 then none else s.producer_reserving;
  }

  -- The subtraction of `publish` runs only at `num_tiles ≤ reserved`.
  unfoldable pub dfb_push_back : ℕ → Exec (DfbState A) (Unit {0})
  dfb_push_back num_tiles s =
      after (checked num_tiles s then_check when (ltb s.reserved num_tiles) contract_error) s
        (ok tt, publish num_tiles s)

  abbrev pub retire : ℕ → DfbState A → DfbState A
  retire num_tiles s = record s {
    head = (s.head + num_tiles) % s.cap;
    visible = s.visible - num_tiles;
    last_wait_target = 0;
    consumer_waiting = if s.visible - num_tiles == 0 then none else s.consumer_waiting;
  }

  abbrev pub pop_view : ThreadType → ℕ → DfbState A → Block
  pop_view t num_tiles s = new_block s.cap (front_span num_tiles s) s.shape by_wait t false none

  -- The loop over the view, on the list that the view shares with the buffer.
  unfoldable pub pop_tiles : ThreadType → ℕ → DfbState A → Outcome (Unit {0}) × Slots A
  unfolding pop_idx new_block
  pop_tiles t num_tiles s = for_range (pop_idx (pop_view t num_tiles s)) 0 num_tiles s.buf

  -- The end of `dfb_pop_front`: a slot that holds nothing ends the loop, with the slots before it
  -- popped.
  abbrev pub finish_pop :
      ℕ → DfbState A → Outcome (Unit {0}) × Slots A → Outcome (Unit {0}) × DfbState A
  finish_pop num_tiles s (ok _, buf) = (ok tt, retire num_tiles (record s { buf = buf }))
  finish_pop num_tiles s (raise e, buf) = (raise e, record s { buf = buf })

  abbrev pub pop_refusal : ℕ → DfbState A → Option Error
  pop_refusal num_tiles s =
      checked num_tiles s then_check when (ltb s.visible num_tiles) contract_error

  -- `get_current_thread_type` raises where no thread runs.
  unfoldable pub dfb_pop_front : Option ThreadType → ℕ → Exec (DfbState A) (Unit {0})
  dfb_pop_front none num_tiles s = after (pop_refusal num_tiles s) s (raise runtime_error, s)
  dfb_pop_front (some t) num_tiles s =
      after (pop_refusal num_tiles s) s (finish_pop num_tiles s (pop_tiles t num_tiles s))

  abbrev pub read_refusal : DfbState A → Option Error
  read_refusal s =
      require_configured s
      then_check unless (ltb 0 s.last_wait_target) contract_error
      then_check when (ltb s.visible s.last_wait_target) contract_error

  abbrev pub write_refusal : DfbState A → Option Error
  write_refusal s =
      require_configured s
      then_check unless (ltb 0 s.last_reserve_target) contract_error
      then_check when (ltb s.reserved s.last_reserve_target) contract_error

  unfoldable pub get_read_ptr : Option ThreadType → DfbState A → Outcome Block
  get_read_ptr none s = bind_check (read_refusal s) (raise runtime_error)
  get_read_ptr (some t) s =
      bind_check (read_refusal s)
        (ok (new_block s.cap (front_span s.last_wait_target s) s.shape by_wait t false none))

  unfoldable pub get_write_ptr : Option ThreadType → DfbState A → Outcome Block
  get_write_ptr none s = bind_check (write_refusal s) (raise runtime_error)
  get_write_ptr (some t) s =
      bind_check (write_refusal s)
        (ok (new_block s.cap (back_span s.last_reserve_target s) s.shape by_reserve t false none))
