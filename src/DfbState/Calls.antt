-- ===== src/DfbState/Calls.antt =====
-- Whole histories of a circular buffer: calls of any threads, in any order, with the calls that run
-- while a wait or a reservation waits.
use tt_lang.Prelude.{ℕ, Option, some, set, length-set, arith}
use tt_lang.BlockState.{ThreadType}
use tt_lang.DfbState.{
  DfbState, dfb_wait_front, dfb_reserve_back, dfb_push_back, dfb_pop_front, host_reset_dfb,
}
use tt_lang.DfbState.Inv.{
  IsValid, reset-IsValid, push_back-IsValid, pop_front-IsValid, wait_front-IsValid,
  reserve_back-IsValid,
}

mutual
  -- A call on the buffer, or a write to a slot through a block. The histories in `waits` and
  -- `reserves` are what others do meanwhile.
  pub data Call (A : Type 0) : Type 0 where
    waits : History A → ℕ → ℕ → Call A
    reserves : History A → ℕ → ℕ → Call A
    pushes : ℕ → Call A
    pops : Option ThreadType → ℕ → Call A
    resets : Call A
    writes : ℕ → A → Call A

  pub data History (A : Type 0) : Type 0 where
    nothing : History A
    then : Call A → History A → History A

module _ {A : Type 0} where
  unfoldable mutual
    unfolding dfb_wait_front dfb_reserve_back dfb_push_back dfb_pop_front host_reset_dfb

    -- The buffer after a call, whether it returned or raised.
    pub perform : Call A → DfbState A → DfbState A
    perform (waits meanwhile thread n) s = (dfb_wait_front (perform_all meanwhile) thread n s).1
    perform (reserves meanwhile thread n) s =
        (dfb_reserve_back (perform_all meanwhile) thread n s).1
    perform (pushes n) s = (dfb_push_back n s).1
    perform (pops thr n) s = (dfb_pop_front thr n s).1
    perform resets s = (host_reset_dfb s).1
    perform (writes i v) s = record s { buf = set s.buf i (some v) }

    pub perform_all : History A → DfbState A → DfbState A
    perform_all nothing s = s
    perform_all (then c cs) s = perform_all cs (perform c s)

  mutual
    unfolding perform

    perform_keeps : (c : Call A) (s : DfbState A) → IsValid s → IsValid (perform c s)
    perform_keeps (waits meanwhile thread n) s v =
        wait_front-IsValid (perform_all meanwhile) (perform_all_keeps meanwhile) thread n s v
    perform_keeps (reserves meanwhile thread n) s v =
        reserve_back-IsValid (perform_all meanwhile) (perform_all_keeps meanwhile) thread n s v
    perform_keeps (pushes n) s v = push_back-IsValid n s v
    perform_keeps (pops thr n) s v = pop_front-IsValid thr n s v
    perform_keeps resets s v = reset-IsValid s v
    perform_keeps (writes i w) s v = ground (arith, length-set s.buf i (some w))

    perform_all_keeps : (h : History A) (s : DfbState A) → IsValid s → IsValid (perform_all h s)
    perform_all_keeps nothing s v = v
    perform_all_keeps (then c cs) s v = perform_all_keeps cs (perform c s) (perform_keeps c s v)

  -- A history of calls keeps the invariant of a circular buffer, whichever of its calls succeed, are
  -- refused, time out or raise half-way, and whatever runs while one of them waits.
  pub perform_all-IsValid : (h : History A) (s : DfbState A) → IsValid s → IsValid (perform_all h s)
  perform_all-IsValid h s v = perform_all_keeps h s v
