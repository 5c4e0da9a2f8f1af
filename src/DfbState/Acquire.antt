-- ===== src/DfbState/Acquire.antt =====
-- The calls that acquire tiles: when they succeed, and what the pointers then give.
use tt_lang.Prelude.{
  ℕ, ◌+◌, ◌≤◌, ◌<◌, ◌≡◌, refl, Option, none, some, true, false, ok, raise, contract_error, length,
  arith, le→leb,
}
use native.Mathlib.Nat.{mod-mod}
use tt_lang.BlockState.{ThreadType, by_reserve, by_wait}
use tt_lang.Block.{Block, new_block}
use tt_lang.DfbState.{
  DfbState, checked, other_thread, step_allows, first_step, free, front_span, back_span,
  finish_wait, finish_reserve, dfb_wait_front, dfb_reserve_back, dfb_push_back, dfb_pop_front,
  get_read_ptr, get_write_ptr,
}
use tt_lang.DfbState.Inv.{IsValid, checked-eq-none}
use tt_lang.DfbState.Window.{length-window}
use tt_lang.DfbState.Fifo.{contents, staged}
use tt_lang.DfbState.Views.{ViewsStaged, ViewsFront}

module _ {A : Type 0} where
  -- The state after a wait that found its tiles, and after a reservation that found its slots.
  abbrev pub waited : ℕ → ℕ → DfbState A → DfbState A
  waited thread n s = record s {
    consumer_waiting = some thread;
    step = first_step n s.step;
    last_wait_target = n;
  }

  abbrev pub with_reserved : ℕ → ℕ → DfbState A → DfbState A
  with_reserved thread n s = record s {
    producer_reserving = some thread;
    reserved = n;
    last_reserve_target = n;
  }

  abbrev pub read_block : ThreadType → ℕ → DfbState A → Block
  read_block t n s = new_block s.cap (front_span n s) s.shape by_wait t false none

  abbrev pub write_block : ThreadType → ℕ → DfbState A → Block
  write_block t n s = new_block s.cap (back_span n s) s.shape by_reserve t false none

module _ {A : Type 0} (meanwhile : DfbState A → DfbState A) (t : ThreadType) (thread n : ℕ)
    (s : DfbState A) (ch : checked n s ≡ none) where
  pub wait_front-ok :
      other_thread s.consumer_waiting thread ≡ false
      → step_allows n s s.step ≡ true
      → n ≤ s.visible
      → dfb_wait_front meanwhile thread n s ≡ (ok tt, waited thread n s)
  unfolding dfb_wait_front finish_wait
  wait_front-ok one st l = ground (arith, le→leb n s.visible l)

  pub read_ptr-ok :
      n ≤ s.visible → get_read_ptr (some t) (waited thread n s) ≡ ok (read_block t n s)
  unfolding get_read_ptr
  read_ptr-ok l = let c = checked-eq-none n s ch in ground arith

  pub reserve_back-ok :
      other_thread s.producer_reserving thread ≡ false
      → s.reserved ≤ n
      → n ≤ free s
      → dfb_reserve_back meanwhile thread n s ≡ (ok tt, with_reserved thread n s)
  unfolding dfb_reserve_back finish_reserve
  reserve_back-ok one grows l = ground arith

  pub write_ptr-ok : get_write_ptr (some t) (with_reserved thread n s) ≡ ok (write_block t n s)
  unfolding get_write_ptr
  write_ptr-ok = let c = checked-eq-none n s ch in ground arith

  pub read_block-ViewsFront : n ≤ s.visible → ViewsFront (read_block t n s) (waited thread n s)
  unfolding new_block
  read_block-ViewsFront l = ground arith

  pub write_block-ViewsStaged : ViewsStaged (write_block t n s) (with_reserved thread n s)
  unfolding new_block
  write_block-ViewsStaged = ground (arith, mod-mod (s.head + s.visible) s.cap)

  -- Where the checks on `n` pass, a wait for at most the visible tiles, with no other thread
  -- waiting and in the increments that the contract asks for, succeeds; the read pointer is then a
  -- block of the `n` tiles at the front, and the queue and the reserved slots are as before.
  pub wait_then_read :
      other_thread s.consumer_waiting thread ≡ false
      → step_allows n s s.step ≡ true
      → n ≤ s.visible
      → (s' : DfbState A) × (b : Block) × (dfb_wait_front meanwhile thread n s ≡ (ok tt, s'))
        × (get_read_ptr (some t) s' ≡ ok b)
        × ViewsFront b s'
        × (b.span.len ≡ n)
        × (contents s' ≡ contents s)
        × (staged s' ≡ staged s)
  unfolding new_block
  wait_then_read one st l = (
    waited thread n s,
    read_block t n s,
    wait_front-ok one st l,
    read_ptr-ok l,
    read_block-ViewsFront l,
    refl,
    refl,
    refl,
  )

  -- Where the checks on `n` pass, a reservation of at least what is reserved and at most what is
  -- free, with no other thread reserving, succeeds; the write pointer is then a block for the
  -- reserved slots, which are `n`, and the queue is as before.
  pub reserve_then_write :
      other_thread s.producer_reserving thread ≡ false
      → s.reserved ≤ n
      → n ≤ free s
      → (s' : DfbState A) × (b : Block) × (dfb_reserve_back meanwhile thread n s ≡ (ok tt, s'))
        × (get_write_ptr (some t) s' ≡ ok b)
        × ViewsStaged b s'
        × (length (staged s') ≡ n)
        × (contents s' ≡ contents s)
  reserve_then_write one grows l = (
    with_reserved thread n s,
    write_block t n s,
    reserve_back-ok one grows l,
    write_ptr-ok,
    write_block-ViewsStaged,
    length-window s.buf s.cap (s.head + s.visible) n,
    refl,
  )

module _ {A : Type 0} where
  -- Where the checks on `n` pass, a pop of more tiles than are visible and a push of more tiles than
  -- are reserved both raise the contract error, and leave the buffer as it is.
  pub over_release_refused :
      (t : Option ThreadType) (n : ℕ) (s : DfbState A)
      → checked n s ≡ none
      → s.visible < n
      → s.reserved < n
      → (dfb_pop_front t n s ≡ (raise contract_error, s))
        × (dfb_push_back n s ≡ (raise contract_error, s))
  unfolding dfb_pop_front dfb_push_back
  over_release_refused none n s ch v r = ground arith
  over_release_refused (some t) n s ch v r = ground arith

  -- In a valid, configured buffer with a wait target that is not 0, the read pointer is never
  -- refused: it is the block of as many tiles at the front as the target says.
  pub read_window_kept :
      (t : ThreadType) (s : DfbState A)
      → IsValid s
      → s.configured ≡ true
      → 0 < s.last_wait_target
      → get_read_ptr (some t) s
        ≡ ok (new_block s.cap (front_span s.last_wait_target s) s.shape by_wait t false none)
  unfolding get_read_ptr
  read_window_kept t s v c h = ground arith
