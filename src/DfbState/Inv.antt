-- ===== src/DfbState/Inv.antt =====
-- The representation invariant of a circular buffer, and that every call keeps it, also a call that
-- raises half-way.
use tt_lang.Prelude.{
  ℕ, zero, suc, ◌+◌, ◌%◌, ◌≤◌, ◌<◌, ◌≡◌, refl, List, Option, none, some, true, length, length-set,
  length-replicate, arith, Bool, inl, inr, Bool-cases, leb,
}
use tt_lang.BlockState.{ThreadType}
use tt_lang.Block.{Block}
use tt_lang.Block.Slots.{Slots, for_range, pop_idx}
use tt_lang.DfbState.{
  DfbState, free, checked, wait_for, first_step, finish_wait, finish_reserve, pop_tiles, pop_view,
  host_configure_dfb, host_reset_dfb, dfb_wait_front, dfb_reserve_back, dfb_push_back,
  dfb_pop_front,
}

pub record IsValid {A : Type 0} (s : DfbState A) : Type 0 where
  pub cap_pos : 0 < s.cap
  pub storage : s.configured ≡ true → length s.buf ≡ s.cap
  pub head_in : s.head < s.cap
  pub within : s.visible + s.reserved ≤ s.cap
  pub wait_within : s.last_wait_target ≤ s.visible
  pub reserve_within : s.reserved ≤ s.last_reserve_target

module _ {A : Type 0} where
  length-pop_idx : (b : Block) (i : ℕ) (buf : Slots A) → length (pop_idx b i buf).1 ≡ length buf
  unfolding pop_idx
  length-pop_idx b i buf = ground (arith, length-set buf ((b.span.start + i) % b.capacity) none)

  pub length-pop_loop :
      (b : Block) (first count : ℕ) (buf : Slots A)
      → length (for_range (pop_idx b) first count buf).1 ≡ length buf
  length-pop_loop b first zero buf = refl
  length-pop_loop b first (suc count) buf = ground (
    arith,
    length-pop_idx b first buf,
    length-pop_loop b (suc first) count (pop_idx b first buf).1,
  )

  pub length-pop_tiles :
      (t : ThreadType) (n : ℕ) (s : DfbState A) → length (pop_tiles t n s).1 ≡ length s.buf
  unfolding pop_tiles
  length-pop_tiles t n s = length-pop_loop (pop_view t n s) 0 n s.buf

  -- What the checks that open most calls find.
  pub record Checked (n : ℕ) (s : DfbState A) : Type 0 where
    pub size_pos : 0 < n
    pub was_configured : s.configured ≡ true
    pub fits : n ≤ s.cap
    pub divides : s.cap % n ≡ 0

  pub checked-eq-none : (n : ℕ) (s : DfbState A) → checked n s ≡ none → Checked n s
  unfolding checked
  checked-eq-none n s e = ground arith

  -- The checks read the capacity and the flag alone.
  pub checked-frame :
      (n : ℕ) (s s' : DfbState A)
      → s'.cap ≡ s.cap
      → s'.configured ≡ s.configured
      → checked n s ≡ none
      → checked n s' ≡ none
  unfolding checked
  checked-frame n s s' e f h = ground arith

  pub configure-IsValid :
      (capacity : ℕ) (shape : List ℕ) (s : DfbState A)
      → 0 < capacity
      → IsValid (host_configure_dfb capacity shape s)
  unfolding host_configure_dfb
  configure-IsValid capacity shape s h =
      ground (arith, length-replicate {A = Option A} capacity none)

  pub reset-IsValid : (s : DfbState A) → IsValid s → IsValid (host_reset_dfb s).1
  unfolding host_reset_dfb
  reset-IsValid s v = ground (arith, length-replicate {A = Option A} s.cap none)

  -- A push keeps the invariant, whether it succeeds or raises.
  pub push_back-IsValid : (n : ℕ) (s : DfbState A) → IsValid s → IsValid (dfb_push_back n s).1
  unfolding dfb_push_back
  push_back-IsValid n s v = ground arith

  -- A pop keeps the invariant, whether it succeeds, is refused, or raises half-way at a slot that
  -- holds nothing.
  pub pop_front-IsValid :
      (thr : Option ThreadType) (n : ℕ) (s : DfbState A)
      → IsValid s
      → IsValid (dfb_pop_front thr n s).1
  unfolding dfb_pop_front
  pop_front-IsValid none n s v = ground arith
  pop_front-IsValid (some t) n s v = ground (arith, length-pop_tiles t n s)

  module _ (meanwhile : DfbState A → DfbState A)
      (keeps : (t : DfbState A) → IsValid t → IsValid (meanwhile t)) where
    finish_wait-IsValid : (n : ℕ) (s : DfbState A) → IsValid s → IsValid (finish_wait n s).1
    unfolding finish_wait
    finish_wait-IsValid n s v = ground arith

    finish_reserve-IsValid : (n : ℕ) (s : DfbState A) → IsValid s → IsValid (finish_reserve n s).1
    unfolding finish_reserve
    finish_reserve-IsValid n s v = ground arith

    wait_for-IsValid :
        (test : DfbState A → Bool) (s : DfbState A)
        → IsValid s
        → IsValid (wait_for meanwhile test s)
    wait_for-IsValid test s v = elim (Bool-cases (test s)) [
      | inl e ↦ rw e v
      | inr e ↦ rw e (keeps s v)
    ]

    -- A wait keeps the invariant, whether it succeeds, is refused or times out, if what other threads
    -- do while it waits keeps it.
    pub wait_front-IsValid :
        (thread n : ℕ) (s : DfbState A)
        → IsValid s
        → IsValid (dfb_wait_front meanwhile thread n s).1
    unfolding dfb_wait_front
    wait_front-IsValid thread n s v =
        let s₂ : DfbState A = record s {
          consumer_waiting = some thread;
          step = first_step n s.step;
        } in
        let test : DfbState A → Bool = λ t. leb n t.visible in
        ground (
          arith,
          finish_wait-IsValid n (wait_for meanwhile test s₂)
              (wait_for-IsValid test s₂ (omega arith)),
        )

    -- A reservation keeps the invariant, whether it succeeds, is refused or times out, if what other
    -- threads do while it waits keeps it.
    pub reserve_back-IsValid :
        (thread n : ℕ) (s : DfbState A)
        → IsValid s
        → IsValid (dfb_reserve_back meanwhile thread n s).1
    unfolding dfb_reserve_back
    reserve_back-IsValid thread n s v =
        let s₁ : DfbState A = record s { producer_reserving = some thread } in
        let test : DfbState A → Bool = λ t. leb n (free t) in
        ground (
          arith,
          finish_reserve-IsValid n (wait_for meanwhile test s₁)
              (wait_for-IsValid test s₁ (omega arith)),
        )
