-- ===== src/DataflowBuffer/Wait.antt =====
-- The consumer's side of a DataflowBuffer: wait.
use tt_lang.Prelude.{
  ℕ, ◌≤◌, ◌≡◌, ◌⊎◌, refl, subst, ap, ◌∙◌, inr, Option, none, some, true, false, arith, ok, raise,
  after, when, runtime_error,
}
use tt_lang.BlockState.{ThreadType}
use tt_lang.Block.{Block, new_block}
use tt_lang.DfbState.{DfbState, first_step, dfb_wait_front, step_allows, other_thread}
use tt_lang.DfbState.Inv.{checked-frame}
use tt_lang.DfbState.Fifo.{contents}
use tt_lang.DfbState.Acquire.{waited, read_block, wait_front-ok, read_ptr-ok}
use tt_lang.DataflowBuffer.{DataflowBuffer, has_block, acquire_read, wait, keep_read}
use tt_lang.DataflowBuffer.Steps.{then_do-ok}
use tt_lang.DataflowBuffer.Sound.{IsReading, Reading, Writing, IsSound}

first_step-stepped :
    (n : ℕ) (o : Option ℕ)
    → (o ≡ none) ⊎ (o ≡ some n)
    → (first_step n o ≡ none) ⊎ (first_step n o ≡ some n)
first_step-stepped n none h = inr refl
first_step-stepped n (some k) h = h

module _ {A : Type 0} (thread : ℕ) (t : ThreadType) where
  -- The block that `wait` returns, and the buffer that it leaves.
  pub wait_block : ℕ → ℕ → DfbState A → Block
  wait_block self n s = record (read_block t n s) { dfb = some self }

  pub wait_buffer : ℕ → DataflowBuffer A → DfbState A → DataflowBuffer A
  wait_buffer self d s = record d {
    state = some (waited thread d.tiles_per_operation s);
    pending_waited_block = some (wait_block self d.tiles_per_operation s);
  }

  allows :
      (d : DataflowBuffer A) (s : DfbState A)
      → IsSound thread d s
      → d.pending_waited_block ≡ none
      → (step_allows d.tiles_per_operation s s.step ≡ true)
        × (other_thread s.consumer_waiting thread ≡ false)
  allows d s v p =
      let none_waited : s.last_wait_target ≡ 0 =
        subst (Reading d.tiles_per_operation s) p v.reading in
      let stepped = v.stepped in let one = v.one_consumer in (ground arith, ground arith)

  Writing-waited :
      (n k : ℕ) (s : DfbState A) (o : Option Block)
      → Writing n s o
      → Writing n (waited thread k s) o
  Writing-waited n k s none w = w
  Writing-waited n k s (some b) w = record {
    back = ground arith;
    held = w.held;
    legal = w.legal;
    reserved_for = w.reserved_for;
    filled = w.filled;
  }

  wait_block-IsReading :
      (self n : ℕ) (s : DfbState A)
      → n ≤ s.visible
      → IsReading n (waited thread n s) (wait_block self n s)
  unfolding wait_block new_block
  wait_block-IsReading self n s l = record {
    front = ground arith;
    size = refl;
    target = refl;
    legal = ground arith;
    waited_for = refl;
  }

  pub wait_buffer-IsSound :
      (self : ℕ) (d : DataflowBuffer A) (s : DfbState A)
      → IsSound thread d s
      → d.tiles_per_operation ≤ s.visible
      → IsSound thread (wait_buffer self d s) (waited thread d.tiles_per_operation s)
  unfolding wait_buffer
  wait_buffer-IsSound self d s v l =
      let n : ℕ = d.tiles_per_operation in
      record {
        in_pool = refl;
        valid = ground arith;
        checks = checked-frame n s (waited thread n s) refl refl v.checks;
        stepped = first_step-stepped n s.step v.stepped;
        one_consumer = inr refl;
        one_producer = v.one_producer;
        filled = v.filled;
        reading = wait_block-IsReading self n s l;
        writing = Writing-waited n n s d.pending_reserved_block v.writing;
      }

  acquire_read-ok :
      (meanwhile : DfbState A → DfbState A) (self : ℕ) (d : DataflowBuffer A) (s : DfbState A)
      → IsSound thread d s
      → d.pending_waited_block ≡ none
      → d.tiles_per_operation ≤ s.visible
      → acquire_read meanwhile (some t) thread self d
        ≡ (ok (wait_block self d.tiles_per_operation s), wait_buffer self d s)
  unfolding acquire_read keep_read wait_block wait_buffer
  acquire_read-ok meanwhile self d s v p l =
      let n : ℕ = d.tiles_per_operation in
      let (st, one) = allows d s v p in
      then_do-ok (dfb_wait_front meanwhile thread n) (keep_read (some t) self) d v.in_pool
        (wait_front-ok meanwhile t thread n s v.checks one st l)
      ∙ rw (read_ptr-ok meanwhile t thread n s v.checks l, keep_read)

  wait-eq :
      (meanwhile : DfbState A → DfbState A) (self : ℕ)
      (others : DataflowBuffer A → DataflowBuffer A) (d : DataflowBuffer A) {s : DfbState A}
      → d.state ≡ some s
      → d.pending_waited_block ≡ none
      → wait meanwhile (some t) thread self others d
        ≡ acquire_read meanwhile (some t) thread self (others d)
  unfolding wait
  wait-eq meanwhile self others d q p =
      ap
        (λ (st : Option (DfbState A)). elim st [
          | none ↦ (raise runtime_error, d)
          | some _ ↦
              after (when (has_block d.pending_waited_block) runtime_error) d
                (acquire_read meanwhile (some t) thread self (others d))
        ])
        q
      ∙ ap
          (λ o.
            after (when (has_block o) runtime_error) d
              (acquire_read meanwhile (some t) thread self (others d)))
          p

  -- Wait on a buffer in the pool with no pending block, where the other threads leave a sound
  -- buffer with no pending block to read and with tiles enough for one operation: it succeeds and
  -- leaves a sound buffer, whose pending block is the one returned, with the queue as the other
  -- threads left it.
  pub wait-IsSound :
      (meanwhile : DfbState A → DfbState A) (self : ℕ)
      (others : DataflowBuffer A → DataflowBuffer A) (d : DataflowBuffer A) (s₀ s : DfbState A)
      → d.state ≡ some s₀
      → d.pending_waited_block ≡ none
      → IsSound thread (others d) s
      → (others d).pending_waited_block ≡ none
      → (others d).tiles_per_operation ≤ s.visible
      → (b : Block) × (d' : DataflowBuffer A) × (s' : DfbState A) × (wait meanwhile
            (some t)
            thread
            self
            others
            d
          ≡ (ok b, d'))
        × IsSound thread d' s'
        × (d'.pending_waited_block ≡ some b)
        × (contents s' ≡ contents s)
  unfolding wait_buffer
  wait-IsSound meanwhile self others d s₀ s q p v p' l =
      let n : ℕ = (others d).tiles_per_operation in
      (
        wait_block self n s,
        wait_buffer self (others d) s,
        waited thread n s,
        wait-eq meanwhile self others d q p ∙ acquire_read-ok meanwhile self (others d) s v p' l,
        wait_buffer-IsSound self (others d) s v l,
        refl,
        refl,
      )
