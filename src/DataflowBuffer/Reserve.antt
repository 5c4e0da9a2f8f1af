-- ===== src/DataflowBuffer/Reserve.antt =====
-- The producer's side of a DataflowBuffer: reserve.
use tt_lang.Prelude.{
  ℕ, ◌≤◌, ◌≡◌, refl, subst, ap, ◌∙◌, inr, Option, none, some, true, length, ok, raise, after, when,
  runtime_error, arith,
}
use tt_lang.BlockState.{ThreadType, by_reserve}
use tt_lang.Block.{Block, new_block, check_can_write}
use tt_lang.Block.Slots.{Slots}
use tt_lang.Block.Legal.{IsLegal}
use tt_lang.DfbState.{DfbState, checked, free, dfb_reserve_back}
use tt_lang.DfbState.Inv.{checked-frame, checked-eq-none}
use tt_lang.DfbState.Fifo.{contents, staged}
use tt_lang.DfbState.Views.{ViewsStaged}
use tt_lang.DfbState.Acquire.{
  with_reserved, write_block, reserve_back-ok, write_ptr-ok, write_block-ViewsStaged,
}
use tt_lang.DataflowBuffer.{
  DataflowBuffer, has_block, fill, hold_write, acquire_write, reserve, keep_write,
}
use tt_lang.DataflowBuffer.Steps.{then_do-ok}
use tt_lang.DataflowBuffer.Fill.{fill_ok}
use tt_lang.DataflowBuffer.Sound.{IsFilled, Reading, Writing, IsSound}

module _ {A : Type 0} (thread : ℕ) (t : ThreadType) where
  -- The block that `reserve` returns, the ring with its slots filled, and the buffer.
  reserve_block : ℕ → ℕ → DfbState A → Block
  reserve_block self n s = record (write_block t n s) { dfb = some self }

  filled_state : ℕ → DfbState A → Slots A → DfbState A
  filled_state n s buf = record (with_reserved thread n s) { buf = buf }

  reserve_buffer : ℕ → DataflowBuffer A → DfbState A → Slots A → DataflowBuffer A
  reserve_buffer self d s buf = record d {
    state = some (filled_state d.tiles_per_operation s buf);
    pending_reserved_block = some (reserve_block self d.tiles_per_operation s);
  }

  reserve_block-ViewsStaged :
      (self n : ℕ) (s : DfbState A)
      → checked n s ≡ none
      → ViewsStaged (reserve_block self n s) (with_reserved thread n s)
  unfolding reserve_block
  reserve_block-ViewsStaged self n s ch =
      let w = write_block-ViewsStaged (λ r. r) t thread n s ch in
      record {
        in_ring = w.in_ring;
        ring_size = w.ring_size;
        first_slot = w.first_slot;
        size = w.size;
      }

  reserve_block-writable :
      (self n : ℕ) (s : DfbState A) → check_can_write (reserve_block self n s) ≡ true
  unfolding reserve_block new_block check_can_write
  reserve_block-writable self n s = ground arith

  reserve_block-IsLegal :
      (self n : ℕ) (s : DfbState A)
      → IsLegal (reserve_block self n s) × ((reserve_block self n s).acquisition ≡ by_reserve)
  unfolding reserve_block new_block
  reserve_block-IsLegal self n s = ground arith

  Reading-filled :
      (n : ℕ) (s : DfbState A) (buf : Slots A) (o : Option Block)
      → Reading n s o
      → Reading n (filled_state n s buf) o
  unfolding filled_state
  Reading-filled n s buf none r = r
  Reading-filled n s buf (some b) r = record {
    front = ground arith;
    size = r.size;
    target = r.target;
    legal = r.legal;
    waited_for = r.waited_for;
  }

  reserve_buffer-IsSound :
      (self : ℕ) (d : DataflowBuffer A) (s : DfbState A) (buf : Slots A)
      → IsSound thread d s
      → d.tiles_per_operation ≤ free s
      → length buf ≡ length s.buf
      → contents (filled_state d.tiles_per_operation s buf) ≡ contents s
      → IsFilled (staged (filled_state d.tiles_per_operation s buf))
      → IsSound thread (reserve_buffer self d s buf) (filled_state d.tiles_per_operation s buf)
  unfolding reserve_buffer filled_state
  reserve_buffer-IsSound self d s buf v l size same fills =
      let n : ℕ = d.tiles_per_operation in
      let s' : DfbState A = filled_state n s buf in
      let c = checked-eq-none n s v.checks in
      let w = reserve_block-ViewsStaged self n s v.checks in
      let (legal, acquired) = reserve_block-IsLegal self n s in
      record {
        in_pool = refl;
        valid = ground arith;
        checks = checked-frame n s s' refl refl v.checks;
        stepped = v.stepped;
        one_consumer = v.one_consumer;
        one_producer = inr refl;
        filled = (v.filled.0, same ∙ v.filled.1);
        reading = Reading-filled n s buf d.pending_waited_block v.reading;
        writing = record {
          back = record {
            in_ring = w.in_ring;
            ring_size = w.ring_size;
            first_slot = w.first_slot;
            size = w.size;
          };
          held = refl;
          legal = legal;
          reserved_for = acquired;
          filled = fills;
        };
      }

  keep_write-ok :
      (z : A) (self : ℕ) (d : DataflowBuffer A) (s : DfbState A) (buf : Slots A)
      → checked d.tiles_per_operation s ≡ none
      → fill
          (reserve_block self d.tiles_per_operation s)
          z
          (with_reserved thread d.tiles_per_operation s)
        ≡ (ok tt, filled_state d.tiles_per_operation s buf)
      → keep_write
          (some t)
          self
          z
          (record d { state = some (with_reserved thread d.tiles_per_operation s) })
        ≡ (ok (reserve_block self d.tiles_per_operation s), reserve_buffer self d s buf)
  unfolding reserve_block reserve_buffer filled_state hold_write keep_write
  keep_write-ok z self d s buf ch e =
      let n : ℕ = d.tiles_per_operation in
      let b : Block = reserve_block self n s in
      rw (write_ptr-ok (λ r. r) t thread n s ch, keep_write)
        (then_do-ok (fill b z) (λ d'. (ok b, record d' { pending_reserved_block = some b }))
          (record d { state = some (with_reserved thread n s) }) refl e)

  acquire_write-ok :
      (z : A) (meanwhile : DfbState A → DfbState A) (self : ℕ) (d : DataflowBuffer A)
      (s : DfbState A) (buf : Slots A)
      → IsSound thread d s
      → d.pending_reserved_block ≡ none
      → d.tiles_per_operation ≤ free s
      → fill
          (reserve_block self d.tiles_per_operation s)
          z
          (with_reserved thread d.tiles_per_operation s)
        ≡ (ok tt, filled_state d.tiles_per_operation s buf)
      → acquire_write meanwhile (some t) thread self z d
        ≡ (ok (reserve_block self d.tiles_per_operation s), reserve_buffer self d s buf)
  unfolding acquire_write
  acquire_write-ok z meanwhile self d s buf v p l e =
      let n : ℕ = d.tiles_per_operation in
      let none_held : s.reserved ≡ 0 = subst (Writing n s) p v.writing in
      let one = v.one_producer in
      then_do-ok (dfb_reserve_back meanwhile thread n) (keep_write (some t) self z) d v.in_pool
        (reserve_back-ok meanwhile t thread n s v.checks (ground arith) (omega arith) l)
      ∙ keep_write-ok z self d s buf v.checks e

  reserve-eq :
      (z : A) (meanwhile : DfbState A → DfbState A) (self : ℕ)
      (others : DataflowBuffer A → DataflowBuffer A) (d : DataflowBuffer A) {s : DfbState A}
      → d.state ≡ some s
      → d.pending_reserved_block ≡ none
      → reserve meanwhile (some t) thread self others z d
        ≡ acquire_write meanwhile (some t) thread self z (others d)
  unfolding reserve
  reserve-eq z meanwhile self others d q p =
      let rest = acquire_write meanwhile (some t) thread self z (others d) in
      ap
        (λ (st : Option (DfbState A)). elim st [
          | none ↦ (raise runtime_error, d)
          | some _ ↦ after (when (has_block d.pending_reserved_block) runtime_error) d rest
        ])
        q
      ∙ ap (λ o. after (when (has_block o) runtime_error) d rest) p

  -- Reserve on a buffer in the pool with no pending block, where the other threads leave a sound
  -- buffer with no pending block to write and with free slots enough for one operation: it
  -- succeeds and leaves a sound buffer, whose pending block is the one returned and whose reserved
  -- slots all hold a tensor, with the queue as the other threads left it.
  pub reserve-IsSound :
      (z : A) (meanwhile : DfbState A → DfbState A) (self : ℕ)
      (others : DataflowBuffer A → DataflowBuffer A) (d : DataflowBuffer A) (s₀ s : DfbState A)
      → d.state ≡ some s₀
      → d.pending_reserved_block ≡ none
      → IsSound thread (others d) s
      → (others d).pending_reserved_block ≡ none
      → (others d).tiles_per_operation ≤ free s
      → (b : Block) × (d' : DataflowBuffer A) × (s' : DfbState A) × (reserve meanwhile
            (some t)
            thread
            self
            others
            z
            d
          ≡ (ok b, d'))
        × IsSound thread d' s'
        × (d'.pending_reserved_block ≡ some b)
        × IsFilled (staged s')
        × (contents s' ≡ contents s)
  unfolding reserve_buffer filled_state
  reserve-IsSound z meanwhile self others d s₀ s q p v p' l =
      let d₁ : DataflowBuffer A = others d in
      let n : ℕ = d₁.tiles_per_operation in
      let c = checked-eq-none n s v.checks in
      let r : DfbState A = with_reserved thread n s in
      let (buf, done, same, fills, size) =
        fill_ok z (reserve_block self n s) (reserve_block-writable self n s) r (ground arith)
          c.was_configured (reserve_block-ViewsStaged self n s v.checks) in
      (
        reserve_block self n s,
        reserve_buffer self d₁ s buf,
        filled_state n s buf,
        reserve-eq z meanwhile self others d q p
            ∙ acquire_write-ok z meanwhile self d₁ s buf v p' l done,
        reserve_buffer-IsSound self d₁ s buf v l size same fills,
        refl,
        fills,
        same,
      )
