-- ===== src/DataflowBuffer/Push.antt =====
-- The producer's side of a DataflowBuffer: push.
use tt_lang.Prelude.{
  ℕ, ◌+◌, ◌-◌, ◌==◌, ◌≡◌, refl, subst, ap, sym, ◌∙◌, ◌++◌, map, Option, none, some, true, length,
  take_all, Exec, Outcome, ok, raise, arith,
}
use mathlib.Core.List.{map-append}
use tt_lang.BlockState.{ExpectedOp, mem_op}
use tt_lang.Block.{Block, released, mark_push_complete}
use tt_lang.Block.Legal.{IsLegal}
use tt_lang.DfbState.{DfbState, publish, dfb_push_back}
use tt_lang.DfbState.Inv.{IsValid, checked-frame, push_back-IsValid}
use tt_lang.DfbState.Window.{length-window}
use tt_lang.DfbState.Fifo.{contents, staged, push_back-published}
use tt_lang.DataflowBuffer.{DataflowBuffer, on_state, push_block}
use tt_lang.DataflowBuffer.Steps.{on_state-eq}
use tt_lang.DataflowBuffer.Sound.{cleared, IsFilled, IsWriting, Reading, Writing, IsSound}

push_legal :
    (b : Block)
    → IsLegal b
    → mem_op ExpectedOp.push b.expected_ops ≡ true
    → mark_push_complete b ≡ ok (released b)
unfolding mark_push_complete
push_legal b l e = ground arith

module _ {A : Type 0} (thread : ℕ) where
  push_buffer : DataflowBuffer A → DfbState A → DataflowBuffer A
  push_buffer d s = record d {
    state = some (publish d.tiles_per_operation s);
    pending_reserved_block = none;
  }

  push_block-eq :
      (d : DataflowBuffer A) (s : DfbState A) (b : Block)
      → d.state ≡ some s
      → d.pending_reserved_block ≡ some b
      → mark_push_complete b ≡ ok (released b)
      → dfb_push_back d.tiles_per_operation s ≡ (ok tt, publish d.tiles_per_operation s)
      → push_block d ≡ (ok tt, push_buffer d s)
  unfolding push_block push_buffer
  push_block-eq d s b q p m e =
      let call : Exec (DfbState A) (Unit {0}) = dfb_push_back d.tiles_per_operation in
      let d₁ : DataflowBuffer A = record d { pending_reserved_block = none } in
      ap
        (λ (o : Option Block). elim o [
          | none ↦ on_state call d
          | some b ↦ elim (mark_push_complete b) [
            | raise e ↦ (raise e, d)
            | ok _ ↦ on_state call d₁
          ]
        ])
        p
      ∙ ap (λ (r : Outcome Block). elim r [ raise e ↦ (raise e, d) | ok _ ↦ on_state call d₁ ]) m
      ∙ on_state-eq call d₁ q e

  Reading-published :
      (n : ℕ) (s : DfbState A) (o : Option Block) → Reading n s o → Reading n (publish n s) o
  Reading-published n s none r = r
  Reading-published n s (some b) r = record {
    front = ground arith;
    size = r.size;
    target = r.target;
    legal = r.legal;
    waited_for = r.waited_for;
  }

  push_buffer-IsSound :
      (d : DataflowBuffer A) (s : DfbState A)
      → IsSound thread d s
      → s.reserved ≡ d.tiles_per_operation
      → dfb_push_back d.tiles_per_operation s ≡ (ok tt, publish d.tiles_per_operation s)
      → IsFilled (contents (publish d.tiles_per_operation s))
      → IsSound thread (push_buffer d s) (publish d.tiles_per_operation s)
  unfolding push_buffer
  push_buffer-IsSound d s v held e fills =
      let n : ℕ = d.tiles_per_operation in
      record {
        in_pool = refl;
        valid = subst IsValid (ap (λ r. r.1) e) (push_back-IsValid n s v.valid);
        checks = checked-frame n s (publish n s) refl refl v.checks;
        stepped = v.stepped;
        one_consumer = v.one_consumer;
        one_producer = cleared (s.reserved - n == 0) s.producer_reserving v.one_producer;
        filled = fills;
        reading = Reading-published n s d.pending_waited_block v.reading;
        writing = omega arith;
      }

  -- Push of a block whose state machine expects it succeeds on a sound buffer, leaves a sound buffer
  -- with no pending block to write, and appends exactly the reserved slots, in order, to the queue.
  pub push_block-IsSound :
      (d : DataflowBuffer A) (s : DfbState A) (b : Block)
      → IsSound thread d s
      → d.pending_reserved_block ≡ some b
      → mem_op ExpectedOp.push b.expected_ops ≡ true
      → (d' : DataflowBuffer A) × (s' : DfbState A) × (push_block d ≡ (ok tt, d'))
        × IsSound thread d' s'
        × (d'.pending_reserved_block ≡ none)
        × (length (staged s) ≡ d.tiles_per_operation)
        × (contents s' ≡ contents s ++ staged s)
  unfolding push_buffer
  push_block-IsSound d s b v p m =
      let n : ℕ = d.tiles_per_operation in
      let writing : IsWriting n s b = subst (Writing n s) p v.writing in
      let size : length (staged s) ≡ n =
        length-window s.buf s.cap (s.head + s.visible) s.reserved ∙ writing.held in
      let (done, front, back) = push_back-published n s v.checks (omega (arith, writing.held)) in
      let whole : contents (publish n s) ≡ contents s ++ staged s =
        front ∙ ap (λ r. contents s ++ r) (take_all n (staged s) size) in
      let (us, eu) = v.filled in
      let (ws, ew) = writing.filled in
      let fills : contents (publish n s) ≡ map some (us ++ ws) =
        whole
        ∙ ap (λ r. r ++ staged s) eu
        ∙ ap (λ r. map some us ++ r) ew
        ∙ sym (map-append some us ws) in
      (
        push_buffer d s,
        publish n s,
        push_block-eq d s b v.in_pool p (push_legal b writing.legal m) done,
        push_buffer-IsSound d s v writing.held done (us ++ ws, fills),
        refl,
        size,
        whole,
      )
