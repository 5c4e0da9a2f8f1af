-- ===== src/DataflowBuffer/Pop.antt =====
-- The consumer's side of a DataflowBuffer: pop.
use tt_lang.Prelude.{
  ℕ, ◌==◌, ◌≤◌, ◌≡◌, refl, subst, ap, sym, ◌∙◌, List, ◌++◌, Option, none, some, true, map, arith,
  length, ◌+◌, ◌-◌, take, drop, length-map, length-take, map-take-drop, Exec, ok, raise, Outcome,
}
use native.Mathlib.Nat.{mod-add-mod}
use tt_lang.BlockState.{ThreadType, ExpectedOp, mem_op}
use tt_lang.Block.{Block, released, mark_pop_complete}
use tt_lang.Block.Legal.{IsLegal}
use tt_lang.DfbState.{DfbState, dfb_pop_front}
use tt_lang.DfbState.Inv.{IsValid, checked-frame, pop_front-IsValid}
use tt_lang.DfbState.Fifo.{contents, staged, popped, pop_front-popped}
use tt_lang.DfbState.Window.{length-window}
use tt_lang.DataflowBuffer.{DataflowBuffer, on_state, pop_block}
use tt_lang.DataflowBuffer.Steps.{on_state-eq}
use tt_lang.DataflowBuffer.Sound.{cleared, IsFilled, IsReading, Reading, Writing, IsSound}

pop_legal :
    (b : Block)
    → IsLegal b
    → mem_op ExpectedOp.pop b.expected_ops ≡ true
    → mark_pop_complete b ≡ ok (released b)
unfolding mark_pop_complete
pop_legal b l e = ground arith

module _ {A : Type 0} (thread : ℕ) (t : ThreadType) where
  pop_buffer : DataflowBuffer A → DfbState A → DataflowBuffer A
  pop_buffer d s = record d {
    state = some (popped d.tiles_per_operation s);
    pending_waited_block = none;
  }

  pop_block-eq :
      (d : DataflowBuffer A) (s : DfbState A) (b : Block)
      → d.state ≡ some s
      → d.pending_waited_block ≡ some b
      → mark_pop_complete b ≡ ok (released b)
      → dfb_pop_front (some t) d.tiles_per_operation s ≡ (ok tt, popped d.tiles_per_operation s)
      → pop_block (some t) d ≡ (ok tt, pop_buffer d s)
  unfolding pop_block pop_buffer
  pop_block-eq d s b q p m e =
      let call : Exec (DfbState A) (Unit {0}) = dfb_pop_front (some t) d.tiles_per_operation in
      let d₁ : DataflowBuffer A = record d { pending_waited_block = none } in
      ap
        (λ (o : Option Block). elim o [
          | none ↦ on_state call d
          | some b ↦ elim (mark_pop_complete b) [ raise e ↦ (raise e, d) | ok _ ↦ on_state call d₁ ]
        ])
        p
      ∙ ap (λ (r : Outcome Block). elim r [ raise e ↦ (raise e, d) | ok _ ↦ on_state call d₁ ]) m
      ∙ on_state-eq call d₁ q e

  Writing-popped :
      (n : ℕ) (s : DfbState A) (o : Option Block)
      → IsValid s
      → n ≤ s.visible
      → staged (popped n s) ≡ staged s
      → Writing n s o
      → Writing n (popped n s) o
  unfolding popped
  Writing-popped n s none v l e w = w
  Writing-popped n s (some b) v l e w = record {
    back = ground (arith, mod-add-mod (s.head + n) s.cap (s.visible - n));
    held = w.held;
    legal = w.legal;
    reserved_for = w.reserved_for;
    filled = (w.filled.0, e ∙ w.filled.1);
  }

  popped-IsValid :
      (n : ℕ) (s : DfbState A)
      → IsValid s
      → dfb_pop_front (some t) n s ≡ (ok tt, popped n s)
      → IsValid (popped n s)
  popped-IsValid n s v e = subst IsValid (ap (λ r. r.1) e) (pop_front-IsValid (some t) n s v)

  pop_buffer-IsSound :
      (d : DataflowBuffer A) (s : DfbState A)
      → IsSound thread d s
      → d.tiles_per_operation ≤ s.visible
      → dfb_pop_front (some t) d.tiles_per_operation s ≡ (ok tt, popped d.tiles_per_operation s)
      → staged (popped d.tiles_per_operation s) ≡ staged s
      → IsFilled (contents (popped d.tiles_per_operation s))
      → IsSound thread (pop_buffer d s) (popped d.tiles_per_operation s)
  unfolding pop_buffer popped
  pop_buffer-IsSound d s v l e back fills =
      let n : ℕ = d.tiles_per_operation in
      record {
        in_pool = refl;
        valid = popped-IsValid n s v.valid e;
        checks = checked-frame n s (popped n s) refl refl v.checks;
        stepped = v.stepped;
        one_consumer = cleared (s.visible - n == 0) s.consumer_waiting v.one_consumer;
        one_producer = v.one_producer;
        filled = fills;
        reading = refl;
        writing = Writing-popped n s d.pending_reserved_block v.valid l back v.writing;
      }

  -- Pop of a block whose state machine expects it succeeds on a sound buffer, leaves a sound buffer
  -- with no pending block to read, and removes exactly the tiles of one operation from the front of
  -- the queue.
  pub pop_block-IsSound :
      (d : DataflowBuffer A) (s : DfbState A) (b : Block)
      → IsSound thread d s
      → d.pending_waited_block ≡ some b
      → mem_op ExpectedOp.pop b.expected_ops ≡ true
      → (d' : DataflowBuffer A) × (s' : DfbState A) × (vs : List A) × (pop_block (some t) d
          ≡ (ok tt, d'))
        × IsSound thread d' s'
        × (d'.pending_waited_block ≡ none)
        × (length vs ≡ d.tiles_per_operation)
        × (contents s ≡ map some vs ++ contents s')
  unfolding pop_buffer
  pop_block-IsSound d s b v p m =
      let n : ℕ = d.tiles_per_operation in
      let reading : IsReading n s b = subst (Reading n s) p v.reading in
      let us : List A = v.filled.0 in
      let front = reading.front in
      let within : n ≤ s.visible = omega (arith, front.size, reading.size) in
      let many : length us ≡ s.visible =
        sym (length-map some us)
        ∙ ap length (sym v.filled.1)
        ∙ length-window s.buf s.cap s.head s.visible in
      let vs : List A = take n us in
      let split : contents s ≡ map some vs ++ map some (drop n us) =
        v.filled.1 ∙ map-take-drop some n us in
      let len : length vs ≡ n = length-take n us (omega arith) in
      let (done, rest, back) =
        pop_front-popped t n s vs (map some (drop n us)) v.valid v.checks split len in
      (
        pop_buffer d s,
        popped n s,
        vs,
        pop_block-eq d s b v.in_pool p (pop_legal b reading.legal m) done,
        pop_buffer-IsSound d s v within done back (drop n us, rest),
        refl,
        len,
        split ∙ ap (λ r. map some vs ++ r) (sym rest),
      )
