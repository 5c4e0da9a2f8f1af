-- ===== src/DataflowBuffer/Fill.antt =====
-- The zero tensors that `reserve` writes through the new block.
use tt_lang.Prelude.{
  ℕ, zero, suc, ◌+◌, ◌≡◌, refl, ap, sym, ◌∙◌, List, [], ◌∷◌, ◌++◌, map, some, true, Option, ok,
  length, length-map, length-append, set, set-append, >>=-ok, arith,
}
use mathlib.Core.List.{map-append, append_assoc, append-nil}
use tt_lang.Block.{Block, check_can_write}
use tt_lang.Block.Slots.{Slots, for_range, write_slot}
use tt_lang.DfbState.{DfbState}
use tt_lang.DfbState.Inv.{IsValid}
use tt_lang.DfbState.Fifo.{contents, staged}
use tt_lang.DfbState.Window.{length-window}
use tt_lang.DfbState.Views.{ViewsStaged, write_slot-staged}
use tt_lang.DataflowBuffer.{fill}
use tt_lang.DataflowBuffer.Sound.{IsFilled}

module _ {A : Type 0} (z : A) (b : Block) (can : check_can_write b ≡ true) where
  set_next :
      (pre : List A) (y : Option A) (ys : List (Option A))
      → set (map some pre ++ (y ∷ ys)) (length pre) (some z) ≡ map some (pre ++ (z ∷ [])) ++ ys
  set_next pre y ys =
      ap (λ k. set (map some pre ++ (y ∷ ys)) k (some z)) (sym (length-map some pre))
      ∙ set-append (map some pre) y ys (some z)
      ∙ sym (append_assoc (map some pre) (some z ∷ []) ys)
      ∙ ap (λ r. r ++ ys) (sym (map-append some pre (z ∷ [])))

  -- From slot `first` on, with the slots before it filled.
  fill_loop :
      (first count : ℕ) (s : DfbState A) (pre : List A) (ys : List (Option A))
      → IsValid s
      → s.configured ≡ true
      → ViewsStaged b s
      → first + count ≡ b.span.len
      → length pre ≡ first
      → length ys ≡ count
      → staged s ≡ map some pre ++ ys
      → (buf : Slots A) × (for_range (λ i. write_slot b i z) first count s.buf ≡ (ok tt, buf))
        × (contents (record s { buf = buf }) ≡ contents s)
        × IsFilled (staged (record s { buf = buf }))
        × (length buf ≡ length s.buf)
  fill_loop first zero s pre [] v c w h lp ly e =
      (s.buf, refl, refl, (pre, e ∙ append-nil (map some pre)), refl)
  fill_loop first zero s pre (y ∷ ys) v c w h lp ly e = absurd (omega arith)
  fill_loop first (suc count) s pre [] v c w h lp ly e = absurd (omega arith)
  fill_loop first (suc count) s pre (y ∷ ys) v c w h lp ly e =
      let (buf, done, same, wrote, size) = write_slot-staged b s first z v c w can (omega arith) in
      let s' : DfbState A = record s { buf = buf } in
      let v' : IsValid s' = ground arith in
      let w' : ViewsStaged b s' = ground arith in
      let lp' : length (pre ++ (z ∷ [])) ≡ suc first = length-append pre (z ∷ []) ∙ omega arith in
      let e' : staged s' ≡ map some (pre ++ (z ∷ [])) ++ ys =
        wrote
        ∙ ap (λ r. set r first (some z)) e
        ∙ ap (λ k. set (map some pre ++ (y ∷ ys)) k (some z)) (sym lp)
        ∙ set_next pre y ys in
      let (last, rest, same', filled, size') =
        fill_loop (suc first) count s' (pre ++ (z ∷ [])) ys v' c w' (omega arith) lp' (omega arith)
          e' in
      (
        last,
        >>=-ok (write_slot b first z) (λ _. for_range (λ i. write_slot b i z) (suc first) count)
              s.buf done
            ∙ rest,
        same' ∙ same,
        filled,
        size' ∙ size,
      )

  pub fill_ok :
      (s : DfbState A)
      → IsValid s
      → s.configured ≡ true
      → ViewsStaged b s
      → (buf : Slots A) × (fill b z s ≡ (ok tt, record s { buf = buf }))
        × (contents (record s { buf = buf }) ≡ contents s)
        × IsFilled (staged (record s { buf = buf }))
        × (length buf ≡ length s.buf)
  unfolding fill
  fill_ok s v c w =
      let size : length (staged s) ≡ b.span.len =
        length-window s.buf s.cap (s.head + s.visible) s.reserved ∙ sym w.size in
      let (buf, done, same, filled, len) =
        fill_loop 0 b.span.len s [] (staged s) v c w (omega arith) refl size refl in
      (buf, ap (λ r. (r.0, record s { buf = r.1 })) done, same, filled, len)
