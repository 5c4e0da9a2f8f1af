-- ===== src/Block/StoreLaws.antt =====
-- What stores leave in a block that a compute thread reserved.
use native.Mathlib.Nat.{mod-lt}
use tt_lang.Prelude.{
  ℕ, suc, ◌+◌, ◌≤◌, ◌<◌, ◌≡◌, refl, ap, sym, ◌∙◌, subst, inl, List, [], ◌∷◌, map, length, some,
  true, false, ok, ◌>>=◌, >>=-ok, set, length-set, get_elem?, arith,
}
use tt_lang.Block.{Block, check_can_read, check_can_write}
use tt_lang.Block.Slots.{Slots, put, write_slot, get_item, copy_items, ring_slot, slot}
use tt_lang.Block.SlotLaws.{put_in_range, write_slot-ok, get_item-ok}
use tt_lang.Block.Store.{write_items, add_items}
use tt_lang.DfbState.Window.{slot_at, window, window-set_out}

module _ {A : Type 0} (add : A → A → A) where
  -- Two lists of tensors, added up tile by tile.
  abbrev pub sums : List A → List A → List A
  sums [] vs = []
  sums (w ∷ ws) [] = []
  sums (w ∷ ws) (v ∷ vs) = add w v ∷ sums ws vs

  pub length-sums : (ws vs : List A) → length ws ≡ length vs → length (sums ws vs) ≡ length vs
  length-sums [] [] e = refl
  length-sums [] (v ∷ vs) e = absurd (omega arith)
  length-sums (w ∷ ws) [] e = absurd (omega arith)
  length-sums (w ∷ ws) (v ∷ vs) e = ap suc (length-sums ws vs (omega arith))

  slot_at-eq-some :
      (buf : Slots A) (i : ℕ) {v : A} → slot_at buf i ≡ some v → get_elem? buf i ≡ some (some v)
  slot_at-eq-some buf i e = ground arith

  module _ (b : Block) (own : b.is_temporary ≡ false) (can : check_can_write b ≡ true) where
    inside :
        (i : ℕ) (buf : Slots A)
        → length buf ≡ b.capacity
        → 0 < b.capacity
        → ring_slot b i < length buf
    inside i buf size h = subst (λ n. ring_slot b i < n) (sym size) (mod-lt (b.span.start + i) h)

    written :
        (i : ℕ) (v : A) (buf : Slots A)
        → length buf ≡ b.capacity
        → i < b.span.len
        → b.span.len ≤ b.capacity
        → write_slot b i v buf ≡ (ok tt, set buf (ring_slot b i) (some v))
    written i v buf size h fits =
        let same : slot b i ≡ ring_slot b i = rw own refl in
        write_slot-ok b i h buf v can
          (subst (λ k. k < length buf) (sym same) (inside i buf size (omega arith)))
        ∙ ap (λ k. (ok tt, set buf k (some v))) same

    pub write_items-copy :
        (vs : List A) (i : ℕ) (buf : Slots A)
        → length buf ≡ b.capacity
        → i + length vs ≤ b.span.len
        → b.span.len ≤ b.capacity
        → write_items b i vs buf ≡ copy_items b i vs buf
    unfolding write_items copy_items
    write_items-copy [] i buf size h fits = refl
    write_items-copy (v ∷ vs) i buf size h fits =
        let buf₁ : Slots A = set buf (ring_slot b i) (some v) in
        >>=-ok (write_slot b i v) (λ _. write_items b (suc i) vs) buf
          (written i v buf size (omega arith) fits)
        ∙ write_items-copy vs (suc i) buf₁ (length-set buf (ring_slot b i) (some v) ∙ size)
            (omega arith) fits
        ∙ sym (
            >>=-ok (put (ring_slot b i) (some v)) (λ _. copy_items b (suc i) vs) buf
              (put_in_range buf (ring_slot b i) (some v) (inside i buf size (omega arith))))

    pub add_items-copy :
        (ws vs : List A) (i : ℕ) (buf : Slots A)
        → check_can_read b ≡ true
        → length ws ≡ length vs
        → length buf ≡ b.capacity
        → i + length vs ≤ b.span.len
        → b.span.len ≤ b.capacity
        → window buf b.capacity (b.span.start + i) (length vs) ≡ map some ws
        → add_items add b i vs buf ≡ copy_items b i (sums ws vs) buf
    unfolding add_items copy_items
    add_items-copy [] [] i buf r l size h fits e = refl
    add_items-copy [] (v ∷ vs) i buf r l size h fits e = absurd (omega arith)
    add_items-copy (w ∷ ws) [] i buf r l size h fits e = absurd (omega arith)
    add_items-copy (w ∷ ws) (v ∷ vs) i buf r l size h fits e =
        let p : ℕ = b.span.start + i in
        let buf₁ : Slots A = set buf (ring_slot b i) (some (add w v)) in
        let same : slot b i ≡ ring_slot b i = rw own refl in
        let here : slot_at buf (ring_slot b i) ≡ some w = cc in
        let there : window buf b.capacity (suc p) (length vs) ≡ map some ws = cc in
        let next : suc p ≡ b.span.start + suc i = omega arith in
        let read : get_item b i buf ≡ (ok w, buf) =
          get_item-ok b i (omega arith) buf w r
            (ap (get_elem? buf) same ∙ slot_at-eq-some buf (ring_slot b i) here) in
        let rest : window buf₁ b.capacity (b.span.start + suc i) (length vs) ≡ map some ws =
          ap (λ k. window buf₁ b.capacity k (length vs)) (sym next)
          ∙ window-set_out buf b.capacity p (suc p) (length vs) (some (add w v)) (inl (omega arith))
          ∙ there in
        >>=-ok (get_item b i >>= λ u. write_slot b i (add u v)) (λ _. add_items add b (suc i) vs)
          buf
          (>>=-ok (get_item b i) (λ u. write_slot b i (add u v)) buf read
            ∙ written i (add w v) buf size (omega arith) fits)
        ∙ add_items-copy ws vs (suc i) buf₁ r (omega arith)
            (length-set buf (ring_slot b i) (some (add w v)) ∙ size) (omega arith) fits rest
        ∙ sym (
            >>=-ok (put (ring_slot b i) (some (add w v))) (λ _. copy_items b (suc i) (sums ws vs))
              buf
              (put_in_range buf (ring_slot b i) (some (add w v)) (inside i buf size (omega arith))))
