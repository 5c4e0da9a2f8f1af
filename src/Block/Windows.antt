-- ===== src/Block/Windows.antt =====
-- Loops of class Block that fill a window of the ring.
use native.Mathlib.Nat.{mod-lt}
use tt_lang.Prelude.{
  ℕ, suc, ◌+◌, ◌%◌, ◌≤◌, ◌<◌, ◌≡◌, refl, ap, ap₂, sym, ◌∙◌, subst, inl, List, [], ◌∷◌, map, length,
  none, some, true, ◌==◌, ok, >>=-ok, set, length-set, get_elem?-set_ne, arith,
}
use tt_lang.Block.{Block}
use tt_lang.Block.Slots.{Slots, put, copy_items, copy_as_dest}
use tt_lang.Block.SlotLaws.{put_in_range}
use tt_lang.DfbState.Window.{Apart, Apart-suc, mod_ne_of_Apart, slot_at, slot_at-set, window}

module _ {A : Type 0} (b : Block) where
  -- The items end up in the slots of the block, in order; the other slots are left alone.
  pub copy_items-window :
      (vs : List A) (i : ℕ) (buf : Slots A)
      → length buf ≡ b.capacity
      → length vs ≤ b.capacity
      → (buf' : Slots A) × (copy_items b i vs buf ≡ (ok tt, buf'))
        × (window buf' b.capacity (b.span.start + i) (length vs) ≡ map some vs)
        × (length buf' ≡ length buf)
        × ((q : ℕ)
            → Apart b.capacity q (b.span.start + i) (length vs)
            → slot_at buf' (q % b.capacity) ≡ slot_at buf (q % b.capacity))
  unfolding copy_items
  copy_items-window [] i buf size fits = (buf, refl, refl, refl, λ q h. refl)
  copy_items-window (v ∷ vs) i buf size fits =
      let cap : ℕ = b.capacity in
      let p : ℕ = b.span.start + i in
      let next : p + 1 ≡ b.span.start + suc i = omega arith in
      let next' : suc p ≡ b.span.start + suc i = omega arith in
      let inside : p % cap < length buf =
        subst (λ n. p % cap < n) (sym size) (mod-lt p (omega arith)) in
      let buf₁ : Slots A = set buf (p % cap) (some v) in
      let (buf', done, here, size', frame) =
        copy_items-window vs (suc i) buf₁ (length-set buf (p % cap) (some v) ∙ size)
          (omega arith) in
      (
        buf',
        >>=-ok (put (p % cap) (some v)) (λ _. copy_items b (suc i) vs) buf
              (put_in_range buf (p % cap) (some v) inside)
            ∙ done,
        ap₂ (λ a as'. a ∷ as')
            (frame p (inl (omega arith)) ∙ slot_at-set buf (p % cap) (some v) inside)
            (ap (λ k. window buf' cap k (length vs)) next' ∙ here),
        size' ∙ length-set buf (p % cap) (some v),
        λ q h.
            frame q (subst (λ k. Apart cap q k (length vs)) next' (Apart-suc cap q p (length vs) h))
            ∙ ap (λ o. elim o [ none ↦ none | some w ↦ w ])
                (get_elem?-set_ne buf (p % cap) (q % cap) (some v)
                  (λ e. mod_ne_of_Apart cap q p (length vs) h (sym e))),
      )

  pub copy_as_dest-window :
      (vs : List A) (buf : Slots A)
      → length buf ≡ b.capacity
      → length vs ≡ b.span.len
      → b.span.len ≤ b.capacity
      → (buf' : Slots A) × (copy_as_dest b vs buf ≡ (ok tt, buf'))
        × (window buf' b.capacity b.span.start b.span.len ≡ map some vs)
        × (length buf' ≡ length buf)
  unfolding copy_as_dest
  copy_as_dest-window vs buf size len fits =
      let (buf', done, here, size', frame) = copy_items-window vs 0 buf size (omega arith) in
      let same : (length vs == b.span.len) ≡ true = ground arith in
      let first : b.span.start + 0 ≡ b.span.start = omega arith in
      (buf', rw same done, sym (ap₂ (window buf' b.capacity) first len) ∙ here, size')
