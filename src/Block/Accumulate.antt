-- ===== src/Block/Accumulate.antt =====
-- A block that a compute thread reserved sums up what is stored into it with `acc`.
use tt_lang.Prelude.{
  ℕ, zero, suc, ◌+◌, ◌≤◌, ◌<◌, ◌≡◌, refl, ap₂, sym, ◌∙◌, List, [], ◌∷◌, map, length, Option, some,
  true, false, ok, is_ok, Exec, >>=-ok, ◌>>◌, pure, get_elem?, get_elem?-set_self, arith,
}
use tt_lang.BlockState.{accumulate, ExpectedOp, compute, by_reserve}
use tt_lang.Block.{
  Block, Span, new_block, check_can_read, check_can_write, mark_store_complete, mark_push_complete,
}
use tt_lang.Block.Slots.{Slots}
use tt_lang.Block.Windows.{copy_items-window}
use tt_lang.Block.Store.{Heap, tensors, store, store_items, is_must_write}
use tt_lang.Block.StoreSteps.{store-tensors}
use tt_lang.Block.StoreLaws.{sums, length-sums, write_items-copy, add_items-copy}
use tt_lang.DfbState.Window.{window}

module _ (capacity : ℕ) (span : Span) (shape : List ℕ) (dfb : Option ℕ) where
  -- The block that a compute thread has just reserved, and the same once it sums up.
  unfoldable pub fresh : Block
  unfolding new_block
  fresh = new_block capacity span shape by_reserve compute false dfb

  unfoldable pub summing : Block
  unfolding fresh
  summing = record fresh {
    access_state = accumulate;
    expected_ops = ExpectedOp.store_src ∷ ExpectedOp.store_acc ∷ ExpectedOp.push ∷ [];
  }

module _ {A : Type 0} (capacity : ℕ) (span : Span) (r k : ℕ) where
  -- Block `r` of the heap is `b`, in ring `k`, with these tensors in its window.
  abbrev pub Holds : Heap A → Block → List A → Type 0
  Holds h b vs =
      (get_elem? h.cells r ≡ some (record { block = b; ring = k }))
      × (buf : Slots A) × (get_elem? h.rings k ≡ some buf)
      × (length buf ≡ capacity)
      × (window buf capacity span.start span.len ≡ map some vs)

module _ {A : Type 0} (add : A → A → A) where
  -- Stores with `acc`, one after the other.
  unfoldable pub store_all : ℕ → List (List A) → Exec (Heap A) (Unit {0})
  unfolding store
  store_all r [] = pure tt
  store_all r (vs ∷ vss) = store add r (tensors vs) true >> store_all r vss

  -- What they add up to, from the first one on.
  abbrev pub total : List A → List (List A) → List A
  total xs [] = xs
  total xs (ys ∷ yss) = total (sums add xs ys) yss

  abbrev pub HaveLength : ℕ → List (List A) → Type 0
  HaveLength n [] = Unit
  HaveLength n (vs ∷ vss) = (length vs ≡ n) × HaveLength n vss

  in_range : {B : Type 0} (xs : List B) (i : ℕ) {x : B} → get_elem? xs i ≡ some x → i < length xs
  in_range [] i e = absurd (cc)
  in_range (y ∷ ys) zero e = omega arith
  in_range (y ∷ ys) (suc i) e = let rest = in_range ys i e in omega arith

  module _ (capacity : ℕ) (span : Span) (shape : List ℕ) (dfb : Option ℕ)
      (fits : span.len ≤ capacity) (r k : ℕ) where
    stored :
        (h : Heap A) (b : Block) (vs : List A) (buf buf' : Slots A) (us : List A)
        → get_elem? h.cells r ≡ some (record { block = b; ring = k })
        → get_elem? h.rings k ≡ some buf
        → length vs ≡ b.span.len
        → check_can_write b ≡ true
        → mark_store_complete true b ≡ ok (summing capacity span shape dfb)
        → store_items add true
            (is_must_write b.access_state)
            (summing capacity span shape dfb)
            vs
            buf
          ≡ (ok tt, buf')
        → length buf' ≡ capacity
        → window buf' capacity span.start span.len ≡ map some us
        → (h' : Heap A) × (store add r (tensors vs) true h ≡ (ok tt, h'))
          × Holds capacity span r k h' (summing capacity span shape dfb) us
    stored h b vs buf buf' us e f l can m w size here =
        let e' =
          get_elem?-set_self h.cells r
            (record { block = (summing capacity span shape dfb); ring = k })
            (in_range h.cells r e) in
        (
          _,
          store-tensors add r vs true h b (summing capacity span shape dfb) k buf buf' e f l can m
              e' w,
          (e', buf', get_elem?-set_self h.rings k buf' (in_range h.rings k f), size, here),
        )

    -- The first store assigns.
    first_stored :
        (h : Heap A) (buf : Slots A) (vs : List A)
        → get_elem? h.cells r ≡ some (record { block = (fresh capacity span shape dfb); ring = k })
        → get_elem? h.rings k ≡ some buf
        → length buf ≡ capacity
        → length vs ≡ span.len
        → (h' : Heap A) × (store add r (tensors vs) true h ≡ (ok tt, h'))
          × Holds capacity span r k h' (summing capacity span shape dfb) vs
    unfolding fresh summing store_items check_can_write mark_store_complete
    first_stored h buf vs e f size l =
        let (buf', done, here, size', frame) =
          copy_items-window (summing capacity span shape dfb) vs 0 buf size (omega arith) in
        let start : span.start + 0 ≡ span.start = omega arith in
        stored h (fresh capacity span shape dfb) vs buf buf' vs e f l refl refl
          (write_items-copy add (summing capacity span shape dfb) refl refl vs 0 buf size
              (omega arith) fits
            ∙ done)
          (size' ∙ size) (sym (ap₂ (window buf' capacity) start l) ∙ here)

    -- Each later one adds.
    next_stored :
        (h : Heap A) (ws vs : List A)
        → Holds capacity span r k h (summing capacity span shape dfb) ws
        → length ws ≡ span.len
        → length vs ≡ span.len
        → (h' : Heap A) × (store add r (tensors vs) true h ≡ (ok tt, h'))
          × Holds capacity span r k h' (summing capacity span shape dfb) (sums add ws vs)
    unfolding summing fresh store_items check_can_write check_can_read mark_store_complete
    next_stored h ws vs (e, buf, f, size, here) l l' =
        let us : List A = sums add ws vs in
        let n : length us ≡ length vs = length-sums add ws vs (omega arith) in
        let (buf', done, here', size', frame) =
          copy_items-window (summing capacity span shape dfb) us 0 buf size (omega arith) in
        let start : span.start + 0 ≡ span.start = omega arith in
        let m : length us ≡ span.len = omega arith in
        stored h (summing capacity span shape dfb) vs buf buf' us e f l' refl refl
          (add_items-copy add (summing capacity span shape dfb) refl refl ws vs 0 buf refl
              (omega arith) size (omega arith) fits (ap₂ (window buf capacity) start l' ∙ here)
            ∙ done)
          (size' ∙ size) (sym (ap₂ (window buf' capacity) start m) ∙ here')

    all_stored :
        (vss : List (List A)) (h : Heap A) (ws : List A)
        → Holds capacity span r k h (summing capacity span shape dfb) ws
        → length ws ≡ span.len
        → HaveLength span.len vss
        → (h' : Heap A) × (store_all r vss h ≡ (ok tt, h'))
          × Holds capacity span r k h' (summing capacity span shape dfb) (total ws vss)
    unfolding store_all
    all_stored [] h ws p l ls = (h, refl, p)
    all_stored (vs ∷ vss) h ws p l (l', ls) =
        let (h₁, done, p₁) = next_stored h ws vs p l l' in
        let m : length (sums add ws vs) ≡ length vs = length-sums add ws vs (omega arith) in
        let (h₂, rest, p₂) = all_stored vss h₁ (sums add ws vs) p₁ (omega arith) ls in
        (h₂, >>=-ok (store add r (tensors vs) true) (λ _. store_all r vss) h done ∙ rest, p₂)

    -- Stores with `acc` into a block that a compute thread has just reserved, each of as many tensors
    -- as the block has slots, succeed, whatever the slots held before. The first one assigns and each
    -- later one adds, so that the block then holds the sums; and it can be pushed.
    pub store_all-total :
        (h : Heap A) (buf : Slots A) (xs : List A) (yss : List (List A))
        → get_elem? h.cells r ≡ some (record { block = (fresh capacity span shape dfb); ring = k })
        → get_elem? h.rings k ≡ some buf
        → length buf ≡ capacity
        → length xs ≡ span.len
        → HaveLength span.len yss
        → (h' : Heap A) × (store_all r (xs ∷ yss) h ≡ (ok tt, h'))
          × Holds capacity span r k h' (summing capacity span shape dfb) (total xs yss)
          × (is_ok (mark_push_complete (summing capacity span shape dfb)) ≡ true)
    unfolding store_all summing fresh mark_push_complete
    store_all-total h buf xs yss e f size l ls =
        let (h₁, done, p₁) = first_stored h buf xs e f size l in
        let (h₂, rest, p₂) = all_stored yss h₁ xs p₁ l ls in
        (h₂, >>=-ok (store add r (tensors xs) true) (λ _. store_all r yss) h done ∙ rest, p₂, refl)
