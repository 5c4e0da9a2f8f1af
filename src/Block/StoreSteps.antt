-- ===== src/Block/StoreSteps.antt =====
-- One store of tensors, from what its parts do.
use tt_lang.Prelude.{
  ℕ, ◌≡◌, ap, ◌∙◌, List, length, some, Bool, true, ◌&&◌, ◌==◌, Outcome, ok, Exec, >>=-ok, ◌>>◌, set,
  get_elem?, arith,
}
use tt_lang.Block.{Block, check_can_write, mark_store_complete}
use tt_lang.Block.Slots.{Slots}
use tt_lang.Block.Store.{
  Heap, Cell, tensors, store, store_items, items_of, mark_sources, mark, marked_in, run_in, in_ring,
  found, on_slots, block_at, is_must_write,
}

module _ {A : Type 0} where
  block_at-some :
      (r : ℕ) (h : Heap A) (c : Cell) → get_elem? h.cells r ≡ some c → block_at r h ≡ (ok c, h)
  unfolding block_at
  block_at-some r h c e = rw (e, found)

  mark-ok :
      (r : ℕ) (h : Heap A) (c : Cell) (m : Block → Outcome Block) (b : Block)
      → get_elem? h.cells r ≡ some c
      → m c.block ≡ ok b
      → mark r m h ≡ (ok tt, record h { cells = set h.cells r (record c { block = b }) })
  unfolding mark
  mark-ok r h c m b e f =
      >>=-ok (block_at r) (λ c. marked_in r c (m c.block)) h (block_at-some r h c e)
      ∙ ap (λ o. marked_in r c o h) f

  on_slots-run :
      {B : Type 0} (r : ℕ) (h : Heap A) (c : Cell) (m : Block → Exec (Slots A) B)
      (buf buf' : Slots A) (x : Outcome B)
      → get_elem? h.cells r ≡ some c
      → get_elem? h.rings c.ring ≡ some buf
      → m c.block buf ≡ (x, buf')
      → on_slots r m h ≡ (x, record h { rings = set h.rings c.ring buf' })
  unfolding on_slots
  on_slots-run r h c m buf buf' x e f g =
      >>=-ok (block_at r) (λ c. λ h. run_in c.ring (m c.block) (found (get_elem? h.rings c.ring)) h)
        h (block_at-some r h c e)
      ∙ ap (λ o. run_in c.ring (m c.block) (found o) h) f
      ∙ ap (λ o. in_ring c.ring o h) g

module _ {A : Type 0} (add : A → A → A) where
  pub store-tensors :
      (r : ℕ) (vs : List A) (acc : Bool) (h : Heap A) (b b' : Block) (k : ℕ) (buf buf' : Slots A)
      → get_elem? h.cells r ≡ some (record { block = b; ring = k })
      → get_elem? h.rings k ≡ some buf
      → length vs ≡ b.span.len
      → check_can_write b ≡ true
      → mark_store_complete acc b ≡ ok b'
      → get_elem? (set h.cells r (record { block = b'; ring = k })) r
        ≡ some (record { block = b'; ring = k })
      → store_items add acc (acc && is_must_write b.access_state) b' vs buf ≡ (ok tt, buf')
      → store add r (tensors vs) acc h ≡ (
        ok tt,
        record {
          cells = set h.cells r (record { block = b'; ring = k });
          rings = set h.rings k buf';
        },
      )
  unfolding store items_of mark_sources mark on_slots block_at
  store-tensors r vs acc h b b' k buf buf' e f l can m e' w =
      let same : (length vs == b.span.len) ≡ true = ground arith in
      let c : Cell = record { block = b; ring = k } in
      let c' : Cell = record { block = b'; ring = k } in
      let first : Bool = acc && is_must_write b.access_state in
      let h' : Heap A = record h { cells = set h.cells r c' } in
      rw (e, found, same, can)
        (>>=-ok (block_at r)
            (λ c.
              mark r (mark_store_complete acc)
              >> on_slots r
                  (λ b. store_items add acc (acc && is_must_write c.block.access_state) b vs))
            h (block_at-some r h c e)
          ∙ >>=-ok (mark r (mark_store_complete acc))
              (λ _. on_slots r (λ b. store_items add acc first b vs)) h
              (mark-ok r h c (mark_store_complete acc) b' e m)
          ∙ on_slots-run r h' c' (λ b. store_items add acc first b vs) buf buf' (ok tt) e' f w)
