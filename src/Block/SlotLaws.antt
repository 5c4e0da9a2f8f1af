-- ===== src/Block/SlotLaws.antt =====
-- The slot methods of class Block where their checks pass.
use tt_lang.Prelude.{
  ℕ, ◌<◌, ◌≡◌, ◌∙◌, Option, none, some, true, ok, get_elem?, set, length, lt→ltb, ◌>>=◌, >>=-ok,
}
use tt_lang.Block.{Block, check_can_read, check_can_write}
use tt_lang.Block.Slots.{
  Slots, load, put, value_or_raise, get_item, write_slot, pop_idx, slot, ring_slot,
}

module _ {A : Type 0} where
  pub load-some :
      (buf : Slots A) (i : ℕ) (v : A)
      → get_elem? buf i ≡ some (some v)
      → load i buf ≡ (ok (some v), buf)
  unfolding load
  load-some buf i v e = rw (e, load)

  pub put_in_range :
      (buf : Slots A) (i : ℕ) (v : Option A) → i < length buf → put i v buf ≡ (ok tt, set buf i v)
  unfolding put
  put_in_range buf i v l = rw (lt→ltb i (length buf) l)

  module _ (b : Block) (idx : ℕ) (inside : idx < b.span.len) where
    pub pop_idx-some :
        (buf : Slots A) (v : A)
        → ring_slot b idx < length buf
        → get_elem? buf (ring_slot b idx) ≡ some (some v)
        → pop_idx b idx buf ≡ (ok tt, set buf (ring_slot b idx) none)
    unfolding pop_idx
    pop_idx-some buf v l e = rw (lt→ltb idx b.span.len inside) (
        >>=-ok (load (ring_slot b idx)) (λ w. value_or_raise w >>= λ _. put (ring_slot b idx) none)
          buf (load-some buf (ring_slot b idx) v e)
        ∙ put_in_range buf (ring_slot b idx) none l)

    pub write_slot-ok :
        (buf : Slots A) (v : A)
        → check_can_write b ≡ true
        → slot b idx < length buf
        → write_slot b idx v buf ≡ (ok tt, set buf (slot b idx) (some v))
    unfolding write_slot
    write_slot-ok buf v can l =
        rw (can, lt→ltb idx b.span.len inside) (put_in_range buf (slot b idx) (some v) l)

    pub get_item-ok :
        (buf : Slots A) (v : A)
        → check_can_read b ≡ true
        → get_elem? buf (slot b idx) ≡ some (some v)
        → get_item b idx buf ≡ (ok v, buf)
    unfolding get_item
    get_item-ok buf v can e =
        rw (can, lt→ltb idx b.span.len inside)
          (>>=-ok (load (slot b idx)) value_or_raise buf (load-some buf (slot b idx) v e))
