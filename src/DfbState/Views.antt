-- ===== src/DfbState/Views.antt =====
-- What a block that came from a read or write pointer sees of the buffer, while the other side of
-- the buffer goes on working.
use tt_lang.Prelude.{
  ℕ, ◌+◌, ◌-◌, ◌%◌, ◌≤◌, ◌<◌, ◌≡◌, refl, ap, sym, ◌∙◌, Option, none, some, true, false, ok,
  get_elem?, set, length, length-set, eq_of_some, arith, inr,
}
use native.Mathlib.Nat.{mod-lt, mod-add-mod, mod-mod}
use tt_lang.BlockState.{ThreadType}
use tt_lang.Block.{Block, new_block, check_can_read, check_can_write}
use tt_lang.Block.Slots.{Slots, get_item, write_slot, slot}
use tt_lang.Block.SlotLaws.{write_slot-ok, get_item-ok}
use tt_lang.DfbState.{DfbState, dfb_push_back, dfb_pop_front, get_read_ptr, get_write_ptr}
use tt_lang.DfbState.Inv.{IsValid}
use tt_lang.DfbState.Window.{window-set_out, window-set_in, get_elem?-window}
use tt_lang.DfbState.Fifo.{contents, staged, get_elem?_of_slot_at}

module _ {A : Type 0} where
  -- The block stands for the reserved slots.
  pub record ViewsStaged (b : Block) (s : DfbState A) : Type 0 where
    pub in_ring : b.is_temporary ≡ false
    pub ring_size : b.capacity ≡ s.cap
    pub first_slot : b.span.start % s.cap ≡ (s.head + s.visible) % s.cap
    pub size : b.span.len ≡ s.reserved

  -- The block stands for tiles at the front.
  pub record ViewsFront (b : Block) (s : DfbState A) : Type 0 where
    pub in_ring : b.is_temporary ≡ false
    pub ring_size : b.capacity ≡ s.cap
    pub first_slot : b.span.start ≡ s.head
    pub size : b.span.len ≤ s.visible

  pub get_write_ptr-ViewsStaged :
      (t : ThreadType) (s : DfbState A) {b : Block}
      → IsValid s
      → get_write_ptr (some t) s ≡ ok b
      → ViewsStaged b s
  unfolding get_write_ptr new_block
  get_write_ptr-ViewsStaged t s v e = ground (arith, mod-mod (s.head + s.visible) s.cap)

  pub get_read_ptr-ViewsFront :
      (t : ThreadType) (s : DfbState A) {b : Block}
      → IsValid s
      → get_read_ptr (some t) s ≡ ok b
      → ViewsFront b s
  unfolding get_read_ptr new_block
  get_read_ptr-ViewsFront t s v e = ground arith

  slot-staged :
      (b : Block) (s : DfbState A) (idx : ℕ)
      → ViewsStaged b s
      → slot b idx ≡ (s.head + s.visible + idx) % s.cap
  slot-staged b s idx w =
      rw (w.in_ring, w.ring_size)
        (sym (mod-add-mod b.span.start s.cap idx)
          ∙ ap (λ k. (k + idx) % s.cap) w.first_slot
          ∙ mod-add-mod (s.head + s.visible) s.cap idx)

  -- In a valid, configured buffer, a write at an index within a block that stands for the reserved
  -- slots and may be written sets that slot of the reserved ones, and changes neither the queue
  -- nor the number of slots.
  pub write_slot-staged :
      (b : Block) (s : DfbState A) (idx : ℕ) (x : A)
      → IsValid s
      → s.configured ≡ true
      → ViewsStaged b s
      → check_can_write b ≡ true
      → idx < b.span.len
      → (buf : Slots A) × (write_slot b idx x s.buf ≡ (ok tt, buf))
        × (contents (record s { buf = buf }) ≡ contents s)
        × (staged (record s { buf = buf }) ≡ set (staged s) idx (some x))
        × (length buf ≡ length s.buf)
  write_slot-staged b s idx x v c w can h =
      let q : ℕ = s.head + s.visible + idx in
      let k : slot b idx ≡ q % s.cap = slot-staged b s idx w in
      let stored = v.storage c in
      let inside : slot b idx < length s.buf = rw (k, stored) (mod-lt q v.cap_pos) in
      (
        set s.buf (slot b idx) (some x),
        write_slot-ok b idx h s.buf x can inside,
        rw k (window-set_out s.buf s.cap q s.head s.visible (some x) (inr (omega arith))),
        rw k (
            window-set_in s.buf s.cap (s.head + s.visible) idx s.reserved (some x) (omega arith)
              (omega arith) stored),
        length-set s.buf (slot b idx) (some x),
      )

  -- A read at an index within a block that stands for tiles at the front and may be read gives the
  -- tile at that place of the queue, where there is one, and changes nothing.
  pub get_item-front :
      (b : Block) (s : DfbState A) (idx : ℕ) (x : A)
      → ViewsFront b s
      → check_can_read b ≡ true
      → idx < b.span.len
      → get_elem? (contents s) idx ≡ some (some x)
      → get_item b idx s.buf ≡ (ok x, s.buf)
  get_item-front b s idx x w can h e =
      let k : slot b idx ≡ (s.head + idx) % s.cap =
        rw (w.in_ring, w.ring_size, w.first_slot) refl in
      get_item-ok b idx h s.buf x can (
        rw k (
          get_elem?_of_slot_at s.buf ((s.head + idx) % s.cap) x (
            eq_of_some
              (sym (get_elem?-window s.buf s.cap s.head idx s.visible (omega arith)) ∙ e))))

  -- In a valid buffer, a block that stands for the reserved slots still does after a pop, also
  -- after one that raises.
  pop_front-ViewsStaged :
      (t : Option ThreadType) (n : ℕ) (b : Block) (s : DfbState A)
      → IsValid s
      → ViewsStaged b s
      → ViewsStaged b (dfb_pop_front t n s).1
  unfolding dfb_pop_front
  pop_front-ViewsStaged none n b s v w = ground arith
  pop_front-ViewsStaged (some t) n b s v w =
      ground (arith, mod-add-mod (s.head + n) s.cap (s.visible - n))

  -- A block that stands for tiles at the front still does after a push, also after one that
  -- raises.
  push_back-ViewsFront :
      (n : ℕ) (b : Block) (s : DfbState A) → ViewsFront b s → ViewsFront b (dfb_push_back n s).1
  unfolding dfb_push_back
  push_back-ViewsFront n b s w = ground arith
