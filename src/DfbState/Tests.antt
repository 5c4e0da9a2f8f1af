-- ===== src/DfbState/Tests.antt =====
-- The theorems on circular buffers at a concrete buffer, which wraps around.
use tt_lang.Prelude.{
  ℕ, ◌≡◌, refl, [], ◌∷◌, ◌++◌, take, drop, length, set, none, some, true, false, ok, arith,
}
use tt_lang.BlockState.{dm, compute, by_reserve, by_wait}
use tt_lang.Block.{Block, new_block, check_can_write}
use tt_lang.Block.Slots.{Slots, write_slot}
use tt_lang.DfbState.{DfbState, checked, front_span, back_span, dfb_push_back, dfb_pop_front}
use tt_lang.DfbState.Calls.{
  History, waits, reserves, pushes, pops, writes, nothing, perform_all, perform_all-IsValid,
}
use tt_lang.DfbState.Inv.{IsValid, push_back-IsValid}
use tt_lang.DfbState.Fifo.{contents, staged, pop_front-contents, push_back-contents}
use tt_lang.DfbState.Views.{ViewsStaged, ViewsFront, write_slot-staged}

-- Two tiles in slots 3 and 0, and two reserved slots, 1 and 2.
abbrev ring : DfbState ℕ
ring = record {
  cap = 4;
  buf = some 10 ∷ some 11 ∷ none ∷ some 13 ∷ [];
  head = 3;
  visible = 2;
  reserved = 2;
  step = some 2;
  last_wait_target = 2;
  last_reserve_target = 2;
  configured = true;
  consumer_waiting = some 7;
  producer_reserving = some 7;
  shape = 1 ∷ 2 ∷ [];
}

-- The same tiles, with nothing acquired.
abbrev idle : DfbState ℕ
idle = record ring {
  reserved = 0;
  last_wait_target = 0;
  consumer_waiting = none;
  producer_reserving = none;
}

abbrev reader : Block
reader = record (new_block 4 (front_span 2 ring) (1 ∷ 2 ∷ []) by_wait dm false none) {
  span = record { start = 3; len = 2 };
}

abbrev writer : Block
writer = new_block 4 (back_span 2 ring) (1 ∷ 2 ∷ []) by_reserve dm false none

ring-IsValid : IsValid ring
ring-IsValid = ground arith

idle-IsValid : IsValid idle
idle-IsValid = ground arith

writer-ViewsStaged : ViewsStaged writer ring
unfolding new_block
writer-ViewsStaged = ground arith

reader-ViewsFront : ViewsFront reader ring
unfolding new_block
reader-ViewsFront = ground arith

push_back-IsValid_example : IsValid (dfb_push_back 2 ring).1
push_back-IsValid_example = push_back-IsValid 2 ring ring-IsValid

-- The producer waits for room; meanwhile the consumer pops what it waited for.
abbrev history : History ℕ
history =
    History.then
      (reserves (History.then (waits nothing 7 2) (History.then (pops (some dm) 2) nothing)) 9 3)
      (History.then (writes 1 5) (History.then (pushes 3) nothing))

perform_all-IsValid_example : IsValid (perform_all history idle)
perform_all-IsValid_example = perform_all-IsValid history idle idle-IsValid

pop_front-contents_example :
    (s' : DfbState ℕ) × (dfb_pop_front (some compute) 1 ring ≡ (ok tt, s'))
    × (contents s' ≡ some 10 ∷ [])
    × (staged s' ≡ staged ring)
unfolding checked
pop_front-contents_example =
    pop_front-contents compute 1 ring (13 ∷ []) (some 10 ∷ []) ring-IsValid refl refl refl

push_back-contents_example :
    (s' : DfbState ℕ) × (dfb_push_back 2 ring ≡ (ok tt, s'))
    × (contents s' ≡ contents ring ++ take 2 (staged ring))
    × (staged s' ≡ drop 2 (staged ring))
unfolding checked
push_back-contents_example = push_back-contents 2 ring refl (omega arith)

write_slot-staged_example :
    (buf : Slots ℕ) × (write_slot writer 1 99 ring.buf ≡ (ok tt, buf))
    × (contents (record ring { buf = buf }) ≡ contents ring)
    × (staged (record ring { buf = buf }) ≡ set (staged ring) 1 (some 99))
    × (length buf ≡ length ring.buf)
unfolding new_block check_can_write
write_slot-staged_example =
    write_slot-staged writer ring 1 99 ring-IsValid refl writer-ViewsStaged refl (omega arith)
