-- ===== src/DataflowBuffer/Tests.antt =====
-- The theorems on a DataflowBuffer at concrete buffers.
use tt_lang.Prelude.{
  ℕ, ◌≡◌, refl, inl, inr, List, [], ◌∷◌, ◌++◌, map, length, none, some, true, false, ok, arith,
}
use tt_lang.BlockState.{read_write, must_read, dm, by_reserve, by_wait, ExpectedOp}
use tt_lang.Block.{Block}
use tt_lang.DfbState.{DfbState, checked}
use tt_lang.DfbState.Fifo.{contents, staged}
use tt_lang.DataflowBuffer.{DataflowBuffer, wait, reserve, push_block, pop_block}
use tt_lang.DataflowBuffer.Sound.{IsFilled, IsSound}
use tt_lang.DataflowBuffer.Wait.{wait-IsSound}
use tt_lang.DataflowBuffer.Reserve.{reserve-IsSound}
use tt_lang.DataflowBuffer.Pop.{pop_block-IsSound}
use tt_lang.DataflowBuffer.Push.{push_block-IsSound}

-- Two tiles per operation, in a ring of four; the two visible tiles lie in slots 2 and 3.
abbrev idle_ring : DfbState ℕ
idle_ring = record {
  cap = 4;
  buf = none ∷ none ∷ some 20 ∷ some 30 ∷ [];
  head = 2;
  visible = 2;
  reserved = 0;
  step = some 2;
  last_wait_target = 0;
  last_reserve_target = 2;
  configured = true;
  consumer_waiting = none;
  producer_reserving = none;
  shape = 1 ∷ 2 ∷ [];
}

abbrev idle : DataflowBuffer ℕ
idle = record {
  shape = 1 ∷ 2 ∷ [];
  buffer_factor = 2;
  pending_reserved_block = none;
  pending_waited_block = none;
  tiles_per_operation = 2;
  capacity_tiles = 4;
  state = some idle_ring;
}

-- The same with both sides at work: a block that was waited for and copied from, and a reserved
-- block that was copied to.
abbrev busy_ring : DfbState ℕ
busy_ring = record idle_ring {
  buf = some 0 ∷ some 1 ∷ some 20 ∷ some 30 ∷ [];
  reserved = 2;
  last_wait_target = 2;
  consumer_waiting = some 7;
  producer_reserving = some 7;
}

abbrev reader : Block
reader = record {
  capacity = 4;
  span = record { start = 2; len = 2 };
  shape = 1 ∷ 2 ∷ [];
  acquisition = by_wait;
  thread_type = dm;
  access_state = read_write;
  expected_ops = ExpectedOp.copy_dst ∷ ExpectedOp.copy_src ∷ ExpectedOp.pop ∷ [];
  is_temporary = false;
  source_blocks = [];
  dfb = some 0;
}

abbrev writer : Block
writer = record reader {
  span = record { start = 0; len = 2 };
  acquisition = by_reserve;
  access_state = must_read;
  expected_ops = ExpectedOp.push ∷ ExpectedOp.copy_src ∷ [];
}

abbrev busy : DataflowBuffer ℕ
busy = record idle {
  pending_reserved_block = some writer;
  pending_waited_block = some reader;
  state = some busy_ring;
}

idle-IsSound : IsSound 7 idle idle_ring
unfolding checked
idle-IsSound = record {
  in_pool = refl;
  valid = ground arith;
  checks = refl;
  stepped = inr refl;
  one_consumer = inl refl;
  one_producer = inl refl;
  filled = (20 ∷ 30 ∷ [], refl);
  reading = refl;
  writing = refl;
}

busy-IsSound : IsSound 7 busy busy_ring
unfolding checked
busy-IsSound = record {
  in_pool = refl;
  valid = ground arith;
  checks = refl;
  stepped = inr refl;
  one_consumer = inr refl;
  one_producer = inr refl;
  filled = (20 ∷ 30 ∷ [], refl);
  reading = record {
    front = record { in_ring = refl; ring_size = refl; first_slot = refl; size = omega arith };
    size = refl;
    target = refl;
    legal = record { in_ring = refl; on_diagram = refl };
    waited_for = refl;
  };
  writing = record {
    back = record { in_ring = refl; ring_size = refl; first_slot = refl; size = refl };
    held = refl;
    legal = record { in_ring = refl; on_diagram = refl };
    reserved_for = refl;
    filled = (0 ∷ 1 ∷ [], refl);
  };
}

wait-IsSound_example :
    (b : Block) × (d' : DataflowBuffer ℕ) × (s' : DfbState ℕ) × (wait
        (λ s. s)
        (some dm)
        7
        0
        (λ d. d)
        idle
      ≡ (ok b, d'))
    × IsSound 7 d' s'
    × (d'.pending_waited_block ≡ some b)
    × (contents s' ≡ contents idle_ring)
wait-IsSound_example =
    wait-IsSound 7 dm (λ s. s) 0 (λ d. d) idle idle_ring idle_ring refl refl idle-IsSound refl
      (omega arith)

reserve-IsSound_example :
    (b : Block) × (d' : DataflowBuffer ℕ) × (s' : DfbState ℕ) × (reserve
        (λ s. s)
        (some dm)
        7
        0
        (λ d. d)
        0
        idle
      ≡ (ok b, d'))
    × IsSound 7 d' s'
    × (d'.pending_reserved_block ≡ some b)
    × IsFilled (staged s')
    × (contents s' ≡ contents idle_ring)
reserve-IsSound_example =
    reserve-IsSound 7 dm 0 (λ s. s) 0 (λ d. d) idle idle_ring idle_ring refl refl idle-IsSound refl
      (omega arith)

pop_block-IsSound_example :
    (d' : DataflowBuffer ℕ) × (s' : DfbState ℕ) × (vs : List ℕ) × (pop_block (some dm) busy
      ≡ (ok tt, d'))
    × IsSound 7 d' s'
    × (d'.pending_waited_block ≡ none)
    × (length vs ≡ 2)
    × (contents busy_ring ≡ map some vs ++ contents s')
pop_block-IsSound_example = pop_block-IsSound 7 dm busy busy_ring reader busy-IsSound refl refl

push_block-IsSound_example :
    (d' : DataflowBuffer ℕ) × (s' : DfbState ℕ) × (push_block busy ≡ (ok tt, d'))
    × IsSound 7 d' s'
    × (d'.pending_reserved_block ≡ none)
    × (length (staged busy_ring) ≡ 2)
    × (contents s' ≡ contents busy_ring ++ staged busy_ring)
push_block-IsSound_example = push_block-IsSound 7 busy busy_ring writer busy-IsSound refl refl
