-- ===== src/Copy/PipeTests.antt =====
-- A concrete block that goes through a pipe.
use tt_lang.Prelude.{pos, ℕ, ◌≡◌, refl, [], ◌∷◌, none, some, false, ok, arith}
use tt_lang.BlockState.{no_access_reading, no_access_writing, ExpectedOp, dm, by_reserve, by_wait}
use tt_lang.Block.{Block, check_can_read}
use tt_lang.Block.Slots.{Slots}
use tt_lang.CoreContext.{CoreCoord, grid_size}
use tt_lang.DfbState.Window.{window}
use tt_lang.Pipe.{Dst, Item, expand_core_range}
use tt_lang.PipeQueue.Order.{pending}
use tt_lang.Copy.Pipes.{
  PipeEnd, bare, src_identity, dst_identity, num_receivers, get_or_create_pipe_entry, block_to_pipe,
  pipe_to_block, pipe_handlers,
}
use tt_lang.Copy.Handlers.{block, pipe}
use tt_lang.Copy.RoundTrip.{pipe_to_block-block_to_pipe}

-- A waited block and a reserved one, each with its copy in flight.
abbrev source : Block
source = record {
  capacity = 4;
  span = record { start = 3; len = 2 };
  shape = 2 ∷ 1 ∷ [];
  acquisition = by_wait;
  thread_type = dm;
  access_state = no_access_reading;
  expected_ops = ExpectedOp.tx_wait ∷ [];
  is_temporary = false;
  source_blocks = [];
  dfb = none;
}

abbrev target : Block
target = record source {
  span = record { start = 0; len = 2 };
  acquisition = by_reserve;
  access_state = no_access_writing;
}

abbrev source_ring : Slots ℕ
source_ring = some 21 ∷ none ∷ none ∷ some 20 ∷ []

abbrev target_ring : Slots ℕ
target_ring = none ∷ none ∷ none ∷ none ∷ []

-- From core 0 to the cores 1 and 2 of a row of four.
abbrev row : PipeEnd ℕ
row = record {
  pipe = record {
    src_core = CoreCoord.index 0;
    dst_core_range = Dst.items (Item.slice (some (pos 1)) (some (pos 3)) none ∷ []);
  };
  wrapper = bare;
  entry = none;
}

two_receivers : num_receivers (4 ∷ []) row.pipe.dst_core_range ≡ ok 2
unfolding num_receivers expand_core_range grid_size
two_receivers = refl

pipe_to_block-block_to_pipe_example :
    (p' : PipeEnd ℕ) × (p'' : PipeEnd ℕ) × (buf'' : Slots ℕ) × (block_to_pipe
        (4 ∷ [])
        (some 1)
        source
        source_ring
        row
      ≡ (ok tt, p'))
    × (pipe_to_block (4 ∷ []) (some 1) p' target target_ring ≡ (ok tt, p'', buf''))
    × (window buf'' 4 0 2 ≡ some 20 ∷ some 21 ∷ [])
    × (pending 1 (get_or_create_pipe_entry p''.entry).queue ≡ [])
unfolding check_can_read
pipe_to_block-block_to_pipe_example =
    pipe_to_block-block_to_pipe (4 ∷ []) 1 2 row source target source_ring target_ring
      (20 ∷ 21 ∷ []) refl refl refl two_receivers refl refl (omega arith) refl

-- Blocks do not go into the identity of a destination, nor come out of that of a source.
wrong_identities :
    (pipe_handlers
        (4 ∷ [])
        none
        (block source source_ring)
        (pipe (record row { wrapper = dst_identity }))
      ≡ none)
    × (pipe_handlers
          (4 ∷ [])
          none
          (pipe (record row { wrapper = src_identity }))
          (block target target_ring)
        ≡ none)
wrong_identities = (refl, refl)
