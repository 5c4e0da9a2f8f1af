-- ===== src/Stats/Tests.antt =====
-- Runs of python/sim/stats.py.
use Prim.Native.String.{String}
use tt_lang.Prelude.{ℤ, pos, negsuc, zero, suc, ◌≡◌, refl, List, [], ◌∷◌, none, some, false}
use tt_lang.CoreContext.{CoreCoord}
use tt_lang.Pipe.{Pipe, Item, Dst}
use tt_lang.Stats.{
  TensorInfo, DfbInfo, get_pipe_name, get_dfb_name, calculate_tensor_tiles, calculate_block_tiles,
  entry, no_counters,
}
use tt_lang.Stats.History.{
  Event, enable, disable, reset, op, tensor_read, tensor_write, pipe_write, dfb_wait, run, start,
  logged,
}
use tt_lang.Stats.Report.{print_stats}
use tt_lang.Stats.Totals.{total_lines, lines, expected, print_stats-expected}
use tt_lang.Stats.Names.{
  run-entries, expected_counters, reads_tensor, writes_tensor, reads_pipe, writes_pipe,
}

abbrev digit : ℤ → String
digit (pos n) = elim n [ zero ↦ "0" | suc m ↦ elim m [ zero ↦ "1" | suc _ ↦ "2" ] ]
digit (negsuc n) = "-"

abbrev weights : TensorInfo
weights = record { name = some "w"; ident = 1; shape = 64 ∷ 33 ∷ [] }

abbrev row_pipe : Pipe
row_pipe = record {
  src_core = CoreCoord.index 0;
  dst_core_range = Dst.items (Item.fixed (pos 1) ∷ Item.slice (some (pos 1)) none none ∷ []);
}

abbrev unnamed : DfbInfo
unnamed = record { stats_name = none; dfb_id = none }

abbrev history : List Event
history =
    op (tensor_read weights)
    ∷ enable
    ∷ op (tensor_write weights)
    ∷ reset
    ∷ op (tensor_read weights)
    ∷ op (pipe_write row_pipe (weights ∷ weights ∷ []))
    ∷ op (dfb_wait unnamed 3)
    ∷ disable
    ∷ op (tensor_read weights)
    ∷ []

row_pipe-name : get_pipe_name digit row_pipe ≡ "pipe_0_to_(1,1:?)"
unfolding get_pipe_name
row_pipe-name = refl

unnamed-name : get_dfb_name digit unnamed 0 ≡ ("dfb_unnamed_1", 1)
unfolding get_dfb_name
unnamed-name = refl

history-totals :
    expected (logged false [] history)
    ≡ lines
        (some record { reads = 1; writes = 0; tiles_read = 4; tiles_written = 0 })
        (some record { reads = 0; writes = 1; tiles_read = 0; tiles_written = 8 })
        (some record { reserves = 0; waits = 1; tiles_reserved = 0; tiles_waited = 3 })
unfolding expected calculate_tensor_tiles calculate_block_tiles
history-totals = refl

print_stats-expected_example :
    total_lines (print_stats (run digit history start)) ≡ expected (logged false [] history)
print_stats-expected_example = print_stats-expected digit history

run-entries_example :
    (entry no_counters "w" (run digit history start).stats_by_name
      ≡ expected_counters
          (reads_tensor digit "w")
          (writes_tensor digit "w")
          (logged false [] history))
    × (entry no_counters "w" (run digit history start).pipe_stats_by_name
        ≡ expected_counters
            (reads_pipe digit "w")
            (writes_pipe digit "w")
            (logged false [] history))
run-entries_example = run-entries digit "w" history
