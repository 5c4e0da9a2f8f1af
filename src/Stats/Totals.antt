-- ===== src/Stats/Totals.antt =====
-- python/sim/stats.py: the totals of the report after any history of calls.
use Prim.Native.String.{String}
use tt_lang.Prelude.{
  ℤ, ◌+◌, ◌≡◌, refl, ◌∙◌, List, [], ◌∷◌, Option, none, some, Bool, false, ◌&&◌, if◌then◌else◌, ◌==◌,
  arith, Bool-cases, inl, inr,
}
use tt_lang.Stats.{Stats, Table, Counters, DfbCounters, no_counters, no_dfb_counters}
use tt_lang.Stats.Counts.{is_empty}
use tt_lang.Stats.History.{
  Record, tensor_read, tensor_write, pipe_read, pipe_write, dfb_reserve, dfb_wait, Event, calls_of,
  tiles_of, is_tensor_read, is_tensor_write, is_pipe_read, is_pipe_write, is_dfb_reserve,
  is_dfb_wait, logged, start, run,
}
use tt_lang.Stats.Report.{
  Part, Printed, parts, no_statistics, print_stats, sorted_items, sum_of-sorted_items,
  add_totals-sums, add_dfb_totals-sums, part, dfb_part,
}
use tt_lang.Stats.Sums.{Sums, counters_view, dfb_view}
use tt_lang.Stats.Agree.{Agree, Agree-run, Agree-nil}

-- What the report says at its lines TOTAL.
pub data Totals : Type 0 where
  nothing : Totals
  lines : Option Counters → Option Counters → Option DfbCounters → Totals

abbrev pub total_of : {V : Type 0} → Option (Part V) → Option V
total_of none = none
total_of (some r) = some r.total

unfoldable pub total_lines : Printed → Totals
total_lines no_statistics = nothing
total_lines (parts a b c) = lines (total_of a) (total_of b) (total_of c)

-- What is expected there: the calls of a log and their tiles, counted afresh. A part is left out
-- when no call is of its kind.
abbrev pub expected_part : (Record → Bool) → (Record → Bool) → List Record → Option Counters
expected_part p q log =
    if calls_of p log + calls_of q log == 0
    then none
    else some record {
      reads = calls_of p log;
      writes = calls_of q log;
      tiles_read = tiles_of p log;
      tiles_written = tiles_of q log;
    }

abbrev pub expected_dfb : List Record → Option DfbCounters
expected_dfb log =
    if calls_of is_dfb_reserve log + calls_of is_dfb_wait log == 0
    then none
    else some record {
      reserves = calls_of is_dfb_reserve log;
      waits = calls_of is_dfb_wait log;
      tiles_reserved = tiles_of is_dfb_reserve log;
      tiles_waited = tiles_of is_dfb_wait log;
    }

unfoldable pub expected : List Record → Totals
expected [] = nothing
expected (r ∷ rs) =
    lines (expected_part is_tensor_read is_tensor_write (r ∷ rs))
      (expected_part is_pipe_read is_pipe_write (r ∷ rs)) (expected_dfb (r ∷ rs))

module _ (log : List Record) where
  total_of-part :
      (p q : Record → Bool) (t : Table Counters)
      → Sums counters_view p q t log
      → total_of (part t) ≡ expected_part p q log
  total_of-part p q t h = elim (Bool-cases (calls_of p log + calls_of q log == 0)) [
    | inl e ↦ rw (h.empty ∙ e, e) refl
    | inr e ↦
        rw (h.empty ∙ e, e, add_totals-sums no_counters (sorted_items t))
          (ground (
            arith,
            sum_of-sorted_items counters_view.ins t,
            sum_of-sorted_items counters_view.outs t,
            sum_of-sorted_items counters_view.tiles_in t,
            sum_of-sorted_items counters_view.tiles_out t,
            h.ins,
            h.outs,
            h.tiles_in,
            h.tiles_out,
          ))
  ]

  total_of-dfb_part :
      (t : Table DfbCounters)
      → Sums dfb_view is_dfb_reserve is_dfb_wait t log
      → total_of (dfb_part t) ≡ expected_dfb log
  total_of-dfb_part t h =
      elim (Bool-cases (calls_of is_dfb_reserve log + calls_of is_dfb_wait log == 0)) [
        | inl e ↦ rw (h.empty ∙ e, e) refl
        | inr e ↦
            rw (h.empty ∙ e, e, add_dfb_totals-sums no_dfb_counters (sorted_items t))
              (ground (
                arith,
                sum_of-sorted_items dfb_view.ins t,
                sum_of-sorted_items dfb_view.outs t,
                sum_of-sorted_items dfb_view.tiles_in t,
                sum_of-sorted_items dfb_view.tiles_out t,
                h.ins,
                h.outs,
                h.tiles_in,
                h.tiles_out,
              ))
      ]

-- A log that is not empty has a record of one of the six kinds.
some_kind :
    (r : Record) (rs : List Record) (s : Stats)
    → Agree s (r ∷ rs)
    → is_empty s.stats_by_name && is_empty s.pipe_stats_by_name && is_empty s.dfb_stats_by_name
      ≡ false
some_kind (tensor_read t) rs s h = rw h.tensors.empty (ground arith)
some_kind (tensor_write t) rs s h = rw h.tensors.empty (ground arith)
some_kind (pipe_read p ts) rs s h = rw h.pipes.empty (ground arith)
some_kind (pipe_write p ts) rs s h = rw h.pipes.empty (ground arith)
some_kind (dfb_reserve d n) rs s h = rw h.dfbs.empty (ground arith)
some_kind (dfb_wait d n) rs s h = rw h.dfbs.empty (ground arith)

total_lines-print_stats :
    (s : Stats) (log : List Record) → Agree s log → total_lines (print_stats s) ≡ expected log
unfolding total_lines print_stats expected
total_lines-print_stats s [] h = rw (h.tensors.empty, h.pipes.empty, h.dfbs.empty) refl
total_lines-print_stats s (r ∷ rs) h =
    rw
      (
        some_kind r rs s h,
        total_of-part (r ∷ rs) _ _ _ h.tensors,
        total_of-part (r ∷ rs) _ _ _ h.pipes,
        total_of-dfb_part (r ∷ rs) _ h.dfbs,
      )
      refl

-- After any history of calls, from fresh statistics, `print_stats` prints that there are none exactly
-- when no call was recorded. Otherwise a part is printed for each of tensors, pipes and dataflow
-- buffers that had a call, and its line TOTAL has the number of calls of each kind and the number of
-- tiles that they moved. The calls are those since the last reset that came while the statistics
-- were enabled.
pub print_stats-expected :
    (str : ℤ → String) (es : List Event)
    → total_lines (print_stats (run str es start)) ≡ expected (logged false [] es)
print_stats-expected str es =
    total_lines-print_stats (run str es start) (logged false [] es)
      (Agree-run str [] false es start refl (Agree-nil start))
