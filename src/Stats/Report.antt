-- ===== src/Stats/Report.antt =====
-- python/sim/stats.py: `print_stats`, as the lines that it prints. The widths and the rules between
-- the lines are left out.
use Prim.Native.String.{String, compare as text_compare}
use text.Mathlib.Text.{is_le}
use tt_lang.Prelude.{ℕ, ◌+◌, ◌≡◌, refl, [], ◌∷◌, Option, none, some, ◌&&◌, if◌then◌else◌, arith}
use tt_lang.Stats.{Stats, Table, Counters, DfbCounters, no_counters, no_dfb_counters}
use tt_lang.Stats.Counts.{is_empty, sum_of}

-- A part of the report: the entries in the order of their names, and the line TOTAL.
pub record Part (V : Type 0) : Type 0 where
  pub rows : Table V
  pub total : V

pub data Printed : Type 0 where
  no_statistics : Printed
  parts : Option (Part Counters) → Option (Part Counters) → Option (Part DfbCounters) → Printed

-- `sorted(stats.items())`: no two entries have the same name.
module _ {V : Type 0} where
  abbrev pub insert_item : String × V → Table V → Table V
  insert_item x [] = x ∷ []
  insert_item x (y ∷ t) = if is_le (text_compare x.0 y.0) then x ∷ y ∷ t else y ∷ insert_item x t

  unfoldable pub sorted_items : Table V → Table V
  sorted_items [] = []
  sorted_items (x ∷ t) = insert_item x (sorted_items t)

abbrev pub plus : Counters → Counters → Counters
plus a b = record {
  reads = a.reads + b.reads;
  writes = a.writes + b.writes;
  tiles_read = a.tiles_read + b.tiles_read;
  tiles_written = a.tiles_written + b.tiles_written;
}

abbrev pub dfb_plus : DfbCounters → DfbCounters → DfbCounters
dfb_plus a b = record {
  reserves = a.reserves + b.reserves;
  waits = a.waits + b.waits;
  tiles_reserved = a.tiles_reserved + b.tiles_reserved;
  tiles_waited = a.tiles_waited + b.tiles_waited;
}

-- The loops that add up the totals.
abbrev pub add_totals : Counters → Table Counters → Counters
add_totals acc [] = acc
add_totals acc ((name, c) ∷ t) = add_totals (plus acc c) t

abbrev pub add_dfb_totals : DfbCounters → Table DfbCounters → DfbCounters
add_dfb_totals acc [] = acc
add_dfb_totals acc ((name, c) ∷ t) = add_dfb_totals (dfb_plus acc c) t

abbrev pub part : Table Counters → Option (Part Counters)
part t =
    if is_empty t
    then none
    else some record { rows = sorted_items t; total = add_totals no_counters (sorted_items t) }

abbrev pub dfb_part : Table DfbCounters → Option (Part DfbCounters)
dfb_part t =
    if is_empty t
    then none
    else some
        record { rows = sorted_items t; total = add_dfb_totals no_dfb_counters (sorted_items t) }

unfoldable pub print_stats : Stats → Printed
print_stats s =
    if is_empty s.stats_by_name && is_empty s.pipe_stats_by_name && is_empty s.dfb_stats_by_name
    then no_statistics
    else parts (part s.stats_by_name) (part s.pipe_stats_by_name) (dfb_part s.dfb_stats_by_name)

-- Sorting keeps every sum.
module _ {V : Type 0} (counter : V → ℕ) where
  sum_of-insert_item :
      (x : String × V) (t : Table V)
      → sum_of counter (insert_item x t) ≡ counter x.1 + sum_of counter t
  sum_of-insert_item x [] = refl
  sum_of-insert_item x (y ∷ t) = ground (arith, sum_of-insert_item x t)

  pub sum_of-sorted_items : (t : Table V) → sum_of counter (sorted_items t) ≡ sum_of counter t
  unfolding sorted_items
  sum_of-sorted_items [] = refl
  sum_of-sorted_items (x ∷ t) =
      omega (arith, sum_of-insert_item x (sorted_items t), sum_of-sorted_items t)

-- The totals are the sums of the columns.
pub add_totals-sums :
    (acc : Counters) (t : Table Counters)
    → add_totals acc t ≡ record {
      reads = acc.reads + sum_of (λ (c : Counters). c.reads) t;
      writes = acc.writes + sum_of (λ (c : Counters). c.writes) t;
      tiles_read = acc.tiles_read + sum_of (λ (c : Counters). c.tiles_read) t;
      tiles_written = acc.tiles_written + sum_of (λ (c : Counters). c.tiles_written) t;
    }
add_totals-sums acc [] = ground arith
add_totals-sums acc ((name, c) ∷ t) = ground (arith, add_totals-sums (plus acc c) t)

pub add_dfb_totals-sums :
    (acc : DfbCounters) (t : Table DfbCounters)
    → add_dfb_totals acc t ≡ record {
      reserves = acc.reserves + sum_of (λ (c : DfbCounters). c.reserves) t;
      waits = acc.waits + sum_of (λ (c : DfbCounters). c.waits) t;
      tiles_reserved = acc.tiles_reserved + sum_of (λ (c : DfbCounters). c.tiles_reserved) t;
      tiles_waited = acc.tiles_waited + sum_of (λ (c : DfbCounters). c.tiles_waited) t;
    }
add_dfb_totals-sums acc [] = ground arith
add_dfb_totals-sums acc ((name, c) ∷ t) = ground (arith, add_dfb_totals-sums (dfb_plus acc c) t)
