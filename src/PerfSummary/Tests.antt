-- ===== src/PerfSummary/Tests.antt =====
-- A concrete trace of python/ttl/_src/perf_summary.py.
use Prim.Native.String.{String}
use text.Mathlib.Text.{◌==◌ as str_eq}
use tt_lang.Prelude.{
  pos, ℕ, ◌≡◌, refl, List, [], ◌∷◌, true, Option, none, some, ok, has, if◌then◌else◌,
}
use tt_lang.PerfSummary.{Event, ProgramSummary, new_summary, parse_noc_trace}
use tt_lang.PerfSummary.Counts.{Tallied, transfers, payload, parse_noc_trace-Tallied}
use tt_lang.PerfSummary.Timestamps.{timestamps, Within, parse_noc_trace-timestamps}
use tt_lang.PerfSummary.Durations.{parse_kernel_durations}

abbrev kernel_start : Event
kernel_start = record {
  run_host_id = 7;
  sx = some 1;
  sy = some 2;
  timestamp = 100;
  zone = some "BRISC-KERNEL";
  zone_phase = "ZONE_START";
  event_type = "";
  num_bytes = 0;
  noc = "";
  mcast_start_x = none;
  mcast_start_y = none;
  dx = none;
  dy = none;
}

-- A write to a core that has a zone.
abbrev l1_write : Event
l1_write = record kernel_start {
  timestamp = 120;
  zone = none;
  event_type = "WRITE_";
  num_bytes = 64;
  noc = "NOC_0";
  dx = some 1;
  dy = some 2;
}

-- A read from elsewhere.
abbrev dram_read : Event
dram_read = record l1_write {
  timestamp = 90;
  event_type = "READ";
  num_bytes = 2048;
  dx = some 9;
  dy = some 0;
}

abbrev read_barrier : Event
read_barrier = record l1_write { timestamp = 95; event_type = "READ_BARRIER_START"; num_bytes = 0 }

abbrev kernel_end : Event
kernel_end = record kernel_start { timestamp = 180; zone_phase = "ZONE_END" }

abbrev trace : List Event
trace = kernel_start ∷ l1_write ∷ dram_read ∷ read_barrier ∷ kernel_end ∷ []

abbrev summary : ProgramSummary
summary = record new_summary {
  program_id = 7;
  source_cores = (some 1, some 2) ∷ [];
  dram_bytes_read = 2048;
  l1_bytes_written = 64;
  dram_read_count = 1;
  l1_write_count = 1;
  read_barrier_count = 1;
  transfer_sizes = (64, 1) ∷ (2048, 1) ∷ [];
  noc_read_counts = ("NOC_0", 1) ∷ [];
  noc_write_counts = ("NOC_0", 1) ∷ [];
  brisc_durations = pos 80 ∷ [];
  l1_destinations = (some 1, some 2) ∷ [];
  dram_destinations = (some 9, some 0) ∷ [];
  min_timestamp = some 90;
  max_timestamp = some 180;
}

trace-summary : parse_noc_trace trace ≡ ok summary
unfolding parse_noc_trace
trace-summary = refl

parse_noc_trace-Tallied_example : Tallied summary (transfers trace) (payload trace)
parse_noc_trace-Tallied_example = parse_noc_trace-Tallied trace summary trace-summary

parse_noc_trace-timestamps_example :
    (lo : ℕ) × (hi : ℕ) × (summary.min_timestamp ≡ some lo)
    × (summary.max_timestamp ≡ some hi)
    × (has lo (timestamps trace) ≡ true)
    × (has hi (timestamps trace) ≡ true)
    × Within lo hi (timestamps trace)
parse_noc_trace-timestamps_example =
    parse_noc_trace-timestamps kernel_start (l1_write ∷ dram_read ∷ read_barrier ∷ kernel_end ∷ [])
      summary trace-summary

-- Fields that need no stripping, and numbers below 3.
abbrev stripped : String → String
stripped s = s

abbrev small_int : String → Option ℕ
small_int s =
    if str_eq s "0"
    then some 0
    else if str_eq s "1"
    then some 1
    else if str_eq s "2"
    then some 2
    else none

abbrev line : String → String → List String
line ts kind = "0" ∷ "1" ∷ "2" ∷ "BRISC" ∷ "" ∷ ts ∷ "" ∷ "0" ∷ "" ∷ "" ∷ "BRISC-KERNEL" ∷ kind ∷ []

abbrev lines : List (List String)
lines = line "1" "ZONE_START" ∷ line "x" "ZONE_END" ∷ line "2" "ZONE_END" ∷ line "2" "ZONE_END" ∷ []

-- The second end of the zone gives no duration.
lines-durations :
    parse_kernel_durations stripped small_int lines ≡ (0, ("BRISC", pos 1 ∷ []) ∷ []) ∷ []
unfolding parse_kernel_durations
lines-durations = refl
