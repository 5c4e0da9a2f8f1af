-- ===== src/PerfSummary/Durations.antt =====
-- python/ttl/_src/perf_summary.py: the durations of kernels from the lines of the profiler, and the
-- numbers of a summary for JSON.
--
-- A line is the list of its fields. Python's `strip` and `int` are parameters; `int` gives `none` where
-- it raises a ValueError.
use Prim.Native.String.{String}
use text.Mathlib.Text.{◌==◌ as str_eq}
use tt_lang.Prelude.{
  ℤ, sub_ℕ, ℕ, List, [], ◌∷◌, ◌++◌, length, get_elem?, Option, none, some, Bool, ◌&&◌, ◌||◌,
  if◌then◌else◌, ltb, ◌==◌,
}

-- What a kernel zone is named by: its run, its thread and its core.
pub record ZoneKey : Type 0 where
  pub run_id : ℕ
  pub thread : String
  pub cx : ℕ
  pub cy : ℕ

abbrev pub same_key : ZoneKey → ZoneKey → Bool
same_key k l =
    (k.run_id == l.run_id) && str_eq k.thread l.thread && (k.cx == l.cx) && (k.cy == l.cy)

-- A line that is not skipped.
pub record Row : Type 0 where
  pub key : ZoneKey
  pub zone_type : String
  pub ts : ℕ

abbrev pub Open : Type 0
Open = List (ZoneKey × ℕ)

abbrev pub find_open : ZoneKey → Open → Option ℕ
find_open k [] = none
find_open k ((j, t) ∷ open_zones) = if same_key j k then some t else find_open k open_zones

-- `zone_starts[key] = ts` and `del zone_starts[key]`
abbrev pub set_open : ZoneKey → ℕ → Open → Open
set_open k t [] = (k, t) ∷ []
set_open k t ((j, u) ∷ open_zones) =
    if same_key j k then (j, t) ∷ open_zones else (j, u) ∷ set_open k t open_zones

abbrev pub del_open : ZoneKey → Open → Open
del_open k [] = []
del_open k ((j, u) ∷ open_zones) =
    if same_key j k then open_zones else (j, u) ∷ del_open k open_zones

-- `durations[run_id][thread].append(duration)`, in two nested `defaultdict`s.
abbrev pub Threads : Type 0
Threads = List (String × List ℤ)

abbrev pub append_to_thread : String → ℤ → Threads → Threads
append_to_thread thread d [] = (thread, d ∷ []) ∷ []
append_to_thread thread d ((t, ds) ∷ rest) =
    if str_eq t thread then (t, ds ++ (d ∷ [])) ∷ rest else (t, ds) ∷ append_to_thread thread d rest

abbrev pub append_duration : ℕ → String → ℤ → List (ℕ × Threads) → List (ℕ × Threads)
append_duration run_id thread d [] = (run_id, append_to_thread thread d []) ∷ []
append_duration run_id thread d ((r, ts) ∷ rest) =
    if r == run_id
    then (r, append_to_thread thread d ts) ∷ rest
    else (r, ts) ∷ append_duration run_id thread d rest

abbrev pub close : Row → Option ℕ → Open × List (ℕ × Threads) → Open × List (ℕ × Threads)
close row none st = st
close row (some start) (open_zones, durations) = (
  del_open row.key open_zones,
  append_duration row.key.run_id row.key.thread (sub_ℕ row.ts start) durations,
)

unfoldable pub row_step : Row → Open × List (ℕ × Threads) → Open × List (ℕ × Threads)
row_step row (open_zones, durations) =
    if str_eq row.zone_type "ZONE_START"
    then (set_open row.key row.ts open_zones, durations)
    else if str_eq row.zone_type "ZONE_END"
    then close row (find_open row.key open_zones) (open_zones, durations)
    else (open_zones, durations)

abbrev pub is_kernel_zone : String → Bool
is_kernel_zone zone =
    str_eq zone "BRISC-KERNEL" || str_eq zone "NCRISC-KERNEL" || str_eq zone "TRISC-KERNEL"

module _ (strip : String → String) (int : String → Option ℕ) where
  abbrev pub and_then : {A B : Type 0} → Option A → (A → Option B) → Option B
  and_then none f = none
  and_then (some a) f = f a

  abbrev pub text_at : List String → ℕ → Option String
  text_at parts i = and_then (get_elem? parts i) (λ s. some (strip s))

  abbrev pub int_at : List String → ℕ → Option ℕ
  int_at parts i = and_then (text_at parts i) int

  -- `none` where the loop continues with the next line.
  unfoldable pub parse_row : List String → Option Row
  parse_row parts =
      if ltb (length parts) 12
      then none
      else and_then (text_at parts 3) λ thread. and_then (text_at parts 10) λ zone.
        and_then (text_at parts 11) λ zone_type.
          if is_kernel_zone zone
          then and_then (int_at parts 5) (λ ts. and_then (int_at parts 7) λ run_id.
            and_then (int_at parts 1) λ cx. and_then (int_at parts 2) λ cy. some record {
              key = record { run_id = run_id; thread = thread; cx = cx; cy = cy };
              zone_type = zone_type;
              ts = ts;
            })
          else none

  abbrev pub line_step : Option Row → Open × List (ℕ × Threads) → Open × List (ℕ × Threads)
  line_step none st = st
  line_step (some row) st = row_step row st

  abbrev pub read_lines : List (List String) → Open × List (ℕ × Threads) → Open × List (ℕ × Threads)
  read_lines [] st = st
  read_lines (parts ∷ lines) st = read_lines lines (line_step (parse_row parts) st)

  -- The lines behind the two of the header.
  unfoldable pub parse_kernel_durations : List (List String) → List (ℕ × Threads)
  unfolding parse_row row_step
  parse_kernel_durations lines = (read_lines lines ([], [])).1
