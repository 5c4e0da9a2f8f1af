-- ===== src/PerfSummary.antt =====
-- python/ttl/_src/perf_summary.py: the summary of the events of a trace.
--
-- Reading the files and printing are left out. An event is the JSON object of the trace, a key that it
-- may lack as an option or as the default that the source gives it. A coordinate that is missing is
-- `none`, the source's -1; no other coordinate is negative. A duration is signed.
pub mod Durations
pub mod Counts
pub mod Timestamps
pub mod Pairs
pub mod Json
mod Tests
use Prim.Native.String.{String}
use text.Mathlib.Text.{◌==◌ as str_eq, find?}
use tt_lang.Prelude.{
  ℤ, sub_ℕ, ℕ, ◌+◌, ◌-◌, List, [], ◌∷◌, ◌++◌, length, map, Option, none, some, Bool, true, false,
  ◌&&◌, ◌||◌, if◌then◌else◌, ltb, ◌==◌, Outcome, ok, raise, bind_ok, key_error,
}

abbrev pub Coord : Type 0
Coord = Option ℕ × Option ℕ

pub record Event : Type 0 where
  pub run_host_id : ℕ
  pub sx : Option ℕ
  pub sy : Option ℕ
  pub timestamp : ℕ
  pub zone : Option String
  pub zone_phase : String
  pub event_type : String
  pub num_bytes : ℕ
  pub noc : String
  pub mcast_start_x : Option ℕ
  pub mcast_start_y : Option ℕ
  pub dx : Option ℕ
  pub dy : Option ℕ

pub record ProgramSummary : Type 0 where
  pub program_id : ℕ
  pub source_cores : List Coord
  pub dram_bytes_read : ℕ
  pub dram_bytes_written : ℕ
  pub l1_bytes_read : ℕ
  pub l1_bytes_written : ℕ
  pub dram_read_count : ℕ
  pub dram_write_count : ℕ
  pub l1_read_count : ℕ
  pub l1_write_count : ℕ
  pub read_barrier_count : ℕ
  pub write_barrier_count : ℕ
  pub transfer_sizes : List (ℕ × ℕ)
  pub noc_read_counts : List (String × ℕ)
  pub noc_write_counts : List (String × ℕ)
  pub brisc_durations : List ℤ
  pub ncrisc_durations : List ℤ
  pub l1_destinations : List Coord
  pub dram_destinations : List Coord
  pub multicast_count : ℕ
  pub multicast_bytes : ℕ
  pub semaphore_count : ℕ
  pub min_timestamp : Option ℕ
  pub max_timestamp : Option ℕ

abbrev pub new_summary : ProgramSummary
new_summary = record {
  program_id = 0;
  source_cores = [];
  dram_bytes_read = 0;
  dram_bytes_written = 0;
  l1_bytes_read = 0;
  l1_bytes_written = 0;
  dram_read_count = 0;
  dram_write_count = 0;
  l1_read_count = 0;
  l1_write_count = 0;
  read_barrier_count = 0;
  write_barrier_count = 0;
  transfer_sizes = [];
  noc_read_counts = [];
  noc_write_counts = [];
  brisc_durations = [];
  ncrisc_durations = [];
  l1_destinations = [];
  dram_destinations = [];
  multicast_count = 0;
  multicast_bytes = 0;
  semaphore_count = 0;
  min_timestamp = none;
  max_timestamp = none;
}

abbrev pub same_number : Option ℕ → Option ℕ → Bool
same_number none none = true
same_number none (some b) = false
same_number (some a) none = false
same_number (some a) (some b) = a == b

abbrev pub same_coord : Coord → Coord → Bool
same_coord c d = same_number c.0 d.0 && same_number c.1 d.1

-- A set of coordinates.
abbrev pub in_set : Coord → List Coord → Bool
in_set c [] = false
in_set c (d ∷ ds) = same_coord c d || in_set c ds

abbrev pub add : Coord → List Coord → List Coord
add c cs = if in_set c cs then cs else c ∷ cs

-- `counts[key] += 1` in a `defaultdict(int)`.
abbrev pub count_key : {K : Type 0} → (K → K → Bool) → K → List (K × ℕ) → List (K × ℕ)
count_key same k [] = (k, 1) ∷ []
count_key same k ((j, n) ∷ t) = if same j k then (j, n + 1) ∷ t else (j, n) ∷ count_key same k t

abbrev pub size_eq : ℕ → ℕ → Bool
size_eq a b = a == b

-- `part in text`
unfoldable pub contains : String → String → Bool
contains part text = elim (find? text part) [ none ↦ false | some _ ↦ true ]

abbrev pub is_some : {A : Type 0} → Option A → Bool
is_some none = false
is_some (some a) = true

-- `ev["sx"]`
abbrev pub required : Option ℕ → Outcome ℕ
required none = raise key_error
required (some a) = ok a

abbrev pub collect_compute_cores_from_zones : List Event → Outcome (List Coord)
collect_compute_cores_from_zones [] = ok []
collect_compute_cores_from_zones (ev ∷ events) = elim ev.zone [
  | none ↦ collect_compute_cores_from_zones events
  | some _ ↦ bind_ok (required ev.sx) λ sx. bind_ok (required ev.sy) λ sy.
      bind_ok (collect_compute_cores_from_zones events) λ cores. ok (add (some sx, some sy) cores)
]

-- Track timestamp range
abbrev pub earlier : Option ℕ → ℕ → Option ℕ
earlier none ts = some ts
earlier (some t) ts = if ltb ts t then some ts else some t

abbrev pub later : Option ℕ → ℕ → Option ℕ
later none ts = some ts
later (some t) ts = if ltb t ts then some ts else some t

unfoldable pub track_timestamp : ℕ → ProgramSummary → ProgramSummary
track_timestamp ts s = record s {
  min_timestamp = earlier s.min_timestamp ts;
  max_timestamp = later s.max_timestamp ts;
}

-- The starts of zones by zone and core.
abbrev pub Starts : Type 0
Starts = List ((String × Coord) × ℕ)

abbrev pub same_zone : String × Coord → String × Coord → Bool
same_zone k l = str_eq k.0 l.0 && same_coord k.1 l.1

abbrev pub lookup_start : String × Coord → Starts → Option ℕ
lookup_start k [] = none
lookup_start k ((j, t) ∷ starts) = if same_zone j k then some t else lookup_start k starts

abbrev pub set_start : String × Coord → ℕ → Starts → Starts
set_start k t [] = (k, t) ∷ []
set_start k t ((j, u) ∷ starts) =
    if same_zone j k then (j, t) ∷ starts else (j, u) ∷ set_start k t starts

abbrev pub end_zone : String → ℕ → Option ℕ → ProgramSummary → ProgramSummary
end_zone zone ts none s = s
end_zone zone ts (some start) s =
    if contains "BRISC" zone
    then record s { brisc_durations = s.brisc_durations ++ (sub_ℕ ts start ∷ []) }
    else record s { ncrisc_durations = s.ncrisc_durations ++ (sub_ℕ ts start ∷ []) }

-- Zone events: track kernel durations
unfoldable pub zone_event : Event → String → ProgramSummary × Starts → ProgramSummary × Starts
unfolding contains
zone_event ev zone (s, starts) =
    if str_eq zone "BRISC-KERNEL" || str_eq zone "NCRISC-KERNEL"
    then if str_eq ev.zone_phase "ZONE_START"
      then (s, set_start (zone, (ev.sx, ev.sy)) ev.timestamp starts)
      else if str_eq ev.zone_phase "ZONE_END"
      then (end_zone zone ev.timestamp (lookup_start (zone, (ev.sx, ev.sy)) starts) s, starts)
      else (s, starts)
    else (s, starts)

abbrev pub barrier_event : String → ProgramSummary → ProgramSummary
barrier_event event_type s =
    if contains "READ" event_type && contains "START" event_type
    then record s { read_barrier_count = s.read_barrier_count + 1 }
    else if contains "WRITE" event_type && contains "START" event_type
    then record s { write_barrier_count = s.write_barrier_count + 1 }
    else s

-- Classified by whether the targets are compute cores or DRAM.
abbrev pub multicast_event : Event → Bool → ProgramSummary → ProgramSummary
multicast_event ev is_l1_mcast s =
    let t = record s {
      transfer_sizes = count_key size_eq ev.num_bytes s.transfer_sizes;
      noc_write_counts = count_key str_eq ev.noc s.noc_write_counts;
    } in
    if is_l1_mcast
    then record t {
      multicast_count = t.multicast_count + 1;
      multicast_bytes = t.multicast_bytes + ev.num_bytes;
    }
    else record t {
      dram_bytes_written = t.dram_bytes_written + ev.num_bytes;
      dram_write_count = t.dram_write_count + 1;
    }

abbrev pub read_event : Event → Bool → ProgramSummary → ProgramSummary
read_event ev is_l1 s =
    let t = record s {
      transfer_sizes = count_key size_eq ev.num_bytes s.transfer_sizes;
      noc_read_counts = count_key str_eq ev.noc s.noc_read_counts;
    } in
    if is_l1
    then record t {
      l1_bytes_read = t.l1_bytes_read + ev.num_bytes;
      l1_read_count = t.l1_read_count + 1;
      l1_destinations = add (ev.dx, ev.dy) t.l1_destinations;
    }
    else record t {
      dram_bytes_read = t.dram_bytes_read + ev.num_bytes;
      dram_read_count = t.dram_read_count + 1;
      dram_destinations =
          if is_some ev.dx then add (ev.dx, ev.dy) t.dram_destinations else t.dram_destinations;
    }

abbrev pub write_event : Event → Bool → ProgramSummary → ProgramSummary
write_event ev is_l1 s =
    let t = record s {
      transfer_sizes = count_key size_eq ev.num_bytes s.transfer_sizes;
      noc_write_counts = count_key str_eq ev.noc s.noc_write_counts;
    } in
    if is_l1
    then record t {
      l1_bytes_written = t.l1_bytes_written + ev.num_bytes;
      l1_write_count = t.l1_write_count + 1;
      l1_destinations = add (ev.dx, ev.dy) t.l1_destinations;
    }
    else record t {
      dram_bytes_written = t.dram_bytes_written + ev.num_bytes;
      dram_write_count = t.dram_write_count + 1;
      dram_destinations =
          if is_some ev.dx then add (ev.dx, ev.dy) t.dram_destinations else t.dram_destinations;
    }

-- NOC events
unfoldable pub noc_event : List Coord → Event → ProgramSummary → ProgramSummary
unfolding contains
noc_event compute_cores ev s =
    let t = record s { source_cores = add (ev.sx, ev.sy) s.source_cores } in
    if contains "SEMAPHORE" ev.event_type
    then record t { semaphore_count = t.semaphore_count + 1 }
    else if contains "BARRIER" ev.event_type
    then barrier_event ev.event_type t
    else if is_some ev.mcast_start_x
    then multicast_event ev (in_set (ev.mcast_start_x, ev.mcast_start_y) compute_cores) t
    else if contains "READ" ev.event_type
    then read_event ev (in_set (ev.dx, ev.dy) compute_cores && is_some ev.dx) t
    else if contains "WRITE" ev.event_type
    then write_event ev (in_set (ev.dx, ev.dy) compute_cores && is_some ev.dx) t
    else t

-- One round of the loop, and the loop.
abbrev pub classify :
    List Coord → Event → Option String → ProgramSummary → Starts → ProgramSummary × Starts
classify compute_cores ev (some zone) s starts = zone_event ev zone (s, starts)
classify compute_cores ev none s starts = (noc_event compute_cores ev s, starts)

unfoldable pub step : List Coord → Event → ProgramSummary × Starts → ProgramSummary × Starts
unfolding zone_event noc_event track_timestamp
step compute_cores ev (s, starts) =
    classify compute_cores ev ev.zone (track_timestamp ev.timestamp s) starts

abbrev pub run : List Coord → List Event → ProgramSummary × Starts → ProgramSummary × Starts
run compute_cores [] st = st
run compute_cores (ev ∷ events) st = run compute_cores events (step compute_cores ev st)

unfoldable pub parse_noc_trace : List Event → Outcome ProgramSummary
unfolding step
parse_noc_trace [] = ok new_summary
parse_noc_trace (ev ∷ events) =
    bind_ok (collect_compute_cores_from_zones (ev ∷ events)) λ compute_cores.
      ok
        (run compute_cores (ev ∷ events) (record new_summary { program_id = ev.run_host_id }, [])).0

abbrev pub in_numbers : Option ℕ → List (Option ℕ) → Bool
in_numbers a [] = false
in_numbers a (b ∷ bs) = same_number a b || in_numbers a bs

abbrev pub distinct : List (Option ℕ) → List (Option ℕ)
distinct [] = []
distinct (x ∷ xs) = if in_numbers x xs then distinct xs else x ∷ distinct xs

-- The numbers of distinct columns and of distinct rows.
unfoldable pub infer_grid_shape : List Coord → ℕ × ℕ
infer_grid_shape cores = (
  length (distinct (map (λ (c : Coord). c.0) cores)),
  length (distinct (map (λ (c : Coord). c.1) cores)),
)
