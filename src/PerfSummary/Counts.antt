-- ===== src/PerfSummary/Counts.antt =====
-- python/ttl/_src/perf_summary.py: every transfer of a trace is counted once, with its bytes.
use Prim.Native.String.{String}
use text.Mathlib.Text.{◌==◌ as str_eq}
use tt_lang.Prelude.{
  ℕ, ◌+◌, ◌*◌, ◌≡◌, refl, List, [], ◌∷◌, Option, none, some, Bool, true, false, not, ◌&&◌, ◌||◌,
  if◌then◌else◌, ◌==◌, ok, bind_ok-eq-ok, ok-injective, subst, arith, Bool-cases, inl, inr, ==→eq,
}
use tt_lang.PerfSummary.{
  Event, Coord, ProgramSummary, new_summary, count_key, size_eq, contains, is_some, zone_event,
  noc_event, Starts, end_zone, classify, step, run, track_timestamp, parse_noc_trace, lookup_start,
  collect_compute_cores_from_zones, read_event, write_event, multicast_event, barrier_event, add,
  in_set,
}

abbrev pub sum_counts : {K : Type 0} → List (K × ℕ) → ℕ
sum_counts [] = 0
sum_counts ((k, n) ∷ t) = n + sum_counts t

-- The bytes of a table of transfer sizes.
abbrev pub sum_bytes : List (ℕ × ℕ) → ℕ
sum_bytes [] = 0
sum_bytes ((size, n) ∷ t) = size * n + sum_bytes t

sum_counts-count_key :
    {K : Type 0} (same : K → K → Bool) (k : K) (t : List (K × ℕ))
    → sum_counts (count_key same k t) ≡ sum_counts t + 1
sum_counts-count_key same k [] = refl
sum_counts-count_key same k ((j, n) ∷ t) = ground (arith, sum_counts-count_key same k t)

sum_bytes-count_key :
    (k : ℕ) (t : List (ℕ × ℕ)) → sum_bytes (count_key size_eq k t) ≡ sum_bytes t + k
sum_bytes-count_key k [] = omega arith
sum_bytes-count_key k ((j, n) ∷ t) = elim (Bool-cases (j == k)) [
  | inl e ↦
      let e' : j ≡ k = ==→eq j k e in
      rw e (let grown : j * (n + 1) ≡ j * n + j = grind arith in omega (arith, grown))
  | inr e ↦ rw e (omega (arith, sum_bytes-count_key k t))
]

-- Whether an event moves data: it is of no zone, no semaphore and no barrier, and it is a multicast, a
-- read or a write.
abbrev pub moves : Event → Option String → Bool
moves ev (some zone) = false
moves ev none =
    not (contains "SEMAPHORE" ev.event_type)
    && not (contains "BARRIER" ev.event_type)
    && (is_some ev.mcast_start_x || contains "READ" ev.event_type || contains "WRITE" ev.event_type)

abbrev pub transfers : List Event → ℕ
transfers [] = 0
transfers (ev ∷ events) = (if moves ev ev.zone then 1 else 0) + transfers events

abbrev pub payload : List Event → ℕ
payload [] = 0
payload (ev ∷ events) = (if moves ev ev.zone then ev.num_bytes else 0) + payload events

-- A summary that counts `n` transfers of `b` bytes, in each of its tables.
pub record Tallied (s : ProgramSummary) (n b : ℕ) : Type 0 where
  pub reads : sum_counts s.noc_read_counts ≡ s.dram_read_count + s.l1_read_count
  pub writes :
      sum_counts s.noc_write_counts ≡ s.dram_write_count + s.l1_write_count + s.multicast_count
  pub sizes : sum_counts s.transfer_sizes ≡ n
  pub bytes : sum_bytes s.transfer_sizes ≡ b
  pub all_counts : sum_counts s.noc_read_counts + sum_counts s.noc_write_counts ≡ n
  pub all_bytes :
      s.dram_bytes_read + s.dram_bytes_written + s.l1_bytes_read + s.l1_bytes_written
        + s.multicast_bytes
      ≡ b

-- Each kind of transfer adds one to the counts and its bytes to the bytes.
module _ (ev : Event) (s : ProgramSummary) (n b : ℕ) (h : Tallied s n b) where
  sizes :
      sum_counts (count_key size_eq ev.num_bytes s.transfer_sizes) ≡ sum_counts s.transfer_sizes + 1
  sizes = sum_counts-count_key size_eq ev.num_bytes s.transfer_sizes

  bytes :
      sum_bytes (count_key size_eq ev.num_bytes s.transfer_sizes)
      ≡ sum_bytes s.transfer_sizes + ev.num_bytes
  bytes = sum_bytes-count_key ev.num_bytes s.transfer_sizes

  reads : sum_counts (count_key str_eq ev.noc s.noc_read_counts) ≡ sum_counts s.noc_read_counts + 1
  reads = sum_counts-count_key str_eq ev.noc s.noc_read_counts

  writes :
      sum_counts (count_key str_eq ev.noc s.noc_write_counts) ≡ sum_counts s.noc_write_counts + 1
  writes = sum_counts-count_key str_eq ev.noc s.noc_write_counts

  read_event-Tallied : (is_l1 : Bool) → Tallied (read_event ev is_l1 s) (n + 1) (b + ev.num_bytes)
  read_event-Tallied true = omega (arith, sizes, bytes, reads)
  read_event-Tallied false = omega (arith, sizes, bytes, reads)

  write_event-Tallied : (is_l1 : Bool) → Tallied (write_event ev is_l1 s) (n + 1) (b + ev.num_bytes)
  write_event-Tallied true = omega (arith, sizes, bytes, writes)
  write_event-Tallied false = omega (arith, sizes, bytes, writes)

  multicast_event-Tallied :
      (is_l1 : Bool) → Tallied (multicast_event ev is_l1 s) (n + 1) (b + ev.num_bytes)
  multicast_event-Tallied true = omega (arith, sizes, bytes, writes)
  multicast_event-Tallied false = omega (arith, sizes, bytes, writes)

-- Other events add nothing.
module _ (s : ProgramSummary) (n b : ℕ) (h : Tallied s n b) where
  barrier_event-Tallied : (event_type : String) → Tallied (barrier_event event_type s) n b
  barrier_event-Tallied event_type =
      elim (Bool-cases (contains "READ" event_type && contains "START" event_type)) [
        | inl e ↦ rw e (omega arith)
        | inr e ↦ elim (Bool-cases (contains "WRITE" event_type && contains "START" event_type)) [
          | inl f ↦ rw (e, f) (omega arith)
          | inr f ↦ rw (e, f) h
        ]
      ]

  end_zone-Tallied : (zone : String) (ts : ℕ) (o : Option ℕ) → Tallied (end_zone zone ts o s) n b
  end_zone-Tallied zone ts none = h
  end_zone-Tallied zone ts (some start) = elim (Bool-cases (contains "BRISC" zone)) [
    | inl e ↦ rw e (omega arith)
    | inr e ↦ rw e (omega arith)
  ]

  track_timestamp-Tallied : (ts : ℕ) → Tallied (track_timestamp ts s) n b
  unfolding track_timestamp
  track_timestamp-Tallied ts = omega arith

noc_event-Tallied :
    (compute_cores : List Coord) (ev : Event) (s : ProgramSummary) (n b : ℕ)
    → Tallied s n b
    → Tallied
        (noc_event compute_cores ev s)
        (n + (if moves ev none then 1 else 0))
        (b + (if moves ev none then ev.num_bytes else 0))
unfolding noc_event
noc_event-Tallied compute_cores ev s n b h =
    let t : ProgramSummary = record s { source_cores = add (ev.sx, ev.sy) s.source_cores } in
    let k : Tallied t n b = omega arith in
    elim (Bool-cases (contains "SEMAPHORE" ev.event_type)) [
      | inl e ↦ rw e (omega arith)
      | inr e ↦ elim (Bool-cases (contains "BARRIER" ev.event_type)) [
        | inl f ↦
            let r = barrier_event-Tallied t n b k ev.event_type in
            rw (e, f)
              (omega (arith, r.reads, r.writes, r.sizes, r.bytes, r.all_counts, r.all_bytes))
        | inr f ↦ elim (Bool-cases (is_some ev.mcast_start_x)) [
          | inl g ↦
              rw (e, f, g)
                (multicast_event-Tallied ev t n b k
                  (in_set (ev.mcast_start_x, ev.mcast_start_y) compute_cores))
          | inr g ↦ elim (Bool-cases (contains "READ" ev.event_type)) [
            | inl r ↦
                rw (e, f, g, r)
                  (read_event-Tallied ev t n b k
                    (in_set (ev.dx, ev.dy) compute_cores && is_some ev.dx))
            | inr r ↦ elim (Bool-cases (contains "WRITE" ev.event_type)) [
              | inl w ↦
                  rw (e, f, g, r, w)
                    (write_event-Tallied ev t n b k
                      (in_set (ev.dx, ev.dy) compute_cores && is_some ev.dx))
              | inr w ↦ rw (e, f, g, r, w) (omega arith)
            ]
          ]
        ]
      ]
    ]

zone_event-Tallied :
    (ev : Event) (zone : String) (s : ProgramSummary) (starts : Starts) (n b : ℕ)
    → Tallied s n b
    → Tallied (zone_event ev zone (s, starts)).0 n b
unfolding zone_event
zone_event-Tallied ev zone s starts n b h =
    elim (Bool-cases (str_eq zone "BRISC-KERNEL" || str_eq zone "NCRISC-KERNEL")) [
      | inl e ↦ elim (Bool-cases (str_eq ev.zone_phase "ZONE_START")) [
        | inl f ↦ rw (e, f) h
        | inr f ↦ elim (Bool-cases (str_eq ev.zone_phase "ZONE_END")) [
          | inl g ↦
              rw (e, f, g)
                (end_zone-Tallied s n b h zone ev.timestamp
                  (lookup_start (zone, (ev.sx, ev.sy)) starts))
          | inr g ↦ rw (e, f, g) h
        ]
      ]
      | inr e ↦ rw e h
    ]

classify-Tallied :
    (compute_cores : List Coord) (ev : Event) (zone : Option String) (s : ProgramSummary)
    (starts : Starts) (n b : ℕ)
    → Tallied s n b
    → Tallied
        (classify compute_cores ev zone s starts).0
        (n + (if moves ev zone then 1 else 0))
        (b + (if moves ev zone then ev.num_bytes else 0))
classify-Tallied compute_cores ev none s starts n b h = noc_event-Tallied compute_cores ev s n b h
classify-Tallied compute_cores ev (some zone) s starts n b h =
    subst (λ m. Tallied (zone_event ev zone (s, starts)).0 m (b + 0)) (omega arith)
      (subst (Tallied (zone_event ev zone (s, starts)).0 n) (omega arith)
        (zone_event-Tallied ev zone s starts n b h))

step-Tallied :
    (compute_cores : List Coord) (ev : Event) (s : ProgramSummary) (starts : Starts) (n b : ℕ)
    → Tallied s n b
    → Tallied
        (step compute_cores ev (s, starts)).0
        (n + (if moves ev ev.zone then 1 else 0))
        (b + (if moves ev ev.zone then ev.num_bytes else 0))
unfolding step
step-Tallied compute_cores ev s starts n b h =
    classify-Tallied compute_cores ev ev.zone (track_timestamp ev.timestamp s) starts n b
      (track_timestamp-Tallied s n b h ev.timestamp)

run-Tallied :
    (compute_cores : List Coord) (events : List Event) (s : ProgramSummary) (starts : Starts)
    (n b : ℕ)
    → Tallied s n b
    → Tallied (run compute_cores events (s, starts)).0 (n + transfers events) (b + payload events)
run-Tallied compute_cores [] s starts n b h =
    subst (λ m. Tallied s m (b + 0)) (omega arith) (subst (Tallied s n) (omega arith) h)
run-Tallied compute_cores (ev ∷ events) s starts n b h =
    let more : ℕ = if moves ev ev.zone then 1 else 0 in
    let bytes : ℕ = if moves ev ev.zone then ev.num_bytes else 0 in
    let st : ProgramSummary × Starts = step compute_cores ev (s, starts) in
    let e : n + more + transfers events ≡ n + transfers (ev ∷ events) = omega arith in
    let e' : b + bytes + payload events ≡ b + payload (ev ∷ events) = omega arith in
    subst (λ m. Tallied (run compute_cores events st).0 m (b + payload (ev ∷ events))) e
      (subst (Tallied (run compute_cores events st).0 (n + more + transfers events)) e' (
        run-Tallied compute_cores events st.0 st.1 (n + more) (b + bytes)
          (step-Tallied compute_cores ev s starts n b h)))

Tallied-zero : {s : ProgramSummary} (n b : ℕ) → Tallied s (0 + n) (0 + b) → Tallied s n b
Tallied-zero n b h = record {
  reads = h.reads;
  writes = h.writes;
  sizes = omega (arith, h.sizes);
  bytes = omega (arith, h.bytes);
  all_counts = omega (arith, h.all_counts);
  all_bytes = omega (arith, h.all_bytes);
}

-- In the summary of any trace, the counts of the reads by NOC add up to the reads from DRAM and L1, and
-- the counts of the writes by NOC to the writes to DRAM and L1 and the multicasts. Both together are the
-- number of events of the trace that move data, and so are the counts of the transfer sizes. The bytes
-- of all kinds together are the bytes of those events, and so are the transfer sizes taken as often as
-- they were counted.
pub parse_noc_trace-Tallied :
    (events : List Event) (s : ProgramSummary)
    → parse_noc_trace events ≡ ok s
    → Tallied s (transfers events) (payload events)
unfolding parse_noc_trace
parse_noc_trace-Tallied [] s e = subst (λ t. Tallied t 0 0) (ok-injective e) (omega arith)
parse_noc_trace-Tallied (ev ∷ events) s e =
    let (cores, found, e') =
      bind_ok-eq-ok (collect_compute_cores_from_zones (ev ∷ events))
        (λ compute_cores.
          ok
            (run compute_cores (ev ∷ events)
              (record new_summary { program_id = ev.run_host_id }, [])).0)
        e in
    subst (λ t. Tallied t (transfers (ev ∷ events)) (payload (ev ∷ events))) (ok-injective e')
      (Tallied-zero (transfers (ev ∷ events)) (payload (ev ∷ events)) (
        run-Tallied cores (ev ∷ events) (record new_summary { program_id = ev.run_host_id }) [] 0 0
          (omega arith)))
