-- ===== src/PerfSummary/Timestamps.antt =====
-- python/ttl/_src/perf_summary.py: the range of timestamps of a trace.
use Prim.Native.String.{String}
use tt_lang.Prelude.{
  ℕ, ◌≤◌, ◌≡◌, refl, ◌∙◌, ap, sym, List, [], ◌∷◌, map, has, Option, none, some, true, ◌||◌,
  if◌then◌else◌, ◌==◌, ltb, ok, bind_ok-eq-ok, ok-injective, arith,
}
use tt_lang.PerfSummary.{
  Event, Coord, ProgramSummary, new_summary, zone_event, noc_event, Starts, end_zone, classify,
  step, run, track_timestamp, parse_noc_trace, lookup_start, collect_compute_cores_from_zones,
}

abbrev pub timestamps : List Event → List ℕ
timestamps events = map (λ (ev : Event). ev.timestamp) events

abbrev range : ProgramSummary → Option ℕ × Option ℕ
range s = (s.min_timestamp, s.max_timestamp)

noc_event-range :
    (cores : List Coord) (ev : Event) (s : ProgramSummary) → range (noc_event cores ev s) ≡ range s
unfolding noc_event
noc_event-range cores ev s = ground arith

end_zone-range :
    (zone : String) (ts : ℕ) (o : Option ℕ) (s : ProgramSummary)
    → range (end_zone zone ts o s) ≡ range s
end_zone-range zone ts none s = refl
end_zone-range zone ts (some start) s = ground arith

zone_event-range :
    (ev : Event) (zone : String) (s : ProgramSummary) (starts : Starts)
    → range (zone_event ev zone (s, starts)).0 ≡ range s
unfolding zone_event
zone_event-range ev zone s starts =
    ground (arith, end_zone-range zone ev.timestamp (lookup_start (zone, (ev.sx, ev.sy)) starts) s)

step-range :
    (cores : List Coord) (ev : Event) (zone : Option String) (s : ProgramSummary) (starts : Starts)
    → range (classify cores ev zone s starts).0 ≡ range s
step-range cores ev none s starts = noc_event-range cores ev s
step-range cores ev (some zone) s starts = zone_event-range ev zone s starts

-- The least and the greatest of a number and a list.
least : ℕ → List ℕ → ℕ
least t [] = t
least t (x ∷ xs) = least (if ltb x t then x else t) xs

greatest : ℕ → List ℕ → ℕ
greatest t [] = t
greatest t (x ∷ xs) = greatest (if ltb t x then x else t) xs

-- All numbers of a list lie within two bounds.
abbrev pub Within : ℕ → ℕ → List ℕ → Type 0
Within lo hi [] = Unit
Within lo hi (x ∷ xs) = (lo ≤ x) × (x ≤ hi) × Within lo hi xs

least-le : (t : ℕ) (xs : List ℕ) → least t xs ≤ t
unfolding least
least-le t [] = omega arith
least-le t (x ∷ xs) = ground (arith, least-le t xs, least-le x xs)

greatest-le : (t : ℕ) (xs : List ℕ) → t ≤ greatest t xs
unfolding greatest
greatest-le t [] = omega arith
greatest-le t (x ∷ xs) = ground (arith, greatest-le t xs, greatest-le x xs)

Within-weaken :
    (lo hi lo' hi' : ℕ) (xs : List ℕ) → lo' ≤ lo → hi ≤ hi' → Within lo hi xs → Within lo' hi' xs
Within-weaken lo hi lo' hi' [] h k w = tt
Within-weaken lo hi lo' hi' (x ∷ xs) h k w =
    (omega (arith, w.0), omega (arith, w.1), Within-weaken lo hi lo' hi' xs h k w.2)

Within-extremes : (t u : ℕ) (xs : List ℕ) → Within (least t xs) (greatest u xs) xs
unfolding least greatest
Within-extremes t u [] = tt
Within-extremes t u (x ∷ xs) =
    let t' : ℕ = if ltb x t then x else t in
    let u' : ℕ = if ltb u x then x else u in
    let below : t' ≤ x = ground arith in
    let above : x ≤ u' = ground arith in
    (omega (arith, least-le t' xs), omega (arith, greatest-le u' xs), Within-extremes t' u' xs)

has-least : (t : ℕ) (xs : List ℕ) → (least t xs == t) || has (least t xs) xs ≡ true
unfolding least
has-least t [] = ground arith
has-least t (x ∷ xs) = ground (arith, has-least t xs, has-least x xs)

has-greatest : (t : ℕ) (xs : List ℕ) → (greatest t xs == t) || has (greatest t xs) xs ≡ true
unfolding greatest
has-greatest t [] = ground arith
has-greatest t (x ∷ xs) = ground (arith, has-greatest t xs, has-greatest x xs)

run-range :
    (cores : List Coord) (events : List Event) (s : ProgramSummary) (starts : Starts) (lo hi : ℕ)
    → range s ≡ (some lo, some hi)
    → range (run cores events (s, starts)).0
      ≡ (some (least lo (timestamps events)), some (greatest hi (timestamps events)))
unfolding least greatest step track_timestamp
run-range cores [] s starts lo hi e = e
run-range cores (ev ∷ events) s starts lo hi e =
    let tracked : range (track_timestamp ev.timestamp s) ≡ (
      some (if ltb ev.timestamp lo then ev.timestamp else lo),
      some (if ltb hi ev.timestamp then ev.timestamp else hi),
    ) =
      ground arith in
    let st : ProgramSummary × Starts =
      classify cores ev ev.zone (track_timestamp ev.timestamp s) starts in
    run-range cores events st.0 st.1 (if ltb ev.timestamp lo then ev.timestamp else lo)
      (if ltb hi ev.timestamp then ev.timestamp else hi)
      (step-range cores ev ev.zone (track_timestamp ev.timestamp s) starts ∙ tracked)

-- The summary of a trace that is not empty has the least and the greatest of the timestamps of all
-- events, those of zones included.
pub parse_noc_trace-timestamps :
    (ev : Event) (events : List Event) (s : ProgramSummary)
    → parse_noc_trace (ev ∷ events) ≡ ok s
    → (lo : ℕ) × (hi : ℕ) × (s.min_timestamp ≡ some lo)
      × (s.max_timestamp ≡ some hi)
      × (has lo (timestamps (ev ∷ events)) ≡ true)
      × (has hi (timestamps (ev ∷ events)) ≡ true)
      × Within lo hi (timestamps (ev ∷ events))
unfolding parse_noc_trace step track_timestamp
parse_noc_trace-timestamps ev events s e =
    let start : ProgramSummary = record new_summary { program_id = ev.run_host_id } in
    let (cores, found, e') =
      bind_ok-eq-ok (collect_compute_cores_from_zones (ev ∷ events))
        (λ compute_cores. ok (run compute_cores (ev ∷ events) (start, [])).0) e in
    let ts : ℕ = ev.timestamp in
    let rest : List ℕ = timestamps events in
    let st : ProgramSummary × Starts = classify cores ev ev.zone (track_timestamp ts start) [] in
    let r : range (run cores events st).0 ≡ (some (least ts rest), some (greatest ts rest)) =
      run-range cores events st.0 st.1 ts ts
        (step-range cores ev ev.zone (track_timestamp ts start) []) in
    let q : range s ≡ (some (least ts rest), some (greatest ts rest)) =
      ap range (sym (ok-injective e')) ∙ r in
    (
      least ts rest,
      greatest ts rest,
      ap (λ p. p.0) q,
      ap (λ p. p.1) q,
      has-least ts rest,
      has-greatest ts rest,
      (least-le ts rest, greatest-le ts rest, Within-extremes ts ts rest),
    )
