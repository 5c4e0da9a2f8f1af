-- ===== src/PerfSummary/Pairs.antt =====
-- python/ttl/_src/perf_summary.py: no start of a zone and no end gives two durations.
use Prim.Native.String.{String}
use text.Mathlib.Text.{◌==◌ as str_eq}
use tt_lang.Prelude.{
  ℤ, sub_ℕ, ℕ, ◌+◌, ◌≤◌, ◌≡◌, refl, List, [], ◌∷◌, length, length-append, Option, none, some,
  Option-cases, if◌then◌else◌, ◌==◌, arith, Bool-cases, inl, inr,
}
use tt_lang.PerfSummary.Durations.{
  ZoneKey, Row, Open, Threads, same_key, find_open, set_open, del_open, append_to_thread,
  append_duration, row_step, parse_row, line_step, read_lines, parse_kernel_durations,
}

abbrev in_threads : Threads → ℕ
in_threads [] = 0
in_threads ((t, ds) ∷ rest) = length ds + in_threads rest

-- The number of all durations.
abbrev pub num_durations : List (ℕ × Threads) → ℕ
num_durations [] = 0
num_durations ((r, ts) ∷ rest) = in_threads ts + num_durations rest

in_threads-append :
    (thread : String) (d : ℤ) (ts : Threads)
    → in_threads (append_to_thread thread d ts) ≡ in_threads ts + 1
in_threads-append thread d [] = refl
in_threads-append thread d ((t, ds) ∷ rest) = elim (Bool-cases (str_eq t thread)) [
  | inl e ↦ rw e (omega (arith, length-append {0} ds (d ∷ [])))
  | inr e ↦ rw e (omega (arith, in_threads-append thread d rest))
]

num_durations-append :
    (run_id : ℕ) (thread : String) (d : ℤ) (ds : List (ℕ × Threads))
    → num_durations (append_duration run_id thread d ds) ≡ num_durations ds + 1
num_durations-append run_id thread d [] = refl
num_durations-append run_id thread d ((r, ts) ∷ rest) = elim (Bool-cases (r == run_id)) [
  | inl e ↦ rw e (omega (arith, in_threads-append thread d ts))
  | inr e ↦ rw e (omega (arith, num_durations-append run_id thread d rest))
]

length-set_open : (k : ZoneKey) (t : ℕ) (o : Open) → length (set_open k t o) ≤ length o + 1
length-set_open k t [] = omega arith
length-set_open k t ((j, u) ∷ o) = elim (Bool-cases (same_key j k)) [
  | inl e ↦ rw e (omega arith)
  | inr e ↦ rw e (omega (arith, length-set_open k t o))
]

length-del_open :
    (k : ZoneKey) (t : ℕ) (o : Open) → find_open k o ≡ some t → length (del_open k o) + 1 ≡ length o
length-del_open k t [] h = absurd (cc)
length-del_open k t ((j, u) ∷ o) h = elim (Bool-cases (same_key j k)) [
  | inl e ↦ rw e (omega arith)
  | inr e ↦ rw e (let later = length-del_open k t o (rw e at h) in omega (arith, later))
]

-- The lines of a kind that are not skipped.
module _ (strip : String → String) (int : String → Option ℕ) where
  abbrev one_of : String → Option Row → ℕ
  one_of kind none = 0
  one_of kind (some row) = if str_eq row.zone_type kind then 1 else 0

  abbrev pub lines_of : String → List (List String) → ℕ
  lines_of kind [] = 0
  lines_of kind (parts ∷ lines) = one_of kind (parse_row strip int parts) + lines_of kind lines

  record Paired (starts ends : ℕ) (st : Open × List (ℕ × Threads)) : Type 0 where
    by_starts : num_durations st.1 + length st.0 ≤ starts
    by_ends : num_durations st.1 ≤ ends

  line_step-Paired :
      (row : Option Row) (o : Open) (ds : List (ℕ × Threads)) (starts ends : ℕ)
      → Paired starts ends (o, ds)
      → Paired
          (starts + one_of "ZONE_START" row)
          (ends + one_of "ZONE_END" row)
          (line_step strip int row (o, ds))
  unfolding row_step
  line_step-Paired none o ds starts ends h = omega (arith, h.by_starts, h.by_ends)
  line_step-Paired (some row) o ds starts ends h =
      elim (Bool-cases (str_eq row.zone_type "ZONE_START")) [
        | inl e ↦ rw e (omega (arith, length-set_open row.key row.ts o, h.by_starts, h.by_ends))
        | inr e ↦ elim (Bool-cases (str_eq row.zone_type "ZONE_END")) [
          | inr f ↦ rw (e, f) (omega (arith, h.by_starts, h.by_ends))
          | inl f ↦ elim (Option-cases (find_open row.key o)) [
            | inl g ↦ rw (e, f, g) (omega (arith, h.by_starts, h.by_ends))
            | inr (t, g) ↦
                rw (e, f, g)
                  (omega (
                    arith,
                    length-del_open row.key t o g,
                    num_durations-append row.key.run_id row.key.thread (sub_ℕ row.ts t) ds,
                    h.by_starts,
                    h.by_ends,
                  ))
          ]
        ]
      ]

  read_lines-Paired :
      (lines : List (List String)) (o : Open) (ds : List (ℕ × Threads)) (starts ends : ℕ)
      → Paired starts ends (o, ds)
      → Paired
          (starts + lines_of "ZONE_START" lines)
          (ends + lines_of "ZONE_END" lines)
          (read_lines strip int lines (o, ds))
  read_lines-Paired [] o ds starts ends h = omega (arith, h.by_starts, h.by_ends)
  read_lines-Paired (parts ∷ lines) o ds starts ends h =
      let row : Option Row = parse_row strip int parts in
      let st : Open × List (ℕ × Threads) = line_step strip int row (o, ds) in
      let r = read_lines-Paired lines st.0 st.1 _ _ (line_step-Paired row o ds starts ends h) in
      omega (arith, r.by_starts, r.by_ends)

  -- There are at most as many durations as lines that start a kernel zone, and at most as many as lines
  -- that end one.
  pub num_durations-le :
      (lines : List (List String))
      → (num_durations (parse_kernel_durations strip int lines) ≤ lines_of "ZONE_START" lines)
        × (num_durations (parse_kernel_durations strip int lines) ≤ lines_of "ZONE_END" lines)
  unfolding parse_kernel_durations
  num_durations-le lines =
      let r = read_lines-Paired lines [] [] 0 0 (omega arith) in
      omega (arith, r.by_starts, r.by_ends)
