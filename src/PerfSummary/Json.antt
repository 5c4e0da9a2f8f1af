-- ===== src/PerfSummary/Json.antt =====
-- python/ttl/_src/perf_summary.py: `format_json_summary`. The duration in microseconds, which is rounded,
-- is left out, and the sizes stay numbers.
use tt_lang.Prelude.{
  ℤ, pos, sub_ℕ, ℕ, List, [], ◌∷◌, length, Option, none, some, if◌then◌else◌, ltb,
}
use tt_lang.PerfSummary.{ProgramSummary, infer_grid_shape}

pub record JsonSummary : Type 0 where
  pub program_id : ℕ
  pub grid : ℕ × ℕ
  pub num_cores : ℕ
  pub duration_cycles : ℤ
  pub dram_bytes_read : ℕ
  pub dram_bytes_written : ℕ
  pub l1_bytes_read : ℕ
  pub l1_bytes_written : ℕ
  pub multicast_bytes : ℕ
  pub dram_read_count : ℕ
  pub dram_write_count : ℕ
  pub l1_read_count : ℕ
  pub l1_write_count : ℕ
  pub read_barriers : ℕ
  pub write_barriers : ℕ
  pub dram_channels : ℕ
  pub transfer_sizes : List (ℕ × ℕ)

abbrev pub duration_of : Option ℕ → Option ℕ → ℤ
duration_of none hi = pos 0
duration_of (some lo) none = pos 0
duration_of (some lo) (some hi) = sub_ℕ hi lo

-- `sorted(sizes.items())` without the size 0; no size stands twice.
abbrev pub insert_size : ℕ × ℕ → List (ℕ × ℕ) → List (ℕ × ℕ)
insert_size x [] = x ∷ []
insert_size x (y ∷ t) = if ltb y.0 x.0 then y ∷ insert_size x t else x ∷ y ∷ t

abbrev pub sorted_sizes : List (ℕ × ℕ) → List (ℕ × ℕ)
sorted_sizes [] = []
sorted_sizes (x ∷ t) = if ltb 0 x.0 then insert_size x (sorted_sizes t) else sorted_sizes t

unfoldable pub format_json_summary : ProgramSummary → JsonSummary
unfolding infer_grid_shape
format_json_summary s = record {
  program_id = s.program_id;
  grid = infer_grid_shape s.source_cores;
  num_cores = length s.source_cores;
  duration_cycles = duration_of s.min_timestamp s.max_timestamp;
  dram_bytes_read = s.dram_bytes_read;
  dram_bytes_written = s.dram_bytes_written;
  l1_bytes_read = s.l1_bytes_read;
  l1_bytes_written = s.l1_bytes_written;
  multicast_bytes = s.multicast_bytes;
  dram_read_count = s.dram_read_count;
  dram_write_count = s.dram_write_count;
  l1_read_count = s.l1_read_count;
  l1_write_count = s.l1_write_count;
  read_barriers = s.read_barrier_count;
  write_barriers = s.write_barrier_count;
  dram_channels = length s.dram_destinations;
  transfer_sizes = sorted_sizes s.transfer_sizes;
}
