-- ===== src/Stats/History.antt =====
-- python/sim/stats.py: histories of calls, and what is recorded in them.
use Prim.Native.String.{String}
use tt_lang.Prelude.{ℤ, ℕ, ◌+◌, List, [], ◌∷◌, Bool, true, false, if◌then◌else◌}
use tt_lang.Pipe.{Pipe}
use tt_lang.Stats.{
  TensorInfo, DfbInfo, Stats, enable_stats, disable_stats, reset_stats, calculate_tensor_tiles,
  calculate_block_tiles, record_tensor_read, record_tensor_write, record_pipe_read,
  record_pipe_write, record_dfb_reserve, record_dfb_wait,
}

-- A call that is recorded.
pub data Record : Type 0 where
  tensor_read : TensorInfo → Record
  tensor_write : TensorInfo → Record
  pipe_read : Pipe → List TensorInfo → Record
  pipe_write : Pipe → List TensorInfo → Record
  dfb_reserve : DfbInfo → ℕ → Record
  dfb_wait : DfbInfo → ℕ → Record

pub data Event : Type 0 where
  enable : Event
  disable : Event
  reset : Event
  op : Record → Event

abbrev pub tiles : Record → ℕ
tiles (tensor_read t) = calculate_tensor_tiles t
tiles (tensor_write t) = calculate_tensor_tiles t
tiles (pipe_read p ts) = calculate_block_tiles ts
tiles (pipe_write p ts) = calculate_block_tiles ts
tiles (dfb_reserve d n) = n
tiles (dfb_wait d n) = n

-- The kinds of records.
abbrev pub is_tensor_read : Record → Bool
is_tensor_read (tensor_read t) = true
is_tensor_read _ = false

abbrev pub is_tensor_write : Record → Bool
is_tensor_write (tensor_write t) = true
is_tensor_write _ = false

abbrev pub is_pipe_read : Record → Bool
is_pipe_read (pipe_read p ts) = true
is_pipe_read _ = false

abbrev pub is_pipe_write : Record → Bool
is_pipe_write (pipe_write p ts) = true
is_pipe_write _ = false

abbrev pub is_dfb_reserve : Record → Bool
is_dfb_reserve (dfb_reserve d n) = true
is_dfb_reserve _ = false

abbrev pub is_dfb_wait : Record → Bool
is_dfb_wait (dfb_wait d n) = true
is_dfb_wait _ = false

-- How many records of a log meet a test, and how many tiles they moved.
abbrev pub calls_of : (Record → Bool) → List Record → ℕ
calls_of p [] = 0
calls_of p (r ∷ rs) = (if p r then 1 else 0) + calls_of p rs

abbrev pub tiles_of : (Record → Bool) → List Record → ℕ
tiles_of p [] = 0
tiles_of p (r ∷ rs) = (if p r then tiles r else 0) + tiles_of p rs

-- The calls that count: those since the last reset that came while the statistics were on. The
-- latest comes first.
abbrev pub logged : Bool → List Record → List Event → List Record
logged on log [] = log
logged on log (enable ∷ es) = logged true log es
logged on log (disable ∷ es) = logged false log es
logged on log (reset ∷ es) = logged on [] es
logged on log (op r ∷ es) = logged on (if on then r ∷ log else log) es

abbrev pub start : Stats
start = record {
  stats_enabled = false;
  stats_by_name = [];
  pipe_stats_by_name = [];
  dfb_stats_by_name = [];
  dfb_name_counter = 0;
}

module _ (str : ℤ → String) where
  abbrev pub record_call : Record → Stats → Stats
  record_call (tensor_read t) = record_tensor_read str t
  record_call (tensor_write t) = record_tensor_write str t
  record_call (pipe_read p ts) = record_pipe_read str p ts
  record_call (pipe_write p ts) = record_pipe_write str p ts
  record_call (dfb_reserve d n) = record_dfb_reserve str d n
  record_call (dfb_wait d n) = record_dfb_wait str d n

  abbrev pub step : Event → Stats → Stats
  step enable s = enable_stats s
  step disable s = disable_stats s
  step reset s = reset_stats s
  step (op r) s = record_call r s

  abbrev pub run : List Event → Stats → Stats
  run [] s = s
  run (e ∷ es) s = run es (step e s)
