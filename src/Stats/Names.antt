-- ===== src/Stats/Names.antt =====
-- python/sim/stats.py: the entry of each tensor name and of each pipe name after any history.
use Prim.Native.String.{String}
use text.Mathlib.Text.{◌==◌ as str_eq}
use tt_lang.Prelude.{ℤ, ℕ, ◌≡◌, refl, ◌∙◌, List, [], ◌∷◌, Bool, true, false, if◌then◌else◌, arith}
use tt_lang.Stats.{
  Stats, Table, Counters, enable_stats, disable_stats, reset_stats, change, entry, no_counters,
  get_tensor_name, get_pipe_name, add_read, add_write, calculate_tensor_tiles,
  calculate_block_tiles, record_tensor_read, record_tensor_write, record_pipe_read,
  record_pipe_write, record_dfb_reserve, record_dfb_wait,
}
use tt_lang.Stats.Counts.{entry-change}
use tt_lang.Stats.History.{
  Record, tensor_read, tensor_write, pipe_read, pipe_write, dfb_reserve, dfb_wait, Event, enable,
  disable, reset, op, calls_of, tiles_of, logged, start, run, record_call,
}
use tt_lang.Stats.Agree.{record_call-off, record_call-enabled}

-- What is expected of a name: its calls in a log and their tiles, counted afresh.
abbrev pub expected_counters : (Record → Bool) → (Record → Bool) → List Record → Counters
expected_counters p q log = record {
  reads = calls_of p log;
  writes = calls_of q log;
  tiles_read = tiles_of p log;
  tiles_written = tiles_of q log;
}

module _ (k name : String) (n : ℕ) (t : Table Counters) where
  entry-add_read :
      entry no_counters name (change no_counters k (add_read n) t)
      ≡ (if str_eq k name then add_read n (entry no_counters name t) else entry no_counters name t)
  entry-add_read = ground (
    arith,
    entry-change no_counters k (add_read n) (λ (c : Counters). c.reads) 1 (λ v. refl) name t,
    entry-change no_counters k (add_read n) (λ (c : Counters). c.writes) 0 (λ v. omega arith) name
        t,
    entry-change no_counters k (add_read n) (λ (c : Counters). c.tiles_read) n (λ v. refl) name t,
    entry-change no_counters k (add_read n) (λ (c : Counters). c.tiles_written) 0 (λ v. omega arith)
        name t,
  )

  entry-add_write :
      entry no_counters name (change no_counters k (add_write n) t)
      ≡ (if str_eq k name then add_write n (entry no_counters name t) else entry no_counters name t)
  entry-add_write = ground (
    arith,
    entry-change no_counters k (add_write n) (λ (c : Counters). c.reads) 0 (λ v. omega arith) name
        t,
    entry-change no_counters k (add_write n) (λ (c : Counters). c.writes) 1 (λ v. refl) name t,
    entry-change no_counters k (add_write n) (λ (c : Counters). c.tiles_read) 0 (λ v. omega arith)
        name t,
    entry-change no_counters k (add_write n) (λ (c : Counters). c.tiles_written) n (λ v. refl) name
        t,
  )

module _ (str : ℤ → String) (name : String) where
  abbrev pub reads_tensor : Record → Bool
  reads_tensor (tensor_read t) = str_eq (get_tensor_name str t) name
  reads_tensor _ = false

  abbrev pub writes_tensor : Record → Bool
  writes_tensor (tensor_write t) = str_eq (get_tensor_name str t) name
  writes_tensor _ = false

  abbrev pub reads_pipe : Record → Bool
  reads_pipe (pipe_read p ts) = str_eq (get_pipe_name str p) name
  reads_pipe _ = false

  abbrev pub writes_pipe : Record → Bool
  writes_pipe (pipe_write p ts) = str_eq (get_pipe_name str p) name
  writes_pipe _ = false

  record Named (s : Stats) (log : List Record) : Type 0 where
    tensors :
        entry no_counters name s.stats_by_name ≡ expected_counters reads_tensor writes_tensor log
    pipes :
        entry no_counters name s.pipe_stats_by_name ≡ expected_counters reads_pipe writes_pipe log

  Named-record_call :
      (log : List Record) (x : Record) (s : Stats)
      → s.stats_enabled ≡ true
      → Named s log
      → Named (record_call str x s) (x ∷ log)
  unfolding record_tensor_read record_tensor_write record_pipe_read record_pipe_write
      record_dfb_reserve record_dfb_wait
  Named-record_call log (tensor_read t) s e h = rw e record {
    tensors =
        rw
          (
            entry-add_read (get_tensor_name str t) name (calculate_tensor_tiles t) s.stats_by_name,
            h.tensors,
          )
          (ground arith);
    pipes = rw h.pipes (ground arith);
  }
  Named-record_call log (tensor_write t) s e h = rw e record {
    tensors =
        rw
          (
            entry-add_write (get_tensor_name str t) name (calculate_tensor_tiles t) s.stats_by_name,
            h.tensors,
          )
          (ground arith);
    pipes = rw h.pipes (ground arith);
  }
  Named-record_call log (pipe_read p ts) s e h = rw e record {
    tensors = rw h.tensors (ground arith);
    pipes =
        rw
          (
            entry-add_read (get_pipe_name str p) name (calculate_block_tiles ts)
                s.pipe_stats_by_name,
            h.pipes,
          )
          (ground arith);
  }
  Named-record_call log (pipe_write p ts) s e h = rw e record {
    tensors = rw h.tensors (ground arith);
    pipes =
        rw
          (
            entry-add_write (get_pipe_name str p) name (calculate_block_tiles ts)
                s.pipe_stats_by_name,
            h.pipes,
          )
          (ground arith);
  }
  Named-record_call log (dfb_reserve d n) s e h =
      rw e record { tensors = rw h.tensors (ground arith); pipes = rw h.pipes (ground arith) }
  Named-record_call log (dfb_wait d n) s e h =
      rw e record { tensors = rw h.tensors (ground arith); pipes = rw h.pipes (ground arith) }

  Named-run :
      (log : List Record) (on : Bool) (es : List Event) (s : Stats)
      → s.stats_enabled ≡ on
      → Named s log
      → Named (run str es s) (logged on log es)
  Named-run log on [] s e h = h
  Named-run log on (enable ∷ es) s e h =
      Named-run log true es (enable_stats s) refl (record { tensors = h.tensors; pipes = h.pipes })
  Named-run log on (disable ∷ es) s e h =
      Named-run log false es (disable_stats s) refl
        (record { tensors = h.tensors; pipes = h.pipes })
  Named-run log on (reset ∷ es) s e h =
      Named-run [] on es (reset_stats s) e (record { tensors = refl; pipes = refl })
  Named-run log true (op r ∷ es) s e h =
      Named-run (r ∷ log) true es (record_call str r s) (record_call-enabled str r s ∙ e)
        (Named-record_call log r s e h)
  Named-run log false (op r ∷ es) s e h =
      Named-run log false es (record_call str r s) (record_call-enabled str r s ∙ e)
        (rw (record_call-off str r s e) h)

  -- After any history of calls, from fresh statistics, the entry of a name holds the number of the
  -- reads and writes of the tensors of that name and of the tiles that they moved, and the entry of
  -- a pipe's name those of the pipes of that name: of the calls since the last reset that came while
  -- the statistics were enabled. A name without such a call has an entry of zeros.
  pub run-entries :
      (es : List Event)
      → (entry no_counters name (run str es start).stats_by_name
          ≡ expected_counters reads_tensor writes_tensor (logged false [] es))
        × (entry no_counters name (run str es start).pipe_stats_by_name
            ≡ expected_counters reads_pipe writes_pipe (logged false [] es))
  run-entries es =
      let h = Named-run [] false es start refl (record { tensors = refl; pipes = refl }) in
      (h.tensors, h.pipes)
