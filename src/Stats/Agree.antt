-- ===== src/Stats/Agree.antt =====
-- python/sim/stats.py: every call keeps the tables in agreement with the log.
use Prim.Native.String.{String}
use tt_lang.Prelude.{ℤ, ◌≡◌, refl, ◌∙◌, List, [], ◌∷◌, Bool, true, false, arith}
use tt_lang.Stats.{
  Stats, enable_stats, disable_stats, reset_stats, get_tensor_name, add_read, add_write,
  add_reserve, add_wait, calculate_tensor_tiles, calculate_block_tiles, get_pipe_name, get_dfb_name,
  record_tensor_read, record_tensor_write, record_pipe_read, record_pipe_write, record_dfb_reserve,
  record_dfb_wait,
}
use tt_lang.Stats.History.{
  Record, tensor_read, tensor_write, pipe_read, pipe_write, dfb_reserve, dfb_wait, Event, enable,
  disable, reset, op, is_tensor_read, is_tensor_write, is_pipe_read, is_pipe_write, is_dfb_reserve,
  is_dfb_wait, logged, run, record_call,
}
use tt_lang.Stats.Sums.{
  Sums, Sums-change, Sums-other, counters_view, dfb_view, Counts-add_read, Counts-add_write,
  Counts-add_reserve, Counts-add_wait,
}

-- The three tables.
pub record Agree (s : Stats) (log : List Record) : Type 0 where
  pub tensors : Sums counters_view is_tensor_read is_tensor_write s.stats_by_name log
  pub pipes : Sums counters_view is_pipe_read is_pipe_write s.pipe_stats_by_name log
  pub dfbs : Sums dfb_view is_dfb_reserve is_dfb_wait s.dfb_stats_by_name log

module _ (str : ℤ → String) (log : List Record) where
  Agree-record_call :
      (x : Record) (s : Stats)
      → s.stats_enabled ≡ true
      → Agree s log
      → Agree (record_call str x s) (x ∷ log)
  unfolding record_tensor_read record_tensor_write record_pipe_read record_pipe_write
      record_dfb_reserve record_dfb_wait
  Agree-record_call (tensor_read t) s e h = rw e record {
    tensors =
        Sums-change counters_view is_tensor_read is_tensor_write (tensor_read t) log
          (get_tensor_name str t) (add_read (calculate_tensor_tiles t)) s.stats_by_name
          (refl, refl, refl, refl)
          (Counts-add_read is_tensor_read is_tensor_write (tensor_read t) refl refl) h.tensors;
    pipes =
        Sums-other counters_view is_pipe_read is_pipe_write (tensor_read t) log s.pipe_stats_by_name
          refl refl h.pipes;
    dfbs =
        Sums-other dfb_view is_dfb_reserve is_dfb_wait (tensor_read t) log s.dfb_stats_by_name refl
          refl h.dfbs;
  }
  Agree-record_call (tensor_write t) s e h = rw e record {
    tensors =
        Sums-change counters_view is_tensor_read is_tensor_write (tensor_write t) log
          (get_tensor_name str t) (add_write (calculate_tensor_tiles t)) s.stats_by_name
          (refl, refl, refl, refl)
          (Counts-add_write is_tensor_read is_tensor_write (tensor_write t) refl refl) h.tensors;
    pipes =
        Sums-other counters_view is_pipe_read is_pipe_write (tensor_write t) log
          s.pipe_stats_by_name refl refl h.pipes;
    dfbs =
        Sums-other dfb_view is_dfb_reserve is_dfb_wait (tensor_write t) log s.dfb_stats_by_name refl
          refl h.dfbs;
  }
  Agree-record_call (pipe_read p ts) s e h = rw e record {
    tensors =
        Sums-other counters_view is_tensor_read is_tensor_write (pipe_read p ts) log s.stats_by_name
          refl refl h.tensors;
    pipes =
        Sums-change counters_view is_pipe_read is_pipe_write (pipe_read p ts) log
          (get_pipe_name str p) (add_read (calculate_block_tiles ts)) s.pipe_stats_by_name
          (refl, refl, refl, refl)
          (Counts-add_read is_pipe_read is_pipe_write (pipe_read p ts) refl refl) h.pipes;
    dfbs =
        Sums-other dfb_view is_dfb_reserve is_dfb_wait (pipe_read p ts) log s.dfb_stats_by_name refl
          refl h.dfbs;
  }
  Agree-record_call (pipe_write p ts) s e h = rw e record {
    tensors =
        Sums-other counters_view is_tensor_read is_tensor_write (pipe_write p ts) log
          s.stats_by_name refl refl h.tensors;
    pipes =
        Sums-change counters_view is_pipe_read is_pipe_write (pipe_write p ts) log
          (get_pipe_name str p) (add_write (calculate_block_tiles ts)) s.pipe_stats_by_name
          (refl, refl, refl, refl)
          (Counts-add_write is_pipe_read is_pipe_write (pipe_write p ts) refl refl) h.pipes;
    dfbs =
        Sums-other dfb_view is_dfb_reserve is_dfb_wait (pipe_write p ts) log s.dfb_stats_by_name
          refl refl h.dfbs;
  }
  Agree-record_call (dfb_reserve d n) s e h = rw e record {
    tensors =
        Sums-other counters_view is_tensor_read is_tensor_write (dfb_reserve d n) log
          s.stats_by_name refl refl h.tensors;
    pipes =
        Sums-other counters_view is_pipe_read is_pipe_write (dfb_reserve d n) log
          s.pipe_stats_by_name refl refl h.pipes;
    dfbs =
        Sums-change dfb_view is_dfb_reserve is_dfb_wait (dfb_reserve d n) log
          ((get_dfb_name str d s.dfb_name_counter).0) (add_reserve n) s.dfb_stats_by_name
          (refl, refl, refl, refl)
          (Counts-add_reserve is_dfb_reserve is_dfb_wait (dfb_reserve d n) refl refl) h.dfbs;
  }
  Agree-record_call (dfb_wait d n) s e h = rw e record {
    tensors =
        Sums-other counters_view is_tensor_read is_tensor_write (dfb_wait d n) log s.stats_by_name
          refl refl h.tensors;
    pipes =
        Sums-other counters_view is_pipe_read is_pipe_write (dfb_wait d n) log s.pipe_stats_by_name
          refl refl h.pipes;
    dfbs =
        Sums-change dfb_view is_dfb_reserve is_dfb_wait (dfb_wait d n) log
          ((get_dfb_name str d s.dfb_name_counter).0) (add_wait n) s.dfb_stats_by_name
          (refl, refl, refl, refl)
          (Counts-add_wait is_dfb_reserve is_dfb_wait (dfb_wait d n) refl refl) h.dfbs;
  }

-- While the statistics are off no call changes anything.
pub record_call-off :
    (str : ℤ → String) (x : Record) (s : Stats) → s.stats_enabled ≡ false → record_call str x s ≡ s
unfolding record_tensor_read record_tensor_write record_pipe_read record_pipe_write
    record_dfb_reserve record_dfb_wait
record_call-off str (tensor_read t) s e = simp e
record_call-off str (tensor_write t) s e = simp e
record_call-off str (pipe_read p ts) s e = simp e
record_call-off str (pipe_write p ts) s e = simp e
record_call-off str (dfb_reserve d n) s e = simp e
record_call-off str (dfb_wait d n) s e = simp e

pub record_call-enabled :
    (str : ℤ → String) (x : Record) (s : Stats)
    → (record_call str x s).stats_enabled ≡ s.stats_enabled
unfolding record_tensor_read record_tensor_write record_pipe_read record_pipe_write
    record_dfb_reserve record_dfb_wait
record_call-enabled str (tensor_read t) s = ground arith
record_call-enabled str (tensor_write t) s = ground arith
record_call-enabled str (pipe_read p ts) s = ground arith
record_call-enabled str (pipe_write p ts) s = ground arith
record_call-enabled str (dfb_reserve d n) s = ground arith
record_call-enabled str (dfb_wait d n) s = ground arith

pub Agree-nil : (s : Stats) → Agree (reset_stats s) []
Agree-nil s = record {
  tensors = record { empty = refl; ins = refl; outs = refl; tiles_in = refl; tiles_out = refl };
  pipes = record { empty = refl; ins = refl; outs = refl; tiles_in = refl; tiles_out = refl };
  dfbs = record { empty = refl; ins = refl; outs = refl; tiles_in = refl; tiles_out = refl };
}

pub Agree-run :
    (str : ℤ → String) (log : List Record) (on : Bool) (es : List Event) (s : Stats)
    → s.stats_enabled ≡ on
    → Agree s log
    → Agree (run str es s) (logged on log es)
Agree-run str log on [] s e h = h
Agree-run str log on (enable ∷ es) s e h =
    Agree-run str log true es (enable_stats s) refl
      (record { tensors = h.tensors; pipes = h.pipes; dfbs = h.dfbs })
Agree-run str log on (disable ∷ es) s e h =
    Agree-run str log false es (disable_stats s) refl
      (record { tensors = h.tensors; pipes = h.pipes; dfbs = h.dfbs })
Agree-run str log on (reset ∷ es) s e h = Agree-run str [] on es (reset_stats s) e (Agree-nil s)
Agree-run str log true (op r ∷ es) s e h =
    Agree-run str (r ∷ log) true es (record_call str r s) (record_call-enabled str r s ∙ e)
      (Agree-record_call str log r s e h)
Agree-run str log false (op r ∷ es) s e h =
    Agree-run str log false es (record_call str r s) (record_call-enabled str r s ∙ e)
      (rw (record_call-off str r s e) h)
