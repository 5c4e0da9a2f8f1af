-- ===== src/Scheduler/Tests.antt =====
-- The theorems on the scheduler at two threads that share a box: the first puts items into it, the
-- second takes them out.
use tt_lang.Prelude.{
  ℕ, zero, suc, ◌+◌, ◌-◌, ◌≤◌, ◌≡◌, ◌≢◌, refl, [], ◌∷◌, some, Bool, true, false, ◌==◌, count, has,
  arith,
}
use tt_lang.BlockState.{compute, dm}
use tt_lang.Scheduler.{
  greedy, fair, Thread, finished, blocked, Turn, Scheduler, returned, deadlock, unfinished,
  is_empty, new_scheduler, add_thread, find, run,
}
use tt_lang.Scheduler.Budget.{yields}
use tt_lang.Scheduler.Runs.{run-returned, run-deadlock, run-ends}
use tt_lang.Scheduler.CoreRanges.{cores_of, format_core_ranges, sorted, cores_of-format_core_ranges}

data Op : Type 0 where
  put take : Op

-- How often each thread still blocks, and what is in the box.
record Box : Type 0 where
  puts : ℕ
  takes : ℕ
  items : ℕ

abbrev can : Op → Box → Bool
can put w = w.items == 0
can take w = w.items == 1

abbrev put_turn : ℕ → Box → Turn Box Op
put_turn zero w = record { stop = finished; progressed = true; world = w }
put_turn (suc p) w = record {
  stop = blocked put;
  progressed = true;
  world = record w { puts = p; items = suc w.items };
}

abbrev take_turn : ℕ → Box → Turn Box Op
take_turn zero w = record {
  stop = finished;
  progressed = true;
  world = record w { items = w.items - 1 };
}
take_turn (suc t) w = record {
  stop = blocked take;
  progressed = true;
  world = record w { takes = t; items = w.items - 1 };
}

-- A thread does what it blocked for, then blocks again or ends.
abbrev resume : ℕ → Box → Turn Box Op
resume zero w = put_turn w.puts w
resume (suc n) w = take_turn w.takes w

abbrev budget : Box → ℕ
budget w = w.puts + w.takes

put_turn-spends :
    (p : ℕ) (w : Box)
    → w.puts ≡ p
    → budget (put_turn p w).world + yields (put_turn p w).stop ≤ budget w
put_turn-spends zero w e = omega arith
put_turn-spends (suc p) w e = omega arith

take_turn-spends :
    (t : ℕ) (w : Box)
    → w.takes ≡ t
    → budget (take_turn t w).world + yields (take_turn t w).stop ≤ budget w
take_turn-spends zero w e = omega arith
take_turn-spends (suc t) w e = omega arith

resume-spends : (n : ℕ) (w : Box) → budget (resume n w).world + yields (resume n w).stop ≤ budget w
resume-spends zero w = put_turn-spends w.puts w refl
resume-spends (suc n) w = take_turn-spends w.takes w refl

abbrev two_threads : ℕ → ℕ → Scheduler Box Op
unfolding add_thread
two_threads p t =
    add_thread 1 dm
      (add_thread 0 compute (new_scheduler (record { puts = p; takes = t; items = 0 })))

abbrev fair_end : Scheduler Box Op
unfolding run two_threads
fair_end = (run resume can fair 9 (two_threads 2 1)).1

abbrev stuck_end : Scheduler Box Op
unfolding run two_threads
stuck_end = (run resume can greedy 9 (two_threads 1 3)).1

fair_run : run resume can fair 9 (two_threads 2 1) ≡ (returned, fair_end)
unfolding run two_threads
fair_run = refl

greedy_run : run resume can greedy 9 (two_threads 1 3) ≡ (deadlock, stuck_end)
unfolding run two_threads
greedy_run = refl

-- The second thread waits for an item that no thread puts.
abbrev starved : Thread Op
starved = record {
  name = 1;
  thread_type = dm;
  blocking_obj = some take;
  last_run = 2;
  has_made_progress = true;
}

starved_found : find 1 stuck_end.active ≡ some starved
unfolding run two_threads
starved_found = refl

run-returned_example : (is_empty fair_end.active ≡ true) × (has 1 fair_end.completed ≡ true)
unfolding two_threads
run-returned_example = run-returned resume can fair 9 1 (two_threads 2 1) fair_run

run-deadlock_example : (o : Op) × (some take ≡ some o) × (can o stuck_end.world ≡ false)
run-deadlock_example = run-deadlock resume can greedy 9 1 (two_threads 1 3) greedy_run starved_found

run-ends_example : (run resume can fair 9 (two_threads 3 3)).0 ≢ unfinished
unfolding two_threads
run-ends_example = run-ends resume can fair budget 9 (two_threads 3 3) resume-spends (omega arith)

format_core_ranges_sample : format_core_ranges (3 ∷ 0 ∷ 1 ∷ 11 ∷ 2 ∷ []) ≡ (0, 3) ∷ (11, 11) ∷ []
unfolding format_core_ranges
format_core_ranges_sample = refl

cores_of-format_core_ranges_example :
    (cores_of (format_core_ranges (3 ∷ 0 ∷ 1 ∷ [])) ≡ sorted (3 ∷ 0 ∷ 1 ∷ []))
    × ((x : ℕ)
        → count x (cores_of (format_core_ranges (3 ∷ 0 ∷ 1 ∷ []))) ≡ count x (3 ∷ 0 ∷ 1 ∷ []))
cores_of-format_core_ranges_example = cores_of-format_core_ranges (3 ∷ 0 ∷ 1 ∷ [])
