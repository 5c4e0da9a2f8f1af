-- ===== src/Scheduler.antt =====
-- python/sim/greenlet_scheduler.py: the cooperative scheduler.
--
-- A greenlet is the code of a kernel, which is not part of the scheduler. What it does once it is
-- switched to is the parameter `resume`: it works on the world, with all buffers, pipes and the
-- greenlets' own states in it, until it ends, blocks, or raises. Whether an operation on an object
-- can go on (`can_wait`, `can_reserve`) is the parameter `can`. The names of threads are numbers,
-- in the order of the strings. Where a thread blocked in its source is left out.
mod Threads
pub use Threads.*
pub mod Names
pub mod Progress
pub mod Ends
pub mod Budget
pub mod Runs
pub mod CoreRanges
mod Tests
use tt_lang.Prelude.{
  ℕ, zero, suc, ◌+◌, List, [], ◌∷◌, ◌++◌, Option, none, some, Bool, true, false, ◌||◌,
  if◌then◌else◌, Error, Exec, Outcome, ok, raise, runtime_error, ◌>>=◌, ◌>>◌, pure, modify,
}
use tt_lang.BlockState.{ThreadType}

-- How a greenlet gives up control.
pub data Stop (O : Type 0) : Type 0 where
  finished : Stop O
  blocked : O → Stop O
  failed : Error → Stop O

-- One turn of a greenlet: how it stopped, whether it passed a check without blocking
-- (`mark_thread_progress`), and the world that it leaves.
pub record Turn (W O : Type 0) : Type 0 where
  pub stop : Stop O
  pub progressed : Bool
  pub world : W

pub record Scheduler (W O : Type 0) : Type 0 where
  pub active : List (Thread O)
  pub completed : List ℕ
  pub timestamp : ℕ
  pub world : W

-- How `run` ends; it has not ended where the fuel is used up.
pub data End : Type 0 where
  returned deadlock thread_error unfinished : End

module _ {W O : Type 0} where
  abbrev pub new_scheduler : W → Scheduler W O
  new_scheduler w = record { active = []; completed = []; timestamp = 0; world = w }

  unfoldable pub add_thread : ℕ → ThreadType → Scheduler W O → Scheduler W O
  add_thread name thread_type s = record s {
    active =
        put_thread
          (record {
            name = name;
            thread_type = thread_type;
            blocking_obj = none;
            last_run = 0;
            has_made_progress = false;
          })
          s.active;
  }

  -- `_mark_completed`
  abbrev pub mark_completed : ℕ → Scheduler W O → Scheduler W O
  mark_completed name s = record s {
    active = remove name s.active;
    completed = s.completed ++ (name ∷ []);
  }

  -- The end of a turn; an exception of the thread becomes a RuntimeError.
  abbrev pub settle : ℕ → Stop O → Exec (Scheduler W O) (Unit {0})
  settle name finished s = (ok tt, mark_completed name s)
  settle name (blocked o) s = (ok tt, record s { active = update name (block_on o) s.active })
  settle name (failed e) s = (raise runtime_error, s)

  abbrev pub stamp : ℕ → Scheduler W O → Scheduler W O
  stamp name s = record s {
    timestamp = suc s.timestamp;
    active = update name (run_at (suc s.timestamp)) s.active;
  }

  -- The rest of a round of `_initialization_phase`. A greenlet is dead once its thread has left the
  -- active ones; its name is then marked a second time.
  abbrev pub after_switch : Option (Thread O) → ℕ → Scheduler W O → Scheduler W O
  after_switch none name s = mark_completed name s
  after_switch (some t) name s = if t.has_made_progress then stamp name s else s

  abbrev pub end_init_round : ℕ → Scheduler W O → Scheduler W O
  end_init_round name s = after_switch (find name s.active) name s

  module _ (resume : ℕ → W → Turn W O) where
    -- `g.switch()`
    unfoldable pub switch : ℕ → Exec (Scheduler W O) (Unit {0})
    switch name s =
        let turn = resume name s.world in
        let active = if turn.progressed then update name mark_progress s.active else s.active in
        settle name turn.stop (record s { world = turn.world; active = active })

    unfoldable pub initialization_phase : List ℕ → Exec (Scheduler W O) (Unit {0})
    unfolding switch
    initialization_phase [] s = (ok tt, s)
    initialization_phase (name ∷ rest) s =
        if is_blocked (find name s.active)
        then (raise runtime_error, s)
        else (switch name >>= λ _. modify (end_init_round name) >> initialization_phase rest) s

  -- `run` returns where no thread is active.
  abbrev pub if_active : Scheduler W O → End × Scheduler W O → End × Scheduler W O
  if_active s r = if is_empty s.active then (returned, s) else r

  -- A thread that is not blocked may go on, and one whose operation can go on.
  abbrev pub may_run : (O → W → Bool) → Thread O → W → Bool
  may_run can t w = elim t.blocking_obj [ none ↦ true | some o ↦ can o w ]

  module _ (resume : ℕ → W → Turn W O) (can : O → W → Bool) where
    -- A thread that may go on runs; whether it did.
    abbrev pub resume_thread : ℕ → Exec (Scheduler W O) Bool
    resume_thread name s =
        (switch resume name >>= λ _. modify (stamp name) >> pure true)
          (record s { active = update name unblock s.active })

    abbrev pub try_thread : ℕ → Option (Thread O) → Exec (Scheduler W O) Bool
    try_thread name none s = (ok false, s)
    try_thread name (some t) s =
        if may_run can t s.world then resume_thread name s else (ok false, s)

    -- One round of the inner loop.
    unfoldable pub attempt : ℕ → Exec (Scheduler W O) Bool
    unfolding switch
    attempt name s = try_thread name (find name s.active) s

    unfoldable pub try_all : List ℕ → Bool → Exec (Scheduler W O) Bool
    unfolding attempt
    try_all [] any_progress = pure any_progress
    try_all (name ∷ rest) any_progress = attempt name >>= λ ran. try_all rest (any_progress || ran)

    -- After a pass, in the state that it leaves.
    abbrev pub after_pass :
        (Scheduler W O → End × Scheduler W O) → Outcome Bool × Scheduler W O → End × Scheduler W O
    after_pass again (raise e, s) = (thread_error, s)
    after_pass again (ok true, s) = again s
    after_pass again (ok false, s) = if_active s (deadlock, s)

    -- The loop of `run`, for at most `fuel` passes.
    unfoldable pub run_loop : Algorithm → ℕ → Scheduler W O → End × Scheduler W O
    unfolding try_all
    run_loop algorithm zero s = if_active s (unfinished, s)
    run_loop algorithm (suc fuel) s = if_active s (
        after_pass (run_loop algorithm fuel)
          (try_all (thread_candidates algorithm s.active) false s))

    abbrev pub after_init :
        (Scheduler W O → End × Scheduler W O)
        → Outcome (Unit {0}) × Scheduler W O
        → End × Scheduler W O
    after_init loop (raise e, s) = (thread_error, s)
    after_init loop (ok _, s) = loop s

    unfoldable pub run : Algorithm → ℕ → Scheduler W O → End × Scheduler W O
    unfolding run_loop initialization_phase
    run greedy fuel s = run_loop greedy fuel s
    run fair fuel s =
        after_init (run_loop fair fuel) (initialization_phase resume (names s.active) s)
