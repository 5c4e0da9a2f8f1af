-- ===== src/Scheduler/Threads.antt =====
-- python/sim/greenlet_scheduler.py: the threads that the scheduler holds, in the order in which they
-- were added, and the order in which they are tried.
use tt_lang.Prelude.{
  ℕ, List, [], ◌∷◌, map, Option, none, some, Bool, true, false, ◌&&◌, ◌||◌, if◌then◌else◌, ltb, leb,
  ◌==◌,
}
use tt_lang.BlockState.{ThreadType}

pub data Algorithm : Type 0 where
  greedy fair : Algorithm

-- An entry of `_active`, with those of `_last_run` and `_has_made_progress`.
pub record Thread (O : Type 0) : Type 0 where
  pub name : ℕ
  pub thread_type : ThreadType
  pub blocking_obj : Option O
  pub last_run : ℕ
  pub has_made_progress : Bool

module _ {O : Type 0} where
  abbrev pub find : ℕ → List (Thread O) → Option (Thread O)
  find name [] = none
  find name (t ∷ ts) = if name == t.name then some t else find name ts

  abbrev pub update : ℕ → (Thread O → Thread O) → List (Thread O) → List (Thread O)
  update name f [] = []
  update name f (t ∷ ts) = (if name == t.name then f t else t) ∷ update name f ts

  abbrev pub remove : ℕ → List (Thread O) → List (Thread O)
  remove name [] = []
  remove name (t ∷ ts) = if name == t.name then remove name ts else t ∷ remove name ts

  abbrev pub names : List (Thread O) → List ℕ
  names ts = map (λ (t : Thread O). t.name) ts

  -- A thread of the name that is there already is replaced in its place.
  abbrev pub put_thread : Thread O → List (Thread O) → List (Thread O)
  put_thread t [] = t ∷ []
  put_thread t (u ∷ us) = if t.name == u.name then t ∷ us else u ∷ put_thread t us

  abbrev pub mark_progress : Thread O → Thread O
  mark_progress t = record t { has_made_progress = true }

  -- `block_current_thread`
  abbrev pub block_on : O → Thread O → Thread O
  block_on o t = record t { blocking_obj = some o }

  abbrev pub unblock : Thread O → Thread O
  unblock t = record t { blocking_obj = none }

  abbrev pub run_at : ℕ → Thread O → Thread O
  run_at time t = record t { last_run = time }

  -- Least recently run first, then by name.
  abbrev pub runs_before : Thread O → Thread O → Bool
  runs_before t u = ltb t.last_run u.last_run || ((t.last_run == u.last_run) && leb t.name u.name)

  abbrev pub insert_thread : Thread O → List (Thread O) → List (Thread O)
  insert_thread t [] = t ∷ []
  insert_thread t (u ∷ us) = if runs_before t u then t ∷ u ∷ us else u ∷ insert_thread t us

  abbrev pub sort_threads : List (Thread O) → List (Thread O)
  sort_threads [] = []
  sort_threads (t ∷ ts) = insert_thread t (sort_threads ts)

  -- `_get_fair_thread_order`, and the order of the greedy algorithm.
  abbrev pub thread_candidates : Algorithm → List (Thread O) → List ℕ
  thread_candidates greedy ts = names ts
  thread_candidates fair ts = names (sort_threads ts)

  abbrev pub is_blocked : Option (Thread O) → Bool
  is_blocked none = false
  is_blocked (some t) = elim t.blocking_obj [ none ↦ false | some o ↦ true ]

  abbrev pub is_empty : List (Thread O) → Bool
  is_empty [] = true
  is_empty (t ∷ ts) = false
