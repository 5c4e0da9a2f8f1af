-- ===== src/Program.antt =====
-- python/sim/program.py: a program of three kernel functions on a grid. Each core gets a context of
-- its own, with fresh buffers; the threads of all cores run under the scheduler; in the end no
-- buffer may have a pending block.
--
-- Names of variables are numbers: 0 is `grid` and 1 is `_core`. The code of a function that was
-- bound to a context is the `resume` of the scheduler, whose world is the list of contexts: a
-- function changes the buffers of its core there. What a deep copy gives is the parameter
-- `deepcopy`, with the memo that it looks up and fills; `note` is the entry of a tensor in it. The
-- name that a buffer is given for messages and the global variable of the scheduler are left out.
mod Variables
unfoldable pub use Variables.*
pub mod Contexts
pub mod Endings
mod Tests
use tt_lang.Prelude.{
  ℕ, ◌+◌, ◌*◌, List, [], ◌∷◌, ◌++◌, Option, none, some, Bool, true, false, if◌then◌else◌, ◌==◌,
  Error, Exec, Outcome, ok, raise, bind_ok, unless, after, modify, throw, pure, ◌>>=◌, ◌>>◌, length,
  count_up, runtime_error, value_error,
}
use tt_lang.BlockState.{ThreadType}
use tt_lang.DataflowBuffer.{DataflowBuffer, new_buffer, validate_no_pending_blocks}
use tt_lang.DfbApi.{DfbApi, new_api, allocate_dfb_id}
use tt_lang.Scheduler.{
  Scheduler, End, returned, deadlock, thread_error, unfinished, Turn, Algorithm, new_scheduler,
  add_thread,
}
use tt_lang.Scheduler as Greenlets

-- A template of a kernel function: its thread type, none where that is no ThreadType.
pub record Template : Type 0 where
  pub thread_type : Option ThreadType

-- How a call of a program ends; `out_of_passes` is a scheduler that was stopped by the fuel.
pub data Ending : Type 0 where
  completed : Ending
  failed : Error → Ending
  out_of_passes : Ending

-- A new DataflowBuffer with the API of the core: the check of the shape comes before the
-- identifier is taken, the ones of its entry after that.
unfoldable pub fresh_buffer :
    {A : Type 0} → DataflowBuffer A → Exec (DfbApi A) (ℕ × DataflowBuffer A)
fresh_buffer d api = after (unless (length d.shape == 2) value_error) api (
    (allocate_dfb_id >>= λ i.
    λ s. (bind_ok (new_buffer d.shape d.buffer_factor true) (λ b. ok (i, b)), s))
      api)

abbrev pub ending : List (ℕ × ℕ) → Ending
ending [] = completed
ending (error ∷ errors) = failed runtime_error

module _ {A T X : Type 0} where
  module _ {M : Type 0} (note : T → M → M) (deepcopy : X → Exec M X) where
    -- One value for a core, on the API of the core and the memo of its copies. A tuple of numbers
    -- is its own copy.
    abbrev pub core_value : Value A T X → Exec (DfbApi A × M) (Value A T X)
    core_value (module_object m) s = (ok (module_object m), s)
    core_value (tensor t) (api, memo) = (ok (tensor t), (api, note t memo))
    core_value (dataflow_buffer i d) (api, memo) =
        let (o, api') = fresh_buffer d api in
        (bind_ok o (λ r. ok (dataflow_buffer (some r.0) r.1)), (api', memo))
    core_value (sizes ns) s = (ok (sizes ns), s)
    core_value (other x) (api, memo) =
        let (o, memo') = deepcopy x memo in (bind_ok o (λ y. ok (other y)), (api, memo'))

    abbrev pub core_entries : Context A T X → Exec (DfbApi A × M) (Context A T X)
    core_entries [] = pure []
    core_entries ((key, value) ∷ rest) =
        core_value value >>= λ v. core_entries rest >>= λ vs. pure ((key, v) ∷ vs)

    -- `_build_core_context`, from an empty memo; the number of a core is a value of Python.
    unfoldable pub build_core_context : (ℕ → X) → M → Context A T X → ℕ → Outcome (Context A T X)
    build_core_context number empty context core =
        bind_ok (core_entries context (new_api, empty)).0 (λ core_context. ok (
          assign grid_name (grid_or_default (lookup grid_name context))
            (assign core_name (other (number core)) core_context)))

  module _ {O : Type 0} where
    abbrev pub add_template :
        ℕ → Option ThreadType → Exec (Scheduler (List (Context A T X)) O) (Unit {0})
    add_template thread_name none = throw runtime_error
    add_template thread_name (some t) = modify (add_thread thread_name t)

    -- The threads of one core; `thread_name` is the name of the core's thread of a number.
    abbrev pub add_templates :
        (ℕ → ℕ) → ℕ → List Template → Exec (Scheduler (List (Context A T X)) O) (Unit {0})
    add_templates thread_name i [] = pure tt
    add_templates thread_name i (tmpl ∷ rest) =
        add_template (thread_name i) tmpl.thread_type >> add_templates thread_name (i + 1) rest

    -- One round of the loop over the cores.
    abbrev pub add_core :
        (ℕ → Outcome (Context A T X))
        → (ℕ → ℕ → ℕ)
        → List Template
        → ℕ
        → Exec (Scheduler (List (Context A T X)) O) (Unit {0})
    add_core build thread_name templates core s = elim (build core) [
      | raise e ↦ (raise e, s)
      | ok context ↦
          add_templates (thread_name core) 0 templates
            (record s { world = s.world ++ (context ∷ []) })
    ]

    unfoldable pub add_cores :
        (ℕ → Outcome (Context A T X))
        → (ℕ → ℕ → ℕ)
        → List Template
        → List ℕ
        → Exec (Scheduler (List (Context A T X)) O) (Unit {0})
    add_cores build thread_name templates [] = pure tt
    add_cores build thread_name templates (core ∷ cores) =
        add_core build thread_name templates core >> add_cores build thread_name templates cores

  -- The names of the variables of a core whose buffer has a pending block.
  abbrev pub has_pending : Value A T X → Bool
  has_pending (dataflow_buffer i d) = elim (validate_no_pending_blocks d) [
    | none ↦ false
    | some e ↦ true
  ]
  has_pending _ = false

  abbrev pub pending_names : ℕ → Context A T X → List (ℕ × ℕ)
  pending_names core_idx [] = []
  pending_names core_idx ((key, value) ∷ rest) =
      if has_pending value
      then (core_idx, key) ∷ pending_names core_idx rest
      else pending_names core_idx rest

  -- The errors that `_validate_circular_buffers` collects, as core and name.
  unfoldable pub pending_buffers : ℕ → List (Context A T X) → List (ℕ × ℕ)
  pending_buffers core_idx [] = []
  pending_buffers core_idx (context ∷ rest) =
      pending_names core_idx context ++ pending_buffers (core_idx + 1) rest

  unfoldable pub validate_circular_buffers : List (Context A T X) → Ending
  validate_circular_buffers contexts = ending (pending_buffers 0 contexts)

  module _ {O : Type 0} (resume : ℕ → List (Context A T X) → Turn (List (Context A T X)) O)
      (can : O → List (Context A T X) → Bool) where
    abbrev pub end_program :
        End × Scheduler (List (Context A T X)) O → Ending × List (Context A T X)
    end_program (returned, s) = (validate_circular_buffers s.world, s.world)
    end_program (deadlock, s) = (failed runtime_error, s.world)
    end_program (thread_error, s) = (failed runtime_error, s.world)
    end_program (unfinished, s) = (out_of_passes, s.world)

    abbrev pub run_cores :
        Algorithm
        → ℕ
        → Outcome (Unit {0}) × Scheduler (List (Context A T X)) O
        → Ending × List (Context A T X)
    run_cores algorithm fuel (raise e, s) = (failed e, s.world)
    run_cores algorithm fuel (ok _, s) = end_program (Greenlets.run resume can algorithm fuel s)

    -- `_run_cooperative`, with at most `fuel` passes of the scheduler.
    unfoldable pub run_cooperative :
        (ℕ → Outcome (Context A T X))
        → (ℕ → ℕ → ℕ)
        → List Template
        → Algorithm
        → ℕ
        → ℕ
        → Ending × List (Context A T X)
    run_cooperative build thread_name templates algorithm fuel total_cores =
        run_cores algorithm fuel
          (add_cores build thread_name templates (count_up 0 total_cores) (new_scheduler []))

    -- `__call__`, of a program with the functions `templates`: the unpacking asks for three.
    abbrev pub call_program :
        (Context A T X → ℕ → Outcome (Context A T X))
        → (Value A T X → Outcome (List ℕ))
        → (ℕ → ℕ → ℕ)
        → List Template
        → Algorithm
        → ℕ
        → Context A T X
        → Ending × List (Context A T X)
    call_program build iterate thread_name templates algorithm fuel context =
        elim (total_cores iterate (grid_or_default (lookup grid_name context))) [
          | raise e ↦ (failed e, [])
          | ok n ↦
              if length templates == 3
              then run_cooperative (build context) thread_name templates algorithm fuel n
              else (failed value_error, [])
        ]
