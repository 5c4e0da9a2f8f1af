-- ===== src/Program/Tests.antt =====
-- The theorems on programs at a context of two buffers, a tensor and a number, and at a program of
-- one core whose first thread waits for nothing and ends.
use tt_lang.Prelude.{
  ℕ, count_up, runtime_error, ◌↔◌, ◌+◌, ◌*◌, Bool, ◌≡◌, ◌≢◌, refl, List, [], ◌∷◌, none, some, true,
  ok, arith, Exec, Outcome,
}
use tt_lang.BlockState.{compute, dm}
use tt_lang.DataflowBuffer.{DataflowBuffer, new_buffer}
use tt_lang.DfbState.{host_configure_dfb, host_reset_dfb}
use tt_lang.DfbApi.{allocate_dfb_id}
use tt_lang.Scheduler.{Scheduler, new_scheduler, Turn, finished, greedy, add_thread}
use tt_lang.Scheduler as Greenlets
use tt_lang.Program.{
  fresh_buffer, add_cores, tensor, dataflow_buffer, sizes, other, Context, Template, lookup,
  build_core_context, completed, failed, run_cooperative, capture,
}
use tt_lang.Program.Contexts.{view_at, as_buffer, as_tensor, renewed_at, build_core_context-renewed}
use tt_lang.Program.Endings.{EachReleased, run_cooperative-returned}

-- A buffer as a kernel makes it, with no API.
abbrev made : ℕ → DataflowBuffer ℕ
made n = record {
  shape = 1 ∷ n ∷ [];
  buffer_factor = 2;
  pending_reserved_block = none;
  pending_waited_block = none;
  tiles_per_operation = n;
  capacity_tiles = n + n;
  state = none;
}

-- The grid, a buffer, a number, a tensor and another buffer.
abbrev variables : Context ℕ ℕ ℕ
variables =
    (0, sizes (1 ∷ 2 ∷ []))
    ∷ (2, dataflow_buffer none (made 1))
    ∷ (3, other 7)
    ∷ (4, tensor 40)
    ∷ (5, dataflow_buffer none (made 3))
    ∷ []

-- The caller's variable 3 comes before the one of a closure, and an empty cell adds nothing.
capture-variables :
    capture
      (1 ∷ 2 ∷ [])
      ((2, dataflow_buffer none (made 1)) ∷ (3, other 7) ∷ (4, tensor 40) ∷ [])
      (((3, some (other 8)) ∷ (6, none) ∷ (5, some (dataflow_buffer none (made 3))) ∷ []) ∷ [])
    ≡ variables
unfolding capture
capture-variables = refl

-- A memo is the list of the tensors in it; a number is its own copy.
abbrev note : ℕ → List ℕ → List ℕ
note t memo = t ∷ memo

abbrev deepcopy : ℕ → Exec (List ℕ) ℕ
deepcopy x memo = (ok x, memo)

abbrev build : ℕ → Outcome (Context ℕ ℕ ℕ)
build = build_core_context note deepcopy (λ n. n) [] variables

build_core_context-renewed_example :
    (c : Context ℕ ℕ ℕ) × (build 1 ≡ ok c)
    × (lookup 0 c ≡ some (sizes (1 ∷ 2 ∷ [])))
    × (lookup 1 c ≡ some (other 1))
    × ((key : ℕ)
        → key ≢ 0
        → key ≢ 1
        → (view_at as_buffer key c ≡ renewed_at 0 key variables)
          × (view_at as_tensor key c ≡ view_at as_tensor key variables))
unfolding new_buffer
build_core_context-renewed_example =
    build_core_context-renewed note deepcopy (λ x memo. (x, memo, refl)) (λ n. n) [] variables 1
      (tt, ((refl, (_, refl)), (tt, (tt, ((refl, (_, refl)), tt))))) (omega arith)

-- Each thread ends in its first turn.
abbrev resume : ℕ → List (Context ℕ ℕ ℕ) → Turn (List (Context ℕ ℕ ℕ)) ℕ
resume n w = record { stop = finished; progressed = true; world = w }

abbrev templates : List Template
templates =
    (record { thread_type = some compute })
    ∷ (record { thread_type = some dm })
    ∷ (record { thread_type = some dm })
    ∷ []

abbrev can : ℕ → List (Context ℕ ℕ ℕ) → Bool
can o w = true

abbrev thread_name : ℕ → ℕ → ℕ
thread_name core i = core * 3 + i

-- The scheduler with the threads of two cores, and the one after its run.
abbrev filled : Scheduler (List (Context ℕ ℕ ℕ)) ℕ
unfolding add_cores
filled = (add_cores build thread_name templates (count_up 0 2) (new_scheduler [])).1

abbrev ended : Scheduler (List (Context ℕ ℕ ℕ)) ℕ
unfolding Greenlets.run
ended = (Greenlets.run resume can greedy 1 filled).1

run_cooperative-returned_example :
    ((run_cooperative resume can build thread_name templates greedy 1 2 ≡ (completed, ended.world))
      ↔ EachReleased ended.world)
    × ((run_cooperative resume can build thread_name templates greedy 1 2
          ≡ (failed runtime_error, ended.world))
        ↔ (¬ EachReleased ended.world))
unfolding filled ended add_cores build_core_context fresh_buffer allocate_dfb_id new_buffer
    add_thread Greenlets.run Greenlets.run_loop Greenlets.try_all Greenlets.attempt Greenlets.switch
    Greenlets.initialization_phase host_configure_dfb host_reset_dfb
run_cooperative-returned_example =
    run_cooperative-returned resume can build thread_name templates greedy 1 2 refl refl
