-- ===== src/Program/Endings.antt =====
-- python/sim/program.py, `_run_cooperative` and `_validate_circular_buffers`: how a program ends.
use tt_lang.Prelude.{
  ℕ, ◌+◌, ◌≡◌, refl, ap, sym, ◌∙◌, inl, inr, List, [], ◌∷◌, ◌++◌, Option, none, some, Bool, true,
  false, ◌||◌, ◌↔◌, runtime_error, when, Outcome, ok, Bool-cases, count_up, arith,
}
use tt_lang.Block.{Block}
use tt_lang.DataflowBuffer.{DataflowBuffer, has_block, validate_no_pending_blocks}
use tt_lang.Scheduler.{Scheduler, returned, Turn, Algorithm, new_scheduler}
use tt_lang.Scheduler as Greenlets
use tt_lang.Program.{
  Value, module_object, tensor, dataflow_buffer, sizes, other, Context, Template, completed, failed,
  ending, has_pending, pending_names, pending_buffers, validate_circular_buffers, add_cores,
  end_program, run_cores, run_cooperative,
}

-- No pending block, neither one to write nor one to read.
abbrev pub IsReleased : {A : Type 0} → DataflowBuffer A → Type 0
IsReleased d = (d.pending_reserved_block ≡ none) × (d.pending_waited_block ≡ none)

++-eq-[] : {A : Type 0} (xs ys : List A) → xs ++ ys ≡ [] → (xs ≡ []) × (ys ≡ [])
++-eq-[] [] ys e = (refl, e)
++-eq-[] (x ∷ xs) ys e = absurd (cc)

none_pending :
    (r w : Option Block)
    → elim (when (has_block r || has_block w) runtime_error) [ none ↦ false | some e ↦ true ]
      ≡ false
    → (r ≡ none) × (w ≡ none)
none_pending none none e = (refl, refl)
none_pending none (some b) e = absurd (cc)
none_pending (some b) w e = absurd (cc)

ending-completed : (errors : List (ℕ × ℕ)) → ending errors ≡ completed → errors ≡ []
ending-completed [] e = refl
ending-completed (x ∷ xs) e = absurd (cc)

failed-not-completed : ¬ (failed runtime_error ≡ completed)
failed-not-completed e = cc

ending-failed : (errors : List (ℕ × ℕ)) → ¬ (errors ≡ []) → ending errors ≡ failed runtime_error
ending-failed [] e = absurd (e refl)
ending-failed (x ∷ xs) e = refl

module _ {A T X : Type 0} where
  -- A variable, a context and the contexts of all cores without a pending block.
  abbrev pub HoldsReleased : Value A T X → Type 0
  HoldsReleased (dataflow_buffer i d) = IsReleased d
  HoldsReleased _ = Unit {0}

  abbrev pub AllReleased : Context A T X → Type 0
  AllReleased [] = Unit {0}
  AllReleased ((key, v) ∷ rest) = HoldsReleased v × AllReleased rest

  abbrev pub EachReleased : List (Context A T X) → Type 0
  EachReleased [] = Unit {0}
  EachReleased (c ∷ cs) = AllReleased c × EachReleased cs

  released-value : (v : Value A T X) → has_pending v ≡ false → HoldsReleased v
  unfolding validate_no_pending_blocks
  released-value (module_object x) e = tt
  released-value (tensor t) e = tt
  released-value (dataflow_buffer i d) e =
      none_pending d.pending_reserved_block d.pending_waited_block e
  released-value (sizes ns) e = tt
  released-value (other x) e = tt

  value-released : (v : Value A T X) → HoldsReleased v → has_pending v ≡ false
  unfolding validate_no_pending_blocks
  value-released (module_object x) r = refl
  value-released (tensor t) r = refl
  value-released (dataflow_buffer i d) (r, w) = rw (r, w) refl
  value-released (sizes ns) r = refl
  value-released (other x) r = refl

  released-names : (i : ℕ) (c : Context A T X) → pending_names i c ≡ [] → AllReleased c
  released-names i [] e = tt
  released-names i ((k, v) ∷ c) e = elim (Bool-cases (has_pending v)) [
    | inl p ↦ absurd (ground (arith, e, p))
    | inr p ↦ (released-value v p, released-names i c (ground (arith, e, p)))
  ]

  names-released : (i : ℕ) (c : Context A T X) → AllReleased c → pending_names i c ≡ []
  names-released i [] r = refl
  names-released i ((k, v) ∷ c) (r, rs) = rw (value-released v r) (names-released i c rs)

  released-buffers :
      (i : ℕ) (cs : List (Context A T X)) → pending_buffers i cs ≡ [] → EachReleased cs
  unfolding pending_buffers
  released-buffers i [] e = tt
  released-buffers i (c ∷ cs) e =
      let (first, rest) = ++-eq-[] (pending_names i c) (pending_buffers (i + 1) cs) e in
      (released-names i c first, released-buffers (i + 1) cs rest)

  buffers-released :
      (i : ℕ) (cs : List (Context A T X)) → EachReleased cs → pending_buffers i cs ≡ []
  unfolding pending_buffers
  buffers-released i [] r = refl
  buffers-released i (c ∷ cs) (r, rs) = rw (names-released i c r) (buffers-released (i + 1) cs rs)

  module _ {O : Type 0} (resume : ℕ → List (Context A T X) → Turn (List (Context A T X)) O)
      (can : O → List (Context A T X) → Bool) where
    run_cooperative-ending :
        (build : ℕ → Outcome (Context A T X)) (thread_name : ℕ → ℕ → ℕ) (templates : List Template)
        (a : Algorithm) (fuel total_cores : ℕ) {s s' : Scheduler (List (Context A T X)) O}
        → add_cores build thread_name templates (count_up 0 total_cores) (new_scheduler [])
          ≡ (ok tt, s)
        → Greenlets.run resume can a fuel s ≡ (returned, s')
        → run_cooperative resume can build thread_name templates a fuel total_cores
          ≡ (ending (pending_buffers 0 s'.world), s'.world)
    unfolding run_cooperative validate_circular_buffers
    run_cooperative-ending build thread_name templates a fuel total_cores e q =
        ap (run_cores resume can a fuel) e ∙ ap (end_program resume can) q

    -- Where the threads of all cores were added and the scheduler returns, the program completes
    -- exactly if no buffer of any core's context has a pending block to write or to read, and ends
    -- with a RuntimeError exactly if some buffer has one.
    pub run_cooperative-returned :
        (build : ℕ → Outcome (Context A T X)) (thread_name : ℕ → ℕ → ℕ) (templates : List Template)
        (a : Algorithm) (fuel total_cores : ℕ) {s s' : Scheduler (List (Context A T X)) O}
        → add_cores build thread_name templates (count_up 0 total_cores) (new_scheduler [])
          ≡ (ok tt, s)
        → Greenlets.run resume can a fuel s ≡ (returned, s')
        → ((run_cooperative resume can build thread_name templates a fuel total_cores
              ≡ (completed, s'.world))
            ↔ EachReleased s'.world)
          × ((run_cooperative resume can build thread_name templates a fuel total_cores
                ≡ (failed runtime_error, s'.world))
              ↔ (¬ EachReleased s'.world))
    run_cooperative-returned build thread_name templates a fuel total_cores {s} {s'} e q =
        let w : List (Context A T X) = s'.world in
        let errors : List (ℕ × ℕ) = pending_buffers 0 w in
        let done = run_cooperative-ending build thread_name templates a fuel total_cores e q in
        let completes : EachReleased w → ending errors ≡ completed =
          λ r. ap ending (buffers-released 0 w r) in
        (
          (
            λ c. released-buffers 0 w (ending-completed errors (ap (λ x. x.0) (sym done ∙ c))),
            λ r. done ∙ ap (λ x. (x, w)) (completes r),
          ),
          (
            λ c r. failed-not-completed (sym (ap (λ x. x.0) (sym done ∙ c)) ∙ completes r),
            λ n. done ∙ ap (λ x. (x, w)) (ending-failed errors (λ p. n (released-buffers 0 w p))),
          ),
        )
