-- ===== src/DataflowBuffer/Steps.antt =====
-- Calls of the API through a DataflowBuffer whose entry of the pool is known.
use tt_lang.Prelude.{◌≡◌, ap, ◌∙◌, Option, none, some, Exec, Outcome, ok, raise, runtime_error}
use tt_lang.DfbState.{DfbState}
use tt_lang.DataflowBuffer.{DataflowBuffer, on_state, then_do}

module _ {A B : Type 0} (m : Exec (DfbState A) B) where
  pub on_state-eq :
      (d : DataflowBuffer A) {s s' : DfbState A} {o : Outcome B}
      → d.state ≡ some s
      → m s ≡ (o, s')
      → on_state m d ≡ (o, record d { state = some s' })
  on_state-eq d q e =
      ap
        (λ (st : Option (DfbState A)). elim st [
          | none ↦ (raise runtime_error, d)
          | some s ↦ (let (o, s') = m s in (o, record d { state = some s' }))
        ])
        q
      ∙ ap (λ (r : Outcome B × DfbState A). (r.0, record d { state = some r.1 })) e

  pub then_do-ok :
      {C : Type 0} (k : Exec (DataflowBuffer A) C) (d : DataflowBuffer A) {s s' : DfbState A}
      {b : B}
      → d.state ≡ some s
      → m s ≡ (ok b, s')
      → then_do (on_state m d) k ≡ k (record d { state = some s' })
  then_do-ok k d q e = ap (λ r. then_do r k) (on_state-eq d q e)
