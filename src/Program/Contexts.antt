-- ===== src/Program/Contexts.antt =====
-- python/sim/program.py, `_build_core_context`: what the context of a core holds.
use tt_lang.Prelude.{
  ℕ, ◌+◌, ◌≤◌, ◌<◌, ◌≡◌, ◌≢◌, refl, ap, ap₂, sym, ◌∙◌, [], ◌∷◌, Option, none, some, true,
  if◌then◌else◌, ◌==◌, Exec, Outcome, ok, bind_ok, length, arith, >>=-ok, pure, ◌>>=◌,
}
use tt_lang.DataflowBuffer.{DataflowBuffer, new_buffer}
use tt_lang.DfbApi.{DfbApi, new_api, max_dfbs, allocate_dfb_id}
use tt_lang.DfbApi.Pool.{allocate-ok}
use tt_lang.Program.{
  Value, module_object, tensor, dataflow_buffer, sizes, other, Context, grid_name, core_name,
  lookup, assign, grid_or_default, fresh_buffer, core_value, core_entries, build_core_context,
}

fresh-ok :
    {A : Type 0} {b : DataflowBuffer A} (d : DataflowBuffer A) (api : DfbApi A)
    → length d.shape ≡ 2
    → new_buffer d.shape d.buffer_factor true ≡ ok b
    → api.next_dfb_id < max_dfbs
    → fresh_buffer d api
      ≡ (ok (api.next_dfb_id, b), record api { next_dfb_id = api.next_dfb_id + 1 })
unfolding fresh_buffer
fresh-ok {A} d api two e h =
    let r : Outcome (DataflowBuffer A) = new_buffer d.shape d.buffer_factor true in
    let i : ℕ = api.next_dfb_id in
    let api' : DfbApi A = record api { next_dfb_id = i + 1 } in
    rw two (
      >>=-ok allocate_dfb_id (λ k s. (bind_ok r (λ c. ok (k, c)), s)) api (allocate-ok api h)
      ∙ ap (λ o. (bind_ok o (λ c. ok (i, c)), api')) e)

module _ {A T X : Type 0} where
  -- What a variable of a context is as a buffer: its identifier, and the buffer.
  abbrev pub as_buffer : Value A T X → Option (Option ℕ × Outcome (DataflowBuffer A))
  as_buffer (dataflow_buffer i d) = some (i, ok d)
  as_buffer _ = none

  -- What it is as a tensor.
  abbrev pub as_tensor : Value A T X → Option T
  as_tensor (tensor t) = some t
  as_tensor _ = none

  abbrev pub view_at : {B : Type 0} → (Value A T X → Option B) → ℕ → Context A T X → Option B
  view_at f key [] = none
  view_at f key ((k, v) ∷ entries) = if k == key then f v else view_at f key entries

  -- The number of buffers of a value, and of a context.
  abbrev pub is_buffer : Value A T X → ℕ
  is_buffer (dataflow_buffer i d) = 1
  is_buffer _ = 0

  abbrev pub count_buffers : Context A T X → ℕ
  count_buffers [] = 0
  count_buffers ((k, v) ∷ entries) = is_buffer v + count_buffers entries

  -- A new buffer under the identifier `n`, of the sizes of the one that the value is.
  abbrev pub renewed : ℕ → Value A T X → Option (Option ℕ × Outcome (DataflowBuffer A))
  renewed n (dataflow_buffer i d) = some (some n, new_buffer d.shape d.buffer_factor true)
  renewed n _ = none

  -- What the variable `key` should be as a buffer, where `n` identifiers are taken: new, under the
  -- number of the buffers that stand before it.
  abbrev pub renewed_at : ℕ → ℕ → Context A T X → Option (Option ℕ × Outcome (DataflowBuffer A))
  renewed_at n key [] = none
  renewed_at n key ((k, v) ∷ entries) =
      if k == key then renewed n v else renewed_at (n + is_buffer v) key entries

  -- A buffer of these sizes can be made.
  abbrev pub CanRenew : Value A T X → Type 0
  CanRenew (dataflow_buffer i d) =
      (length d.shape ≡ 2)
      × ((b : DataflowBuffer A) × (new_buffer d.shape d.buffer_factor true ≡ ok b))
  CanRenew _ = Unit {0}

  abbrev pub CanRenewAll : Context A T X → Type 0
  CanRenewAll [] = Unit {0}
  CanRenewAll ((k, v) ∷ entries) = CanRenew v × CanRenewAll entries

  module _ {M : Type 0} (note : T → M → M) (deepcopy : X → Exec M X)
      (copies : (x : X) (memo : M)
        → (y : X) × (memo' : M) × (deepcopy x memo ≡ (ok y, memo'))) where
    value-renewed :
        (v : Value A T X) (api : DfbApi A) (memo : M)
        → CanRenew v
        → api.next_dfb_id + is_buffer v ≤ max_dfbs
        → (v' : Value A T X) × (api' : DfbApi A) × (memo' : M) × (core_value note deepcopy v
              (api, memo)
            ≡ (ok v', (api', memo')))
          × (api'.next_dfb_id ≡ api.next_dfb_id + is_buffer v)
          × (as_buffer v' ≡ renewed api.next_dfb_id v)
          × (as_tensor v' ≡ as_tensor v)
    value-renewed (module_object m) api memo r h =
        (module_object m, api, memo, refl, omega arith, refl, refl)
    value-renewed (tensor t) api memo r h =
        (tensor t, api, note t memo, refl, omega arith, refl, refl)
    value-renewed (dataflow_buffer i d) api memo (two, (b, e)) h =
        let f = fresh-ok d api two e (omega arith) in
        (
          dataflow_buffer (some api.next_dfb_id) b,
          record api { next_dfb_id = api.next_dfb_id + 1 },
          memo,
          rw f refl,
          refl,
          ap (λ o. some (some api.next_dfb_id, o)) (sym e),
          refl,
        )
    value-renewed (sizes ns) api memo r h = (sizes ns, api, memo, refl, omega arith, refl, refl)
    value-renewed (other x) api memo r h =
        (let (y, memo', e) = copies x memo in
          (other y, api, memo', rw e refl, omega arith, refl, refl))

    entries-renewed :
        (context : Context A T X) (api : DfbApi A) (memo : M)
        → CanRenewAll context
        → api.next_dfb_id + count_buffers context ≤ max_dfbs
        → (c : Context A T X) × (s : DfbApi A × M) × (core_entries note deepcopy context (api, memo)
            ≡ (ok c, s))
          × ((key : ℕ)
              → (view_at as_buffer key c ≡ renewed_at api.next_dfb_id key context)
                × (view_at as_tensor key c ≡ view_at as_tensor key context))
    entries-renewed [] api memo r h = ([], (api, memo), refl, λ key. (refl, refl))
    entries-renewed ((k, v) ∷ context) api memo (r, rs) h =
        let (v', api', memo', p, next, b, t) = value-renewed v api memo r (omega arith) in
        let (c, s, q, at) = entries-renewed context api' memo' rs (rw next (omega arith)) in
        (
          (k, v') ∷ c,
          s,
          >>=-ok (core_value note deepcopy v)
                (λ w. core_entries note deepcopy context >>= λ ws. pure ((k, w) ∷ ws)) (api, memo) p
              ∙ >>=-ok (core_entries note deepcopy context) (λ ws. pure ((k, v') ∷ ws))
                  (api', memo') q,
          λ key.
              let (at_b, at_t) = at key in
              (
                ap₂ (λ x y. if k == key then x else y) b
                    (at_b ∙ ap (λ n. renewed_at n key context) next),
                ap₂ (λ x y. if k == key then x else y) t at_t,
              ),
        )

  view_at-assign :
      {B : Type 0} (f : Value A T X → Option B) (key name : ℕ) (v : Value A T X)
      → name ≢ key
      → (c : Context A T X) → view_at f key (assign name v c) ≡ view_at f key c
  view_at-assign f key name v ne [] = ground arith
  view_at-assign f key name v ne ((k, w) ∷ c) = ground (arith, view_at-assign f key name v ne c)

  lookup-assign :
      (name : ℕ) (v : Value A T X) (c : Context A T X) → lookup name (assign name v c) ≡ some v
  lookup-assign name v [] = ground arith
  lookup-assign name v ((k, w) ∷ c) = ground (arith, lookup-assign name v c)

  lookup-assign_ne :
      (key name : ℕ) (v : Value A T X)
      → name ≢ key
      → (c : Context A T X) → lookup key (assign name v c) ≡ lookup key c
  lookup-assign_ne key name v ne [] = ground arith
  lookup-assign_ne key name v ne ((k, w) ∷ c) = ground (arith, lookup-assign_ne key name v ne c)

  module _ {M : Type 0} (note : T → M → M) (deepcopy : X → Exec M X)
      (copies : (x : X) (memo : M)
        → (y : X) × (memo' : M) × (deepcopy x memo ≡ (ok y, memo'))) where
    -- Where deep copies succeed, the buffers of the context can be made, and there are no more of
    -- them than the pool has identifiers, the context of a core is built. It has the grid of the
    -- program and the number of the core. Any other name holds in it a buffer exactly where it
    -- does in the program's context: a new buffer of the same sizes, under the number of the
    -- buffers that stand before it; and it holds the same tensor, or no tensor.
    pub build_core_context-renewed :
        (number : ℕ → X) (empty : M) (context : Context A T X) (core : ℕ)
        → CanRenewAll context
        → count_buffers context ≤ max_dfbs
        → (c : Context A T X) × (build_core_context note deepcopy number empty context core ≡ ok c)
          × (lookup grid_name c ≡ some (grid_or_default (lookup grid_name context)))
          × (lookup core_name c ≡ some (other (number core)))
          × ((key : ℕ)
              → key ≢ grid_name
              → key ≢ core_name
              → (view_at as_buffer key c ≡ renewed_at 0 key context)
                × (view_at as_tensor key c ≡ view_at as_tensor key context))
    unfolding build_core_context
    build_core_context-renewed number empty context core r h =
        let (c, s, q, at) =
          entries-renewed note deepcopy copies context new_api empty r (omega arith) in
        let g : Value A T X = grid_or_default (lookup grid_name context) in
        let n : Value A T X = other (number core) in
        (
          assign grid_name g (assign core_name n c),
          ap (λ o. bind_ok o (λ d. ok (assign grid_name g (assign core_name n d))))
              (ap (λ x. x.0) q),
          lookup-assign grid_name g (assign core_name n c),
          lookup-assign_ne core_name grid_name g (omega arith) (assign core_name n c)
              ∙ lookup-assign core_name n c,
          λ key not_grid not_core. (
            view_at-assign as_buffer key grid_name g (omega arith) (assign core_name n c)
                ∙ view_at-assign as_buffer key core_name n (omega arith) c
                ∙ (at key).0,
            view_at-assign as_tensor key grid_name g (omega arith) (assign core_name n c)
                ∙ view_at-assign as_tensor key core_name n (omega arith) c
                ∙ (at key).1,
          ),
        )
