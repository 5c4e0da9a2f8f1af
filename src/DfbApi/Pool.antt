-- ===== src/DfbApi/Pool.antt =====
-- The identifiers are distinct, and a call on one buffer leaves the others alone.
use tt_lang.Prelude.{
  all_positive, ℕ, zero, suc, ◌+◌, ◌≤◌, ◌<◌, ◌≡◌, ◌≢◌, refl, ap, ap₂, ◌∙◌, inl, inr, List, [], ◌∷◌,
  Option, none, some, Exec, ok, get_elem?, set, length, get_elem?-set_ne, get_elem?-set_self, pure,
  ◌>>=◌, >>=-ok, ltb, lt→ltb, true, ◌&&◌, Bool-cases, arith,
}
use tt_lang.DfbState.{DfbState, host_configure_dfb}
use tt_lang.DfbState.Inv.{IsValid, configure-IsValid}
use tt_lang.DfbApi.{
  DfbApi, max_dfbs, allocate_dfb_id, on_entry, size_given, call_dfb, configure_dfb, entry_or_new,
}

-- `n` numbers from `a` on.
abbrev pub ids_from : ℕ → ℕ → List ℕ
ids_from a zero = []
ids_from a (suc n) = a ∷ ids_from (suc a) n

module _ {A : Type 0} where
  -- Allocations one after the other.
  abbrev pub allocate_all : ℕ → Exec (DfbApi A) (List ℕ)
  allocate_all zero = pure []
  allocate_all (suc n) = allocate_dfb_id >>= λ i. allocate_all n >>= λ is. pure (i ∷ is)

  pub allocate-ok :
      (api : DfbApi A)
      → api.next_dfb_id < max_dfbs
      → allocate_dfb_id api ≡ (ok api.next_dfb_id, record api { next_dfb_id = api.next_dfb_id + 1 })
  unfolding allocate_dfb_id
  allocate-ok api h = ground arith

  -- Any number of allocations that ends within the limit succeeds, gives the next numbers in
  -- order, and leaves the pool as it is.
  pub allocate_all-ids :
      (n : ℕ) (api : DfbApi A)
      → api.next_dfb_id + n ≤ max_dfbs
      → allocate_all n api
        ≡ (ok (ids_from api.next_dfb_id n), record api { next_dfb_id = api.next_dfb_id + n })
  allocate_all-ids zero api h = ap (λ k. (ok [], record api { next_dfb_id = k })) (omega arith)
  allocate_all-ids (suc n) api h =
      let i : ℕ = api.next_dfb_id in
      let api' : DfbApi A = record api { next_dfb_id = i + 1 } in
      let next : i + 1 ≡ suc i = omega arith in
      let last : i + 1 + n ≡ i + suc n = omega arith in
      >>=-ok allocate_dfb_id (λ k. allocate_all n >>= λ is. pure (k ∷ is)) api
        (allocate-ok api (omega arith))
      ∙ >>=-ok (allocate_all n) (λ is. pure (i ∷ is)) api' (allocate_all-ids n api' (omega arith))
      ∙ ap₂ (λ a b. (ok (i ∷ ids_from a n), record api { next_dfb_id = b })) next last

  entry-frame :
      {B : Type 0} (i j : ℕ) (m : Exec (DfbState A) B) (api : DfbApi A)
      → i ≢ j
      → (o : Option (Option (DfbState A)))
      → (get_elem? (on_entry i m o api).1.pool j ≡ get_elem? api.pool j)
        × ((on_entry i m o api).1.next_dfb_id ≡ api.next_dfb_id)
  entry-frame i j m api h none = (refl, refl)
  entry-frame i j m api h (some none) = (refl, refl)
  entry-frame i j m api h (some (some s)) = (get_elem?-set_ne api.pool i j (some (m s).1) h, refl)

  -- A call on one buffer, whatever it does and whether it succeeds or raises, leaves every other
  -- entry of the pool and the next identifier as they are.
  pub call_dfb-frame :
      {B : Type 0} (i j : ℕ) (n : Option ℕ) (m : Exec (DfbState A) B) (api : DfbApi A)
      → i ≢ j
      → (get_elem? (call_dfb i n m api).1.pool j ≡ get_elem? api.pool j)
        × ((call_dfb i n m api).1.next_dfb_id ≡ api.next_dfb_id)
  unfolding call_dfb
  call_dfb-frame i j n m api h = elim (Bool-cases (ltb i max_dfbs && size_given n)) [
    | inl e ↦ rw e (entry-frame i j m api h (get_elem? api.pool i))
    | inr e ↦ rw e (refl, refl)
  ]

  -- In a pool of the full size, configuring a buffer with an identifier in range, a capacity and
  -- sizes that are not 0 succeeds, whether its entry was made before or not: its entry is then a valid
  -- buffer of that capacity, and any other entry is as before.
  configure_dfb-entry :
      (i j capacity : ℕ) (shape : List ℕ) (api : DfbApi A)
      → length api.pool ≡ max_dfbs
      → i < max_dfbs
      → 0 < capacity
      → all_positive shape ≡ true
      → i ≢ j
      → (api' : DfbApi A) × (s : DfbState A) × (configure_dfb i capacity shape api ≡ (ok tt, api'))
        × (get_elem? api'.pool i ≡ some (some s))
        × (s.cap ≡ capacity)
        × IsValid s
        × (get_elem? api'.pool j ≡ get_elem? api.pool j)
  unfolding configure_dfb host_configure_dfb
  configure_dfb-entry i j capacity shape api size h pos sizes ne =
      let s₀ : DfbState A = entry_or_new (get_elem? api.pool i) in
      let s : DfbState A = host_configure_dfb capacity shape s₀ in
      (
        record api { pool = set api.pool i (some s) },
        s,
        rw (lt→ltb i max_dfbs h, lt→ltb 0 capacity pos, sizes) refl,
        get_elem?-set_self api.pool i (some s) (omega arith),
        refl,
        configure-IsValid capacity shape s₀ pos,
        get_elem?-set_ne api.pool i j (some s) ne,
      )
