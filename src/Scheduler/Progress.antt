-- ===== src/Scheduler/Progress.antt =====
-- What one pass of the scheduler does: which threads it leaves where they are, and why.
use tt_lang.Prelude.{
  ℕ, ◌≡◌, refl, ap, sym, ◌∙◌, inl, inr, List, [], ◌∷◌, Option, none, some, Bool, true, false, ◌||◌,
  Error, Outcome, ok, raise, Exec, >>=-ok, >>=-raise, ◌>>◌, pure, modify, subst, Bool-cases, ==→eq,
  ◌==◌, has, or_true, arith,
}
use tt_lang.Scheduler.{
  Turn, Thread, Scheduler, find, names, update, unblock, stamp, switch, may_run, resume_thread,
  try_thread, attempt, try_all,
}
use tt_lang.Scheduler.Names.{known, switch-known, stamp-known, unblock-known, has-find}

module _ {W O : Type 0} (resume : ℕ → W → Turn W O) (can : O → W → Bool) where
  -- Thread `n`, if it is active, is blocked on an operation that cannot go on.
  abbrev pub IsStuck : ℕ → Scheduler W O → Type 0
  IsStuck n s = (t : Thread O) → find n s.active ≡ some t → may_run can t s.world ≡ false

  abbrev unblocked : ℕ → Scheduler W O → Scheduler W O
  unblocked n s = record s { active = update n unblock s.active }

  -- The three ways in which a round of the inner loop ends.
  pub data Attempt (n : ℕ) (s : Scheduler W O) : Outcome Bool × Scheduler W O → Type 0 where
    idle : IsStuck n s → Attempt n s (ok false, s)
    ran :
        (s' : Scheduler W O)
        → has n (names s.active) ≡ true
        → switch resume n (unblocked n s) ≡ (ok tt, s')
        → Attempt n s (ok true, stamp n s')
    broke :
        (s' : Scheduler W O) (e : Error)
        → known n s ≡ true
        → switch resume n (unblocked n s) ≡ (raise e, s')
        → Attempt n s (raise e, s')

  attempts : (n : ℕ) (s : Scheduler W O) → Attempt n s (attempt resume can n s)
  unfolding attempt
  attempts n s = found (find n s.active) refl
    where
      resumed :
          (o : Outcome (Unit {0})) (s' : Scheduler W O)
          → has n (names s.active) ≡ true
          → switch resume n (unblocked n s) ≡ (o, s')
          → Attempt n s (resume_thread resume can n s)
      resumed (ok tt) s' k e =
          subst (Attempt n s)
            (sym (>>=-ok (switch resume n) (λ _. modify (stamp n) >> pure true) (unblocked n s) e))
            (ran s' k e)
      resumed (raise x) s' k e =
          subst (Attempt n s)
            (sym
              (>>=-raise (switch resume n) (λ _. modify (stamp n) >> pure true) (unblocked n s) e))
            (broke s' x (or_true (has n s.completed) k) e)

      found :
          (o : Option (Thread O)) → find n s.active ≡ o → Attempt n s (try_thread resume can n o s)
      found none e = idle (λ t q. absurd (cc))
      found (some t) e = elim (Bool-cases (may_run can t s.world)) [
        | inl m ↦ rw m (resumed _ _ (has-find n s.active e) refl)
        | inr m ↦ rw m (
            idle
              (λ u q. (let same : t ≡ u = cc in subst (λ v. may_run can v s.world ≡ false) same m)))
      ]

  -- The rounds of a pass, one after the other, up to the first that raises.
  pub data Tried : List ℕ → Bool → Scheduler W O → Outcome Bool × Scheduler W O → Type 0 where
    done : {p : Bool} {s : Scheduler W O} → Tried [] p s (ok p, s)
    next :
        {n : ℕ} {ns : List ℕ} {p moved : Bool} {s s₁ : Scheduler W O}
        {r : Outcome Bool × Scheduler W O}
        → Attempt n s (ok moved, s₁)
        → Tried ns (p || moved) s₁ r
        → Tried (n ∷ ns) p s r
    stop :
        {n : ℕ} {ns : List ℕ} {p : Bool} {s s₁ : Scheduler W O} {e : Error}
        → Attempt n s (raise e, s₁)
        → Tried (n ∷ ns) p s (raise e, s₁)

  abbrev go_on :
      (Bool → Exec (Scheduler W O) Bool)
      → Outcome Bool × Scheduler W O
      → Outcome Bool × Scheduler W O
  go_on rest r = elim r.0 [ ok moved ↦ rest moved r.1 | raise e ↦ (raise e, r.1) ]

  Tried-after :
      (n : ℕ) (ns : List ℕ) (p : Bool) (s : Scheduler W O) (r : Outcome Bool × Scheduler W O)
      → Attempt n s r
      → ((moved : Bool) (s₁ : Scheduler W O)
          → Tried ns (p || moved) s₁ (try_all resume can ns (p || moved) s₁))
      → Tried (n ∷ ns) p s (go_on (λ moved. try_all resume can ns (p || moved)) r)
  Tried-after n ns p s (ok moved, s₁) a rest = next a (rest moved s₁)
  Tried-after n ns p s (raise e, s₁) a rest = stop a

  pub tried :
      (ns : List ℕ) (p : Bool) (s : Scheduler W O) → Tried ns p s (try_all resume can ns p s)
  unfolding try_all
  tried [] p s = done
  tried (n ∷ ns) p s =
      Tried-after n ns p s (attempt resume can n s) (attempts n s)
        (λ moved s₁. tried ns (p || moved) s₁)

  attempt-known :
      (x n : ℕ) (s : Scheduler W O) {r : Outcome Bool × Scheduler W O}
      → Attempt n s r
      → known x r.1 ≡ known x s
  attempt-known x n s (idle h) = refl
  attempt-known x n s (ran s' k e) =
      stamp-known x n s'
      ∙ ap (λ r. known x r.1) (sym e)
      ∙ switch-known resume x n (unblocked n s)
          (unblock-known n n s ∙ or_true (has n s.completed) k)
      ∙ unblock-known x n s
  attempt-known x n s (broke s' y k e) =
      ap (λ r. known x r.1) (sym e)
      ∙ switch-known resume x n (unblocked n s) (unblock-known n n s ∙ k)
      ∙ unblock-known x n s

  -- A pass loses no thread.
  pub Tried-known :
      (x : ℕ) {ns : List ℕ} {p : Bool} {s : Scheduler W O} {r : Outcome Bool × Scheduler W O}
      → Tried ns p s r
      → known x r.1 ≡ known x s
  Tried-known x done = refl
  Tried-known x (next {n = n} {s = s} a t) = Tried-known x t ∙ attempt-known x n s a
  Tried-known x (stop {n = n} {s = s} a) = attempt-known x n s a

  idle_attempt :
      {n : ℕ} {s s₁ : Scheduler W O} → Attempt n s (ok false, s₁) → (s₁ ≡ s) × IsStuck n s
  idle_attempt (idle h) = (refl, h)

  IsStuck-cons :
      (n : ℕ) (ns : List ℕ) (s : Scheduler W O)
      → IsStuck n s
      → ((m : ℕ) → has m ns ≡ true → IsStuck m s)
      → (m : ℕ) → has m (n ∷ ns) ≡ true
      → IsStuck m s
  IsStuck-cons n ns s h rest m e = elim (Bool-cases (m == n)) [
    | inl q ↦ subst (λ k. IsStuck k s) (sym (==→eq m n q)) h
    | inr q ↦ rest m (sym (ap (λ b. b || has m ns) q) ∙ e)
  ]

  -- A pass in which no thread ran changes nothing, and each of its threads is stuck.
  pub Tried-quiet :
      {ns : List ℕ} {p : Bool} {s s' : Scheduler W O}
      → Tried ns p s (ok false, s')
      → (p ≡ false) × (s' ≡ s) × ((n : ℕ) → has n ns ≡ true → IsStuck n s)
  Tried-quiet done = (refl, refl, λ n h. absurd (cc))
  Tried-quiet (next {n = n} {ns = ns} {p = p} {moved = false} {s = s} a t) =
      let (e, stay) = idle_attempt a in
      let (q, same, rest) = Tried-quiet t in
      (
        ground arith,
        same ∙ e,
        IsStuck-cons n ns s stay (subst (λ u. (m : ℕ) → has m ns ≡ true → IsStuck m u) e rest),
      )
  Tried-quiet (next {p = p} {moved = true} a t) =
      let (q, same, rest) = Tried-quiet t in absurd (ground arith)
