-- ===== src/Scheduler/Runs.antt =====
-- Whole runs of the scheduler, with the initialization phase of the fair algorithm.
use tt_lang.Prelude.{
  ℕ, ◌+◌, ◌≤◌, ◌<◌, ◌≡◌, ◌≢◌, refl, ap, sym, subst, ◌∙◌, inl, inr, List, [], ◌∷◌, length, Option,
  none, some, Bool, true, false, ◌||◌, Outcome, ok, raise, ◌>>=◌, ◌>>◌, >>=-ok, >>=-raise, modify,
  Bool-cases, has, ◌==◌, ==_refl, or_true, or_false, arith,
}
use tt_lang.Scheduler.{
  Algorithm, greedy, fair, Turn, Thread, Scheduler, End, returned, deadlock, unfinished, names,
  find, is_empty, is_blocked, switch, end_init_round, initialization_phase, may_run, run_loop,
  after_init, thread_error, run,
}
use tt_lang.Scheduler.Names.{known, switch-known, end_init_round-known, has-find}
use tt_lang.Scheduler.Ends.{Loop, loop, Loop-known, Loop-returned, Loop-deadlock}
use tt_lang.Scheduler.Budget.{yields, left, switch-left, end_init_round-left, Loop-ends}

module _ {W O : Type 0} (resume : ℕ → W → Turn W O) where
  init_cons :
      (P : Scheduler W O → Type 0) (n : ℕ) (ns : List ℕ) (s : Scheduler W O)
      → P s
      → P (switch resume n s).1
      → P (initialization_phase resume ns (end_init_round n (switch resume n s).1)).1
      → P (initialization_phase resume (n ∷ ns) s).1
  unfolding initialization_phase
  init_cons P n ns s p q r = elim (Bool-cases (is_blocked (find n s.active))) [
    | inl e ↦ rw e p
    | inr e ↦ rw e (rest (switch resume n s) refl)
  ]
    where
      rest :
          (x : Outcome (Unit {0}) × Scheduler W O)
          → switch resume n s ≡ x
          → P
              ((switch resume n >>= λ _.
                  modify (end_init_round n) >> initialization_phase resume ns)
                s).1
      rest (ok tt, s') e =
          subst P
            (sym (
              ap (λ u. u.1)
                (>>=-ok (switch resume n)
                  (λ _. modify (end_init_round n) >> initialization_phase resume ns) s e)))
            (subst (λ u. P (initialization_phase resume ns (end_init_round n u.1)).1) e r)
      rest (raise x, s') e =
          subst P
            (sym (
              ap (λ u. u.1)
                (>>=-raise (switch resume n)
                  (λ _. modify (end_init_round n) >> initialization_phase resume ns) s e)))
            (subst (λ u. P u.1) e q)

  init-known :
      (x : ℕ) (ns : List ℕ) (s : Scheduler W O)
      → ((n : ℕ) → has n ns ≡ true → known n s ≡ true)
      → known x (initialization_phase resume ns s).1 ≡ known x s
  unfolding initialization_phase
  init-known x [] s h = refl
  init-known x (n ∷ ns) s h =
      let here : known n s ≡ true = h n (ap (λ b. b || has n ns) (==_refl n)) in
      let s₁ : Scheduler W O = (switch resume n s).1 in
      let kept : (y : ℕ) → known y (end_init_round n s₁) ≡ known y s = λ y.
        end_init_round-known y n s₁ (switch-known resume n n s here ∙ here)
        ∙ switch-known resume y n s here in
      let later : (m : ℕ) → has m ns ≡ true → known m (end_init_round n s₁) ≡ true =
        λ m e. kept m ∙ h m (or_true (m == n) e) in
      init_cons (λ u. known x u ≡ known x s) n ns s refl (switch-known resume x n s here)
        (init-known x ns (end_init_round n s₁) later ∙ kept x)

  module _ (budget : W → ℕ)
      (spends : (n : ℕ) (w : W)
        → budget (resume n w).world + yields (resume n w).stop ≤ budget w) where
    init-left :
        (ns : List ℕ) (s : Scheduler W O)
        → left resume budget spends (initialization_phase resume ns s).1
          ≤ left resume budget spends s
    unfolding initialization_phase
    init-left [] s = omega arith
    init-left (n ∷ ns) s =
        let s₁ : Scheduler W O = (switch resume n s).1 in
        let (turned, less) = switch-left resume budget spends n s in
        let closed = end_init_round-left resume budget spends n s₁ in
        let rest = init-left ns (end_init_round n s₁) in
        init_cons (λ u. left resume budget spends u ≤ left resume budget spends s) n ns s
          (omega arith) turned (omega arith)

module _ {W O : Type 0} (resume : ℕ → W → Turn W O) (can : O → W → Bool) where
  -- The state in which the loop of `run` starts.
  abbrev pub started : Algorithm → Scheduler W O → Scheduler W O
  started greedy s = s
  started fair s = (initialization_phase resume (names s.active) s).1

  started-known : (x : ℕ) (a : Algorithm) (s : Scheduler W O) → known x (started a s) ≡ known x s
  started-known x greedy s = refl
  started-known x fair s =
      init-known resume x (names s.active) s (λ n h. or_true (has n s.completed) h)

  -- A run that does not end by an exception went through the loop.
  looped :
      (a : Algorithm) (fuel : ℕ) (s : Scheduler W O) {e : End} {s' : Scheduler W O}
      → e ≢ thread_error
      → run resume can a fuel s ≡ (e, s')
      → Loop resume can a fuel (started a s) (e, s')
  unfolding run
  looped greedy fuel s ne q =
      subst (Loop resume can greedy fuel s) q (loop resume can greedy fuel s)
  looped fair fuel s {e} {s'} ne q = after (initialization_phase resume (names s.active) s) q
    where
      after :
          (r : Outcome (Unit {0}) × Scheduler W O)
          → after_init resume can (run_loop resume can fair fuel) r ≡ (e, s')
          → Loop resume can fair fuel r.1 (e, s')
      after (ok u, s₁) q = subst (Loop resume can fair fuel s₁) q (loop resume can fair fuel s₁)
      after (raise x, s₁) q = absurd (ne (cc))

  -- A run that returns has no active thread left, and has completed the threads that it was given
  -- and those completed before, and no others.
  pub run-returned :
      (a : Algorithm) (fuel x : ℕ) (s : Scheduler W O) {s' : Scheduler W O}
      → run resume can a fuel s ≡ (returned, s')
      → (is_empty s'.active ≡ true)
        × (has x s'.completed ≡ has x s.completed || has x (names s.active))
  run-returned a fuel x s {s'} q =
      let l = looped a fuel s (λ e. absurd (cc)) q in
      let ended = Loop-returned resume can a l in
      let none_left : names s'.active ≡ [] = emptied s'.active ended in
      (
        ended,
        sym (ap (λ ns. has x s'.completed || has x ns) none_left ∙ or_false (has x s'.completed))
            ∙ Loop-known resume can a x l
            ∙ started-known x a s,
      )
    where
      emptied : (ts : List (Thread O)) → is_empty ts ≡ true → names ts ≡ []
      emptied [] h = refl
      emptied (t ∷ ts) h = absurd (cc)

  -- Where a run ends in a deadlock, each thread that is still active is blocked, on an operation that
  -- cannot go on.
  pub run-deadlock :
      (a : Algorithm) (fuel n : ℕ) (s : Scheduler W O) {s' : Scheduler W O} {t : Thread O}
      → run resume can a fuel s ≡ (deadlock, s')
      → find n s'.active ≡ some t
      → (o : O) × (t.blocking_obj ≡ some o) × (can o s'.world ≡ false)
  run-deadlock a fuel n s {s'} {t} q f = held t.blocking_obj refl (
      Loop-deadlock resume can a (looped a fuel s (λ e. absurd (cc)) q) n (has-find n s'.active f) t
        f)
    where
      held :
          (b : Option O)
          → t.blocking_obj ≡ b
          → may_run can t s'.world ≡ false
          → (o : O) × (t.blocking_obj ≡ some o) × (can o s'.world ≡ false)
      held none e h = absurd (ground arith)
      held (some o) e h = (o, e, ground arith)

  -- Where a budget covers each turn in which a thread blocks, the budget does not grow, and the fuel
  -- is above the budget and the active threads together, a run ends: it returns, is a deadlock, or
  -- fails by the exception of a thread.
  pub run-ends :
      (a : Algorithm) (budget : W → ℕ) (fuel : ℕ) (s : Scheduler W O)
      → ((n : ℕ) (w : W) → budget (resume n w).world + yields (resume n w).stop ≤ budget w)
      → budget s.world + length s.active < fuel
      → (run resume can a fuel s).0 ≢ unfinished
  run-ends a budget fuel s spends h q =
      Loop-ends resume budget spends can a (started_within a)
        (looped a fuel s (λ e. absurd (cc)) (ap (λ e. (e, (run resume can a fuel s).1)) q))
    where
      started_within : (b : Algorithm) → left resume budget spends (started b s) < fuel
      started_within greedy = h
      started_within fair =
          let kept = init-left resume budget spends (names s.active) s in omega arith
