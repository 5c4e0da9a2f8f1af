-- ===== src/Scheduler/Budget.antt =====
-- A run ends: the turns that its threads may still take are counted by a budget and by the threads
-- that are left.
use tt_lang.Prelude.{
  ℕ, suc, ◌+◌, ◌≤◌, ◌<◌, ◌≡◌, refl, ap, sym, ◌∙◌, inl, inr, List, [], ◌∷◌, length, Option, none,
  some, Bool, true, false, ◌||◌, if◌then◌else◌, ◌==◌, Bool-cases, has, ok, arith,
}
use tt_lang.Scheduler.{
  Algorithm, Stop, finished, blocked, failed, Turn, Thread, Scheduler, unfinished, find, update,
  remove, names, mark_progress, block_on, unblock, run_at, stamp, switch, settle, after_switch,
  end_init_round,
}
use tt_lang.Scheduler.Names.{names-update}
use tt_lang.Scheduler.Progress.{Attempt, idle, ran, Tried, done, next}
use tt_lang.Scheduler.Ends.{Loop, out, again}

-- A turn that ends in a block uses up one unit of the budget.
abbrev pub yields : {O : Type 0} → Stop O → ℕ
yields finished = 0
yields (blocked o) = 1
yields (failed e) = 0

module _ {O : Type 0} where
  length-update :
      (n : ℕ) (f : Thread O → Thread O) (ts : List (Thread O)) → length (update n f ts) ≡ length ts
  length-update n f [] = refl
  length-update n f (t ∷ ts) = ap suc (length-update n f ts)

  length-remove : (n : ℕ) (ts : List (Thread O)) → length (remove n ts) ≤ length ts
  length-remove n [] = omega arith
  length-remove n (t ∷ ts) = let rest = length-remove n ts in ground arith

  length-remove_lt :
      (n : ℕ) (ts : List (Thread O)) → has n (names ts) ≡ true → length (remove n ts) < length ts
  length-remove_lt n [] h = absurd (cc)
  length-remove_lt n (t ∷ ts) h = elim (Bool-cases (n == t.name)) [
    | inl e ↦ rw e (let rest = length-remove n ts in omega arith)
    | inr e ↦ rw e (
        let rest = length-remove_lt n ts (ap (λ b. b || has n (names ts)) (sym e) ∙ h) in
        omega arith)
  ]

module _ {W O : Type 0} (resume : ℕ → W → Turn W O) (budget : W → ℕ)
    (spends : (n : ℕ) (w : W)
      → budget (resume n w).world + yields (resume n w).stop ≤ budget w) where
  -- The budget, and the threads that may still end.
  abbrev pub left : Scheduler W O → ℕ
  left s = budget s.world + length s.active

  settle-left :
      (n : ℕ) (x : Stop O) (s : Scheduler W O) (b : ℕ)
      → budget s.world + yields x ≤ b
      → (left (settle n x s).1 ≤ b + length s.active)
        × (has n (names s.active) ≡ true
            → (settle n x s).0 ≡ ok tt
            → left (settle n x s).1 < b + length s.active)
  settle-left n finished s b h =
      let fewer = length-remove n s.active in
      (omega arith, λ k e. (let fewer_still = length-remove_lt n s.active k in omega arith))
  settle-left n (blocked o) s b h =
      let same = length-update n (block_on o) s.active in (omega arith, λ k e. omega arith)
  settle-left n (failed x) s b h = (omega arith, λ k e. absurd (cc))

  progressed : Bool → ℕ → List (Thread O) → List (Thread O)
  progressed p n ts = if p then update n mark_progress ts else ts

  length-progressed :
      (p : Bool) (n : ℕ) (ts : List (Thread O)) → length (progressed p n ts) ≡ length ts
  unfolding progressed
  length-progressed true n ts = length-update n mark_progress ts
  length-progressed false n ts = refl

  names-progressed :
      (p : Bool) (n : ℕ) (ts : List (Thread O)) → names (progressed p n ts) ≡ names ts
  unfolding progressed
  names-progressed true n ts = names-update n mark_progress ts (λ t. refl)
  names-progressed false n ts = refl

  pub switch-left :
      (n : ℕ) (s : Scheduler W O)
      → (left (switch resume n s).1 ≤ left s)
        × (has n (names s.active) ≡ true
            → (switch resume n s).0 ≡ ok tt
            → left (switch resume n s).1 < left s)
  unfolding switch progressed
  switch-left n s =
      let turn = resume n s.world in
      let s₁ : Scheduler W O = record s {
        world = turn.world;
        active = progressed turn.progressed n s.active;
      } in
      let (le, lt) = settle-left n turn.stop s₁ (budget s.world) (spends n s.world) in
      let same : length s₁.active ≡ length s.active =
        length-progressed turn.progressed n s.active in
      (
        omega arith,
        λ k e.
            (let less = lt (ap (has n) (names-progressed turn.progressed n s.active) ∙ k) e in
              omega arith),
      )

  stamp-left : (n : ℕ) (s : Scheduler W O) → left (stamp n s) ≡ left s
  stamp-left n s =
      ap (λ l. budget s.world + l) (length-update n (run_at (suc s.timestamp)) s.active)

  pub end_init_round-left : (n : ℕ) (s : Scheduler W O) → left (end_init_round n s) ≤ left s
  end_init_round-left n s = found (find n s.active)
    where
      found : (o : Option (Thread O)) → left (after_switch o n s) ≤ left s
      found none = let fewer = length-remove n s.active in omega arith
      found (some t) = elim (Bool-cases t.has_made_progress) [
        | inl e ↦ rw e (let same = stamp-left n s in omega arith)
        | inr e ↦ rw e (omega arith)
      ]

  module _ (can : O → W → Bool) (a : Algorithm) where
    attempt-left :
        (n : ℕ) (s : Scheduler W O) {s' : Scheduler W O} {moved : Bool}
        → Attempt resume can n s (ok moved, s')
        → (left s' ≤ left s) × (moved ≡ true → left s' < left s)
    attempt-left n s (idle h) = (omega arith, λ e. absurd (cc))
    attempt-left n s (ran s' k e) =
        let u : Scheduler W O = record s { active = update n unblock s.active } in
        let same : length u.active ≡ length s.active = length-update n unblock s.active in
        let listed : has n (names u.active) ≡ true =
          ap (has n) (names-update n unblock s.active (λ t. refl)) ∙ k in
        let less = (switch-left n u).1 listed (ap (λ r. r.0) e) in
        let after : left (switch resume n u).1 ≡ left s' = ap (λ r. left r.1) e in
        let stamped = stamp-left n s' in (omega arith, λ f. omega arith)

    Tried-left :
        {ns : List ℕ} {p q : Bool} {s s' : Scheduler W O}
        → Tried resume can ns p s (ok q, s')
        → (left s' ≤ left s) × (p ≡ false → q ≡ true → left s' < left s)
    Tried-left done = (omega arith, λ e f. absurd (cc))
    Tried-left (next {n = n} {moved = true} {s = s} a t) =
        let (le, lt) = Tried-left t in
        let (le₁, lt₁) = attempt-left n s a in
        let spent = lt₁ refl in (omega arith, λ e f. omega arith)
    Tried-left (next {n = n} {p = p} {moved = false} {s = s} a t) =
        let (le, lt) = Tried-left t in
        let (le₁, lt₁) = attempt-left n s a in
        (omega arith, λ e f. (let later = lt (ground arith) f in omega arith))

    pub Loop-ends :
        {f : ℕ} {s s' : Scheduler W O} → left s < f → ¬ Loop resume can a f s (unfinished, s')
    Loop-ends h out = absurd (omega arith)
    Loop-ends h (again t l) =
        let (le, lt) = Tried-left t in let spent = lt refl refl in Loop-ends (omega arith) l
