-- ===== src/Scheduler/Names.antt =====
-- No thread is lost: each is active or completed.
use tt_lang.Prelude.{
  ℕ, suc, ◌≡◌, refl, ap, ap₂, sym, ◌∙◌, inl, inr, List, [], ◌∷◌, ◌++◌, Option, none, some, Bool,
  true, not, ◌&&◌, ◌||◌, if◌then◌else◌, ◌==◌, ==→eq, Bool-cases, has, arith,
}
use tt_lang.Scheduler.{
  Stop, finished, blocked, failed, Turn, Thread, Scheduler, find, update, remove, names,
  mark_completed, mark_progress, block_on, unblock, run_at, settle, stamp, switch, end_init_round,
  after_switch,
}

has-append : (x : ℕ) (xs ys : List ℕ) → has x (xs ++ ys) ≡ has x xs || has x ys
has-append x [] ys = refl
has-append x (y ∷ xs) ys = ground (arith, has-append x xs ys)

module _ {O : Type 0} where
  pub names-update :
      (n : ℕ) (f : Thread O → Thread O) (ts : List (Thread O))
      → ((t : Thread O) → (f t).name ≡ t.name)
      → names (update n f ts) ≡ names ts
  names-update n f [] h = refl
  names-update n f (t ∷ ts) h = elim (Bool-cases (n == t.name)) [
    | inl e ↦ rw e (ap₂ (λ a b. a ∷ b) (h t) (names-update n f ts h))
    | inr e ↦ rw e (ap (λ b. t.name ∷ b) (names-update n f ts h))
  ]

  has-remove :
      (x n : ℕ) (ts : List (Thread O))
      → has x (names (remove n ts)) ≡ not (x == n) && has x (names ts)
  has-remove x n [] = ground arith
  has-remove x n (t ∷ ts) = let rest = has-remove x n ts in ground arith

  pub has-find :
      (n : ℕ) (ts : List (Thread O)) {t : Thread O} → find n ts ≡ some t → has n (names ts) ≡ true
  has-find n [] e = absurd (cc)
  has-find n (u ∷ ts) {t} e = elim (Bool-cases (n == u.name)) [
    | inl q ↦ rw q refl
    | inr q ↦ rw q (has-find n ts (sym (ap (λ (b : Bool). if b then some u else find n ts) q) ∙ e))
  ]

module _ {W O : Type 0} where
  -- The thread is active or completed.
  abbrev pub known : ℕ → Scheduler W O → Bool
  known x s = has x s.completed || has x (names s.active)

  mark_completed-known :
      (x n : ℕ) (s : Scheduler W O) → known n s ≡ true → known x (mark_completed n s) ≡ known x s
  mark_completed-known x n s h =
      ap₂ (λ a b. a || b) (has-append x s.completed (n ∷ [])) (has-remove x n s.active)
      ∙ elim (Bool-cases (x == n)) [
        | inl e ↦ (let same = ap (λ k. known k s) (==→eq x n e) in ground arith)
        | inr e ↦ ground arith
      ]

  frame-known :
      (x n : ℕ) (f : Thread O → Thread O) (s : Scheduler W O)
      → ((t : Thread O) → (f t).name ≡ t.name)
      → known x (record s { active = update n f s.active }) ≡ known x s
  frame-known x n f s h = ap (λ ns. has x s.completed || has x ns) (names-update n f s.active h)

  settle-known :
      (x n : ℕ) (stop : Stop O) (s : Scheduler W O)
      → known n s ≡ true
      → known x (settle n stop s).1 ≡ known x s
  settle-known x n finished s h = mark_completed-known x n s h
  settle-known x n (blocked o) s h = frame-known x n (block_on o) s (λ t. refl)
  settle-known x n (failed e) s h = refl

  module _ (resume : ℕ → W → Turn W O) where
    turned : Turn W O → ℕ → Scheduler W O → Scheduler W O
    turned turn n s = record s {
      world = turn.world;
      active = if turn.progressed then update n mark_progress s.active else s.active;
    }

    turned-known :
        (x : ℕ) (turn : Turn W O) (n : ℕ) (s : Scheduler W O)
        → known x (turned turn n s) ≡ known x s
    unfolding turned
    turned-known x turn n s = elim (Bool-cases turn.progressed) [
      | inl e ↦ rw e (frame-known x n mark_progress s (λ t. refl))
      | inr e ↦ rw e refl
    ]

    pub switch-known :
        (x n : ℕ) (s : Scheduler W O) → known n s ≡ true → known x (switch resume n s).1 ≡ known x s
    unfolding switch turned
    switch-known x n s h =
        settle-known x n (resume n s.world).stop (turned (resume n s.world) n s)
          (turned-known n (resume n s.world) n s ∙ h)
        ∙ turned-known x (resume n s.world) n s

  pub stamp-known : (x n : ℕ) (s : Scheduler W O) → known x (stamp n s) ≡ known x s
  stamp-known x n s = frame-known x n (run_at (suc s.timestamp)) s (λ t. refl)

  pub end_init_round-known :
      (x n : ℕ) (s : Scheduler W O) → known n s ≡ true → known x (end_init_round n s) ≡ known x s
  end_init_round-known x n s h = cases (find n s.active)
    where
      cases : (o : Option (Thread O)) → known x (after_switch o n s) ≡ known x s
      cases none = mark_completed-known x n s h
      cases (some t) = elim (Bool-cases t.has_made_progress) [
        | inl e ↦ rw e (stamp-known x n s)
        | inr e ↦ rw e refl
      ]

  pub unblock-known :
      (x n : ℕ) (s : Scheduler W O)
      → known x (record s { active = update n unblock s.active }) ≡ known x s
  unblock-known x n s = frame-known x n unblock s (λ t. refl)
