-- ===== src/Scheduler/Ends.antt =====
-- How a run of the scheduler ends.
use tt_lang.Prelude.{
  ℕ, zero, suc, ◌≡◌, refl, ap, sym, subst, ◌∙◌, inl, inr, List, [], ◌∷◌, Bool, true, false, Error,
  Outcome, ok, raise, Bool-cases, has, arith,
}
use tt_lang.Scheduler.{
  Algorithm, greedy, fair, Turn, Thread, Scheduler, End, returned, deadlock, thread_error,
  unfinished, names, insert_thread, sort_threads, thread_candidates, is_empty, after_pass, run_loop,
}
use tt_lang.Scheduler.Names.{known}
use tt_lang.Scheduler.Progress.{Tried, IsStuck, tried, Tried-known, Tried-quiet}

module _ {O : Type 0} where
  has-insert_thread :
      (n : ℕ) (t : Thread O) (ts : List (Thread O))
      → has n (names (insert_thread t ts)) ≡ has n (t.name ∷ names ts)
  has-insert_thread n t [] = refl
  has-insert_thread n t (u ∷ us) = let rest = has-insert_thread n t us in ground arith

  has-sort_threads :
      (n : ℕ) (ts : List (Thread O)) → has n (names (sort_threads ts)) ≡ has n (names ts)
  has-sort_threads n [] = refl
  has-sort_threads n (t ∷ ts) =
      has-insert_thread n t (sort_threads ts) ∙ ground (arith, has-sort_threads n ts)

  -- Both algorithms try each active thread.
  has-thread_candidates :
      (a : Algorithm) (n : ℕ) (ts : List (Thread O))
      → has n (thread_candidates a ts) ≡ has n (names ts)
  has-thread_candidates greedy n ts = refl
  has-thread_candidates fair n ts = has-sort_threads n ts

module _ {W O : Type 0} (resume : ℕ → W → Turn W O) (can : O → W → Bool) (a : Algorithm) where
  -- The passes of the loop, one after the other.
  pub data Loop : ℕ → Scheduler W O → End × Scheduler W O → Type 0 where
    empty : {f : ℕ} {s : Scheduler W O} → is_empty s.active ≡ true → Loop f s (returned, s)
    out : {s : Scheduler W O} → Loop zero s (unfinished, s)
    quiet :
        {f : ℕ} {s s' : Scheduler W O}
        → Tried resume can (thread_candidates a s.active) false s (ok false, s')
        → Loop (suc f) s (deadlock, s')
    error :
        {f : ℕ} {s s' : Scheduler W O} {e : Error}
        → Tried resume can (thread_candidates a s.active) false s (raise e, s')
        → Loop (suc f) s (thread_error, s')
    again :
        {f : ℕ} {s s' : Scheduler W O} {r : End × Scheduler W O}
        → Tried resume can (thread_candidates a s.active) false s (ok true, s')
        → Loop f s' r
        → Loop (suc f) s r

  passed :
      (f : ℕ) (s : Scheduler W O) (r : Outcome Bool × Scheduler W O)
      → is_empty s.active ≡ false
      → Tried resume can (thread_candidates a s.active) false s r
      → ((s' : Scheduler W O) → Loop f s' (run_loop resume can a f s'))
      → Loop (suc f) s (after_pass resume can (run_loop resume can a f) r)
  passed f s (raise e, s') h t rest = error t
  passed f s (ok true, s') h t rest = again t (rest s')
  passed f s (ok false, s') h t rest =
      let (p, same, stay) = Tried-quiet resume can t in
      let active : is_empty s'.active ≡ false = ap (λ u. is_empty u.active) same ∙ h in
      rw active (quiet t)

  pub loop : (f : ℕ) (s : Scheduler W O) → Loop f s (run_loop resume can a f s)
  unfolding run_loop
  loop zero s = elim (Bool-cases (is_empty s.active)) [ inl e ↦ rw e (empty e) | inr e ↦ rw e out ]
  loop (suc f) s = elim (Bool-cases (is_empty s.active)) [
    | inl e ↦ rw e (empty e)
    | inr e ↦
        rw e (
          passed f s _ e (tried resume can (thread_candidates a s.active) false s)
            (λ s'. loop f s'))
  ]

  pub Loop-known :
      (x : ℕ) {f : ℕ} {s : Scheduler W O} {r : End × Scheduler W O}
      → Loop f s r
      → known x r.1 ≡ known x s
  Loop-known x (empty e) = refl
  Loop-known x out = refl
  Loop-known x (quiet t) = Tried-known resume can x t
  Loop-known x (error t) = Tried-known resume can x t
  Loop-known x (again t l) = Loop-known x l ∙ Tried-known resume can x t

  pub Loop-returned :
      {f : ℕ} {s s' : Scheduler W O} → Loop f s (returned, s') → is_empty s'.active ≡ true
  Loop-returned (empty e) = e
  Loop-returned (again t l) = Loop-returned l

  pub Loop-deadlock :
      {f : ℕ} {s s' : Scheduler W O}
      → Loop f s (deadlock, s')
      → (n : ℕ) → has n (names s'.active) ≡ true
      → IsStuck resume can n s'
  Loop-deadlock (again t l) = Loop-deadlock l
  Loop-deadlock (quiet {s = s} {s' = s'} t) =
      let (p, same, stay) = Tried-quiet resume can t in
      λ n h. subst (IsStuck resume can n) (sym same) (
        stay n
          (has-thread_candidates a n s.active ∙ ap (λ u. has n (names u.active)) (sym same) ∙ h))
