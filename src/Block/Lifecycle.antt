-- ===== src/Block/Lifecycle.antt =====
-- What the state machine of class Block guarantees over a whole sequence of calls.
use tt_lang.Prelude.{
  ℕ, List, [], ◌∷◌, ◌++◌, Option, Bool, true, false, Outcome, ok, raise, runtime_error, is_ok,
  bind_ok, bind_ok-eq-ok, ok-injective, subst, ◌≡◌, arith, ◌⊎◌, ◌↔◌,
}
use tt_lang.BlockState.{
  read_write, no_access_reading, no_access_writing, ThreadType, dm, compute, BlockAcquisition,
  by_reserve, by_wait,
}
use tt_lang.Block.{Block, Span, new_block, check_can_read, check_can_write}
use tt_lang.Block.Legal.{
  Action, read_by_copy, written_by_copy, copy_done, read_by_store, stored, stored_acc, pushed,
  popped, act, IsLegal, act-IsLegal,
}

-- Calls in order, up to the first that raises.
unfoldable pub run : List Action → Block → Outcome Block
run [] b = ok b
run (a ∷ calls) b = bind_ok (act a b) (run calls)

pub run-IsLegal :
    (calls : List Action) (b : Block) {c : Block} → IsLegal b → run calls b ≡ ok c → IsLegal c
unfolding run
run-IsLegal [] b l e = subst IsLegal (ok-injective e) l
run-IsLegal (a ∷ calls) b l e =
    let (b', e₁, e₂) = bind_ok-eq-ok (act a b) (run calls) e in
    run-IsLegal calls b' (act-IsLegal a b l e₁) e₂

-- The call that ends the life cycle.
abbrev pub release : BlockAcquisition → Action
release by_reserve = pushed
release by_wait = popped

-- How a life cycle must begin: a reserved block is written first, a waited block is read first.
abbrev pub begins : BlockAcquisition → ThreadType → List Action → Bool
begins by_reserve dm (written_by_copy ∷ copy_done ∷ calls) = true
begins by_wait dm (read_by_copy ∷ copy_done ∷ calls) = true
begins by_reserve compute (stored ∷ calls) = true
begins by_reserve compute (stored_acc ∷ calls) = true
begins by_wait compute (read_by_store ∷ calls) = true
begins _ _ _ = false

module _ (capacity : ℕ) (span : Span) (shape : List ℕ) (acq : BlockAcquisition) (thr : ThreadType)
    (dfb : Option ℕ) where
  -- If a sequence of calls and then the release succeed on a block that was just acquired, the
  -- sequence begins with a use: a reserved block was written (by a finished copy, or by a store) and
  -- a waited block was read (by a finished copy, or by a store).
  pub release_needs_use :
      (calls : List Action) {c : Block}
      → run (calls ++ release acq ∷ []) (new_block capacity span shape acq thr false dfb) ≡ ok c
      → begins acq thr calls ≡ true
  unfolding run act new_block
  release_needs_use [] e = ground arith
  release_needs_use (a ∷ []) e = ground arith
  release_needs_use (a ∷ a' ∷ calls) e = ground arith

-- After a successful push or pop on a legal block every further call raises, and the block can be
-- neither read nor written.
pub released_is_final :
    (b : Block) {c : Block} (acq : BlockAcquisition) (a : Action)
    → IsLegal b
    → act (release acq) b ≡ ok c
    → (act a c ≡ raise runtime_error) × (check_can_read c ≡ false) × (check_can_write c ≡ false)
unfolding act check_can_read check_can_write
released_is_final b acq a l e = ground arith

abbrev pub is_copy_done : Action → Bool
is_copy_done copy_done = true
is_copy_done _ = false

-- While a copy from or to a legal block is in flight, the only call that succeeds is the one that
-- ends the copy; the block cannot be written, and it can be read only if it is the copy's source.
pub in_flight_locked :
    (b : Block) (a : Action)
    → IsLegal b
    → (b.access_state ≡ no_access_reading) ⊎ (b.access_state ≡ no_access_writing)
    → (is_ok (act a b) ≡ is_copy_done a)
      × (check_can_write b ≡ false)
      × ((check_can_read b ≡ true) ↔ (b.access_state ≡ no_access_reading))
unfolding act check_can_write check_can_read
in_flight_locked b a l e = ground arith

-- A legal block is popped in the read-write state only, so never before it was read, and never right
-- after an accumulation.
pub popped_only_read_write :
    (b : Block) {c : Block} → IsLegal b → act popped b ≡ ok c → b.access_state ≡ read_write
unfolding act
popped_only_read_write b l e = ground arith
