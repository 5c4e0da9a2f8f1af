-- ===== src/PipeQueue.antt =====
-- python/sim/copyhandlers.py: the messages that wait in a pipe. Blocks are sent to the entry of a
-- pipe and received from it, once by each core of the pipe's destination.
--
-- All threads of the simulator run on one thread of the operating system, so nothing sets the event
-- of a pipe while `transfer` waits for it: such a wait ends in a TimeoutError.
pub mod Order
pub mod Delivery
mod Tests
use tt_lang.Prelude.{
  ℕ, ◌+◌, ◌-◌, List, [], ◌∷◌, ◌++◌, Option, none, some, Bool, true, false, not, if◌then◌else◌, ◌==◌,
  Exec, Outcome, ok, raise, timeout_error, value_error, length, has,
}

pub record Message (A : Type 0) : Type 0 where
  pub tensors : List A
  pub remaining : ℕ
  pub msg_id : ℕ
  pub receivers : List ℕ

pub record PipeEntry (A : Type 0) : Type 0 where
  pub queue : List (Message A)
  pub event : Bool
  pub next_msg_id : ℕ

-- Adding to a set.
abbrev pub insert : ℕ → List ℕ → List ℕ
insert core_id cs = if has core_id cs then cs else core_id ∷ cs

abbrev pub is_nil {ℓ} : {A : Type ℓ} → List A → Bool
is_nil [] = true
is_nil (x ∷ xs) = false

module _ {A : Type 0} where
  abbrev pub new_entry : PipeEntry A
  new_entry = record { queue = []; event = false; next_msg_id = 0 }

  -- `BlockToPipeHandler.transfer`, for a number of receivers.
  unfoldable pub send : ℕ → List A → Exec (PipeEntry A) (Unit {0})
  send num_receivers src_data entry = (
    ok tt,
    record {
      queue =
          entry.queue
          ++ (record {
            tensors = src_data;
            remaining = num_receivers;
            msg_id = entry.next_msg_id;
            receivers = [];
          }
              ∷ []);
      event = true;
      next_msg_id = entry.next_msg_id + 1;
    },
  )

  -- `PipeToBlockHandler.can_wait`, where the pipe may have no entry.
  unfoldable pub can_receive : Option (PipeEntry A) → Bool
  can_receive none = false
  can_receive (some entry) = not (is_nil entry.queue)

  -- No core is known outside of a kernel; then no receiver is tracked.
  abbrev pub received_by : Option ℕ → Message A → Bool
  received_by none m = false
  received_by (some core_id) m = has core_id m.receivers

  abbrev pub mark_received : Option ℕ → Message A → Message A
  mark_received none m = m
  mark_received (some core_id) m = record m { receivers = insert core_id m.receivers }

  -- The message is marked before the lengths are compared. It leaves the queue when its count comes
  -- to 0; a count that starts at 0 is negative from then on in the source, and 0 here.
  abbrev pub deliver :
      Option ℕ → ℕ → Message A → List (Message A) → Outcome (List A) × List (Message A)
  deliver core_id dst_len m rest =
      if not (dst_len == length m.tensors)
      then (raise value_error, mark_received core_id m ∷ rest)
      else if m.remaining == 1
      then (ok m.tensors, rest)
      else (ok m.tensors, record (mark_received core_id m) { remaining = m.remaining - 1 } ∷ rest)

  abbrev pub behind :
      Message A
      → Option (Outcome (List A) × List (Message A))
      → Option (Outcome (List A) × List (Message A))
  behind m none = none
  behind m (some (o, rest)) = some (o, m ∷ rest)

  -- The first message that the core has not received, delivered.
  abbrev pub take_message :
      Option ℕ → ℕ → List (Message A) → Option (Outcome (List A) × List (Message A))
  take_message core_id dst_len [] = none
  take_message core_id dst_len (m ∷ rest) =
      let later = behind m (take_message core_id dst_len rest) in
      if received_by core_id m then later else some (deliver core_id dst_len m rest)

  -- The event is cleared once the queue is empty after a removal.
  abbrev pub still_set : Bool → List (Message A) → Bool
  still_set event queue = if is_nil queue then false else event

  -- `PipeToBlockHandler.transfer`, up to the copy into the block: the tensors received.
  unfoldable pub receive : Option ℕ → ℕ → Exec (PipeEntry A) (List A)
  receive core_id dst_len entry =
      if not entry.event
      then (raise timeout_error, entry)
      else elim (take_message core_id dst_len entry.queue) [
        | none ↦ (raise timeout_error, record entry { event = false })
        | some (o, queue) ↦ (o, record entry { queue = queue; event = still_set entry.event queue })
      ]
