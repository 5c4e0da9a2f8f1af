-- ===== src/PipeQueue/Tests.antt =====
-- The theorems on pipes at a concrete queue.
use tt_lang.Prelude.{
  ℕ, ◌≡◌, refl, List, [], ◌∷◌, length, some, true, false, ok, raise, timeout_error,
}
use tt_lang.PipeQueue.{PipeEntry, can_receive, receive, send, new_entry}
use tt_lang.PipeQueue.Delivery.{receive_each, receive_each-send}
use tt_lang.PipeQueue.Order.{receive_starved}

-- Two messages for two cores; core 4 has received the first.
abbrev entry : PipeEntry ℕ
entry = record {
  queue =
      record { tensors = 10 ∷ 11 ∷ []; remaining = 1; msg_id = 0; receivers = 4 ∷ [] }
      ∷ record { tensors = 20 ∷ []; remaining = 2; msg_id = 1; receivers = [] }
      ∷ [];
  event = true;
  next_msg_id = 2;
}

-- Core 4 has received all, core 5 nothing.
abbrev starved : PipeEntry ℕ
starved = record entry {
  queue = record { tensors = 10 ∷ 11 ∷ []; remaining = 1; msg_id = 0; receivers = 4 ∷ [] } ∷ [];
}

receive_starved_example :
    (can_receive (some starved) ≡ true)
    × (receive (some 4) 2 starved ≡ (raise timeout_error, record starved { event = false }))
receive_starved_example = receive_starved 4 starved 2 refl refl refl

abbrev two : List ℕ
two = 10 ∷ 11 ∷ []

abbrev fresh : PipeEntry ℕ
fresh = new_entry

receive_each-send_example :
    ((receive_each (4 ∷ 5 ∷ []) 2 (send 3 two fresh).1).0 ≡ ok two ∷ ok two ∷ [])
    × (length (receive_each (4 ∷ 5 ∷ []) 2 (send 3 two fresh).1).1.queue ≡ 1)
    × (receive_each (4 ∷ 5 ∷ []) 2 (send 2 two fresh).1
        ≡ (ok two ∷ ok two ∷ [], record { queue = []; event = false; next_msg_id = 1 }))
receive_each-send_example = receive_each-send two fresh (5 ∷ []) 4 0 refl (refl, (refl, tt))
