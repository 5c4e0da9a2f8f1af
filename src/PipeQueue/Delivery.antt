-- ===== src/PipeQueue/Delivery.antt =====
-- When a message leaves the queue of a pipe.
use tt_lang.Prelude.{
  ℕ, suc, ◌+◌, ◌-◌, ◌≡◌, refl, ap, ◌∙◌, List, [], ◌∷◌, ◌++◌, some, true, false, ◌==◌, ==_refl,
  Outcome, ok, length, replicate, has, arith,
}
use tt_lang.PipeQueue.{Message, PipeEntry, insert, send, receive}

-- Numbers that differ from one another and from `seen`.
abbrev pub Distinct : List ℕ → List ℕ → Type 0
Distinct seen [] = Unit
Distinct seen (c ∷ cs) = (has c seen ≡ false) × Distinct (insert c seen) cs

module _ {A : Type 0} where
  -- Cores that receive one after the other, each into a block of `len` tensors: what each got.
  unfoldable pub receive_each : List ℕ → ℕ → PipeEntry A → List (Outcome (List A)) × PipeEntry A
  receive_each [] len entry = ([], entry)
  receive_each (c ∷ cs) len entry =
      let (o, entry') = receive (some c) len entry in
      let (os, entry'') = receive_each cs len entry' in (o ∷ os, entry'')

  receive_each-cons :
      (c : ℕ) (cs : List ℕ) (len : ℕ) (entry entry' : PipeEntry A) (o : Outcome (List A))
      → receive (some c) len entry ≡ (o, entry')
      → receive_each (c ∷ cs) len entry
        ≡ (o ∷ (receive_each cs len entry').0, (receive_each cs len entry').1)
  unfolding receive_each
  receive_each-cons c cs len entry entry' o e =
      ap
        (λ (r : Outcome (List A) × PipeEntry A).
          (r.0 ∷ (receive_each cs len r.1).0, (receive_each cs len r.1).1))
        e

  -- The entry of a pipe with one message, or with none.
  abbrev waiting_entry : List A → ℕ → ℕ → List ℕ → ℕ → PipeEntry A
  waiting_entry vs remaining msg_id receivers next = record {
    queue =
        record { tensors = vs; remaining = remaining; msg_id = msg_id; receivers = receivers } ∷ [];
    event = true;
    next_msg_id = next;
  }

  abbrev empty_entry : ℕ → PipeEntry A
  empty_entry next = record { queue = []; event = false; next_msg_id = next }

  module _ (vs : List A) (msg_id next : ℕ) where
    receive_more :
        (c remaining : ℕ) (receivers : List ℕ)
        → has c receivers ≡ false
        → receive
            (some c)
            (length vs)
            (waiting_entry vs (suc (suc remaining)) msg_id receivers next)
          ≡ (ok vs, waiting_entry vs (suc remaining) msg_id (insert c receivers) next)
    unfolding receive
    receive_more c remaining receivers h =
        let two : (suc (suc remaining) == 1) ≡ false = ground arith in
        let less : suc (suc remaining) - 1 ≡ suc remaining = omega arith in
        rw (h, ==_refl (length vs), two, less) refl

    receive_last :
        (c : ℕ) (receivers : List ℕ)
        → has c receivers ≡ false
        → receive (some c) (length vs) (waiting_entry vs 1 msg_id receivers next)
          ≡ (ok vs, empty_entry next)
    unfolding receive
    receive_last c receivers h = rw (h, ==_refl (length vs)) refl

    receive_each-kept :
        (cs : List ℕ) (left : ℕ) (receivers : List ℕ)
        → Distinct receivers cs
        → (receivers' : List ℕ) × (receive_each cs
              (length vs)
              (waiting_entry vs (length cs + suc left) msg_id receivers next)
            ≡ (replicate (length cs) (ok vs), waiting_entry vs (suc left) msg_id receivers' next))
    unfolding receive_each
    receive_each-kept [] left receivers d =
        (receivers, ap (λ n. ([], waiting_entry vs n msg_id receivers next)) (omega arith))
    receive_each-kept (c ∷ cs) left receivers d =
        let (receivers', later) = receive_each-kept cs left (insert c receivers) d.1 in
        let more : suc (length cs) + suc left ≡ suc (suc (length cs + left)) = omega arith in
        let fewer : suc (length cs + left) ≡ length cs + suc left = omega arith in
        let first : receive (some c) (length vs)
              (waiting_entry vs (suc (length cs) + suc left) msg_id receivers next)
            ≡ (ok vs, waiting_entry vs (length cs + suc left) msg_id (insert c receivers) next) =
          ap (λ n. receive (some c) (length vs) (waiting_entry vs n msg_id receivers next)) more
          ∙ receive_more c (length cs + left) receivers d.0
          ∙ ap (λ n. (ok vs, waiting_entry vs n msg_id (insert c receivers) next)) fewer in
        (
          receivers',
          receive_each-cons c cs (length vs) _ _ _ first
              ∙ ap (λ (r : List (Outcome (List A)) × PipeEntry A). (ok vs ∷ r.0, r.1)) later,
        )

    receive_each-all :
        (cs : List ℕ) (c : ℕ) (receivers : List ℕ)
        → Distinct receivers (c ∷ cs)
        → receive_each
            (c ∷ cs)
            (length vs)
            (waiting_entry vs (length (c ∷ cs)) msg_id receivers next)
          ≡ (replicate (length (c ∷ cs)) (ok vs), empty_entry next)
    unfolding receive_each
    receive_each-all [] c receivers d =
        receive_each-cons c [] (length vs) _ _ _ (receive_last c receivers d.0)
    receive_each-all (c' ∷ cs) c receivers d =
        receive_each-cons c (c' ∷ cs) (length vs) _ _ _ (receive_more c (length cs) receivers d.0)
        ∙ ap (λ (r : List (Outcome (List A)) × PipeEntry A). (ok vs ∷ r.0, r.1))
            (receive_each-all cs c' (insert c receivers) d.1)

-- Into a pipe whose queue is empty, tensors are sent for a number of receivers. While fewer cores than
-- that have received them, each a different one and into a block of their length, each has got the
-- tensors and the message is still in the queue. When as many have, each has got the tensors, the
-- queue is empty and the event is cleared.
pub receive_each-send :
    {A : Type 0} (vs : List A) (entry : PipeEntry A) (cs : List ℕ) (c left : ℕ)
    → entry.queue ≡ []
    → Distinct [] (c ∷ cs)
    → ((receive_each (c ∷ cs) (length vs) (send (length (c ∷ cs) + suc left) vs entry).1).0
        ≡ replicate (length (c ∷ cs)) (ok vs))
      × (length
            (receive_each
              (c ∷ cs)
              (length vs)
              (send (length (c ∷ cs) + suc left) vs entry).1).1.queue
          ≡ 1)
      × (receive_each (c ∷ cs) (length vs) (send (length (c ∷ cs)) vs entry).1 ≡ (
        replicate (length (c ∷ cs)) (ok vs),
        record { queue = []; event = false; next_msg_id = entry.next_msg_id + 1 },
      ))
unfolding send
receive_each-send {A} vs entry cs c left e d =
    let next : ℕ = entry.next_msg_id + 1 in
    let sent : (n : ℕ) → (send n vs entry).1 ≡ waiting_entry vs n entry.next_msg_id [] next = λ n.
      ap
        (λ (q : List (Message A)). record {
          queue =
              q
              ++ (record { tensors = vs; remaining = n; msg_id = entry.next_msg_id; receivers = [] }
                  ∷ []);
          event = true;
          next_msg_id = next;
        })
        e in
    let (receivers', kept) = receive_each-kept vs entry.next_msg_id next (c ∷ cs) left [] d in
    let first = ap (receive_each (c ∷ cs) (length vs)) (sent (length (c ∷ cs) + suc left)) ∙ kept in
    (
      ap (λ r. r.0) first,
      ap (λ r. length r.1.queue) first,
      ap (receive_each (c ∷ cs) (length vs)) (sent (length (c ∷ cs)))
          ∙ receive_each-all vs entry.next_msg_id next cs c [] d,
    )
