-- ===== src/PipeQueue/Order.antt =====
-- In which order a core receives the messages of a pipe.
use tt_lang.Prelude.{
  has, ℕ, ◌-◌, ◌≡◌, refl, ap, sym, ◌∙◌, inl, inr, List, [], ◌∷◌, ◌++◌, none, some, Bool, true,
  false, if◌then◌else◌, ◌==◌, ok, raise, timeout_error, length, Bool-cases, ==_refl, arith,
}
use tt_lang.PipeQueue.{
  Message, PipeEntry, insert, is_nil, send, can_receive, mark_received, deliver, behind,
  take_message, still_set, receive,
}

has-insert : (c : ℕ) (cs : List ℕ) → has c (insert c cs) ≡ true
has-insert c cs = elim (Bool-cases (has c cs)) [
  | inl e ↦ rw (e, e) refl
  | inr e ↦ rw (e, ==_refl c) refl
]

module _ {A : Type 0} (c : ℕ) where
  -- What core `c` has still to receive, oldest first.
  abbrev pub pending : List (Message A) → List (List A)
  pending [] = []
  pending (m ∷ ms) = if has c m.receivers then pending ms else m.tensors ∷ pending ms

  pending-append : (ms ns : List (Message A)) → pending (ms ++ ns) ≡ pending ms ++ pending ns
  pending-append [] ns = refl
  pending-append (m ∷ ms) ns = ground (arith, pending-append ms ns)

  -- A send adds its tensors behind all that a core has still to receive, whichever core it is.
  pub send-pending :
      (n : ℕ) (src_data : List A) (entry : PipeEntry A)
      → pending (send n src_data entry).1.queue ≡ pending entry.queue ++ (src_data ∷ [])
  unfolding send
  send-pending n src_data entry = pending-append entry.queue _

  deliver-pending :
      (m : Message A) (ms : List (Message A))
      → (ns : List (Message A)) × (deliver (some c) (length m.tensors) m ms ≡ (ok m.tensors, ns))
        × (pending ns ≡ pending ms)
  deliver-pending m ms = elim (Bool-cases (m.remaining == 1)) [
    | inl r ↦ (ms, rw (==_refl (length m.tensors), r) refl, refl)
    | inr r ↦ (
      record (mark_received (some c) m) { remaining = m.remaining - 1 } ∷ ms,
      rw (==_refl (length m.tensors), r) refl,
      rw (has-insert c m.receivers) refl,
    )
  ]

  take-fresh :
      (n : ℕ) (m : Message A) (ms : List (Message A))
      → has c m.receivers ≡ false
      → take_message (some c) n (m ∷ ms) ≡ some (deliver (some c) n m ms)
  take-fresh n m ms b =
      ap (λ r. if r then behind m (take_message (some c) n ms) else some (deliver (some c) n m ms))
        b

  split_pending : Message A → List (Message A) → Bool → List (List A)
  split_pending m ms b = if b then pending ms else m.tensors ∷ pending ms

  take-pending :
      (ms : List (Message A)) (xs : List A) (rest : List (List A))
      → pending ms ≡ xs ∷ rest
      → (ns : List (Message A)) × (take_message (some c) (length xs) ms ≡ some (ok xs, ns))
        × (pending ns ≡ rest)
  unfolding split_pending
  take-pending [] xs rest e = absurd (cc)
  take-pending (m ∷ ms) xs rest e = elim (Bool-cases (has c m.receivers)) [
    | inl b ↦
        (let (ns, q, p) = take-pending ms xs rest (sym (ap (split_pending m ms) b) ∙ e) in
          (m ∷ ns, rw (b, q) refl, rw b p))
    | inr b ↦
        (let e' : m.tensors ∷ pending ms ≡ xs ∷ rest = sym (ap (split_pending m ms) b) ∙ e in
          let first : m.tensors ≡ xs = cc in
          let others : pending ms ≡ rest = cc in
          let (ns, q, p) = deliver-pending m ms in
          (
            ns,
            take-fresh (length xs) m ms b
                ∙ ap (λ l. some (deliver (some c) (length l) m ms)) (sym first)
                ∙ ap some q
                ∙ ap (λ l. some (ok l, ns)) first,
            p ∙ others,
          ))
  ]

  take-none : (n : ℕ) (ms : List (Message A)) → pending ms ≡ [] → take_message (some c) n ms ≡ none
  unfolding split_pending
  take-none n [] e = refl
  take-none n (m ∷ ms) e = elim (Bool-cases (has c m.receivers)) [
    | inl b ↦ rw (b, take-none n ms (sym (ap (split_pending m ms) b) ∙ e)) refl
    | inr b ↦
        (let e' : m.tensors ∷ pending ms ≡ [] = sym (ap (split_pending m ms) b) ∙ e in absurd (cc))
  ]

  -- Where the event of the pipe is set and a core has still to receive `xs` first, into a block of
  -- that length, receiving succeeds and gives `xs`, and the core has then to receive what came
  -- behind it.
  pub receive-pending :
      (entry : PipeEntry A) (xs : List A) (rest : List (List A))
      → entry.event ≡ true
      → pending entry.queue ≡ xs ∷ rest
      → (entry' : PipeEntry A) × (receive (some c) (length xs) entry ≡ (ok xs, entry'))
        × (pending entry'.queue ≡ rest)
  unfolding receive
  receive-pending entry xs rest v e =
      let (ns, q, p) = take-pending entry.queue xs rest e in
      (
        record entry { queue = ns; event = still_set true ns },
        rw (v, q) (ap (λ b. (ok xs, record entry { queue = ns; event = still_set b ns })) v),
        p,
      )

  -- Where the event of the pipe is set and its queue is not empty, but a core has received all of
  -- its messages, the core is told that it need not wait, and receiving times out and clears the
  -- event.
  pub receive_starved :
      (entry : PipeEntry A) (n : ℕ)
      → entry.event ≡ true
      → is_nil entry.queue ≡ false
      → pending entry.queue ≡ []
      → (can_receive (some entry) ≡ true)
        × (receive (some c) n entry ≡ (raise timeout_error, record entry { event = false }))
  unfolding receive can_receive
  receive_starved entry n v q e = (rw q refl, rw (v, take-none n entry.queue e) refl)
