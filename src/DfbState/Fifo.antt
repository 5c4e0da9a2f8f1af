-- ===== src/DfbState/Fifo.antt =====
-- A circular buffer seen as a queue: the visible tiles in order, and the reserved slots behind them.
use tt_lang.Prelude.{
  ℕ, zero, suc, ◌+◌, ◌-◌, ◌%◌, ◌≤◌, ◌<◌, ◌≡◌, refl, ap, sym, ◌∙◌, List, [], ◌∷◌, ◌++◌, map, Option,
  none, some, true, ok, get_elem?, set, length, take, drop, >>=-ok, length-map, length-append,
  length-set, append-injective, take_first, drop_first, arith, inl,
}
use native.Mathlib.Nat.{mod-mod, mod-add-mod}
use tt_lang.BlockState.{ThreadType}
use tt_lang.Block.{Block}
use tt_lang.Block.Slots.{Slots, for_range, pop_idx}
use tt_lang.Block.SlotLaws.{pop_idx-some}
use tt_lang.DfbState.{
  DfbState, checked, pop_tiles, pop_view, retire, publish, pop_refusal, dfb_push_back,
  dfb_pop_front,
}
use tt_lang.DfbState.Inv.{IsValid, checked-eq-none}
use tt_lang.DfbState.Window.{
  slot_at, window, length-window, window-add, window_of_mod, window-set_out,
}

module _ {A : Type 0} where
  -- The tiles that a consumer may wait for, oldest first.
  abbrev pub contents : DfbState A → List (Option A)
  contents s = window s.buf s.cap s.head s.visible

  -- The slots that the producer has reserved, in the order in which they will be published.
  abbrev pub staged : DfbState A → List (Option A)
  staged s = window s.buf s.cap (s.head + s.visible) s.reserved

  -- The `k` slots from position `p` on, emptied.
  unfoldable pub clear : Slots A → ℕ → ℕ → ℕ → Slots A
  clear buf cap p zero = buf
  clear buf cap p (suc k) = clear (set buf (p % cap) none) cap (suc p) k

  window-clear :
      (buf : Slots A) (cap p k q m : ℕ)
      → p + k ≤ q
      → q + m ≤ p + cap
      → window (clear buf cap p k) cap q m ≡ window buf cap q m
  unfolding clear
  window-clear buf cap p zero q m h l = refl
  window-clear buf cap p (suc k) q m h l =
      window-clear (set buf (p % cap) none) cap (suc p) k q m (omega arith) (omega arith)
      ∙ window-set_out buf cap p q m none (inl (omega arith, l))

  pub get_elem?_of_slot_at :
      (buf : Slots A) (i : ℕ) (v : A) → slot_at buf i ≡ some v → get_elem? buf i ≡ some (some v)
  get_elem?_of_slot_at buf i v e = ground arith

  pop_loop :
      (b : Block) (first count : ℕ) (buf : Slots A) (vs : List A)
      → first + count ≤ b.span.len
      → 0 < b.capacity
      → length buf ≡ b.capacity
      → count ≤ b.capacity
      → window buf b.capacity (b.span.start + first) count ≡ map some vs
      → for_range (pop_idx b) first count buf
        ≡ (ok tt, clear buf b.capacity (b.span.start + first) count)
  unfolding clear
  pop_loop b first zero buf vs h c l k e = refl
  pop_loop b first (suc count) buf [] h c l k e = absurd (cc)
  pop_loop b first (suc count) buf (v ∷ vs) h c l k e =
      let p : ℕ = b.span.start + first in
      let buf' : Slots A = set buf (p % b.capacity) none in
      let next : b.span.start + suc first ≡ suc p = omega arith in
      let rest : window buf b.capacity (suc p) count ≡ map some vs = cc in
      let tail : window buf' b.capacity (b.span.start + suc first) count ≡ map some vs =
        rw next (window-set_out buf b.capacity p (suc p) count none (inl (omega arith)) ∙ rest) in
      >>=-ok (pop_idx b first) (λ _. for_range (pop_idx b) (suc first) count) buf
        (pop_idx-some b first (omega arith) buf v (omega arith)
          (get_elem?_of_slot_at buf (p % b.capacity) v (cc)))
      ∙ pop_loop b (suc first) count buf' vs (omega arith) c
          (length-set buf (p % b.capacity) none ∙ l) (omega arith) tail
      ∙ ap (λ q. (ok tt, clear buf' b.capacity q count)) next

  pop_tiles-ok :
      (t : ThreadType) (n : ℕ) (s : DfbState A) (vs : List A)
      → IsValid s
      → s.configured ≡ true
      → n ≤ s.cap
      → window s.buf s.cap s.head n ≡ map some vs
      → pop_tiles t n s ≡ (ok tt, clear s.buf s.cap s.head n)
  unfolding pop_tiles
  pop_tiles-ok t n s vs v c l e =
      let start : s.head + 0 ≡ s.head = omega arith in
      pop_loop (pop_view t n s) 0 n s.buf vs (omega arith) v.cap_pos (v.storage c) l (rw start e)
      ∙ ap (λ p. (ok tt, clear s.buf s.cap p n)) start

  pop_refusal-eq-none :
      (n : ℕ) (s : DfbState A) → checked n s ≡ none → n ≤ s.visible → pop_refusal n s ≡ none
  pop_refusal-eq-none n s e l = ground arith

  unfoldable pub popped : ℕ → DfbState A → DfbState A
  popped n s = retire n (record s { buf = clear s.buf s.cap s.head n })

  pop_front-eq :
      (t : ThreadType) (n : ℕ) (s : DfbState A)
      → pop_refusal n s ≡ none
      → pop_tiles t n s ≡ (ok tt, clear s.buf s.cap s.head n)
      → dfb_pop_front (some t) n s ≡ (ok tt, popped n s)
  unfolding dfb_pop_front popped
  pop_front-eq t n s r e = rw (r, e)

  popped-contents :
      (n m : ℕ) (s : DfbState A)
      → IsValid s
      → s.visible ≡ n + m
      → (contents (popped n s) ≡ window s.buf s.cap (s.head + n) m)
        × (staged (popped n s) ≡ staged s)
  unfolding popped
  popped-contents n m s v e = (front, back)
    where
      left : s.visible - n ≡ m
      left = omega arith

      front : contents (popped n s) ≡ window s.buf s.cap (s.head + n) m
      front = rw left (
          window_of_mod (clear s.buf s.cap s.head n) s.cap ((s.head + n) % s.cap) (s.head + n) m
            (mod-mod (s.head + n) s.cap)
          ∙ window-clear s.buf s.cap s.head n (s.head + n) m (omega arith) (omega arith))

      back : staged (popped n s) ≡ staged s
      back =
          window_of_mod (clear s.buf s.cap s.head n) s.cap ((s.head + n) % s.cap + (s.visible - n))
            (s.head + n + (s.visible - n)) s.reserved
            (mod-add-mod (s.head + n) s.cap (s.visible - n))
          ∙ window-clear s.buf s.cap s.head n (s.head + n + (s.visible - n)) s.reserved
              (omega arith) (omega arith)
          ∙ ap (λ p. window s.buf s.cap p s.reserved) (omega arith)

  pub pop_front-popped :
      (t : ThreadType) (n : ℕ) (s : DfbState A) (vs : List A) (rest : List (Option A))
      → IsValid s
      → checked n s ≡ none
      → contents s ≡ map some vs ++ rest
      → length vs ≡ n
      → (dfb_pop_front (some t) n s ≡ (ok tt, popped n s))
        × (contents (popped n s) ≡ rest)
        × (staged (popped n s) ≡ staged s)
  pop_front-popped t n s vs rest v ch e len =
      let m : ℕ = length rest in
      let size : s.visible ≡ n + m =
        sym (length-window s.buf s.cap s.head s.visible)
        ∙ ap length e
        ∙ length-append (map some vs) rest
        ∙ ap (λ k. k + m) (length-map some vs ∙ len) in
      let split : window s.buf s.cap s.head n ++ window s.buf s.cap (s.head + n) m
          ≡ map some vs ++ rest =
        sym (window-add s.buf s.cap s.head n m) ∙ ap (window s.buf s.cap s.head) (sym size) ∙ e in
      let (first, last) =
        append-injective (window s.buf s.cap s.head n) (window s.buf s.cap (s.head + n) m)
          (map some vs) rest (length-window s.buf s.cap s.head n ∙ sym (length-map some vs ∙ len))
          split in
      let c = checked-eq-none n s ch in
      let (front, back) = popped-contents n m s v size in
      (
        pop_front-eq t n s (pop_refusal-eq-none n s ch (omega arith))
            (pop_tiles-ok t n s vs v c.was_configured c.fits first),
        front ∙ last,
        back,
      )

  -- In a valid buffer whose queue begins with `n` tiles, where the checks on `n` pass,
  -- `dfb_pop_front` succeeds, removes exactly these, and leaves the reserved slots as they are.
  pub pop_front-contents :
      (t : ThreadType) (n : ℕ) (s : DfbState A) (vs : List A) (rest : List (Option A))
      → IsValid s
      → checked n s ≡ none
      → contents s ≡ map some vs ++ rest
      → length vs ≡ n
      → (s' : DfbState A) × (dfb_pop_front (some t) n s ≡ (ok tt, s'))
        × (contents s' ≡ rest)
        × (staged s' ≡ staged s)
  pop_front-contents t n s vs rest v ch e len =
      let (done, front, back) = pop_front-popped t n s vs rest v ch e len in
      (popped n s, done, front, back)

  pub push_back-published :
      (n : ℕ) (s : DfbState A)
      → checked n s ≡ none
      → n ≤ s.reserved
      → (dfb_push_back n s ≡ (ok tt, publish n s))
        × (contents (publish n s) ≡ contents s ++ take n (staged s))
        × (staged (publish n s) ≡ drop n (staged s))
  unfolding dfb_push_back
  push_back-published n s ch l =
      let m : ℕ = s.reserved - n in
      let p : ℕ = s.head + s.visible in
      let parts : staged s ≡ window s.buf s.cap p n ++ window s.buf s.cap (p + n) m =
        ap (window s.buf s.cap p) (omega arith) ∙ window-add s.buf s.cap p n m in
      let size = length-window s.buf s.cap p n in
      (
        ground arith,
        window-add s.buf s.cap s.head s.visible n
            ∙ ap (λ r. contents s ++ r)
                (sym (ap (take n) parts ∙ take_first n (window s.buf s.cap p n) _ size)),
        ap (λ q. window s.buf s.cap q m) (omega arith)
            ∙ sym (ap (drop n) parts ∙ drop_first n (window s.buf s.cap p n) _ size),
      )

  -- Where the checks on `n` pass, `dfb_push_back` of at most the reserved slots succeeds, and
  -- moves the first `n` of them, in order, behind the queue.
  pub push_back-contents :
      (n : ℕ) (s : DfbState A)
      → checked n s ≡ none
      → n ≤ s.reserved
      → (s' : DfbState A) × (dfb_push_back n s ≡ (ok tt, s'))
        × (contents s' ≡ contents s ++ take n (staged s))
        × (staged s' ≡ drop n (staged s))
  push_back-contents n s ch l =
      let (done, front, back) = push_back-published n s ch l in (publish n s, done, front, back)
