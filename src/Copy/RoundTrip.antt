-- ===== src/Copy/RoundTrip.antt =====
-- A block that is sent to a pipe and received from it.
use tt_lang.Prelude.{
  ℕ, zero, suc, ◌+◌, ◌%◌, ◌≤◌, ◌≡◌, refl, ap, sym, ◌∙◌, List, [], ◌∷◌, ◌++◌, map, length, some,
  true, false, ok, ◌>>=◌, pure, >>=-ok, get_elem?, arith, length-map,
}
use tt_lang.Block.{Block, check_can_read}
use tt_lang.Block.Slots.{Slots, slot, get_item, items_from, to_list}
use tt_lang.Block.SlotLaws.{get_item-ok}
use tt_lang.Block.Windows.{copy_as_dest-window}
use tt_lang.DfbState.Window.{slot_at, window, length-window}
use tt_lang.PipeQueue.{PipeEntry, send, receive}
use tt_lang.PipeQueue.Order.{pending, send-pending, receive-pending}
use tt_lang.Copy.Pipes.{
  PipeEnd, read_and_send, send_items, copied, received, num_receivers, get_or_create_pipe_entry,
  with_entry, block_to_pipe, pipe_to_block,
}

module _ {T : Type 0} (b : Block) (buf : Slots T) where
  slot_at-some : (k : ℕ) (v : T) → slot_at buf k ≡ some v → get_elem? buf k ≡ some (some v)
  slot_at-some k v e = ground arith

  -- The tensors in the window of a readable block are what it lists.
  items_from-window :
      (vs : List T) (i n : ℕ)
      → b.is_temporary ≡ false
      → check_can_read b ≡ true
      → i + n ≤ b.span.len
      → window buf b.capacity (b.span.start + i) n ≡ map some vs
      → items_from b i n buf ≡ (ok vs, buf)
  unfolding items_from
  items_from-window [] i zero t r h e = refl
  items_from-window [] i (suc n) t r h e = absurd (cc)
  items_from-window (v ∷ vs) i zero t r h e = absurd (cc)
  items_from-window (v ∷ vs) i (suc n) t r h e =
      let first : slot_at buf ((b.span.start + i) % b.capacity) ≡ some v = cc in
      let others : window buf b.capacity (suc (b.span.start + i)) n ≡ map some vs = cc in
      let next : suc (b.span.start + i) ≡ b.span.start + suc i = omega arith in
      let at_slot : slot b i ≡ (b.span.start + i) % b.capacity = rw t refl in
      let got : get_item b i buf ≡ (ok v, buf) =
        get_item-ok b i (omega arith) buf v r
          (ap (get_elem? buf) at_slot ∙ slot_at-some ((b.span.start + i) % b.capacity) v first) in
      let rest : items_from b (suc i) n buf ≡ (ok vs, buf) =
        items_from-window vs (suc i) n t r (omega arith)
          (ap (λ k. window buf b.capacity k n) (sym next) ∙ others) in
      >>=-ok (get_item b i) (λ w. items_from b (suc i) n >>= λ ws. pure (w ∷ ws)) buf got
      ∙ >>=-ok (items_from b (suc i) n) (λ ws. pure (v ∷ ws)) buf rest

  pub to_list-window :
      (vs : List T)
      → b.is_temporary ≡ false
      → check_can_read b ≡ true
      → window buf b.capacity b.span.start b.span.len ≡ map some vs
      → to_list b buf ≡ (ok vs, buf)
  unfolding to_list
  to_list-window vs t r e =
      items_from-window vs 0 b.span.len t r (omega arith)
        (ap (λ k. window buf b.capacity k b.span.len) (omega arith) ∙ e)

-- A readable block of a ring that holds `vs` is sent to a pipe whose destination stands for `n` cores.
-- A core that had nothing left to receive from the pipe receives it into any block of the same length
-- of another ring: both transfers succeed, that block then holds `vs`, and the core has nothing left to
-- receive.
pub pipe_to_block-block_to_pipe :
    {T : Type 0} (grid : List ℕ) (cid n : ℕ) (p : PipeEnd T) (b b' : Block) (buf buf' : Slots T)
    (vs : List T)
    → b.is_temporary ≡ false
    → check_can_read b ≡ true
    → window buf b.capacity b.span.start b.span.len ≡ map some vs
    → num_receivers grid p.pipe.dst_core_range ≡ ok n
    → pending cid (get_or_create_pipe_entry p.entry).queue ≡ []
    → length buf' ≡ b'.capacity
    → b'.span.len ≤ b'.capacity
    → b'.span.len ≡ b.span.len
    → (p' : PipeEnd T) × (p'' : PipeEnd T) × (buf'' : Slots T) × (block_to_pipe grid
          (some cid)
          b
          buf
          p
        ≡ (ok tt, p'))
      × (pipe_to_block grid (some cid) p' b' buf' ≡ (ok tt, p'', buf''))
      × (window buf'' b'.capacity b'.span.start b'.span.len ≡ map some vs)
      × (pending cid (get_or_create_pipe_entry p''.entry).queue ≡ [])
unfolding block_to_pipe pipe_to_block send
pipe_to_block-block_to_pipe {T} grid cid n p b b' buf buf' vs t r e m none_left size fits same =
    let entry : PipeEntry T = get_or_create_pipe_entry p.entry in
    let entry' : PipeEntry T = (send n vs entry).1 in
    let len : length vs ≡ b'.span.len =
      sym (length-map some vs)
      ∙ ap length (sym e)
      ∙ length-window buf b.capacity b.span.start b.span.len
      ∙ sym same in
    let (entry'', got, left) =
      receive-pending cid entry' vs [] refl
        (send-pending cid n vs entry ∙ ap (λ q. q ++ (vs ∷ [])) none_left) in
    let (buf'', copied_ok, here, size') = copy_as_dest-window b' vs buf' size len fits in
    (
      with_entry p entry',
      with_entry p entry'',
      buf'',
      ap (λ r. read_and_send grid (some cid) p r.0) (to_list-window b buf vs t r e)
          ∙ ap (λ o. send_items grid (some cid) p o vs) m,
      ap
            (λ k.
              copied grid (some cid) (with_entry p entry') b' buf' entry'
                (receive (some cid) k entry'))
            (sym len)
          ∙ ap (copied grid (some cid) (with_entry p entry') b' buf' entry') got
          ∙ ap (received grid (some cid) (with_entry p entry') entry' entry'') copied_ok,
      here,
      left,
    )
