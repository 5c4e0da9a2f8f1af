-- ===== src/Block/Operators.antt =====
-- python/sim/dfb.py: the element-wise operators of class Block, `track_source_blocks` and `matmul`.
-- `broadcast` is `broadcast_tensors` of python/sim/ttnnsim.py, which calls torch.
use tt_lang.Prelude.{
  ℕ, zero, suc, ◌+◌, ◌*◌, List, [], ◌∷◌, ◌++◌, length, get_elem?, Option, none, some, ◌&&◌,
  if◌then◌else◌, ◌==◌, value_error, assertion_error, Outcome, ok, raise, bind_ok, Exec, ◌>>=◌, pure,
}
use tt_lang.Block.{from_list}
use tt_lang.Block.Slots.{Slots, get_item, to_list}
use tt_lang.Block.Store.{Heap, broadcast_dims, same_dims, tracked, found, block_at, on_slots}

module _ {A : Type 0} where
  -- An outcome that touches nothing.
  abbrev pub lift : {B : Type 0} → Outcome B → Exec (Heap A) B
  lift o h = (o, h)

  -- A new temporary block, with its own list of tensors.
  unfoldable pub new_temporary : List A → List ℕ → List ℕ → Exec (Heap A) ℕ
  unfolding from_list
  new_temporary tensors shape sources h = (
    ok (length h.cells),
    record h {
      cells =
          h.cells
          ++ (record {
            block = record (from_list (length tensors) shape) { source_blocks = sources };
            ring = length h.rings;
          }
              ∷ []);
      rings = h.rings ++ (map_some tensors ∷ []);
    },
  )
    where
      map_some : List A → Slots A
      map_some [] = []
      map_some (v ∷ vs) = some v ∷ map_some vs

  module _ (broadcast : List A → List A → List ℕ → List ℕ → (A → A → A) → Outcome (List A)) where
    -- `[op(left.get_item(i), right.get_item(i)) for i in range(len_left)]`, from index `i` on.
    unfoldable pub pointwise : (A → A → A) → ℕ → ℕ → ℕ → ℕ → Exec (Heap A) (List A)
    unfolding on_slots get_item
    pointwise op left right i zero = pure []
    pointwise op left right i (suc n) = do
      v ← on_slots left (λ b. get_item b i)
      w ← on_slots right (λ b. get_item b i)
      rest ← pointwise op left right (suc i) n
      pure (op v w ∷ rest)

    -- `_apply_binary_op`. The shapes that broadcast are those that `_infer_broadcast_shape` takes.
    unfoldable pub apply_binary_op : (A → A → A) → ℕ → ℕ → Exec (Heap A) (List A)
    unfolding pointwise block_at on_slots to_list
    apply_binary_op op left right = do
      l ← block_at left
      r ← block_at right
      if same_dims l.block.shape r.block.shape && (l.block.span.len == r.block.span.len)
          then pointwise op left right 0 l.block.span.len
          else (lift (broadcast_dims l.block.shape r.block.shape) >>= λ shape.
              on_slots left to_list >>= λ vs. on_slots right to_list >>= λ ws.
              lift (broadcast vs ws l.block.shape r.block.shape op))

    -- `_binary_op`; the result is the reference of the new block.
    unfoldable pub binary_op : (A → A → A) → ℕ → ℕ → Exec (Heap A) ℕ
    unfolding apply_binary_op block_at new_temporary
    binary_op op left right = do
      vs ← apply_binary_op op left right
      l ← block_at left
      r ← block_at right
      shape ← lift (broadcast_dims l.block.shape r.block.shape)
      new_temporary vs shape (tracked left l.block ++ tracked right r.block)

  -- `__pow__` with a number: `power` raises a tensor to it.
  unfoldable pub power_of : (A → A) → ℕ → Exec (Heap A) ℕ
  unfolding block_at on_slots to_list new_temporary
  power_of power r = do
    vs ← on_slots r to_list
    c ← block_at r
    new_temporary (mapped vs) c.block.shape (tracked r c.block)
    where
      mapped : List A → List A
      mapped [] = []
      mapped (v ∷ vs) = power v ∷ mapped vs

  module _ (times plus : A → A → A) where
    abbrev pub plus_partial : Option A → A → A
    plus_partial none v = v
    plus_partial (some acc) v = plus acc v

    -- The loop over `k`, from `k` on, with what it has added up.
    abbrev pub dot : List A → List A → ℕ → ℕ → ℕ → ℕ → ℕ → ℕ → Option A → Outcome (Option A)
    dot as' bs inner width i j k zero acc = ok acc
    dot as' bs inner width i j k (suc n) acc = bind_ok (found (get_elem? as' (i * inner + k))) λ a.
        bind_ok (found (get_elem? bs (k * width + j)))
          λ b. dot as' bs inner width i j (suc k) n (some (plus_partial acc (times a b)))

    abbrev pub asserted : Option A → Outcome A
    asserted none = raise assertion_error
    asserted (some v) = ok v

    -- The tiles of row `i`, from column `j` on.
    abbrev pub matmul_row : List A → List A → ℕ → ℕ → ℕ → ℕ → ℕ → Outcome (List A)
    matmul_row as' bs inner width i j zero = ok []
    matmul_row as' bs inner width i j (suc n) =
        bind_ok (dot as' bs inner width i j 0 inner none) λ acc.
          bind_ok (asserted acc)
            λ v. bind_ok (matmul_row as' bs inner width i (suc j) n) λ rest. ok (v ∷ rest)

    -- The tiles of `n` rows, from row `i` on.
    abbrev pub matmul_rows : List A → List A → ℕ → ℕ → ℕ → ℕ → Outcome (List A)
    matmul_rows as' bs inner width i zero = ok []
    matmul_rows as' bs inner width i (suc n) =
        bind_ok (matmul_row as' bs inner width i 0 width)
          λ row. bind_ok (matmul_rows as' bs inner width (suc i) n) λ rest. ok (row ++ rest)

    -- `M, K` and `N` of two shapes that can be multiplied.
    abbrev pub matmul_dims : List ℕ → List ℕ → Outcome (ℕ × ℕ × ℕ)
    matmul_dims (m ∷ k ∷ []) (k' ∷ n ∷ []) = if k == k' then ok (m, k, n) else raise value_error
    matmul_dims _ _ = raise value_error

    unfoldable pub matmul : ℕ → ℕ → Exec (Heap A) ℕ
    unfolding block_at on_slots to_list new_temporary
    matmul a b = do
      ca ← block_at a
      cb ← block_at b
      (m, k, n) ← lift (matmul_dims ca.block.shape cb.block.shape)
      as' ← on_slots a to_list
      bs ← on_slots b to_list
      tiles ← lift (matmul_rows as' bs k n 0 m)
      new_temporary tiles (m ∷ n ∷ []) (tracked a ca.block ++ tracked b cb.block)
