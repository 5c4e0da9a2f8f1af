-- ===== src/Math.antt =====
-- python/sim/math.py: the functions on blocks that move whole tiles. What torch does within a tile is
-- a parameter.
pub mod Transpose
pub mod Reduce
pub mod Reduced
mod Tests
use tt_lang.Prelude.{
  ℕ, ◌+◌, ◌*◌, List, [], ◌∷◌, map, rows, get_elem?, Outcome, ok, raise, bind_ok, value_error, Exec,
  ◌>>=◌, min,
}
use tt_lang.Block.Slots.{to_list}
use tt_lang.Block.Store.{Heap, tracked, found, block_at, on_slots}
use tt_lang.Block.Operators.{lift, new_temporary}
use tt_lang.Prelude.{◌++◌}

-- The elements that a loop appends, up to the first that raises.
abbrev pub gather : {A : Type 0} → List (Outcome A) → Outcome (List A)
gather [] = ok []
gather (o ∷ os) = bind_ok o λ a. bind_ok (gather os) λ rest. ok (a ∷ rest)

-- `zip` with an operation.
abbrev pub zip_op : {A : Type 0} → (A → A → A) → List A → List A → List A
zip_op op [] ws = []
zip_op op (v ∷ vs) [] = []
zip_op op (v ∷ vs) (w ∷ ws) = op v w ∷ zip_op op vs ws

-- `M, N = block._shape`
abbrev pub two_dims : List ℕ → Outcome (ℕ × ℕ)
two_dims (m ∷ n ∷ []) = ok (m, n)
two_dims _ = raise value_error

module _ {A : Type 0} where
  -- The tiles of a grid of `m` by `n` in the order of the transposed grid, each turned by `flip`.
  unfoldable pub transpose_tiles : (A → A) → ℕ → ℕ → List A → Outcome (List A)
  transpose_tiles flip m n tiles =
      gather (rows (λ j i. found (get_elem? (map flip tiles) (i * n + j))) n m)

  unfoldable pub transpose : (A → A) → ℕ → Exec (Heap A) ℕ
  unfolding transpose_tiles block_at on_slots to_list new_temporary
  transpose flip r = do
    tiles ← on_slots r to_list
    c ← block_at r
    (m, n) ← lift (two_dims c.block.shape)
    turned ← lift (transpose_tiles flip m n tiles)
    new_temporary turned (n ∷ m ∷ []) (tracked r c.block)

  -- `_apply_binary_op`; the shape of the result is that of the first block.
  unfoldable pub apply_to_tiles : (A → A → A) → ℕ → ℕ → Exec (Heap A) ℕ
  unfolding block_at on_slots to_list new_temporary
  apply_to_tiles op r r' = do
    vs ← on_slots r to_list
    ws ← on_slots r' to_list
    c ← block_at r
    c' ← block_at r'
    new_temporary (zip_op op vs ws) c.block.shape (tracked r c.block ++ tracked r' c'.block)
