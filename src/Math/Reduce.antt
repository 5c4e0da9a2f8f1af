-- ===== src/Math/Reduce.antt =====
-- python/sim/math.py: `broadcast`, `reduce_max` and `reduce_sum`. What torch does within a tile, and
-- how it combines two tiles, are parameters. The numbers in `dims` are not negative.
use tt_lang.Prelude.{
  ℕ, ◌+◌, ◌*◌, List, [], ◌∷◌, ◌++◌, map, rows, count_up, concat_map, get_elem?, has, Option, none,
  some, Bool, not, ◌&&◌, ◌||◌, if◌then◌else◌, ◌==◌, ltb, Outcome, ok, raise, bind_ok, value_error,
  Exec, ◌>>=◌, ◌>>◌,
}
use tt_lang.Block.Slots.{to_list}
use tt_lang.Block.Store.{Heap, tracked, is_waited_compute, found, block_at, on_slots}
use tt_lang.Block.Operators.{lift, new_temporary}
use tt_lang.Math.{gather, two_dims}

-- The loop over `dims` of `broadcast`: each dimension must have size 1.
abbrev pub check_ones : List ℕ → List ℕ → Outcome (Unit {0})
check_ones [] shape = ok tt
check_ones (dim ∷ dims) shape = elim (get_elem? shape dim) [
  | none ↦ raise value_error
  | some size ↦ let rest = check_ones dims shape in if size == 1 then rest else raise value_error
]

-- The loop over `dims` of the reductions.
abbrev pub check_dims : List ℕ → Outcome (Unit {0})
check_dims [] = ok tt
check_dims (dim ∷ dims) =
    let rest = check_dims dims in if ltb dim 2 then rest else raise value_error

-- `dims is None or not dims`
abbrev pub given_dims : Option (List ℕ) → Outcome (List ℕ)
given_dims none = raise value_error
given_dims (some []) = raise value_error
given_dims (some (dim ∷ dims)) = ok (dim ∷ dims)

abbrev pub required : Option (List ℕ) → Outcome (List ℕ)
required none = raise value_error
required (some dims) = ok dims

module _ {A : Type 0} where
  -- The first tile, and the others combined with it in order.
  abbrev pub fold_from : (A → A → A) → A → List A → A
  fold_from combine acc [] = acc
  fold_from combine acc (t ∷ ts) = fold_from combine (combine acc t) ts

  abbrev pub fold_tiles : (A → A → A) → List A → Outcome A
  fold_tiles combine [] = found none
  fold_tiles combine (t ∷ ts) = ok (fold_from combine t ts)

  -- The tiles that one tile of the result is made of: those of its column, of its row or all.
  unfoldable pub tiles_for : Bool → Bool → ℕ → ℕ → List A → ℕ → ℕ → Outcome (List A)
  tiles_for in0 in1 m n reduced_tiles res_i res_j = gather (
      concat_map
        (λ i.
          concat_map
            (λ j.
              if (in0 || i == res_i) && (in1 || j == res_j)
              then found (get_elem? reduced_tiles (i * n + j)) ∷ []
              else [])
            (count_up 0 n))
        (count_up 0 m))

  -- Step 2, the reduction of the grid.
  unfoldable pub reduce_grid :
      (A → A → A) → (A → A → A) → A → Bool → Bool → ℕ → ℕ → List A → Outcome (List A)
  unfolding tiles_for
  reduce_grid combine times scaler_tile in0 in1 m n reduced_tiles = gather (
      rows
        (λ res_i res_j.
          bind_ok (tiles_for in0 in1 m n reduced_tiles res_i res_j)
            λ ts. bind_ok (fold_tiles combine ts) λ t. ok (times t scaler_tile))
        (if in0 then 1 else m) (if in1 then 1 else n))

  -- `reduce_max` with `torch.maximum` for `combine`, `reduce_sum` with `+`. Step 1 is `inner`, by
  -- whether 0 and 1 are in `dims`.
  unfoldable pub reduce :
      (Bool → Bool → A → A) → (A → A → A) → (A → A → A) → Option (List ℕ) → ℕ → ℕ → Exec (Heap A) ℕ
  unfolding reduce_grid block_at on_slots to_list new_temporary
  reduce inner combine times dims r scaler = do
    ds ← lift (given_dims dims)
    c ← block_at r
    (m, n) ← lift (two_dims c.block.shape)
    tiles ← on_slots r to_list
    scalers ← on_slots scaler to_list
    scaler_tile ← lift (found (get_elem? scalers 0))
    lift (check_dims ds)
    result ← lift (
        reduce_grid combine times scaler_tile (has 0 ds) (has 1 ds) m n
          (map (inner (has 0 ds) (has 1 ds)) tiles))
    s ← block_at scaler
    new_temporary result ((if has 0 ds then 1 else m) ∷ (if has 1 ds then 1 else n) ∷ [])
        (tracked r c.block ++ tracked scaler s.block)

  -- `broadcast`; `spread` is what torch does to a tile for the given dimensions. The sources of the
  -- block are kept, and a waited block of a compute thread is one itself.
  unfoldable pub broadcast : (List ℕ → A → A) → Option (List ℕ) → ℕ → Exec (Heap A) ℕ
  unfolding block_at on_slots to_list new_temporary
  broadcast spread dims r = do
    ds ← lift (required dims)
    c ← block_at r
    lift (check_ones ds c.block.shape)
    tiles ← on_slots r to_list
    new_temporary (map (spread ds) tiles) c.block.shape (
        c.block.source_blocks
        ++ (if not c.block.is_temporary && is_waited_compute c.block then r ∷ [] else []))
