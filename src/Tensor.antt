-- ===== src/Tensor.antt =====
-- python/sim/tensoraccessor.py and python/sim/ttnnsim.py (class Tensor): reading and writing a tensor
-- by tiles.
--
-- The tensors of torch are not part of the simulator: `Torch` is what it uses of them. Indices are
-- ints; a tensor that is assigned to is always a Tensor.
pub mod Bounds
pub mod Sample
mod Tests
use tt_lang.Prelude.{
  ℤ, pos, raise_by, times, int_lt, int_le, ℕ, ◌/◌, ◌%◌, List, [], ◌∷◌, Option, none, some, Bool,
  true, false, not, ◌&&◌, ◌||◌, if◌then◌else◌, ◌==◌, Error, value_error, Outcome, ok, raise,
  bind_ok, ◌then_check◌, unless,
}

-- Tensors of torch: `shape`, `t[a:b, c:d]`, `t[i, j]` and the two assignments; all but the first two
-- may raise.
pub record Torch (T : Type 0) : Type 0 where
  pub shape : T → List ℕ
  pub read : T → ℤ × ℤ → ℤ × ℤ → T
  pub item : T → ℤ → ℤ → Outcome T
  pub write : T → ℤ × ℤ → ℤ × ℤ → T → Outcome T
  pub write_item : T → ℤ → ℤ → T → Outcome T

-- constants.py, `TILE_SHAPE`
abbrev pub tile_size : ℕ
tile_size = 32

-- A key of one dimension: a number, or a slice with its start, stop and step.
pub data Key : Type 0 where
  at : ℤ → Key
  slice : Option ℤ → Option ℤ → Option ℤ → Key

abbrev pub is_none {ℓ} : {A : Type ℓ} → Option A → Bool
is_none none = true
is_none (some a) = false

-- `_normalize_index`
abbrev pub normalize_index : Key → Key
normalize_index (at i) = slice (some i) (some (raise_by i 1)) none
normalize_index (slice start stop step) = slice start stop step

-- `_validate_slice_format`; on success the ends of the slice.
abbrev pub validate_slice_format : Key → Outcome (ℤ × ℤ)
validate_slice_format (at i) = raise value_error
validate_slice_format (slice none stop step) = raise value_error
validate_slice_format (slice (some a) none step) = raise value_error
validate_slice_format (slice (some a) (some b) (some s)) = raise value_error
validate_slice_format (slice (some a) (some b) none) = ok (a, b)

-- A dimension that tiles cover: of size 1, or a multiple of the tile's.
abbrev pub is_aligned : ℕ → Bool
is_aligned dim = (dim == 1) || (dim % tile_size == 0)

abbrev pub in_elements : ℤ × ℤ → ℤ × ℤ
in_elements ends = (times ends.0 tile_size, times ends.1 tile_size)

-- `_is_tile_indexable`
abbrev pub is_tile_indexable : List ℕ → Bool
is_tile_indexable (rows ∷ cols ∷ []) = is_aligned rows && is_aligned cols
is_tile_indexable _ = false

-- `TensorAccessor.__init__`, and `_ensure_accessor`, which checks the same before.
abbrev pub ensure_accessor : List ℕ → Option Error
ensure_accessor (rows ∷ cols ∷ []) =
    (unless (is_aligned rows) value_error) then_check (unless (is_aligned cols) value_error)
ensure_accessor _ = some value_error

-- What a check lets through.
abbrev pub checked_by {ℓ} : {A : Type ℓ} → Option Error → Outcome A → Outcome A
checked_by none r = r
checked_by (some e) r = raise e

abbrev pub tiles_along : ℕ → ℕ
tiles_along dim = if dim == 1 then 1 else dim / tile_size

-- `get_tile_shape`
abbrev pub get_tile_shape : ℕ × ℕ → ℕ × ℕ
get_tile_shape (rows, cols) = (tiles_along rows, tiles_along cols)

-- The bounds of one dimension.
abbrev pub within : ℤ × ℤ → ℕ → Bool
within ends count =
    not (int_lt ends.0 (pos 0) || (int_lt (pos count) ends.1 || int_le ends.1 ends.0))

abbrev pub both_within : Outcome (ℤ × ℤ) → Outcome (ℤ × ℤ) → ℕ × ℕ → Bool
both_within (ok r) (ok c) tiles = within r tiles.0 && within c tiles.1
both_within _ _ tiles = false

-- `validate_tile_coordinates`
unfoldable pub validate_tile_coordinates : ℕ × ℕ → Key → Key → Bool
validate_tile_coordinates shape row col =
    both_within (validate_slice_format row) (validate_slice_format col) (get_tile_shape shape)

module _ {T : Type 0} (torch : Torch T) where
  -- `TensorAccessor.__getitem__` and `get_tiles`
  unfoldable pub get_tiles : T → Key → Key → Outcome T
  get_tiles t row col = bind_ok (validate_slice_format (normalize_index row)) λ r.
      bind_ok (validate_slice_format (normalize_index col))
        λ c. ok (torch.read t (in_elements r) (in_elements c))

  -- `TensorAccessor.__setitem__` and `set_tiles`; the result is the tensor.
  unfoldable pub set_tiles : T → Key → Key → T → Outcome T
  set_tiles t row col value = bind_ok (validate_slice_format (normalize_index row)) λ r.
      bind_ok (validate_slice_format (normalize_index col))
        λ c. torch.write t (in_elements r) (in_elements c) value

  -- `Tensor.__getitem__`, with two keys
  unfoldable pub tensor_get : T → Key → Key → Outcome T
  unfolding get_tiles
  tensor_get t (at i) (at j) =
      if is_tile_indexable (torch.shape t) then get_tiles t (at i) (at j) else torch.item t i j
  tensor_get t row col = checked_by (ensure_accessor (torch.shape t)) (get_tiles t row col)

  -- `Tensor.__setitem__`, with two keys
  unfoldable pub tensor_set : T → Key → Key → T → Outcome T
  unfolding set_tiles
  tensor_set t (at i) (at j) value =
      if is_tile_indexable (torch.shape t)
      then set_tiles t (at i) (at j) value
      else torch.write_item t i j value
  tensor_set t row col value =
      checked_by (ensure_accessor (torch.shape t)) (set_tiles t row col value)
