-- ===== src/Copy/Handlers.antt =====
-- python/sim/copyhandlers.py: the handlers between tensors and blocks.
use tt_lang.Prelude.{
  pos, ℕ, zero, suc, ◌+◌, ◌/◌, ◌%◌, List, [], ◌∷◌, length, product, Option, none, some, Bool, true,
  false, if◌then◌else◌, ◌==◌, Error, value_error, index_error, Outcome, ok, raise, bind_ok,
  ◌then_check◌, unless, Exec, throw,
}
use tt_lang.Block.{Block}
use tt_lang.Block.Slots.{Slots, for_range, get_item, copy_as_dest}
use tt_lang.Tensor.{Torch, tile_size, Key, slice, tensor_get, tensor_set}

abbrev pub zip_with : (ℕ → ℕ → ℕ) → List ℕ → List ℕ → List ℕ
zip_with f [] ys = []
zip_with f (x ∷ xs) [] = []
zip_with f (x ∷ xs) (y ∷ ys) = f x y ∷ zip_with f xs ys

abbrev pub tile_count : List ℕ → List ℕ → Outcome ℕ
tile_count tensor_shape tile_shape =
    if length tensor_shape == length tile_shape
    then ok (product (zip_with (λ d t. d / t) tensor_shape tile_shape))
    else raise value_error

abbrev pub tensor_shape_in_tiles_with_skip : List ℕ → List ℕ → Outcome (List ℕ)
tensor_shape_in_tiles_with_skip tensor_shape tile_shape =
    if length tensor_shape == length tile_shape
    then ok (zip_with (λ d t. if d == 1 then 1 else d / t) tensor_shape tile_shape)
    else raise value_error

abbrev pub tile_shape : List ℕ
tile_shape = tile_size ∷ tile_size ∷ []

-- Tuples of numbers, compared.
abbrev pub same_shape : List ℕ → List ℕ → Bool
same_shape [] [] = true
same_shape [] (y ∷ ys) = false
same_shape (x ∷ xs) [] = false
same_shape (x ∷ xs) (y ∷ ys) = if x == y then same_shape xs ys else false

abbrev pub fits : Outcome (List ℕ) → List ℕ → Option Error
fits (ok shape) block_shape = unless (same_shape shape block_shape) value_error
fits (raise e) block_shape = some e

-- `validate` of both handlers between a tensor and a block.
abbrev pub validate_shapes : List ℕ → List ℕ → Option Error
validate_shapes tensor_shape block_shape =
    (unless (length tensor_shape == 2) value_error)
    then_check (fits (tensor_shape_in_tiles_with_skip tensor_shape tile_shape) block_shape)

-- The key `[i : i + 1]`.
abbrev pub one_tile : ℕ → Key
one_tile i = slice (some (pos i)) (some (pos (i + 1))) none

-- `shape[1]`
abbrev pub width_of : List ℕ → Outcome ℕ
width_of (h ∷ w ∷ ds) = ok w
width_of _ = raise index_error

-- The ends of a copy; `P` is the type of pipes.
pub data Endpoint (T P : Type 0) : Type 0 where
  tensor : T → Endpoint T P
  block : Block → Slots T → Endpoint T P
  pipe : P → Endpoint T P

-- CopyTransferHandler
pub record Handler (T P : Type 0) : Type 0 where
  pub validate : Endpoint T P → Endpoint T P → Option Error
  pub transfer : Exec (Endpoint T P × Endpoint T P) (Unit {0})
  pub can_wait : Endpoint T P → Endpoint T P → Bool

module _ {T : Type 0} (torch : Torch T) where
  unfoldable pub tile_at : T → ℕ → ℕ → Outcome T
  unfolding tensor_get
  tile_at t width i = tensor_get torch t (one_tile (i / width)) (one_tile (i % width))

  -- The tiles of a tensor, from number `first` on.
  unfoldable pub tiles_from : T → ℕ → ℕ → ℕ → Outcome (List T)
  unfolding tile_at
  tiles_from t width first zero = ok []
  tiles_from t width first (suc count) =
      bind_ok (tile_at t width first)
        λ tile. bind_ok (tiles_from t width (suc first) count) λ tiles. ok (tile ∷ tiles)

  -- The tiles that `TensorToBlockHandler.transfer` reads.
  unfoldable pub read_tiles : T → Outcome (List T)
  unfolding tiles_from
  read_tiles t =
      bind_ok (tensor_shape_in_tiles_with_skip (torch.shape t) tile_shape)
        λ shape. bind_ok (width_of shape) λ width. tiles_from t width 0 (product shape)

  abbrev pub store_tiles : Block → Outcome (List T) → Exec (Slots T) (Unit {0})
  store_tiles b (ok tiles) = copy_as_dest b tiles
  store_tiles b (raise e) = throw e

  -- `TensorToBlockHandler.transfer`
  unfoldable pub tensor_to_block : T → Block → Exec (Slots T) (Unit {0})
  unfolding read_tiles
  tensor_to_block t b = store_tiles b (read_tiles t)

  -- An assignment to a tensor: the changed tensor, or the old one and the exception.
  abbrev pub assigned : Outcome T → Exec T (Unit {0})
  assigned (ok t') t = (ok tt, t')
  assigned (raise e) t = (raise e, t)

  -- A round of the loop of `BlockToTensorHandler.transfer`.
  unfoldable pub place_tile : Block → Slots T → ℕ → ℕ → Exec T (Unit {0})
  unfolding get_item tensor_set
  place_tile b buf width i t =
      assigned
        (bind_ok (get_item b i buf).0
          λ tile. tensor_set torch t (one_tile (i / width)) (one_tile (i % width)) tile)
        t

  abbrev place_all : Block → Slots T → Outcome ℕ → ℕ → Exec T (Unit {0})
  unfolding place_tile
  place_all b buf (ok width) count = for_range (place_tile b buf width) 0 count
  place_all b buf (raise e) count = throw e

  abbrev pub place_in : Block → Slots T → Outcome (List ℕ) → Exec T (Unit {0})
  unfolding place_all
  place_in b buf (ok shape) = place_all b buf (width_of shape) (product shape)
  place_in b buf (raise e) = throw e

  -- `BlockToTensorHandler.transfer`
  unfoldable pub block_to_tensor : Block → Slots T → Exec T (Unit {0})
  unfolding place_in
  block_to_tensor b buf t =
      place_in b buf (tensor_shape_in_tiles_with_skip (torch.shape t) tile_shape) t

module _ {T P : Type 0} (torch : Torch T) where
  -- The handlers are looked up by the types of the ends, so that other ends do not reach them.
  abbrev pub validate_ends : Endpoint T P → Endpoint T P → Option Error
  validate_ends (tensor t) (block b buf) = validate_shapes (torch.shape t) b.shape
  validate_ends (block b buf) (tensor t) = validate_shapes (torch.shape t) b.shape
  validate_ends src dst = some value_error

  abbrev into_block :
      T → Block → Outcome (Unit {0}) × Slots T → Outcome (Unit {0}) × (Endpoint T P × Endpoint T P)
  into_block t b (r, buf) = (r, (tensor t, block b buf))

  abbrev into_tensor :
      Block → Slots T → Outcome (Unit {0}) × T → Outcome (Unit {0}) × (Endpoint T P × Endpoint T P)
  into_tensor b buf (r, t) = (r, (block b buf, tensor t))

  unfoldable pub transfer_ends : Exec (Endpoint T P × Endpoint T P) (Unit {0})
  unfolding tensor_to_block block_to_tensor
  transfer_ends (tensor t, block b buf) = into_block t b (tensor_to_block torch t b buf)
  transfer_ends (block b buf, tensor t) = into_tensor b buf (block_to_tensor torch b buf t)
  transfer_ends ends = (raise value_error, ends)

  -- Between a tensor and a block a copy never waits.
  unfoldable pub tensor_handler : Handler T P
  unfolding transfer_ends
  tensor_handler = record {
    validate = validate_ends;
    transfer = transfer_ends;
    can_wait = λ src dst. true;
  }
