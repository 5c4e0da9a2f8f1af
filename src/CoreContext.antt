-- ===== src/CoreContext.antt =====
-- python/sim/corecontext.py: which core of the grid runs, and its number and coordinates. The grid
-- and the core's number, which the source reads from the caller's frames, are arguments.
pub mod Ranks
pub mod Grid
mod Tests
use mathlib.Core.List.{reverse}
use tt_lang.Prelude.{
  ℕ, zero, suc, ◌+◌, ◌-◌, ◌*◌, ◌/◌, ◌%◌, List, [], ◌∷◌, ◌++◌, if◌then◌else◌, ltb, ◌==◌, Outcome, ok,
  raise, bind_ok, index_error, value_error, length, take, drop, replicate, product,
}

-- `CoreCoord`: a number, or a tuple of numbers.
pub data CoreCoord : Type 0 where
  index : ℕ → CoreCoord
  tuple : List ℕ → CoreCoord

-- The loops `linear = linear * grid[i] + coords[i]`, on what is left of the grid and of the
-- coordinates: a grid that is too short is an IndexError.
abbrev pub flatten_from : ℕ → List ℕ → List ℕ → Outcome ℕ
flatten_from linear grid [] = ok linear
flatten_from linear [] (c ∷ coords) = raise index_error
flatten_from linear (g ∷ grid) (c ∷ coords) = flatten_from (linear * g + c) grid coords

abbrev pub flatten_coords : List ℕ → List ℕ → Outcome ℕ
flatten_coords grid [] = raise index_error
flatten_coords grid (c ∷ coords) = flatten_from c (drop 1 grid) coords

unfoldable pub flatten_core_index : List ℕ → CoreCoord → Outcome ℕ
flatten_core_index grid (CoreCoord.index n) = ok n
flatten_core_index grid (CoreCoord.tuple coords) = flatten_coords grid coords

-- A list of coordinates as a value: in one dimension the first element, else the tuple.
abbrev pub coord_of : ℕ → List ℕ → CoreCoord
coord_of dims [] = CoreCoord.tuple []
coord_of dims (c ∷ coords) = if dims == 1 then CoreCoord.index c else CoreCoord.tuple (c ∷ coords)

-- The result of `core` and of `grid_size`.
abbrev pub as_coord : ℕ → List ℕ → Outcome CoreCoord
as_coord dims [] = if dims == 1 then raise index_error else ok (CoreCoord.tuple [])
as_coord dims (c ∷ coords) = ok (coord_of dims (c ∷ coords))

-- The sizes that `grid_size` returns, before one size is taken out of its tuple: the last
-- dimensions are multiplied into one, or ones are added.
abbrev pub grid_dims : ℕ → List ℕ → List ℕ
grid_dims dims grid =
    if dims == length grid
    then grid
    else if ltb dims (length grid)
    then take (dims - 1) grid ++ (product (drop (dims - 1) grid) ∷ [])
    else grid ++ replicate (dims - length grid) 1

unfoldable pub grid_size : ℕ → List ℕ → Outcome CoreCoord
grid_size dims grid = if dims == 0 then raise value_error else as_coord dims (grid_dims dims grid)

-- The loop of `core`, over the reversed grid. Each digit goes before the ones found so far, since
-- the list of digits is reversed in the end.
abbrev pub divide : List ℕ → ℕ → List ℕ → List ℕ
divide [] cid coords = coords
divide (s ∷ sizes) cid coords = divide sizes (cid / s) (cid % s ∷ coords)

abbrev pub all_coords : List ℕ → ℕ → List ℕ
all_coords grid cid = divide (reverse grid) cid []

-- `dims < len(coords)`: the first `len(coords) - dims + 1` coordinates become one. At `dims` 0 the
-- loop leaves the list.
abbrev pub flatten_first : ℕ → List ℕ → List ℕ → Outcome (List ℕ)
flatten_first zero grid coords = raise index_error
flatten_first (suc dims) grid coords =
    bind_ok (flatten_coords grid (take (length coords - dims) coords))
      λ flattened. ok (flattened ∷ drop (length coords - dims) coords)

-- The coordinates in `dims` dimensions: the first ones flattened, or zeros added.
abbrev pub core_dims : ℕ → List ℕ → List ℕ → Outcome (List ℕ)
core_dims dims grid coords =
    if ltb dims (length coords)
    then flatten_first dims grid coords
    else ok (coords ++ replicate (dims - length coords) 0)

unfoldable pub core : ℕ → List ℕ → ℕ → Outcome CoreCoord
core dims grid cid = bind_ok (core_dims dims grid (all_coords grid cid)) (as_coord dims)
