-- ===== src/CoreContext/Tests.antt =====
-- The theorems on coordinates at concrete grids.
use tt_lang.Prelude.{◌≡◌, refl, [], ◌∷◌, ok, bind_ok, arith}
use tt_lang.CoreContext.{CoreCoord, core, grid_size, flatten_core_index}
use tt_lang.CoreContext.Ranks.{core_round_trip}

core_round_trip_example :
    (core 1 (8 ∷ 8 ∷ []) 19 ≡ ok (CoreCoord.index 19))
    × (bind_ok (core 2 (8 ∷ 8 ∷ []) 19) (flatten_core_index (8 ∷ 8 ∷ [])) ≡ ok 19)
core_round_trip_example = core_round_trip 8 (8 ∷ []) 19 (omega arith)

-- On a grid of three dimensions, `core` merges the first two, `grid_size` the last two, and
-- `flatten_core_index` takes the sizes of the grid as it is.
merged_apart : grid_size 2 (2 ∷ 3 ∷ 4 ∷ []) ≡ ok (CoreCoord.tuple (2 ∷ 12 ∷ []))
unfolding grid_size
merged_apart = refl

flattened_apart : flatten_core_index (2 ∷ 3 ∷ 4 ∷ []) (CoreCoord.tuple (5 ∷ 3 ∷ [])) ≡ ok 18
unfolding flatten_core_index
flattened_apart = refl
