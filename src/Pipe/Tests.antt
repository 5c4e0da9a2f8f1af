-- ===== src/Pipe/Tests.antt =====
-- The theorem on destination ranges at a concrete grid and range.
use tt_lang.Prelude.{pos, negsuc, false, ◌≡◌, refl, List, [], ◌∷◌, none, some, ok}
use tt_lang.CoreContext.{CoreCoord, core, grid_size}
use tt_lang.Pipe.{Item, Dst, Target, expand_core_range, core_in_dst_range}
use tt_lang.Pipe.Members.{elem_coord, core_in_dst_range-expand}

-- `(slice(None), slice(1, 4, 2))` on a grid of two rows of four cores.
abbrev columns : List Item
columns = Item.slice none none none ∷ Item.slice (some (pos 1)) (some (pos 4)) (some (pos 2)) ∷ []

core_in_dst_range-expand_example :
    (all : List Target) × (expand_core_range (2 ∷ 4 ∷ []) columns ≡ ok all)
    × (core_in_dst_range (2 ∷ 4 ∷ []) 7 (Dst.items columns)
        ≡ ok (elem_coord (CoreCoord.tuple (1 ∷ 3 ∷ [])) all))
unfolding core
core_in_dst_range-expand_example =
    core_in_dst_range-expand (2 ∷ 4 ∷ []) 7 columns (CoreCoord.tuple (1 ∷ 3 ∷ [])) refl refl refl

columns_of_grid :
    expand_core_range (2 ∷ 4 ∷ []) columns
    ≡ ok (
        Target.numbers (pos 0 ∷ pos 1 ∷ [])
        ∷ Target.numbers (pos 0 ∷ pos 3 ∷ [])
        ∷ Target.numbers (pos 1 ∷ pos 1 ∷ [])
        ∷ Target.numbers (pos 1 ∷ pos 3 ∷ [])
        ∷ [])
unfolding expand_core_range grid_size
columns_of_grid = refl

-- `(slice(3, 0, -1),)` on four cores: the two functions disagree on it, also for core 2.
abbrev backward : List Item
backward = Item.slice (some (pos 3)) (some (pos 0)) (some (negsuc 0)) ∷ []

backward_of_grid :
    expand_core_range (4 ∷ []) backward
    ≡ ok (Target.number (pos 3) ∷ Target.number (pos 2) ∷ Target.number (pos 1) ∷ [])
unfolding expand_core_range grid_size
backward_of_grid = refl

not_backward : core_in_dst_range (4 ∷ []) 2 (Dst.items backward) ≡ ok false
unfolding core_in_dst_range core grid_size
not_backward = refl

-- A start below 0 stands for itself.
below :
    expand_core_range (4 ∷ []) (Item.slice (some (negsuc 0)) (some (pos 2)) (some (pos 2)) ∷ [])
    ≡ ok (Target.number (negsuc 0) ∷ Target.number (pos 1) ∷ [])
unfolding expand_core_range grid_size
below = refl
