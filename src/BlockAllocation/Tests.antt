-- ===== src/BlockAllocation/Tests.antt =====
-- The theorems on the division of work at concrete grids.
use tt_lang.Prelude.{
  ◌≡◌, refl, List, [], ◌∷◌, some, true, ok, none, raise, unbound_local_error, arith,
}
use tt_lang.BlockAllocation.{Range, num_cores_to_grid_ranges, split_work_to_cores}
use tt_lang.BlockAllocation.Cover.{all_cores, upto, num_cores_to_grid_ranges-cores}

num_cores_to_grid_ranges-cores_example :
    (rs : List Range) × (num_cores_to_grid_ranges 4 4 1 2 9 ≡ ok rs) × (all_cores 4 rs ≡ upto 6 9)
num_cores_to_grid_ranges-cores_example =
    num_cores_to_grid_ranges-cores 4 4 1 2 9 (omega arith) (omega arith) (omega arith)

-- One core: no division at all.
one_core_one_unit : split_work_to_cores true (1 ∷ 1 ∷ []) 1 ≡ raise unbound_local_error
unfolding split_work_to_cores
one_core_one_unit = refl

one_core_two_units : split_work_to_cores true (1 ∷ []) 2 ≡ ok none
unfolding split_work_to_cores
one_core_two_units = refl

-- A grid of one row is a line: its groups are given one unit more than there are.
one_row :
    split_work_to_cores true (1 ∷ 8 ∷ []) 10
    ≡ ok (
        some (record {
          cores = 8;
          group1 = some (record { first = (0, 0); last = (0, 2) });
          group2 = some (record { first = (0, 3); last = (0, 7) });
          units1 = 2;
          units2 = 1;
        }))
unfolding split_work_to_cores
one_row = refl

-- The corners of the first group are those of a rectangle of two cores, but five cores are meant.
five_units :
    split_work_to_cores true (4 ∷ 4 ∷ []) 5
    ≡ ok (
        some (record {
          cores = 5;
          group1 = some (record { first = (0, 0); last = (1, 0) });
          group2 = none;
          units1 = 1;
          units2 = 0;
        }))
unfolding split_work_to_cores
five_units = refl
