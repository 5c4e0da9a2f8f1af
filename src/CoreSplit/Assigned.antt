-- ===== src/CoreSplit/Assigned.antt =====
-- The cores and the units that `split_work_to_cores` gives its groups.
use tt_lang.Prelude.{ℕ, ◌+◌, ◌*◌, min, ◌≡◌, List, ◌++◌, take, concat_map, Bool}
use tt_lang.CoreSplit.{CoreCoord, num_cores, CoreGrid, cores_available, range_cores, WorkSplit}

-- What is promised of a division of work over a list of cores.
pub record IsSharedOut (units used : ℕ) (cs : List CoreCoord) (s : WorkSplit) : Type 0 where
  pub all_units :
      num_cores s.core_group_1 * s.units_per_core_group_1
        + num_cores s.core_group_2 * s.units_per_core_group_2
      ≡ units
  pub first_cores :
      concat_map range_cores s.core_group_1 ++ concat_map range_cores s.core_group_2 ≡ take used cs
  pub all_used :
      (s.num_cores_used ≡ used) × (num_cores s.core_group_1 + num_cores s.core_group_2 ≡ used)

module _ (grid : CoreGrid) (units : ℕ) (row_wise : Bool) where
  used : ℕ
  used = min (cores_available grid) units
