-- ===== src/CoreSplit.antt =====
-- python/sim/ttnnsim.py: core coordinates, ranges and sets of them, and the division of work among
-- cores. A range ends at its start or behind it; the source's sizes of other ranges may be negative.
mod Assigned
mod Tests
use tt_lang.Prelude.{
  ℕ, ◌+◌, ◌-◌, ◌*◌, ◌/◌, ◌%◌, suc, min, List, [], ◌∷◌, ◌++◌, map, length, take, drop, rows,
  concat_map, Bool, true, false, ◌||◌, if◌then◌else◌, ltb, ◌==◌,
}

pub record CoreCoord : Type 0 where
  pub x : ℕ
  pub y : ℕ

pub record CoreRange : Type 0 where
  pub start : CoreCoord
  pub end : CoreCoord

abbrev pub num_cores_range : CoreRange → ℕ
num_cores_range r = (suc r.end.x - r.start.x) * (suc r.end.y - r.start.y)

-- `CoreRangeSet.num_cores`
abbrev pub num_cores : List CoreRange → ℕ
num_cores [] = 0
num_cores (r ∷ rs) = num_cores_range r + num_cores rs

-- The argument `core_grid`: the size of a grid, or the ranges of a set.
pub data CoreGrid : Type 0 where
  whole : CoreCoord → CoreGrid
  ranges : List CoreRange → CoreGrid

abbrev pub cores_available : CoreGrid → ℕ
cores_available (whole c) = c.x * c.y
cores_available (ranges rs) = num_cores rs

abbrev pub all_cores : CoreGrid → List CoreRange
all_cores (whole c) =
    (record { start = record { x = 0; y = 0 }; end = record { x = c.x - 1; y = c.y - 1 } }) ∷ []
all_cores (ranges rs) = rs

-- The nested loops over the cores of a rectangle, row by row and column by column.
abbrev pub by_rows : ℕ → ℕ → ℕ → ℕ → List CoreCoord
by_rows x₀ width y₀ height = rows (λ y x. record { x = x₀ + x; y = y₀ + y }) height width

abbrev pub by_columns : ℕ → ℕ → List CoreCoord
by_columns width height = rows (λ x y. record { x = x; y = y }) width height

abbrev pub range_cores : CoreRange → List CoreCoord
range_cores r = by_rows r.start.x (suc r.end.x - r.start.x) r.start.y (suc r.end.y - r.start.y)

-- The order in which the cores of a grid or a set are taken; `row_wise` matters for a grid only.
abbrev pub cores_list : Bool → CoreGrid → List CoreCoord
cores_list true (whole c) = by_rows 0 c.x 0 c.y
cores_list false (whole c) = by_columns c.x c.y
cores_list row_wise (ranges rs) = concat_map range_cores rs

-- `if len(cores_list) < n: cores_list.append(core)`, for each core.
abbrev pub append_while : ℕ → List CoreCoord → List CoreCoord → List CoreCoord
append_while n acc [] = acc
append_while n acc (c ∷ cs) =
    append_while n (if ltb (length acc) n then acc ++ (c ∷ []) else acc) cs

-- One range for each core.
abbrev pub singletons : List CoreCoord → List CoreRange
singletons cs = map (λ c. record { start = c; end = c }) cs

pub record WorkSplit : Type 0 where
  pub num_cores_used : ℕ
  pub all : List CoreRange
  pub core_group_1 : List CoreRange
  pub core_group_2 : List CoreRange
  pub units_per_core_group_1 : ℕ
  pub units_per_core_group_2 : ℕ

abbrev pub no_work : WorkSplit
no_work = record {
  num_cores_used = 0;
  all = [];
  core_group_1 = [];
  core_group_2 = [];
  units_per_core_group_1 = 0;
  units_per_core_group_2 = 0;
}

-- Without a remainder, all cores that are used are in group 1.
abbrev pub even_split : CoreGrid → ℕ → ℕ → Bool → WorkSplit
even_split grid units used row_wise = record {
  num_cores_used = used;
  all = all_cores grid;
  core_group_1 = singletons (append_while used [] (cores_list row_wise grid));
  core_group_2 = [];
  units_per_core_group_1 = units / used;
  units_per_core_group_2 = 0;
}

-- With a remainder, as many cores as it counts get one unit more.
abbrev pub uneven_split : CoreGrid → ℕ → ℕ → Bool → WorkSplit
uneven_split grid units used row_wise = record {
  num_cores_used = used;
  all = all_cores grid;
  core_group_1 = singletons (take (units % used) (cores_list row_wise grid));
  core_group_2 = singletons (drop (units % used) (take used (cores_list row_wise grid)));
  units_per_core_group_1 = units / used + 1;
  units_per_core_group_2 = units / used;
}

unfoldable pub split_work_to_cores : CoreGrid → ℕ → Bool → WorkSplit
split_work_to_cores grid units row_wise =
    let used = min (cores_available grid) units in
    if (used == 0) || (units == 0)
    then no_work
    else if units % used == 0
    then even_split grid units used row_wise
    else uneven_split grid units used row_wise
