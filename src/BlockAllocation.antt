-- ===== src/BlockAllocation.antt =====
-- python/utils/block_allocation.py: how units of work are divided among the cores of a grid.
--
-- A grid is the list of its sizes. Of a coordinate the last two numbers are kept: before them the
-- source writes zeros.
pub mod Cover
pub mod Units
pub mod Lines
pub mod Matmul
pub mod Products
pub mod Params
pub mod Found
mod Tests
mod MatmulTests
use tt_lang.Prelude.{
  ℕ, suc, ◌+◌, ◌-◌, ◌*◌, ◌/◌, ◌%◌, List, [], ◌∷◌, Option, none, some, Bool, true, not, ◌&&◌,
  if◌then◌else◌, ltb, leb, ◌==◌, Outcome, ok, raise, bind_ok, assertion_error, unbound_local_error,
  index_error,
}

-- A rectangle of cores, both corners included. A line is a row, or a column where the filling goes
-- column-wise; a place is a position in its line.
pub record Range : Type 0 where
  pub first_line : ℕ
  pub first_place : ℕ
  pub last_line : ℕ
  pub last_place : ℕ

-- Partial line at the end.
abbrev pub end_range : ℕ → ℕ → ℕ → List Range
end_range line place leftover =
    if ltb 0 leftover
    then record {
      first_line = line;
      first_place = place;
      last_line = line;
      last_place = place + leftover - 1;
    }
      ∷ []
    else []

-- Full lines of `size` cores.
abbrev pub full_ranges : ℕ → ℕ → ℕ → ℕ → List Range
full_ranges size line place leftover =
    if leb size leftover
    then record {
      first_line = line;
      first_place = place;
      last_line = line + leftover / size - 1;
      last_place = size - 1;
    }
      ∷ end_range (line + leftover / size) 0 (leftover - leftover / size * size)
    else end_range line place leftover

-- Partial line at the start.
abbrev pub line_ranges : ℕ → ℕ → ℕ → ℕ → List Range
line_ranges size line place leftover =
    if not (place == 0) && ltb (size - place) leftover
    then record { first_line = line; first_place = place; last_line = line; last_place = size - 1 }
      ∷ full_ranges size (suc line) 0 (leftover - (size - place))
    else full_ranges size line place leftover

-- `num_cores_to_grid_ranges` in `lines` lines of `size` cores, for `target` cores from a start on.
unfoldable pub num_cores_to_grid_ranges : ℕ → ℕ → ℕ → ℕ → ℕ → Outcome (List Range)
num_cores_to_grid_ranges lines size line place target =
    if not (ltb place size && ltb line lines)
    then raise assertion_error
    else if not (leb target ((lines - 1 - line) * size + (size - place)))
    then raise assertion_error
    else ok (line_ranges size line place target)

abbrev pub last_range : List Range → Outcome Range
last_range [] = raise index_error
last_range (r ∷ []) = ok r
last_range (r ∷ r' ∷ rs) = last_range (r' ∷ rs)

-- The grid without its leading ones: one core, a line of cores, or rows of cores.
pub data Grid : Type 0 where
  point : Grid
  row : ℕ → Grid
  rows : ℕ → ℕ → Grid

abbrev pub remove_leading_ones : List ℕ → List ℕ
remove_leading_ones [] = []
remove_leading_ones (d ∷ grid) = if d == 1 then remove_leading_ones grid else d ∷ grid

-- At most two dimensions are left.
abbrev pub simplified : List ℕ → Outcome Grid
simplified [] = ok Grid.point
simplified (n ∷ []) = ok (Grid.row n)
simplified (y ∷ x ∷ []) = ok (Grid.rows y x)
simplified (z ∷ y ∷ x ∷ grid) = raise assertion_error

-- The ones that were left out do not change the number.
abbrev pub get_number_of_cores : Grid → ℕ
get_number_of_cores Grid.point = 1
get_number_of_cores (Grid.row n) = n
get_number_of_cores (Grid.rows y x) = y * x

-- A group of cores: its first and last core, as line and place.
pub record Group : Type 0 where
  pub first : ℕ × ℕ
  pub last : ℕ × ℕ

pub record Split : Type 0 where
  pub cores : ℕ
  pub group1 : Option Group
  pub group2 : Option Group
  pub units1 : ℕ
  pub units2 : ℕ

abbrev group_to : ℕ × ℕ → Option Group
group_to last = some (record { first = (0, 0); last = last })

-- Not more units than cores.
abbrev pub one_each : ℕ → ℕ × ℕ → Split
one_each units last = record {
  cores = units;
  group1 = group_to last;
  group2 = none;
  units1 = 1;
  units2 = 0;
}

-- More units than cores, on one line of cores.
abbrev pub split_row : ℕ → ℕ → Split
split_row total units = record {
  cores = total;
  group1 = group_to (0, units % total);
  group2 = some (record { first = (0, units % total + 1); last = (0, total - 1) });
  units1 = units / total + 1;
  units2 = units / total;
}

-- The core after `r`: in the same line if possible.
abbrev pub next_core : ℕ → Range → ℕ × ℕ
next_core size r =
    if not (r.last_place == size - 1) then (r.last_line, r.last_place + 1) else (r.last_line + 1, 0)

abbrev pub two_groups : ℕ → ℕ → Range → ℕ × ℕ → Range → Split
two_groups total units r start r' = record {
  cores = total;
  group1 = group_to (r.last_line, r.last_place);
  group2 = some (record { first = start; last = (r'.last_line, r'.last_place) });
  units1 = units / total + 1;
  units2 = units / total;
}

-- More units than cores, on several lines of cores.
unfoldable pub split_lines : ℕ → ℕ → ℕ → Outcome Split
unfolding num_cores_to_grid_ranges
split_lines lines size units =
    let total = lines * size in
    if units % total == 0
    then ok (record {
      cores = total;
      group1 = group_to (lines - 1, size - 1);
      group2 = none;
      units1 = units / total;
      units2 = 0;
    })
    else bind_ok (num_cores_to_grid_ranges lines size 0 0 (units % total)) λ rs.
      bind_ok (last_range rs) λ r.
        let start = next_core size r in
        bind_ok (num_cores_to_grid_ranges lines size start.0 start.1 (total - units % total))
          λ rs'. bind_ok (last_range rs') λ r'. ok (two_groups total units r start r')

abbrev pub first_units : ℕ → ℕ → ℕ → Outcome Split
first_units lines size units =
    bind_ok (num_cores_to_grid_ranges lines size 0 0 units)
      λ rs. bind_ok (last_range rs) λ r. ok (one_each units (r.last_line, r.last_place))

-- The lines and their size, in the direction of the filling.
abbrev pub lines_in : Bool → ℕ → ℕ → ℕ × ℕ
lines_in row_wise y x = if row_wise then (y, x) else (x, y)

-- `assert dim > 0`
abbrev pub has_cores : Grid → Bool
has_cores Grid.point = true
has_cores (Grid.row n) = ltb 0 n
has_cores (Grid.rows y x) = ltb 0 y && ltb 0 x

abbrev pub found : Outcome Split → Outcome (Option Split)
found r = bind_ok r λ s. ok (some s)

-- On a grid of ones neither branch sets the end of the group, which is an UnboundLocalError.
abbrev pub split_few : Bool → Grid → ℕ → Outcome (Option Split)
split_few row_wise Grid.point units = raise unbound_local_error
split_few row_wise (Grid.row n) units = ok (some (one_each units (0, units - 1)))
split_few row_wise (Grid.rows y x) units =
    let d = lines_in row_wise y x in found (first_units d.0 d.1 units)

-- On a grid of ones no branch returns, and the result is None.
abbrev pub split_many : Bool → Grid → ℕ → Outcome (Option Split)
split_many row_wise Grid.point units = ok none
split_many row_wise (Grid.row n) units = ok (some (split_row n units))
split_many row_wise (Grid.rows y x) units =
    let d = lines_in row_wise y x in found (split_lines d.0 d.1 units)

abbrev pub no_work : Split
no_work = record { cores = 0; group1 = none; group2 = none; units1 = 0; units2 = 0 }

abbrev pub split_on : Bool → ℕ → Grid → Outcome (Option Split)
split_on row_wise units grid =
    if not (has_cores grid)
    then raise assertion_error
    else if leb units (get_number_of_cores grid)
    then split_few row_wise grid units
    else split_many row_wise grid units

-- The coordinates of the groups are those of line and place: a line is a column if the filling goes
-- column-wise.
unfoldable pub split_work_to_cores : Bool → List ℕ → ℕ → Outcome (Option Split)
unfolding split_lines num_cores_to_grid_ranges
split_work_to_cores row_wise grid units =
    if units == 0
    then ok (some no_work)
    else bind_ok (simplified (remove_leading_ones grid)) (split_on row_wise units)
