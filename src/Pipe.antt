-- ===== src/Pipe.antt =====
-- python/sim/pipe.py: pipes between cores, the cores that a destination covers, and networks of
-- pipes. The grid, with sizes that are not 0, and the number of the current core are arguments. The
-- numbers, bounds and steps of a destination are ints; the coordinates of a source are not negative.
pub mod Range
pub mod Members
mod Tests
use tt_lang.Prelude.{
  ℤ, pos, negsuc, raise_by, lower_by, distance, int_lt, int_le, same_int, ℕ, zero, suc, ◌+◌, ◌%◌,
  List, [], ◌∷◌, ◌++◌, map, Option, none, some, Bool, true, false, ◌&&◌, ◌||◌, if◌then◌else◌, ltb,
  ◌==◌, Exec, Outcome, ok, raise, bind_ok, index_error, value_error, zero_division_error, ◌>>◌,
  pure, throw, length,
}
use tt_lang.CoreContext.{CoreCoord, core, grid_size, flatten_core_index}

-- An element of a CoreRange: a number or a slice.
pub data Item : Type 0 where
  fixed : ℤ → Item
  slice : Option ℤ → Option ℤ → Option ℤ → Item

-- A destination: a number, or a tuple of numbers and slices.
pub data Dst : Type 0 where
  linear : ℤ → Dst
  items : List Item → Dst

-- A core that a destination names: a number, or a tuple of numbers, of the grid or not.
pub data Target : Type 0 where
  number : ℤ → Target
  numbers : List ℤ → Target

pub record Pipe : Type 0 where
  pub src_core : CoreCoord
  pub dst_core_range : Dst

-- `x if x is not None else d`
abbrev pub or_else : Option ℤ → ℤ → ℤ
or_else none d = d
or_else (some x) d = x

-- The distances from the start of a range, below `length` and in steps that are not 0: at most
-- `fuel` numbers.
abbrev pub range_from : ℕ → ℕ → ℕ → ℕ → List ℕ
range_from zero start length step = []
range_from (suc fuel) start length step =
    let rest = range_from fuel (start + step) length step in
    if ltb start length then start ∷ rest else []

-- `range(start, stop, step)`. Each number takes one step of the way to the stop at least.
abbrev pub upward : ℤ → ℤ → ℕ → List ℤ
upward start stop step =
    map (raise_by start) (range_from (distance start stop) 0 (distance start stop) step)

abbrev pub downward : ℤ → ℤ → ℕ → List ℤ
downward start stop step =
    map (lower_by start) (range_from (distance stop start) 0 (distance stop start) step)

abbrev pub py_range : ℤ → ℤ → ℤ → Outcome (List ℤ)
py_range start stop (pos step) =
    if step == 0 then raise value_error else ok (upward start stop step)
py_range start stop (negsuc step) = ok (downward start stop (suc step))

-- An int as a tuple of one.
abbrev pub to_tuple : CoreCoord → List ℕ
to_tuple (CoreCoord.index c) = c ∷ []
to_tuple (CoreCoord.tuple coords) = coords

-- The numbers of one dimension, and those of all of them.
abbrev pub item_range : Item → ℕ → Outcome (List ℤ)
item_range (Item.fixed k) size = ok (k ∷ [])
item_range (Item.slice start stop step) size =
    py_range (or_else start (pos 0)) (or_else stop (pos size)) (or_else step (pos 1))

abbrev pub dim_ranges : List Item → List ℕ → Outcome (List (List ℤ))
dim_ranges [] sizes = ok []
dim_ranges (x ∷ xs) [] = raise index_error
dim_ranges (x ∷ xs) (size ∷ sizes) =
    bind_ok (item_range x size) λ r. bind_ok (dim_ranges xs sizes) λ rs. ok (r ∷ rs)

abbrev pub for_values : List ℤ → (ℤ → List (List ℤ)) → List (List ℤ)
for_values [] f = []
for_values (v ∷ vs) f = f v ++ for_values vs f

-- `_cartesian_product`
abbrev pub cartesian : List (List ℤ) → List ℤ → List (List ℤ)
cartesian [] current = current ∷ []
cartesian (r ∷ rs) current = for_values r λ v. cartesian rs (current ++ (v ∷ []))

-- In one dimension the first number, else the tuple.
abbrev pub target_of : ℕ → List ℤ → Target
target_of dims [] = Target.numbers []
target_of dims (v ∷ vs) = if dims == 1 then Target.number v else Target.numbers (v ∷ vs)

unfoldable pub expand_core_range : List ℕ → List Item → Outcome (List Target)
expand_core_range grid xs = bind_ok (grid_size (length xs) grid) λ sizes.
    bind_ok (dim_ranges xs (to_tuple sizes))
      λ rs. ok (map (target_of (length xs)) (cartesian rs []))

abbrev pub same_numbers : List ℕ → List ℤ → Bool
same_numbers [] [] = true
same_numbers [] (v ∷ vs) = false
same_numbers (c ∷ cs) [] = false
same_numbers (c ∷ cs) (v ∷ vs) = same_int c v && same_numbers cs vs

-- `==`: an int is no tuple.
abbrev pub same_core : CoreCoord → Target → Bool
same_core (CoreCoord.index c) (Target.number v) = same_int c v
same_core (CoreCoord.index c) (Target.numbers vs) = false
same_core (CoreCoord.tuple cs) (Target.number v) = false
same_core (CoreCoord.tuple cs) (Target.numbers vs) = same_numbers cs vs

-- `n % step == 0`: the remainder by a negative step is 0 where that by its absolute value is.
abbrev pub in_steps : ℤ → ℕ → Outcome Bool
in_steps (pos step) n = if step == 0 then raise zero_division_error else ok (n % step == 0)
in_steps (negsuc step) n = ok (n % suc step == 0)

-- The test on one dimension: the remainder is taken only within the bounds.
abbrev pub in_item : Item → ℕ → ℕ → Outcome Bool
in_item (Item.fixed k) size c = ok (same_int c k)
in_item (Item.slice start stop step) size c =
    if int_le (or_else start (pos 0)) (pos c) && int_lt (pos c) (or_else stop (pos size))
    then in_steps (or_else step (pos 1)) (distance (or_else start (pos 0)) (pos c))
    else ok false

abbrev pub in_items : List Item → List ℕ → List ℕ → Outcome Bool
in_items [] sizes coords = ok true
in_items (x ∷ xs) (size ∷ sizes) (c ∷ coords) =
    bind_ok (in_item x size c) λ b. if b then in_items xs sizes coords else ok false
in_items (x ∷ xs) _ _ = raise index_error

abbrev pub is_slice : Item → Bool
is_slice (Item.fixed k) = false
is_slice (Item.slice start stop step) = true

abbrev pub any_slice : List Item → Bool
any_slice [] = false
any_slice (x ∷ xs) = is_slice x || any_slice xs

-- The numbers of a tuple without slices.
abbrev pub fixed_numbers : List Item → List ℤ
fixed_numbers [] = []
fixed_numbers (Item.fixed k ∷ xs) = k ∷ fixed_numbers xs
fixed_numbers (Item.slice start stop step ∷ xs) = fixed_numbers xs

unfoldable pub core_in_dst_range : List ℕ → ℕ → Dst → Outcome Bool
core_in_dst_range grid cid (Dst.linear n) =
    bind_ok (core 1 grid cid) λ c. ok (same_core c (Target.number n))
core_in_dst_range grid cid (Dst.items xs) = bind_ok (core (length xs) grid cid) λ c.
    if any_slice xs
    then bind_ok (grid_size (length xs) grid) (λ sizes. in_items xs (to_tuple sizes) (to_tuple c))
    else ok (same_core c (Target.numbers (fixed_numbers xs)))

-- Whether a core is the source of a pipe.
abbrev pub is_source : List ℕ → ℕ → Pipe → Outcome Bool
is_source grid cid pipe = bind_ok (core 1 grid cid) λ c.
    bind_ok (flatten_core_index grid pipe.src_core) λ n. ok (same_core c (Target.number (pos n)))

unfoldable pub has_current_core : List ℕ → ℕ → Pipe → Outcome Bool
unfolding core_in_dst_range
has_current_core grid cid pipe =
    bind_ok (is_source grid cid pipe)
      λ b. if b then ok true else core_in_dst_range grid cid pipe.dst_core_range

-- The loops of PipeNet: `cond_fun` runs for each pipe that passes the test.
module _ {S : Type 0} (test : Pipe → Outcome Bool) (cond_fun : Pipe → Exec S (Unit {0})) where
  abbrev pub visit : Outcome Bool → Pipe → Exec S (Unit {0})
  visit (ok b) pipe = if b then cond_fun pipe else pure tt
  visit (raise e) pipe = throw e

  abbrev pub for_pipes : List Pipe → Exec S (Unit {0})
  for_pipes [] = pure tt
  for_pipes (pipe ∷ pipes) = visit (test pipe) pipe >> for_pipes pipes

module _ {S : Type 0} (grid : List ℕ) (cid : ℕ) (cond_fun : Pipe → Exec S (Unit {0})) where
  -- A pipe's identity wraps the pipe, and is the argument of `cond_fun`.
  unfoldable pub if_src : List Pipe → Exec S (Unit {0})
  if_src pipes = for_pipes (is_source grid cid) cond_fun pipes

  unfoldable pub if_dst : List Pipe → Exec S (Unit {0})
  unfolding core_in_dst_range
  if_dst pipes = for_pipes (λ pipe. core_in_dst_range grid cid pipe.dst_core_range) cond_fun pipes
