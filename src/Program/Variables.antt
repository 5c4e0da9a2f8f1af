-- ===== src/Program/Variables.antt =====
-- python/sim/program.py: the variables of a context, and the context that a call of a program
-- collects.
use tt_lang.Prelude.{
  ℕ, List, [], ◌∷◌, Option, none, some, if◌then◌else◌, ◌==◌, Outcome, ok, bind_ok, product,
}
use tt_lang.DataflowBuffer.{DataflowBuffer}

-- What a variable of a context holds; a buffer stands with its `_dfb_id`, none for one with no API.
-- `sizes` is a tuple of numbers.
pub data Value (A T X : Type 0) : Type 0 where
  module_object : X → Value A T X
  tensor : T → Value A T X
  dataflow_buffer : Option ℕ → DataflowBuffer A → Value A T X
  sizes : List ℕ → Value A T X
  other : X → Value A T X

-- A dictionary, in the order of its entries.
abbrev pub Context : Type 0 → Type 0 → Type 0 → Type 0
Context A T X = List (ℕ × Value A T X)

abbrev pub grid_name : ℕ
grid_name = 0

abbrev pub core_name : ℕ
core_name = 1

module _ {A T X : Type 0} where
  abbrev pub lookup : ℕ → Context A T X → Option (Value A T X)
  lookup key [] = none
  lookup key ((k, v) ∷ entries) = if k == key then some v else lookup key entries

  -- `context[key] = value`
  abbrev pub assign : ℕ → Value A T X → Context A T X → Context A T X
  assign key value [] = (key, value) ∷ []
  assign key value ((k, v) ∷ entries) =
      if k == key then (k, value) ∷ entries else (k, v) ∷ assign key value entries

  -- `context.update(frame.f_back.f_locals)`
  abbrev pub update_all : Context A T X → Context A T X → Context A T X
  update_all [] context = context
  update_all ((k, v) ∷ rest) context = update_all rest (assign k v context)

  abbrev pub add_free :
      ℕ → Option (Value A T X) → Option (Value A T X) → Context A T X → Context A T X
  add_free name (some old) cell context = context
  add_free name none none context = context
  add_free name none (some v) context = assign name v context

  -- The free variables of one function, with what their cells hold; a cell may be empty.
  abbrev pub add_closure : List (ℕ × Option (Value A T X)) → Context A T X → Context A T X
  add_closure [] context = context
  add_closure ((name, cell) ∷ rest) context =
      add_closure rest (add_free name (lookup name context) cell context)

  abbrev pub add_closures : List (List (ℕ × Option (Value A T X))) → Context A T X → Context A T X
  add_closures [] context = context
  add_closures (closure ∷ rest) context = add_closures rest (add_closure closure context)

  -- The context that `__call__` makes: the grid, the caller's variables over it, and those of the
  -- functions' closures that are not there yet.
  unfoldable pub capture :
      List ℕ → Context A T X → List (List (ℕ × Option (Value A T X))) → Context A T X
  capture grid f_locals closures =
      add_closures closures (update_all f_locals ((grid_name, sizes grid) ∷ []))

  -- `self.context.get("grid", (1, 1))`
  abbrev pub grid_or_default : Option (Value A T X) → Value A T X
  grid_or_default none = sizes (1 ∷ 1 ∷ [])
  grid_or_default (some v) = v

  -- The number of cores. What is iterated over where `grid` is no tuple of numbers is the
  -- parameter `iterate`.
  abbrev pub total_cores : (Value A T X → Outcome (List ℕ)) → Value A T X → Outcome ℕ
  total_cores iterate (sizes ns) = ok (product ns)
  total_cores iterate v = bind_ok (iterate v) (λ ns. ok (product ns))
