-- ===== src/Block/Slots.antt =====
-- python/sim/dfb.py, class Block: the methods that read and write the slots of the underlying list.
-- That list belongs to the ring of the block, or is the block's own if it is temporary; here it is
-- the state of the method. `A` is the type of tensors; a slot that holds no tensor is `none`.
use tt_lang.Prelude.{
  ℕ, zero, suc, ◌+◌, ◌%◌, List, [], ◌∷◌, Option, none, some, if◌then◌else◌, ltb, ◌==◌, Exec, ok,
  raise, ◌>>=◌, ◌>>◌, pure, throw, require, get_elem?, set, length, runtime_error, index_error,
  value_error,
}
use tt_lang.Block.{Block, check_can_read, check_can_write}

abbrev pub Slots : Type 0 → Type 0
Slots A = List (Option A)

-- `for i in range(first, first + count): body(i)`
abbrev pub for_range : {S : Type 0} → (ℕ → Exec S (Unit {0})) → ℕ → ℕ → Exec S (Unit {0})
for_range body first zero = pure tt
for_range body first (suc count) = body first >> for_range body (suc first) count

-- The slot of the ring that index `idx` of the block stands for.
abbrev pub ring_slot : Block → ℕ → ℕ
ring_slot b idx = (b.span.start + idx) % b.capacity

abbrev pub slot : Block → ℕ → ℕ
slot b idx = if b.is_temporary then idx else ring_slot b idx

module _ {A : Type 0} where
  -- `self._buf[i]`
  unfoldable pub load : ℕ → Exec (Slots A) (Option A)
  load i buf = elim (get_elem? buf i) [ none ↦ (raise index_error, buf) | some v ↦ (ok v, buf) ]

  -- `self._buf[i] = v`
  unfoldable pub put : ℕ → Option A → Exec (Slots A) (Unit {0})
  put i v buf = if ltb i (length buf) then (ok tt, set buf i v) else (raise index_error, buf)

  abbrev pub value_or_raise : Option A → Exec (Slots A) A
  value_or_raise none = throw value_error
  value_or_raise (some v) = pure v

  unfoldable pub get_item : Block → ℕ → Exec (Slots A) A
  unfolding load
  get_item b idx = do
    require (check_can_read b) runtime_error
    require (ltb idx b.span.len) index_error
    v ← load (slot b idx)
    value_or_raise v

  unfoldable pub write_slot : Block → ℕ → A → Exec (Slots A) (Unit {0})
  unfolding put
  write_slot b idx v = do
    require (check_can_write b) runtime_error
    require (ltb idx b.span.len) index_error
    put (slot b idx) (some v)

  unfoldable pub pop_idx : Block → ℕ → Exec (Slots A) (Unit {0})
  unfolding load put
  pop_idx b idx = do
    require (ltb idx b.span.len) index_error
    v ← load (ring_slot b idx)
    w ← value_or_raise v
    put (ring_slot b idx) none

  -- The list comprehension of `to_list`, over the indices `first` to `first + count - 1`.
  unfoldable pub items_from : Block → ℕ → ℕ → Exec (Slots A) (List A)
  items_from b first zero = pure []
  items_from b first (suc count) = do
    v ← get_item b first
    rest ← items_from b (suc first) count
    pure (v ∷ rest)

  unfoldable pub to_list : Block → Exec (Slots A) (List A)
  unfolding items_from
  to_list b = items_from b 0 b.span.len

  -- The loop of `copy_as_dest`, from index `i` on.
  unfoldable pub copy_items : Block → ℕ → List A → Exec (Slots A) (Unit {0})
  unfolding put
  copy_items b i [] = pure tt
  copy_items b i (v ∷ vs) = put (ring_slot b i) (some v) >> copy_items b (suc i) vs

  unfoldable pub copy_as_dest : Block → List A → Exec (Slots A) (Unit {0})
  unfolding copy_items
  copy_as_dest b items = do require (length items == b.span.len) value_error; copy_items b 0 items
