-- ===== src/Block/StoreTests.antt =====
-- Stores and products of concrete blocks.
use tt_lang.Prelude.{
  ℕ, ◌+◌, ◌*◌, ◌≤◌, ◌≡◌, refl, List, [], ◌∷◌, replicate, rows, some, none, true, ok, is_ok, arith,
}
use tt_lang.Block.{Span, from_list, check_can_read, mark_push_complete}
use tt_lang.Block.Slots.{to_list, get_item}
use tt_lang.Block.Store.{Heap, Cell, on_slots}
use tt_lang.Block.Operators.{matmul, new_temporary}
use tt_lang.Block.Products.{matmul-product}
use tt_lang.Block.Accumulate.{fresh, summing, Holds, store_all, store_all-total}

-- Two slots, which wrap around a ring of four.
abbrev span : Span
span = record { start = 3; len = 2 }

abbrev plus : ℕ → ℕ → ℕ
plus x y = x + y

fits : span.len ≤ 4
fits = omega arith

abbrev heap : Heap ℕ
heap = record {
  cells = (record { block = fresh 4 span (1 ∷ 2 ∷ []) none; ring = 0 }) ∷ [];
  rings = replicate 4 none ∷ [];
}

store_all-total_example :
    (h : Heap ℕ) × (store_all plus 0 ((1 ∷ 2 ∷ []) ∷ (10 ∷ 20 ∷ []) ∷ (5 ∷ 5 ∷ []) ∷ []) heap
      ≡ (ok tt, h))
    × Holds 4 span 0 0 h (summing 4 span (1 ∷ 2 ∷ []) none) (16 ∷ 27 ∷ [])
    × (is_ok (mark_push_complete (summing 4 span (1 ∷ 2 ∷ []) none)) ≡ true)
store_all-total_example =
    store_all-total plus 4 span (1 ∷ 2 ∷ []) none fits 0 0 heap (replicate 4 none) (1 ∷ 2 ∷ [])
      ((10 ∷ 20 ∷ []) ∷ (5 ∷ 5 ∷ []) ∷ []) refl refl refl refl (refl, (refl, tt))

-- A row of two tiles and a column of two tiles, each in its own list.
abbrev cell : List ℕ → ℕ → Cell
unfolding from_list
cell shape ring = record { block = from_list 2 shape; ring = ring }

abbrev entry : ℕ → ℕ → ℕ
entry i j = i + 2 * j

abbrev operands : Heap ℕ
unfolding cell
operands = record {
  cells = cell (1 ∷ 2 ∷ []) 0 ∷ cell (2 ∷ 1 ∷ []) 1 ∷ [];
  rings = (some 0 ∷ some 2 ∷ []) ∷ (some 0 ∷ some 1 ∷ []) ∷ [];
}

row_read : on_slots 0 to_list operands ≡ (ok (rows entry 1 2), operands)
unfolding on_slots to_list operands cell from_list get_item check_can_read
row_read = refl

column_read : on_slots 1 to_list operands ≡ (ok (rows entry 2 1), operands)
unfolding on_slots to_list operands cell from_list get_item check_can_read
column_read = refl

matmul-product_example :
    matmul (λ x y. x * y) (λ x y. x + y) 0 1 operands
    ≡ new_temporary (2 ∷ []) (1 ∷ 1 ∷ []) [] operands
unfolding operands cell from_list
matmul-product_example =
    matmul-product (λ x y. x * y) (λ x y. x + y) entry entry 1 1 1 0 1 operands
      (cell (1 ∷ 2 ∷ []) 0) (cell (2 ∷ 1 ∷ []) 1) refl refl refl refl row_read column_read
