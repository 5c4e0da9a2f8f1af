-- ===== src/Tensor/Bounds.antt =====
-- The elements that a key of tiles stands for lie in the tensor.
use tt_lang.Prelude.{
  ℤ, pos, negsuc, ◌*◌, [], ◌∷◌, ap, ap₂, ℕ, ◌/◌, ◌≤◌, ◌<◌, ◌≡◌, refl, ◌⊎◌, inl, inr, Bool, true,
  Bool-cases, ◌&&◌, ◌==◌, ==→eq, Outcome, ok, raise, arith,
}
use tt_lang.Tensor.{
  Torch, Key, tile_size, at, slice, in_elements, tiles_along, within, validate_slice_format,
  validate_tile_coordinates, both_within, get_tile_shape, normalize_index, get_tiles,
}

-- A slice of elements that is not empty, begins in a dimension, and ends in it too, except where the
-- dimension is 1 and stands for a whole tile.
abbrev pub IsInside : ℕ → ℕ × ℕ → Type 0
IsInside dim ends = (ends.0 < ends.1) × (ends.0 < dim) × ((dim ≡ 1) ⊎ (ends.1 ≤ dim))

-- Ends that pass are natural numbers.
within-bounds :
    (r : ℤ × ℤ) (count : ℕ)
    → within r count ≡ true
    → (a b : ℕ) × (r ≡ (pos a, pos b)) × (a < b) × (b ≤ count)
within-bounds (pos a, pos b) count h = (a, b, refl, ground arith, ground arith)
within-bounds (pos a, negsuc b) count h = absurd (ground arith)
within-bounds (negsuc a, pos b) count h = absurd (cc)
within-bounds (negsuc a, negsuc b) count h = absurd (cc)

tiles-IsInside :
    (dim a b : ℕ) → a < b → b ≤ tiles_along dim → IsInside dim (a * tile_size, b * tile_size)
tiles-IsInside dim a b l h = elim (Bool-cases (dim == 1)) [
  | inl e ↦
      let one : dim ≡ 1 = ==→eq dim 1 e in
      let tiles : tiles_along dim ≡ 1 = rw e refl in (omega arith, omega arith, inl one)
  | inr e ↦
      let tiles : tiles_along dim ≡ dim / 32 = rw e refl in
      (omega arith, omega arith, inr (omega arith))
]

within-IsInside :
    (dim : ℕ) (r : ℤ × ℤ)
    → within r (tiles_along dim) ≡ true
    → (e : ℕ × ℕ) × (in_elements r ≡ (pos e.0, pos e.1)) × IsInside dim e
within-IsInside dim r h =
    let (a, b, e, l, k) = within-bounds r (tiles_along dim) h in
    ((a * tile_size, b * tile_size), ap in_elements e, tiles-IsInside dim a b l k)

normalized :
    (k : Key) {r : ℤ × ℤ}
    → validate_slice_format k ≡ ok r
    → validate_slice_format (normalize_index k) ≡ ok r
normalized (at i) e = absurd (cc)
normalized (slice start stop step) e = e

and_true : {a b : Bool} → a && b ≡ true → (a ≡ true) × (b ≡ true)
and_true h = ground arith

module _ {T : Type 0} (torch : Torch T) (t : T) where
  -- Keys that validate_tile_coordinates accepts for the shape of a tensor of two dimensions are read
  -- without an exception, at elements that begin at 0 or later, lie in the tensor and are not none.
  pub validate_tile_coordinates-IsInside :
      (rows cols : ℕ) (row col : Key)
      → torch.shape t ≡ rows ∷ cols ∷ []
      → validate_tile_coordinates (rows, cols) row col ≡ true
      → (r c : ℕ × ℕ) × (get_tiles torch t row col
          ≡ ok (torch.read t (pos r.0, pos r.1) (pos c.0, pos c.1)))
        × IsInside rows r
        × IsInside cols c
  unfolding validate_tile_coordinates get_tiles
  validate_tile_coordinates-IsInside rows cols row col two h =
      found (validate_slice_format row) (validate_slice_format col) refl refl h
    where
      found :
          (r c : Outcome (ℤ × ℤ))
          → validate_slice_format row ≡ r
          → validate_slice_format col ≡ c
          → both_within r c (get_tile_shape (rows, cols)) ≡ true
          → (r' c' : ℕ × ℕ) × (get_tiles torch t row col
              ≡ ok (torch.read t (pos r'.0, pos r'.1) (pos c'.0, pos c'.1)))
            × IsInside rows r'
            × IsInside cols c'
      found (raise x) c e f g = absurd (cc)
      found (ok r) (raise x) e f g = absurd (cc)
      found (ok r) (ok c) e f g =
          let (inside, inside') = and_true g in
          let (r', p, q) = within-IsInside rows r inside in
          let (c', p', q') = within-IsInside cols c inside' in
          (
            r',
            c',
            rw (normalized row e, normalized col f) (ap₂ (λ x y. ok (torch.read t x y)) p p'),
            q,
            q',
          )
