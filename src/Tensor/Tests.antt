-- ===== src/Tensor/Tests.antt =====
-- Reading by tiles at a concrete tensor.
use tt_lang.Prelude.{pos, negsuc, false, ℕ, ◌≡◌, refl, [], ◌∷◌, none, some, true, ok}
use tt_lang.Tensor.{at, slice, tensor_get, validate_tile_coordinates, get_tiles}
use tt_lang.Tensor.Sample.{sheets, sheet}
use tt_lang.Tensor.Bounds.{IsInside, validate_tile_coordinates-IsInside}

tensor_get_sample :
    tensor_get sheets sheet (at (pos 1)) (slice (some (pos 1)) (some (pos 3)) none)
    ≡ ok (record { dims = 32 ∷ 64 ∷ []; row = pos 32; column = pos 32 })
unfolding tensor_get
tensor_get_sample = refl

accepted :
    validate_tile_coordinates
      (64, 96)
      (slice (some (pos 1)) (some (pos 2)) none)
      (slice (some (pos 1)) (some (pos 3)) none)
    ≡ true
unfolding validate_tile_coordinates
accepted = refl

below_zero :
    validate_tile_coordinates
      (64, 96)
      (slice (some (negsuc 0)) (some (pos 2)) none)
      (slice (some (pos 1)) (some (pos 3)) none)
    ≡ false
unfolding validate_tile_coordinates
below_zero = refl

validate_tile_coordinates-IsInside_example :
    (r c : ℕ × ℕ) × (get_tiles sheets sheet
        (slice (some (pos 1)) (some (pos 2)) none)
        (slice (some (pos 1)) (some (pos 3)) none)
      ≡ ok (sheets.read sheet (pos r.0, pos r.1) (pos c.0, pos c.1)))
    × IsInside 64 r
    × IsInside 96 c
validate_tile_coordinates-IsInside_example =
    validate_tile_coordinates-IsInside sheets sheet 64 96 (slice (some (pos 1)) (some (pos 2)) none)
      (slice (some (pos 1)) (some (pos 3)) none) refl accepted
