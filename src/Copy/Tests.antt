-- ===== src/Copy/Tests.antt =====
-- Copies of a concrete tensor into a concrete block.
use tt_lang.Prelude.{
  ℕ, ◌≡◌, refl, [], ◌∷◌, map, rows, replicate, Option, none, some, false, true, ok, raise, is_ok,
  value_error, arith,
}
use tt_lang.Block.{Span, check_can_read, check_can_write, mark_push_complete}
use tt_lang.Block.Slots.{Slots}
use tt_lang.Block.Legal.{act, pushed}
use tt_lang.Tensor.Sample.{Sheet, sheets, sheet}
use tt_lang.DfbState.Window.{window}
use tt_lang.Copy.{Endpoint, tensor, block, Handler, copy, wait}
use tt_lang.Copy.Tiles.{tile}
use tt_lang.Copy.InFlight.{reserved, filling, filled, into, copy-wait-tiles, copy_refused}

abbrev no_pipes : Endpoint Sheet ℕ → Endpoint Sheet ℕ → Option (Handler Sheet ℕ)
no_pipes src dst = none

abbrev span : Span
span = record { start = 4; len = 6 }

abbrev ring : Slots Sheet
ring = replicate 8 none

-- A tensor of two tiles by three.
copy-wait-tiles_example :
    (copy sheets no_pipes (tensor sheet) (block (reserved 8 span (2 ∷ 3 ∷ []) none) ring)
      ≡ (ok tt, into (filling 8 span (2 ∷ 3 ∷ []) none) false sheet ring))
    × (check_can_read (filling 8 span (2 ∷ 3 ∷ []) none) ≡ false)
    × (check_can_write (filling 8 span (2 ∷ 3 ∷ []) none) ≡ false)
    × (buf : Slots Sheet) × (wait sheets no_pipes
          (λ x. x)
          (into (filling 8 span (2 ∷ 3 ∷ []) none) false sheet ring)
        ≡ (ok tt, into (filled 8 span (2 ∷ 3 ∷ []) none) true sheet buf))
    × (window buf 8 4 6 ≡ map some (rows (tile sheets sheet) 2 3))
    × (is_ok (mark_push_complete (filled 8 span (2 ∷ 3 ∷ []) none)) ≡ true)
copy-wait-tiles_example =
    copy-wait-tiles sheets no_pipes 8 span (2 ∷ 3 ∷ []) none (λ x. x) sheet sheet ring ring 64 96
      refl refl refl refl refl (omega arith) refl refl refl

copy_refused_example :
    (copy sheets no_pipes (tensor sheet) (block (reserved 8 span (3 ∷ 2 ∷ []) none) ring)
      ≡ (raise value_error, into (filling 8 span (3 ∷ 2 ∷ []) none) false sheet ring))
    × (check_can_read (filling 8 span (3 ∷ 2 ∷ []) none) ≡ false)
    × (check_can_write (filling 8 span (3 ∷ 2 ∷ []) none) ≡ false)
    × (is_ok (act pushed (filling 8 span (3 ∷ 2 ∷ []) none)) ≡ false)
copy_refused_example = copy_refused sheets no_pipes 8 span (3 ∷ 2 ∷ []) none sheet ring pushed refl
