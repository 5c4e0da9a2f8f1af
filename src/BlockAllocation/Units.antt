-- ===== src/BlockAllocation/Units.antt =====
-- How many units of work the groups of `split_work_to_cores` are given.
use native.Mathlib.Nat.{div-add-mod, mod-lt}
use tt_lang.Prelude.{
  ℕ, suc, ◌+◌, ◌-◌, ◌*◌, ◌/◌, ◌%◌, ◌<◌, ◌≡◌, ap, ap₂, sym, ◌∙◌, [], ◌∷◌, Option, none, some, Bool,
  ok, arith,
}
use tt_lang.BlockAllocation.{Group, Split, split_row, split_work_to_cores}

-- The cores of a group, counted along lines of `size` cores, and the units that all cores get.
abbrev pub group_count : ℕ → Option Group → ℕ
group_count size none = 0
group_count size (some g) = suc (g.last.0 * size + g.last.1) - (g.first.0 * size + g.first.1)

abbrev pub assigned : ℕ → Split → ℕ
assigned size s = group_count size s.group1 * s.units1 + group_count size s.group2 * s.units2

over_by_one :
    (n r w : ℕ)
    → r < n
    → (suc (0 * n + r) - (0 * n + 0)) * (w + 1) + (suc (0 * n + (n - 1)) - (0 * n + (r + 1))) * w
      ≡ suc (n * w + r)
over_by_one n r w h =
    let m : ℕ = n - suc r in
    let e₀ : suc (0 * n + r) - (0 * n + 0) ≡ suc r = omega arith in
    let e₁ : suc (0 * n + (n - 1)) - (0 * n + (r + 1)) ≡ m = omega arith in
    let e₂ : n ≡ suc r + m = omega arith in
    ap₂ (λ j k. j * (w + 1) + k * w) e₀ e₁ ∙ expand m ∙ ap (λ k. suc (k * w + r)) (sym e₂)
  where
    expand : (m : ℕ) → suc r * (w + 1) + m * w ≡ suc ((suc r + m) * w + r)
    expand m = omega arith

-- On one line of two cores or more, with more units than cores, the groups are given one unit more
-- than there are, in either direction of filling.
pub split_row-assigned :
    (row_wise : Bool) (n units : ℕ)
    → 1 < n
    → n < units
    → (s : Split) × (split_work_to_cores row_wise (n ∷ []) units ≡ ok (some s))
      × (assigned n s ≡ suc units)
unfolding split_work_to_cores
split_row-assigned row_wise n units h l = (
  split_row n units,
  ground arith,
  over_by_one n (units % n) (units / n) (mod-lt units (omega arith)) ∙ ap suc (div-add-mod units n),
)
