-- ===== src/BlockAllocation/Lines.antt =====
-- Where the ranges of `num_cores_to_grid_ranges` end, and the units on several lines of cores.
use native.Mathlib.Nat.{
  div-add-mod, mod-lt, div-mul-le_self, le-div_iff_mul-le, mul-pos, lt_of_mul-lt-mul_right,
}
use tt_lang.Prelude.{
  ℕ, zero, suc, ◌+◌, ◌-◌, ◌*◌, ◌/◌, ◌%◌, ◌≤◌, ◌<◌, ◌≡◌, refl, ap, ap₂, sym, ◌∙◌, inl, inr, List, [],
  ◌∷◌, some, Bool, true, false, Bool-cases, ltb, leb, ◌==◌, ok, lt→ltb, ltb→lt, leb→le, le→leb,
  leb-false→lt, lt→leb-false, ltb-false→le, suc-ne-zero, ==→eq, arith,
}
use tt_lang.BlockAllocation.Units.{assigned}
use tt_lang.BlockAllocation.{
  Range, Grid, Split, end_range, full_ranges, line_ranges, num_cores_to_grid_ranges, last_range,
  next_core, one_each, split_lines, two_groups, split_on, first_units, lines_in,
}

-- The last range ends right before core number `goal`.
abbrev EndsAt : ℕ → ℕ → List Range → Type 0
EndsAt size goal rs =
    (r : Range) × (last_range rs ≡ ok r)
    × (suc (r.last_line * size + r.last_place) ≡ goal)
    × (r.last_place < size)

last_cons :
    (r : Range) (rs : List Range) {r' : Range} → last_range rs ≡ ok r' → last_range (r ∷ rs) ≡ ok r'
last_cons r [] e = absurd (cc)
last_cons r (r₁ ∷ rs) e = e

end-EndsAt :
    (size line place left : ℕ)
    → 0 < left
    → place + left ≤ size
    → EndsAt size (line * size + place + left) (end_range line place left)
end-EndsAt size line place left h l = rw (lt→ltb 0 left h) (_, refl, omega arith, omega arith)

full-EndsAt :
    (size line left : ℕ)
    → 0 < size
    → 0 < left
    → EndsAt size (line * size + left) (full_ranges size line 0 left)
full-EndsAt size line left h l = elim (Bool-cases (leb size left)) [
  | inr e ↦
      (let goal : line * size + 0 + left ≡ line * size + left = omega arith in
        let few : left < size = leb-false→lt size left e in
        rw (e, ← goal) (end-EndsAt size line 0 left l (omega arith)))
  | inl e ↦
      (let k : ℕ = left / size in
        let some_line : 1 ≤ k = (le-div_iff_mul-le h).1 (omega (arith, leb→le size left e)) in
        let used : k * size ≤ left = div-mul-le_self left size in
        let mult : (line + k) * size ≡ line * size + k * size = omega arith in
        elim (Bool-cases (ltb 0 (left - k * size))) [
          | inl f ↦
              (let rest : left - k * size < size =
                  omega (arith, div-add-mod left size, mod-lt left h) in
                let (r, e₁, e₂, e₃) =
                  end-EndsAt size (line + k) 0 (left - k * size) (ltb→lt 0 (left - k * size) f)
                    (omega arith) in
                rw e
                  (r, last_cons _ (end_range (line + k) 0 (left - k * size)) e₁, omega arith, e₃))
          | inr f ↦
              (let none_left : left ≡ k * size =
                  omega (arith, ltb-false→le 0 (left - k * size) f) in
                let up : suc (line + k - 1) * size ≡ (line + k) * size =
                  ap (λ j. j * size) (omega arith) in
                rw (e, f) (_, refl, omega arith, omega arith))
        ])
]

line-EndsAt :
    (size line place target : ℕ)
    → place < size
    → 0 < target
    → EndsAt size (line * size + place + target) (line_ranges size line place target)
line-EndsAt size line zero target h l =
    let goal : line * size + 0 + target ≡ line * size + target = omega arith in
    rw goal (full-EndsAt size line target h l)
line-EndsAt size line (suc p) target h l = elim (Bool-cases (ltb (size - suc p) target)) [
  | inl e ↦
      (let more = ltb→lt (size - suc p) target e in
        let rest : ℕ = target - (size - suc p) in
        let (r, e₁, e₂, e₃) = full-EndsAt size (suc line) rest (omega arith) (omega arith) in
        let next : suc line * size ≡ line * size + size = omega arith in
        rw (suc-ne-zero p, e)
          (r, last_cons _ (full_ranges size (suc line) 0 rest) e₁, omega arith, e₃))
  | inr e ↦
      (let few = ltb-false→le (size - suc p) target e in
        rw (suc-ne-zero p, e, lt→leb-false size target (omega arith))
          (end-EndsAt size line (suc p) target l (omega arith)))
]

-- The core after the last one of a range.
next_core-number :
    (size : ℕ) (r : Range)
    → r.last_place < size
    → ((next_core size r).0 * size + (next_core size r).1 ≡ suc (r.last_line * size + r.last_place))
      × ((next_core size r).1 < size)
next_core-number size r h = elim (Bool-cases (r.last_place == size - 1)) [
  | inl e ↦
      (let last : r.last_place ≡ size - 1 = ==→eq r.last_place (size - 1) e in
        let up : (r.last_line + 1) * size ≡ r.last_line * size + size = omega arith in
        rw e (omega arith, omega arith))
  | inr e ↦ (let inner : r.last_place < size - 1 = ground arith in rw e (omega arith, omega arith))
]

ranges-EndsAt :
    (lines size line place target : ℕ)
    → place < size
    → line < lines
    → 0 < target
    → line * size + place + target ≤ lines * size
    → (num_cores_to_grid_ranges lines size line place target
        ≡ ok (line_ranges size line place target))
      × EndsAt size (line * size + place + target) (line_ranges size line place target)
unfolding num_cores_to_grid_ranges
ranges-EndsAt lines size line place target h l t e =
    let m : ℕ = lines - 1 - line in
    let all_lines : lines * size ≡ line * size + size + m * size =
      ap (λ k. k * size) (omega arith) ∙ spread m in
    let fits : target ≤ m * size + (size - place) = omega arith in
    (
      rw (lt→ltb place size h, lt→ltb line lines l, le→leb target (m * size + (size - place)) fits)
          refl,
      line-EndsAt size line place target h t,
    )
  where
    spread : (m : ℕ) → (line + 1 + m) * size ≡ line * size + size + m * size
    spread m = omega arith

few-assigned :
    (lines size units : ℕ)
    → 0 < lines
    → 0 < size
    → 0 < units
    → units ≤ lines * size
    → (s : Split) × (first_units lines size units ≡ ok s) × (assigned size s ≡ units)
few-assigned lines size units hl hs hu h =
    let (e, (r, e₁, e₂, e₃)) = ranges-EndsAt lines size 0 0 units hs hl hu (omega arith) in
    (one_each units (r.last_line, r.last_place), rw (e, e₁) refl, omega arith)

shares : (m n w : ℕ) → m ≤ n → m * (w + 1) + (n - m) * w ≡ n * w + m
shares m n w h =
    let k : ℕ = n - m in let e : n ≡ m + k = omega arith in expand k ∙ ap (λ j. j * w + m) (sym e)
  where
    expand : (k : ℕ) → m * (w + 1) + k * w ≡ (m + k) * w + m
    expand k = omega arith

even-assigned :
    (lines size units : ℕ)
    → 0 < lines
    → 0 < size
    → (units % (lines * size) == 0) ≡ true
    → (s : Split) × (split_lines lines size units ≡ ok s) × (assigned size s ≡ units)
unfolding split_lines
even-assigned lines size units hl hs e =
    let total : ℕ = lines * size in
    let whole : units % total ≡ 0 = ==→eq (units % total) 0 e in
    let last : (lines - 1) * size + size ≡ total = last_line in
    let count : suc ((lines - 1) * size + (size - 1)) - (0 * size + 0) ≡ total = omega arith in
    let divided : total * (units / total) + 0 * 0 ≡ units =
      omega (arith, div-add-mod units total, whole) in
    rw e (_, refl, ap (λ k. k * (units / total) + 0 * 0) count ∙ divided)
  where
    spread : (k : ℕ) → k * size + size ≡ suc k * size
    spread k = omega arith

    last_line : (lines - 1) * size + size ≡ lines * size
    last_line = spread (lines - 1) ∙ ap (λ k. k * size) (omega arith)

uneven-assigned :
    (lines size units : ℕ)
    → 0 < lines
    → 0 < size
    → (units % (lines * size) == 0) ≡ false
    → (s : Split) × (split_lines lines size units ≡ ok s) × (assigned size s ≡ units)
unfolding split_lines
uneven-assigned lines size units hl hs e =
    let total : ℕ = lines * size in
    let m : ℕ = units % total in
    let w : ℕ = units / total in
    let less : m < total = mod-lt units (mul-pos hl hs) in
    let some_more : 0 < m = ground arith in
    let (f, (r, e₁, e₂, e₃)) = ranges-EndsAt lines size 0 0 m hs hl some_more (omega arith) in
    let (n₁, n₂) = next_core-number size r e₃ in
    let line : ℕ = (next_core size r).0 in
    let place : ℕ = (next_core size r).1 in
    let inside : line * size < lines * size = omega arith in
    let (f', (r', e₁', e₂', e₃')) =
      ranges-EndsAt lines size line place (total - m) n₂ (lt_of_mul-lt-mul_right size inside)
        (omega arith) (omega arith) in
    let count₁ : suc (r.last_line * size + r.last_place) - (0 * size + 0) ≡ m = omega arith in
    let count₂ : suc (r'.last_line * size + r'.last_place) - (line * size + place) ≡ total - m =
      omega arith in
    (
      two_groups total units r (next_core size r) r',
      rw (e, f, e₁, f', e₁') refl,
      ap₂ (λ a b. a * (w + 1) + b * w) count₁ count₂
          ∙ shares m total w (omega arith)
          ∙ div-add-mod units total,
    )

lines-assigned :
    (lines size units : ℕ)
    → 0 < lines
    → 0 < size
    → (s : Split) × (split_lines lines size units ≡ ok s) × (assigned size s ≡ units)
lines-assigned lines size units hl hs = elim (Bool-cases (units % (lines * size) == 0)) [
  | inl e ↦ even-assigned lines size units hl hs e
  | inr e ↦ uneven-assigned lines size units hl hs e
]

divided :
    (row_wise : Bool) (y x lines size units : ℕ)
    → lines_in row_wise y x ≡ (lines, size)
    → 0 < y
    → 0 < x
    → 0 < lines
    → 0 < size
    → y * x ≡ lines * size
    → 0 < units
    → (s : Split) × (split_on row_wise units (Grid.rows y x) ≡ ok (some s))
      × (assigned size s ≡ units)
divided row_wise y x lines size units d hy hx hl hs total hu =
    elim (Bool-cases (leb units (y * x))) [
      | inl e ↦
          (let few : units ≤ y * x = leb→le units (y * x) e in
            let (s, q, a) = few-assigned lines size units hl hs hu (omega arith) in
            (s, rw (lt→ltb 0 y hy, lt→ltb 0 x hx, e, d, q) refl, a))
      | inr e ↦
          (let (s, q, a) = lines-assigned lines size units hl hs in
            (s, rw (lt→ltb 0 y hy, lt→ltb 0 x hx, e, d, q) refl, a))
    ]
