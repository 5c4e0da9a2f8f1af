-- ===== src/BlockAllocation/Cover.antt =====
-- Which cores the ranges of `num_cores_to_grid_ranges` hold.
use tt_lang.Prelude.{
  ℕ, zero, suc, ◌+◌, ◌-◌, ◌*◌, ◌/◌, ◌≤◌, ◌<◌, ◌≡◌, refl, ap, ap₂, sym, ◌∙◌, inl, inr, List, [], ◌∷◌,
  ◌++◌, Bool-cases, ltb, leb, ok, lt→ltb, le→leb, lt→leb-false, leb-false→lt, leb→le, ltb→lt,
  ltb-false→le, suc-ne-zero, arith,
}
use mathlib.Core.List.{append-nil}
use native.Mathlib.Nat.{div-mul-le_self, le-div_iff_mul-le}
use tt_lang.BlockAllocation.{Range, end_range, full_ranges, line_ranges, num_cores_to_grid_ranges}

-- `n` numbers from `a` on.
abbrev pub upto : ℕ → ℕ → List ℕ
upto a zero = []
upto a (suc n) = a ∷ upto (suc a) n

upto-add : (a m n : ℕ) → upto a (m + n) ≡ upto a m ++ upto (a + m) n
upto-add a zero n =
    let e : zero + n ≡ n = omega arith in
    let e' : a + zero ≡ a = omega arith in ap (upto a) e ∙ ap (λ k. upto k n) (sym e')
upto-add a (suc m) n =
    let e : suc m + n ≡ suc (m + n) = omega arith in
    let shift : suc a + m ≡ a + suc m = omega arith in
    ap (upto a) e
    ∙ ap (λ r. a ∷ r) (upto-add (suc a) m n ∙ ap (λ k. upto (suc a) m ++ upto k n) shift)

-- The cores of `count` lines, in order: core `place` of line `line` has the number
-- `line * size + place`.
abbrev pub lines_of : ℕ → ℕ → ℕ → ℕ → ℕ → List ℕ
lines_of size place width line zero = []
lines_of size place width line (suc count) =
    upto (line * size + place) width ++ lines_of size place width (suc line) count

abbrev pub cores_of : ℕ → Range → List ℕ
cores_of size r =
    lines_of size r.first_place (suc r.last_place - r.first_place) r.first_line
      (suc r.last_line - r.first_line)

abbrev pub all_cores : ℕ → List Range → List ℕ
all_cores size [] = []
all_cores size (r ∷ rs) = cores_of size r ++ all_cores size rs

full_lines :
    (size count line : ℕ) → lines_of size 0 size line count ≡ upto (line * size) (count * size)
full_lines size zero line =
    let none_left : 0 ≡ zero * size = omega arith in ap (upto (line * size)) none_left
full_lines size (suc count) line =
    let e₁ : line * size + 0 ≡ line * size = omega arith in
    let e₂ : suc line * size ≡ line * size + size = omega arith in
    let e₃ : size + count * size ≡ suc count * size = omega arith in
    ap₂ (λ a r. upto a size ++ r) e₁
      (full_lines size count (suc line) ∙ ap (λ a. upto a (count * size)) e₂)
    ∙ sym (upto-add (line * size) size (count * size))
    ∙ ap (upto (line * size)) e₃

one_line :
    (size line place width : ℕ)
    → lines_of size place width line 1 ≡ upto (line * size + place) width
one_line size line place width = append-nil (upto (line * size + place) width)

end-cores :
    (size line place left : ℕ)
    → all_cores size (end_range line place left) ≡ upto (line * size + place) left
end-cores size line place zero = refl
end-cores size line place (suc left) =
    let width : suc (place + suc left - 1) - place ≡ suc left = omega arith in
    let count : suc line - line ≡ 1 = omega arith in
    rw (lt→ltb 0 (suc left) (omega arith), width, count)
      (append-nil (lines_of size place (suc left) line 1) ∙ one_line size line place (suc left))

full-cores_few :
    (size line place left : ℕ)
    → left < size
    → all_cores size (full_ranges size line place left) ≡ upto (line * size + place) left
full-cores_few size line place left h =
    rw (lt→leb-false size left h) (end-cores size line place left)

full-cores :
    (size line left : ℕ)
    → 0 < size
    → all_cores size (full_ranges size line 0 left) ≡ upto (line * size) left
full-cores size line left h = elim (Bool-cases (leb size left)) [
  | inr e ↦
      (let start : line * size + 0 ≡ line * size = omega arith in
        full-cores_few size line 0 left (leb-false→lt size left e) ∙ ap (λ a. upto a left) start)
  | inl e ↦
      (let k : ℕ = left / size in
        let long : size ≤ left = leb→le size left e in
        let some_line : 1 ≤ k = (le-div_iff_mul-le h).1 (omega arith) in
        let width : suc (size - 1) - 0 ≡ size = omega arith in
        let count : suc (line + k - 1) - line ≡ k = omega arith in
        let used : k * size ≤ left = div-mul-le_self left size in
        let start : (line + k) * size + 0 ≡ line * size + k * size = omega arith in
        let total : k * size + (left - k * size) ≡ left = omega arith in
        rw (e, width, count)
          (ap₂ (λ a b. a ++ b) (full_lines size k line)
              (end-cores size (line + k) 0 (left - k * size)
                ∙ ap (λ a. upto a (left - k * size)) start)
            ∙ sym (upto-add (line * size) (k * size) (left - k * size))
            ∙ ap (upto (line * size)) total))
]

line-cores :
    (size line place target : ℕ)
    → place < size
    → all_cores size (line_ranges size line place target) ≡ upto (line * size + place) target
line-cores size line zero target h =
    let start : line * size + 0 ≡ line * size = omega arith in
    full-cores size line target h ∙ ap (λ a. upto a target) (sym start)
line-cores size line (suc p) target h = elim (Bool-cases (ltb (size - suc p) target)) [
  | inl e ↦
      (let rest : ℕ = size - suc p in
        let more : rest < target = ltb→lt rest target e in
        let width : suc (size - 1) - suc p ≡ rest = omega arith in
        let count : suc line - line ≡ 1 = omega arith in
        let next : suc line * size ≡ line * size + suc p + rest = omega arith in
        let total : rest + (target - rest) ≡ target = omega arith in
        rw (suc-ne-zero p, e, width, count)
          (ap₂ (λ a b. a ++ b) (one_line size line (suc p) rest)
              (full-cores size (suc line) (target - rest) (omega arith)
                ∙ ap (λ a. upto a (target - rest)) next)
            ∙ sym (upto-add (line * size + suc p) rest (target - rest))
            ∙ ap (upto (line * size + suc p)) total))
  | inr e ↦
      (let few : target < size = omega (arith, ltb-false→le (size - suc p) target e) in
        rw (suc-ne-zero p, e) (full-cores_few size line (suc p) target few))
]

-- From a start within the grid, for at most the cores that are left behind it: the call succeeds,
-- and its ranges hold exactly the `target` cores from the start on, each once and in order, counted
-- along the lines.
pub num_cores_to_grid_ranges-cores :
    (lines size line place target : ℕ)
    → place < size
    → line < lines
    → target ≤ (lines - 1 - line) * size + (size - place)
    → (rs : List Range) × (num_cores_to_grid_ranges lines size line place target ≡ ok rs)
      × (all_cores size rs ≡ upto (line * size + place) target)
unfolding num_cores_to_grid_ranges
num_cores_to_grid_ranges-cores lines size line place target h l t = (
  line_ranges size line place target,
  rw
      (
        lt→ltb place size h,
        lt→ltb line lines l,
        le→leb target ((lines - 1 - line) * size + (size - place)) t,
      )
      refl,
  line-cores size line place target h,
)
