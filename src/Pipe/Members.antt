-- ===== src/Pipe/Members.antt =====
-- `core_in_dst_range` against `expand_core_range`.
use tt_lang.Prelude.{
  ℤ, pos, negsuc, distance, int_lt, int_le, same_int, ℕ, zero, suc, ◌+◌, ◌-◌, ◌≤◌, ◌<◌, ◌≡◌, refl,
  ap, ap₂, sym, ◌∙◌, inl, inr, List, [], ◌∷◌, ◌++◌, map, Bool, true, false, ◌&&◌, ◌||◌, ltb, ◌==◌,
  Bool-cases, Outcome, ok, bind_ok, bind_ok-eq-ok, ok-injective, length, length-append,
  length-replicate, length-take, length-drop, ltb→lt, ltb-false→le, ==→eq, suc-ne-zero, and-true,
  take, drop, replicate, product, arith, if◌then◌else◌,
}
use tt_lang.CoreContext.{
  CoreCoord, coord_of, as_coord, core, core_dims, flatten_first, flatten_coords, all_coords,
  grid_size, grid_dims,
}
use tt_lang.Pipe.{
  Item, Dst, or_else, to_tuple, item_range, dim_ranges, cartesian, expand_core_range, same_core,
  Target, target_of, py_range, upward, in_steps, in_item, in_items, any_slice, core_in_dst_range,
}
use tt_lang.Pipe.Range.{elem, elem-upward, elem_list, all_in, elem-cartesian_all}

-- No step is 0 or negative.
abbrev positive_step : Item → Bool
positive_step (Item.fixed k) = true
positive_step (Item.slice start stop step) = int_lt (pos 0) (or_else step (pos 1))

abbrev pub positive_steps : List Item → Bool
positive_steps [] = true
positive_steps (x ∷ xs) = positive_step x && positive_steps xs

abbrev pub elem_coord : CoreCoord → List Target → Bool
elem_coord c [] = false
elem_coord c (d ∷ ds) = same_core c d || elem_coord c ds

slice-elem :
    (start stop step : ℤ) (c : ℕ)
    → int_lt (pos 0) step ≡ true
    → (r : List ℤ) × (py_range start stop step ≡ ok r)
      × ((if int_le start (pos c) && int_lt (pos c) stop
            then in_steps step (distance start (pos c))
            else ok false)
          ≡ ok (elem c r))
slice-elem start stop (negsuc step) c h = absurd (cc)
slice-elem start stop (pos step) c h =
    let steps : 0 < step = ltb→lt 0 step h in
    let some_steps : (step == 0) ≡ false = ground arith in
    (
      upward start stop step,
      rw some_steps refl,
      elim (Bool-cases (int_le start (pos c) && int_lt (pos c) stop)) [
        | inl e ↦ rw (e, some_steps) refl
        | inr e ↦ rw e refl
      ]
          ∙ ap ok (sym (elem-upward start stop step c steps)),
    )

in_item-elem :
    (x : Item) (size c : ℕ)
    → positive_step x ≡ true
    → (r : List ℤ) × (item_range x size ≡ ok r) × (in_item x size c ≡ ok (elem c r))
in_item-elem (Item.fixed k) size c h = (k ∷ [], refl, ground arith)
in_item-elem (Item.slice start stop step) size c h =
    slice-elem (or_else start (pos 0)) (or_else stop (pos size)) (or_else step (pos 1)) c h

in_items-all_in :
    (xs : List Item) (sizes cs : List ℕ)
    → positive_steps xs ≡ true
    → length sizes ≡ length xs
    → length cs ≡ length xs
    → (rs : List (List ℤ)) × (dim_ranges xs sizes ≡ ok rs)
      × (in_items xs sizes cs ≡ ok (all_in cs rs))
      × (length rs ≡ length xs)
in_items-all_in [] sizes [] h l k = ([], refl, refl, refl)
in_items-all_in [] sizes (c ∷ cs) h l k = absurd (omega arith)
in_items-all_in (x ∷ xs) [] cs h l k = absurd (omega arith)
in_items-all_in (x ∷ xs) (size ∷ sizes) [] h l k = absurd (omega arith)
in_items-all_in (x ∷ xs) (size ∷ sizes) (c ∷ cs) h l k =
    let (r, e₁, e₂) = in_item-elem x size c (ground arith) in
    let (rs, f₁, f₂, f₃) = in_items-all_in xs sizes cs (ground arith) (omega arith) (omega arith) in
    (r ∷ rs, rw (e₁, f₁) refl, rw (e₂, f₂) (ground arith), ap suc f₃)

module _ (n : ℕ) (grid coords : List ℕ) where
  padded : List ℕ
  padded = coords ++ replicate (suc n - length coords) 0

  length-core_dims : (cs : List ℕ) → core_dims (suc n) grid coords ≡ ok cs → length cs ≡ suc n
  unfolding padded
  length-core_dims cs h =
      let tested : Bool → Outcome (List ℕ) =
        λ b. if b then flatten_first (suc n) grid coords else ok padded in
      elim (Bool-cases (ltb (suc n) (length coords))) [
        | inl e ↦
            (let (f, e₁, e₂) =
                bind_ok-eq-ok (flatten_coords grid (take (length coords - n) coords))
                  (λ f. ok (f ∷ drop (length coords - n) coords)) (sym (ap tested e) ∙ h) in
              let fewer : suc n < length coords = ltb→lt (suc n) (length coords) e in
              ap length (sym (ok-injective e₂))
              ∙ ap suc (length-drop (length coords - n) coords)
              ∙ omega arith)
        | inr e ↦
            (let k : ok padded ≡ ok cs = sym (ap tested e) ∙ h in
              let more : length coords ≤ suc n = ltb-false→le (suc n) (length coords) e in
              ap length (sym (ok-injective k))
              ∙ length-append coords (replicate (suc n - length coords) 0)
              ∙ ap (λ m. length coords + m) (length-replicate (suc n - length coords) 0)
              ∙ omega arith)
      ]

length-grid_dims : (n : ℕ) (grid : List ℕ) → length (grid_dims (suc n) grid) ≡ suc n
length-grid_dims n grid = elim (Bool-cases (suc n == length grid)) [
  | inl e ↦ rw e (sym (==→eq (suc n) (length grid) e))
  | inr e ↦ elim (Bool-cases (ltb (suc n) (length grid))) [
    | inl l ↦
        (let fewer : suc n < length grid = ltb→lt (suc n) (length grid) l in
          let pred : suc n - 1 ≡ n = omega arith in
          rw (e, l, pred)
            (length-append (take n grid) (product (drop n grid) ∷ [])
              ∙ ap (λ k. k + 1) (length-take n grid (omega arith))
              ∙ omega arith))
    | inr l ↦
        (let more : length grid ≤ suc n = ltb-false→le (suc n) (length grid) l in
          rw (e, l)
            (length-append grid (replicate (suc n - length grid) 1)
              ∙ ap (λ k. length grid + k) (length-replicate (suc n - length grid) 1)
              ∙ omega arith))
  ]
]

to_tuple-coord_of : (n : ℕ) (cs : List ℕ) → length cs ≡ suc n → to_tuple (coord_of (suc n) cs) ≡ cs
to_tuple-coord_of n [] h = absurd (omega arith)
to_tuple-coord_of zero (c ∷ []) h = refl
to_tuple-coord_of zero (c ∷ d ∷ cs) h = absurd (omega arith)
to_tuple-coord_of (suc n) (c ∷ cs) h = ground arith

target_of-many : (n : ℕ) (vs : List ℤ) → target_of (suc (suc n)) vs ≡ Target.numbers vs
target_of-many n [] = refl
target_of-many n (v ∷ vs) = ground arith

coord_of-many : (n : ℕ) (cs : List ℕ) → coord_of (suc (suc n)) cs ≡ CoreCoord.tuple cs
coord_of-many n [] = refl
coord_of-many n (c ∷ cs) = ground arith

elem_coord-tuples :
    (n : ℕ) (cs : List ℕ) (ls : List (List ℤ))
    → elem_coord (CoreCoord.tuple cs) (map (target_of (suc (suc n))) ls) ≡ elem_list cs ls
elem_coord-tuples n cs [] = refl
elem_coord-tuples n cs (l ∷ ls) =
    ap₂ (λ d b. same_core (CoreCoord.tuple cs) d || b) (target_of-many n l)
      (elem_coord-tuples n cs ls)

elem_coord-indices :
    (c : ℕ) (r : List ℤ)
    → elem_coord (CoreCoord.index c) (map (target_of 1) (cartesian (r ∷ []) [])) ≡ elem c r
elem_coord-indices c [] = refl
elem_coord-indices c (v ∷ vs) = ap (λ b. same_int c v || b) (elem_coord-indices c vs)

elem_coord-coord_of :
    (n : ℕ) (rs : List (List ℤ)) (cs : List ℕ)
    → length rs ≡ suc n
    → length cs ≡ suc n
    → elem_coord (coord_of (suc n) cs) (map (target_of (suc n)) (cartesian rs [])) ≡ all_in cs rs
elem_coord-coord_of zero (r ∷ []) (c ∷ []) h l = elem_coord-indices c r ∙ sym (and-true (elem c r))
elem_coord-coord_of zero [] cs h l = absurd (omega arith)
elem_coord-coord_of zero (r ∷ r' ∷ rs) cs h l = absurd (omega arith)
elem_coord-coord_of zero (r ∷ []) [] h l = absurd (omega arith)
elem_coord-coord_of zero (r ∷ []) (c ∷ c' ∷ cs) h l = absurd (omega arith)
elem_coord-coord_of (suc n) rs cs h l =
    ap (λ d. elem_coord d (map (target_of (suc (suc n))) (cartesian rs []))) (coord_of-many n cs)
    ∙ elem_coord-tuples n cs (cartesian rs [])
    ∙ elem-cartesian_all rs cs

-- The result of `core` or `grid_size` in at least one dimension.
as_coord-eq :
    (n : ℕ) (cs : List ℕ) → length cs ≡ suc n → as_coord (suc n) cs ≡ ok (coord_of (suc n) cs)
as_coord-eq n [] h = absurd (omega arith)
as_coord-eq n (c ∷ cs) h = refl

core-coord_of :
    (n : ℕ) (grid : List ℕ) (cid : ℕ) (c : CoreCoord)
    → core (suc n) grid cid ≡ ok c
    → (cs : List ℕ) × (c ≡ coord_of (suc n) cs) × (length cs ≡ suc n)
unfolding core
core-coord_of n grid cid c h =
    let (cs, e₁, e₂) =
      bind_ok-eq-ok (core_dims (suc n) grid (all_coords grid cid)) (as_coord (suc n)) h in
    let size : length cs ≡ suc n = length-core_dims n grid (all_coords grid cid) cs e₁ in
    (cs, ok-injective (sym e₂ ∙ as_coord-eq n cs size), size)

grid_size-eq :
    (n : ℕ) (grid : List ℕ)
    → grid_size (suc n) grid ≡ ok (coord_of (suc n) (grid_dims (suc n) grid))
unfolding grid_size
grid_size-eq n grid =
    rw (suc-ne-zero n) (as_coord-eq n (grid_dims (suc n) grid) (length-grid_dims n grid))

module _ (grid : List ℕ) (x : Item) (xs : List Item) (rs : List (List ℤ)) where
  ranged : List (List ℤ) → Outcome (List Target)
  ranged rs' = ok (map (target_of (suc (length xs))) (cartesian rs' []))

  expand-eq :
      dim_ranges (x ∷ xs) (grid_dims (suc (length xs)) grid) ≡ ok rs
      → expand_core_range grid (x ∷ xs) ≡ ranged rs
  unfolding expand_core_range ranged
  expand-eq f =
      let n : ℕ = length xs in
      ap (λ r. bind_ok r λ t. bind_ok (dim_ranges (x ∷ xs) (to_tuple t)) ranged)
        (grid_size-eq n grid)
      ∙ ap (λ t. bind_ok (dim_ranges (x ∷ xs) t) ranged)
          (to_tuple-coord_of n (grid_dims (suc n) grid) (length-grid_dims n grid))
      ∙ ap (λ r. bind_ok r ranged) f

  in_range-eq :
      (cid : ℕ) (cs : List ℕ)
      → any_slice (x ∷ xs) ≡ true
      → core (suc (length xs)) grid cid ≡ ok (coord_of (suc (length xs)) cs)
      → length cs ≡ suc (length xs)
      → core_in_dst_range grid cid (Dst.items (x ∷ xs))
        ≡ in_items (x ∷ xs) (grid_dims (suc (length xs)) grid) cs
  unfolding core_in_dst_range
  in_range-eq cid cs h e k =
      let n : ℕ = length xs in
      rw (e, h, grid_size-eq n grid)
        (ap₂ (λ t c. in_items (x ∷ xs) t c)
          (to_tuple-coord_of n (grid_dims (suc n) grid) (length-grid_dims n grid))
          (to_tuple-coord_of n cs k))

-- For a tuple with a slice, in which no step is 0 or negative, and a core whose coordinates in that many
-- dimensions are `c`: both calls succeed, and the core is in the destination range exactly if
-- `expand_core_range` lists `c`.
pub core_in_dst_range-expand :
    (grid : List ℕ) (cid : ℕ) (xs : List Item) (c : CoreCoord)
    → any_slice xs ≡ true
    → positive_steps xs ≡ true
    → core (length xs) grid cid ≡ ok c
    → (all : List Target) × (expand_core_range grid xs ≡ ok all)
      × (core_in_dst_range grid cid (Dst.items xs) ≡ ok (elem_coord c all))
unfolding ranged
core_in_dst_range-expand grid cid [] c h p e = absurd (cc)
core_in_dst_range-expand grid cid (x ∷ xs) c h p e =
    let n : ℕ = length xs in
    let sizes : List ℕ = grid_dims (suc n) grid in
    let (cs, q, k) = core-coord_of n grid cid c e in
    let (rs, f₁, f₂, f₃) = in_items-all_in (x ∷ xs) sizes cs p (length-grid_dims n grid) k in
    let all : List Target = map (target_of (suc n)) (cartesian rs []) in
    (
      all,
      expand-eq grid x xs rs f₁,
      in_range-eq grid x xs rs cid cs h (e ∙ ap ok q) k
          ∙ f₂
          ∙ ap ok (sym (elem_coord-coord_of n rs cs f₃ k) ∙ ap (λ d. elem_coord d all) (sym q)),
    )
