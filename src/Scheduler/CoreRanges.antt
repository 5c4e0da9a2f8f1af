-- ===== src/Scheduler/CoreRanges.antt =====
-- python/sim/greenlet_scheduler.py: `_format_core_ranges`, which writes the cores of a deadlock report
-- as ranges. The printing of the numbers is left out: a range is the pair of its ends.
use tt_lang.Prelude.{
  ℕ, zero, suc, ◌+◌, ◌-◌, ◌≤◌, ◌≡◌, refl, ap, ◌∙◌, inl, inr, List, [], ◌∷◌, ◌++◌, if◌then◌else◌,
  leb, ◌==◌, ==_iff, Bool-cases, count, count_up, arith,
}

-- `sorted`
abbrev pub insert : ℕ → List ℕ → List ℕ
insert x [] = x ∷ []
insert x (y ∷ ys) = if leb x y then x ∷ y ∷ ys else y ∷ insert x ys

abbrev pub sorted : List ℕ → List ℕ
sorted [] = []
sorted (x ∷ xs) = insert x (sorted xs)

-- The loop, with the range that it is in and the ranges before it.
abbrev pub core_ranges_loop : ℕ → ℕ → List ℕ → List (ℕ × ℕ)
core_ranges_loop start end [] = (start, end) ∷ []
core_ranges_loop start end (c ∷ cs) =
    if c == suc end then core_ranges_loop start c cs else (start, end) ∷ core_ranges_loop c c cs

abbrev pub ranges_of : List ℕ → List (ℕ × ℕ)
ranges_of [] = []
ranges_of (c ∷ cs) = core_ranges_loop c c cs

unfoldable pub format_core_ranges : List ℕ → List (ℕ × ℕ)
format_core_ranges cores = ranges_of (sorted cores)

abbrev pub cores_of : List (ℕ × ℕ) → List ℕ
cores_of [] = []
cores_of ((start, end) ∷ rs) = count_up start (suc end - start) ++ cores_of rs

count_up-last :
    (n start : ℕ) (cs : List ℕ)
    → count_up start (suc n) ++ cs ≡ count_up start n ++ ((start + n) ∷ cs)
count_up-last zero start cs = ap (λ c. c ∷ cs) (omega arith)
count_up-last (suc n) start cs =
    ap (λ r. start ∷ r)
      (count_up-last n (suc start) cs ∙ ap (λ c. count_up (suc start) n ++ (c ∷ cs)) (omega arith))

one : (c : ℕ) → suc c - c ≡ 1
one c = omega arith

cores_of-core_ranges_loop :
    (start end : ℕ) (cs : List ℕ)
    → start ≤ end
    → cores_of (core_ranges_loop start end cs) ≡ count_up start (suc end - start) ++ cs
cores_of-core_ranges_loop start end [] h = refl
cores_of-core_ranges_loop start end (c ∷ cs) h = elim (Bool-cases (c == suc end)) [
  | inl e ↦ rw e (
      let same : c ≡ suc end = (==_iff c (suc end)).0 e in
      let longer : suc c - start ≡ suc (suc end - start) = omega arith in
      let last : start + (suc end - start) ≡ c = omega arith in
      cores_of-core_ranges_loop start c cs (omega arith)
      ∙ ap (λ n. count_up start n ++ cs) longer
      ∙ count_up-last (suc end - start) start cs
      ∙ ap (λ d. count_up start (suc end - start) ++ (d ∷ cs)) last)
  | inr e ↦ rw e (
      ap (λ r. count_up start (suc end - start) ++ r)
        (cores_of-core_ranges_loop c c cs (omega arith) ∙ ap (λ n. count_up c n ++ cs) (one c)))
]

cores_of-ranges_of : (cs : List ℕ) → cores_of (ranges_of cs) ≡ cs
cores_of-ranges_of [] = refl
cores_of-ranges_of (c ∷ cs) =
    cores_of-core_ranges_loop c c cs (omega arith) ∙ ap (λ n. count_up c n ++ cs) (one c)

count-insert : (x y : ℕ) (ys : List ℕ) → count x (insert y ys) ≡ count x (y ∷ ys)
count-insert x y [] = refl
count-insert x y (z ∷ zs) = elim (Bool-cases (leb y z)) [
  | inl e ↦ rw e refl
  | inr e ↦ rw e (let rest = count-insert x y zs in ground arith)
]

count-sorted : (x : ℕ) (cs : List ℕ) → count x (sorted cs) ≡ count x cs
count-sorted x [] = refl
count-sorted x (c ∷ cs) =
    count-insert x c (sorted cs) ∙ ap (λ n. if x == c then suc n else n) (count-sorted x cs)

-- The ranges of a report name the given cores, each as often as it was given and no others; read back
-- they are the cores in order.
pub cores_of-format_core_ranges :
    (cores : List ℕ)
    → (cores_of (format_core_ranges cores) ≡ sorted cores)
      × ((x : ℕ) → count x (cores_of (format_core_ranges cores)) ≡ count x cores)
unfolding format_core_ranges
cores_of-format_core_ranges cores = (
  cores_of-ranges_of (sorted cores),
  λ x. ap (count x) (cores_of-ranges_of (sorted cores)) ∙ count-sorted x cores,
)
