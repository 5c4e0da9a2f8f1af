-- ===== src/BlockAllocation/Matmul.antt =====
-- python/utils/block_allocation.py: the blocks and subblocks of a matrix multiplication.
--
-- The prime factors of a number, with their multiplicities and in order, are the parameter
-- `prime_factors`: they come from `sympy.factorint`.
use tt_lang.Prelude.{
  ℕ, ◌+◌, ◌-◌, ◌*◌, ◌/◌, ◌%◌, List, [], ◌∷◌, map, Option, none, some, Bool, ◌&&◌, ◌||◌,
  if◌then◌else◌, ltb, leb, ◌==◌, product,
}

-- A sorted list without repetitions, as `sorted(list(set))` gives it.
abbrev pub insert_sorted : ℕ → List ℕ → List ℕ
insert_sorted x [] = x ∷ []
insert_sorted x (y ∷ ys) =
    if x == y then y ∷ ys else if ltb x y then x ∷ y ∷ ys else y ∷ insert_sorted x ys

abbrev pub insert_all : List ℕ → List ℕ → List ℕ
insert_all [] ys = ys
insert_all (x ∷ xs) ys = insert_sorted x (insert_all xs ys)

-- The loop over the factors: the set is kept in order.
abbrev pub products_from : List ℕ → List ℕ → List ℕ
products_from [] unique_products = unique_products
products_from (p ∷ factors) unique_products =
    products_from factors (insert_all (map (λ (x : ℕ). x * p) unique_products) unique_products)

unfoldable pub get_possible_products : List ℕ → List ℕ
get_possible_products factors = products_from factors (1 ∷ [])

-- The division of a negative number is negative, or by 0 where both arguments are 0: then the source
-- raises a ZeroDivisionError, and 0 is returned here.
unfoldable pub get_maximum_block_dim : ℕ → ℕ → ℕ
get_maximum_block_dim block_dim in0_block_w =
    (400 - 2 * in0_block_w * block_dim) / (2 * in0_block_w + block_dim)

abbrev pub subblock_hw_choices : List (ℕ × ℕ)
subblock_hw_choices =
    (4, 2)
    ∷ (2, 4)
    ∷ (8, 1)
    ∷ (1, 8)
    ∷ (7, 1)
    ∷ (1, 7)
    ∷ (3, 2)
    ∷ (2, 3)
    ∷ (6, 1)
    ∷ (1, 6)
    ∷ (5, 1)
    ∷ (1, 5)
    ∷ (2, 2)
    ∷ (4, 1)
    ∷ (1, 4)
    ∷ (3, 1)
    ∷ (1, 3)
    ∷ (2, 1)
    ∷ (1, 2)
    ∷ (1, 1)
    ∷ []

pub record MatmulParams : Type 0 where
  pub block_h : ℕ
  pub block_w : ℕ
  pub subblock_h : ℕ
  pub subblock_w : ℕ

abbrev pub no_params : MatmulParams
no_params = record { block_h = 0; block_w = 0; subblock_h = 0; subblock_w = 0 }

-- The loop over the choices: the first that divides the block, or `none` after the last.
abbrev pub fit_subblock : ℕ → ℕ → List (ℕ × ℕ) → Option MatmulParams
fit_subblock mpc npc [] = none
fit_subblock mpc npc ((h, w) ∷ rest) =
    if (mpc % h == 0) && (npc % w == 0)
    then some record { block_h = mpc; block_w = npc; subblock_h = h; subblock_w = w }
    else fit_subblock mpc npc rest

-- `[f for f in factors if f > n]` and `[f for f in factors if f <= n]`
abbrev pub above : ℕ → List ℕ → List ℕ
above n [] = []
above n (f ∷ fs) = if ltb n f then f ∷ above n fs else above n fs

abbrev pub within : ℕ → List ℕ → List ℕ
within n [] = []
within n (f ∷ fs) = if leb f n then f ∷ within n fs else within n fs

-- The loop that enlarges a block until the first element that does not fit.
abbrev pub grow : ℕ → ℕ → ℕ → List ℕ → ℕ
grow least most block [] = block
grow least most block (ele ∷ rest) =
    if leb (ele * least) most then grow least most (ele * least) rest else block

-- The loop of the third case, which goes on to the end.
abbrev pub last_fitting : ℕ → ℕ → List ℕ → ℕ
last_fitting most block [] = block
last_fitting most block (ele ∷ rest) = last_fitting most (if leb ele most then ele else block) rest

module _ (mt nt num_cores_y num_cores_x in0_block_w : ℕ) where
  -- Whether the blocks are more than the cores.
  abbrev pub too_many : ℕ → ℕ → Bool
  too_many mpc npc = ltb num_cores_y (mt / mpc) || ltb num_cores_x (nt / npc)

  abbrev pub or_no_params : Option MatmulParams → MatmulParams
  or_no_params none = no_params
  or_no_params (some p) = p

  -- The end of the first two cases.
  abbrev pub finish : ℕ → ℕ → MatmulParams
  finish mpc npc =
      if too_many mpc npc
      then no_params
      else or_no_params (fit_subblock mpc npc subblock_hw_choices)

  -- The loop of the third case over the choices for `npc`. The block of the rows that an earlier
  -- round left is kept where none fits.
  abbrev pub try_blocks : List ℕ → ℕ → List ℕ → MatmulParams
  try_blocks mpc_choices mpc [] = no_params
  try_blocks mpc_choices mpc (npc ∷ rest) =
      let mpc' = last_fitting (get_maximum_block_dim npc in0_block_w) mpc mpc_choices in
      let later = try_blocks mpc_choices mpc' rest in
      if too_many mpc' npc
      then later
      else elim (fit_subblock mpc' npc subblock_hw_choices) [ none ↦ later | some p ↦ p ]

  -- The three cases, for the least blocks and the factors that are left.
  abbrev pub choose : ℕ → ℕ → List ℕ → List ℕ → MatmulParams
  choose mpc_min npc_min mt_fac nt_fac =
      if ltb (get_maximum_block_dim mpc_min in0_block_w) npc_min
      then no_params
      else if ltb 1 mpc_min
      then finish mpc_min (
          grow npc_min (get_maximum_block_dim mpc_min in0_block_w) npc_min
            (get_possible_products nt_fac))
      else if ltb 1 npc_min
      then finish
          (grow mpc_min (get_maximum_block_dim npc_min in0_block_w) mpc_min
            (get_possible_products mt_fac))
          npc_min
      else try_blocks (get_possible_products mt_fac) mpc_min (get_possible_products nt_fac)

unfoldable pub get_large_matmul_params : (ℕ → List ℕ) → ℕ → ℕ → ℕ → ℕ → ℕ → MatmulParams
unfolding get_possible_products get_maximum_block_dim
get_large_matmul_params prime_factors mt nt num_cores_y num_cores_x in0_block_w =
    choose mt nt num_cores_y num_cores_x in0_block_w
      (product (above num_cores_y (prime_factors mt)))
      (product (above num_cores_x (prime_factors nt))) (within num_cores_y (prime_factors mt))
      (within num_cores_x (prime_factors nt))
