-- ===== src/BlockAllocation/Params.antt =====
-- python/utils/block_allocation.py: the parameters of a matrix multiplication fit the matrices, the
-- cores and the memory.
use native.Mathlib.Nat.{le-div_iff_mul-le, mod-one, mul-pos, mul_comm}
use tt_lang.Prelude.{
  ℕ, ◌+◌, ◌-◌, ◌*◌, ◌/◌, ◌%◌, ◌≤◌, ◌<◌, ◌≡◌, ◌≢◌, ◌⊎◌, ◌↔◌, refl, sym, ◌∙◌, subst, List, [], ◌∷◌,
  ◌++◌, true, false, ltb, ◌==◌, arith, product, has, ltb-false→le, Bool-cases, Option-cases, inl,
  inr, none, some, ==→eq,
}
use tt_lang.BlockAllocation.Matmul.{
  MatmulParams, no_params, fit_subblock, subblock_hw_choices, get_maximum_block_dim, too_many,
  finish, get_possible_products, above, within, grow, last_fitting, try_blocks, choose,
  get_large_matmul_params,
}
use tt_lang.BlockAllocation.Products.{
  All, Divides, All-last_fitting, get_possible_products-Divides, get_possible_products-one,
  last_fitting-has, grow-le, grow-Divides, product-above-within, All-within, product-above-pos,
}

-- A pair of a block's sides fits in memory.
abbrev pub InMemory : ℕ → ℕ → ℕ → Type 0
InMemory in0_block_w h w = 2 * in0_block_w * h + 2 * in0_block_w * w + h * w ≤ 400

-- Blocks tile the output and subblocks tile a block. There are no more blocks than cores. A subblock
-- has 8 tiles at most.
pub record Fits (mt nt num_cores_y num_cores_x in0_block_w : ℕ) (p : MatmulParams) : Type 0 where
  pub tiles_h : Divides mt p.block_h
  pub tiles_w : Divides nt p.block_w
  pub sub_h : p.block_h % p.subblock_h ≡ 0
  pub sub_w : p.block_w % p.subblock_w ≡ 0
  pub sub_pos : 0 < p.subblock_h * p.subblock_w
  pub sub_size : p.subblock_h * p.subblock_w ≤ 8
  pub rows : mt / p.block_h ≤ num_cores_y
  pub columns : nt / p.block_w ≤ num_cores_x
  pub memory :
      InMemory in0_block_w p.block_h p.block_w ⊎ (get_maximum_block_dim p.block_w in0_block_w ≡ 0)

-- The greatest other side is the one that fits in memory.
pub le-get_maximum_block_dim :
    (b w x : ℕ) → 0 < b → 0 < x → (x ≤ get_maximum_block_dim b w) ↔ InMemory w b x
unfolding get_maximum_block_dim
le-get_maximum_block_dim b w x p q =
    let e : x * (2 * w + b) ≡ 2 * w * x + b * x = grind arith in
    let r : 0 < x * (2 * w + b) = mul-pos q (omega arith) in
    let d : (x ≤ (400 - 2 * w * b) / (2 * w + b)) ↔ (x * (2 * w + b) ≤ 400 - 2 * w * b) =
      le-div_iff_mul-le (omega arith) in
    ((λ h. omega (arith, d.0 h, e, r)), (λ h. d.1 (omega (arith, e, h))))

memory_comm : (w b x : ℕ) → InMemory w b x → InMemory w x b
memory_comm w b x h = omega (arith, h, mul_comm b x)

abbrev pub Small : List (ℕ × ℕ) → Type 0
Small [] = Unit
Small ((h, w) ∷ rest) = (0 < h * w) × (h * w ≤ 8) × Small rest

-- What the first choice that divides a block is.
pub fit_subblock-some :
    (mpc npc : ℕ) (choices : List (ℕ × ℕ)) (p : MatmulParams)
    → Small choices
    → fit_subblock mpc npc choices ≡ some p
    → (p.block_h ≡ mpc)
      × (p.block_w ≡ npc)
      × (p.block_h % p.subblock_h ≡ 0)
      × (p.block_w % p.subblock_w ≡ 0)
      × (0 < p.subblock_h * p.subblock_w)
      × (p.subblock_h * p.subblock_w ≤ 8)
fit_subblock-some mpc npc [] p s e = absurd (cc)
fit_subblock-some mpc npc ((h, w) ∷ rest) p s e =
    ground (arith, fit_subblock-some mpc npc rest p s.2)

-- The choice of single tiles always divides.
pub fit_subblock-append :
    (mpc npc : ℕ) (choices : List (ℕ × ℕ)) → fit_subblock mpc npc (choices ++ ((1, 1) ∷ [])) ≢ none
fit_subblock-append mpc npc [] e = ground (arith, mod-one mpc, mod-one npc)
fit_subblock-append mpc npc ((h, w) ∷ rest) e = ground (arith, fit_subblock-append mpc npc rest)

grown-Divides :
    (least most total : ℕ) (xs : List ℕ)
    → 0 < least
    → All (λ x. 0 < x) xs
    → least * product xs ≡ total
    → Divides total (grow least most least (get_possible_products xs))
grown-Divides least most total xs p a e =
    subst (λ t. Divides t (grow least most least (get_possible_products xs))) e
      (grow-Divides least most (product xs) least (get_possible_products xs) p
        (get_possible_products-Divides xs a) (p, (product xs, refl)))

All-products :
    (total : ℕ) (xs : List ℕ)
    → All (λ x. 0 < x) xs
    → 1 * product xs ≡ total
    → All (Divides total) (get_possible_products xs)
All-products total xs a e =
    subst (λ t. All (Divides t) (get_possible_products xs)) (omega (arith, e))
      (get_possible_products-Divides xs a)

module _ (mt nt num_cores_y num_cores_x in0_block_w : ℕ) where
  abbrev Good : MatmulParams → Type 0
  Good p = (p ≡ no_params) ⊎ Fits mt nt num_cores_y num_cores_x in0_block_w p

  -- A block that tiles the output and suits the memory fits once its cores are enough.
  fit_subblock-Fits :
      (mpc npc : ℕ) (p : MatmulParams)
      → Divides mt mpc
      → Divides nt npc
      → InMemory in0_block_w mpc npc ⊎ (get_maximum_block_dim npc in0_block_w ≡ 0)
      → too_many mt nt num_cores_y num_cores_x in0_block_w mpc npc ≡ false
      → fit_subblock mpc npc subblock_hw_choices ≡ some p
      → Fits mt nt num_cores_y num_cores_x in0_block_w p
  fit_subblock-Fits mpc npc p d d' m few e =
      let f = fit_subblock-some mpc npc subblock_hw_choices p (omega arith) e in
      record {
        tiles_h = subst (λ x. Divides mt x) (sym f.0) d;
        tiles_w = subst (λ x. Divides nt x) (sym f.1) d';
        sub_h = f.2;
        sub_w = f.3;
        sub_pos = f.4;
        sub_size = f.5;
        rows = rw f.0 (ground arith);
        columns = rw f.1 (ground arith);
        memory = rw (f.0, f.1) m;
      }

  finish-Good :
      (mpc npc : ℕ)
      → Divides mt mpc
      → Divides nt npc
      → InMemory in0_block_w mpc npc ⊎ (get_maximum_block_dim npc in0_block_w ≡ 0)
      → Good (finish mt nt num_cores_y num_cores_x in0_block_w mpc npc)
  finish-Good mpc npc d d' m =
      elim (Bool-cases (too_many mt nt num_cores_y num_cores_x in0_block_w mpc npc)) [
        | inl e ↦ inl (rw e refl)
        | inr e ↦ elim (Option-cases (fit_subblock mpc npc subblock_hw_choices)) [
          | inl f ↦ inl (rw (e, f) refl)
          | inr (p, f) ↦ inr (rw (e, f) (fit_subblock-Fits mpc npc p d d' m e f))
        ]
      ]

  -- The third case, for the choices of its two loops.
  try_blocks-Good :
      (ms : List ℕ) (mpc : ℕ) (ns : List ℕ)
      → All (Divides mt) ms
      → has 1 ms ≡ true
      → Divides mt mpc
      → All (Divides nt) ns
      → Good (try_blocks mt nt num_cores_y num_cores_x in0_block_w ms mpc ns)
  try_blocks-Good ms mpc [] a o d b = inl refl
  try_blocks-Good ms mpc (npc ∷ rest) a o d b =
      let mpc' = last_fitting (get_maximum_block_dim npc in0_block_w) mpc ms in
      let d' : Divides mt mpc' =
        All-last_fitting (Divides mt) (get_maximum_block_dim npc in0_block_w) mpc ms a d in
      let later : Good (try_blocks mt nt num_cores_y num_cores_x in0_block_w ms mpc' rest) =
        try_blocks-Good ms mpc' rest a o d' b.1 in
      let m : InMemory in0_block_w mpc' npc ⊎ (get_maximum_block_dim npc in0_block_w ≡ 0) =
        elim (Bool-cases (get_maximum_block_dim npc in0_block_w == 0)) [
          | inl e ↦ inr (==→eq _ _ e)
          | inr e ↦ inl (
              omega (
                arith,
                memory_comm in0_block_w npc mpc' (
                    (le-get_maximum_block_dim npc in0_block_w mpc' b.0.0 d'.0).0 (
                      last_fitting-has (get_maximum_block_dim npc in0_block_w) mpc 1 ms o
                        (ground arith))),
              ))
        ] in
      elim (Bool-cases (too_many mt nt num_cores_y num_cores_x in0_block_w mpc' npc)) [
        | inl e ↦ rw e later
        | inr e ↦ elim (Option-cases (fit_subblock mpc' npc subblock_hw_choices)) [
          | inl f ↦ rw (e, f) later
          | inr (p, f) ↦ rw (e, f) (inr (fit_subblock-Fits mpc' npc p d' b.0 m e f))
        ]
      ]

  choose-Good :
      (mpc_min npc_min : ℕ) (ms ns : List ℕ)
      → 0 < mpc_min
      → 0 < npc_min
      → All (λ x. 0 < x) ms
      → All (λ x. 0 < x) ns
      → mpc_min * product ms ≡ mt
      → npc_min * product ns ≡ nt
      → Good (choose mt nt num_cores_y num_cores_x in0_block_w mpc_min npc_min ms ns)
  choose-Good mpc_min npc_min ms ns p q a b e e' =
      let most_n : ℕ = get_maximum_block_dim mpc_min in0_block_w in
      let most_m : ℕ = get_maximum_block_dim npc_min in0_block_w in
      let ps : List ℕ = get_possible_products ms in
      let qs : List ℕ = get_possible_products ns in
      let npc : ℕ = grow npc_min most_n npc_min qs in
      let mpc : ℕ = grow mpc_min most_m mpc_min ps in
      let dm : Divides mt mpc = grown-Divides mpc_min most_m mt ms p a e in
      let dn : Divides nt npc = grown-Divides npc_min most_n nt ns q b e' in
      let le-n = le-get_maximum_block_dim mpc_min in0_block_w in
      let le-m = le-get_maximum_block_dim npc_min in0_block_w in
      elim (Bool-cases (ltb most_n npc_min)) [
        | inl f ↦ inl (rw f refl)
        | inr f ↦
            let fits : npc_min ≤ most_n = ltb-false→le most_n npc_min f in
            let fits' : mpc_min ≤ most_m =
              (le-m mpc_min q p).1
                (memory_comm in0_block_w mpc_min npc_min ((le-n npc_min p q).0 fits)) in
            elim (Bool-cases (ltb 1 mpc_min)) [
              | inl g ↦
                  rw (f, g)
                    (finish-Good mpc_min npc (p, (product ms, sym e)) dn
                      (inl ((le-n npc p dn.0).0 (grow-le npc_min most_n npc_min qs fits))))
              | inr g ↦ elim (Bool-cases (ltb 1 npc_min)) [
                | inl k ↦
                    rw (f, g, k)
                      (finish-Good mpc npc_min dm (q, (product ns, sym e'))
                        (inl (
                          memory_comm in0_block_w npc_min mpc
                            ((le-m mpc q dm.0).0 (grow-le mpc_min most_m mpc_min ps fits')))))
                | inr k ↦
                    let one : mpc_min ≡ 1 = ground arith in
                    let one' : npc_min ≡ 1 = ground arith in
                    rw (f, g, k)
                      (try_blocks-Good ps mpc_min qs (All-products mt ms a (rw one at e))
                        (get_possible_products-one ms) (p, (product ms, sym e))
                        (All-products nt ns b (rw one' at e')))
              ]
            ]
      ]

-- For positive numbers of tiles, where the factors of each are positive and multiply to it, the
-- result is that none was found, or its blocks divide the numbers of tiles, there are no more blocks
-- along a side than there are cores, its subblocks divide the blocks and have 1 to 8 tiles, and
-- two blocks of each input with one of the output fit in the 400 tiles of the memory, unless no
-- height fits beside the block's width.
pub get_large_matmul_params-Fits :
    (prime_factors : ℕ → List ℕ) (mt nt num_cores_y num_cores_x in0_block_w : ℕ)
    → All (λ x. 0 < x) (prime_factors mt)
    → All (λ x. 0 < x) (prime_factors nt)
    → product (prime_factors mt) ≡ mt
    → product (prime_factors nt) ≡ nt
    → (get_large_matmul_params prime_factors mt nt num_cores_y num_cores_x in0_block_w ≡ no_params)
      ⊎ Fits mt nt num_cores_y num_cores_x in0_block_w
          (get_large_matmul_params prime_factors mt nt num_cores_y num_cores_x in0_block_w)
unfolding get_large_matmul_params
get_large_matmul_params-Fits prime_factors mt nt cy cx w a b e e' =
    choose-Good mt nt cy cx w (product (above cy (prime_factors mt)))
      (product (above cx (prime_factors nt))) (within cy (prime_factors mt))
      (within cx (prime_factors nt)) (product-above-pos cy (prime_factors mt) a)
      (product-above-pos cx (prime_factors nt) b) (All-within (λ x. 0 < x) cy (prime_factors mt) a)
      (All-within (λ x. 0 < x) cx (prime_factors nt) b)
      (product-above-within cy (prime_factors mt) ∙ e)
      (product-above-within cx (prime_factors nt) ∙ e')
