-- ===== src/BlockAllocation/Found.antt =====
-- python/utils/block_allocation.py: parameters of a matrix multiplication are found where the grid
-- has a core for each tile.
use native.Mathlib.Nat.{div-le_self, mul-pos, mul_comm, le-mul_of_pos_right}
use tt_lang.Prelude.{
  ℕ, ◌*◌, ◌≤◌, ◌<◌, ◌≡◌, ◌≢◌, refl, List, [], ◌∷◌, true, false, ltb, arith, product, has, take,
  Option-cases, inl, inr,
}
use tt_lang.BlockAllocation.Matmul.{
  no_params, fit_subblock, subblock_hw_choices, get_maximum_block_dim, too_many,
  get_possible_products, above, within, last_fitting, try_blocks, get_large_matmul_params,
}
use tt_lang.BlockAllocation.Params.{InMemory}
use tt_lang.BlockAllocation.Products.{All, get_possible_products-one}
use tt_lang.BlockAllocation.Params.{
  fit_subblock-some, fit_subblock-append, le-get_maximum_block_dim,
}

-- Each round of the third case ends the loop where single tiles are few enough for the cores.
try_blocks-found :
    (mt nt cy cx w : ℕ) (ms : List ℕ) (mpc n : ℕ) (ns : List ℕ)
    → mt ≤ cy
    → nt ≤ cx
    → has n ns ≡ true
    → try_blocks mt nt cy cx w ms mpc ns ≢ no_params
try_blocks-found mt nt cy cx w ms mpc n [] h k m e = absurd (cc)
try_blocks-found mt nt cy cx w ms mpc n (npc ∷ rest) h k m e =
    let mpc' : ℕ = last_fitting (get_maximum_block_dim npc w) mpc ms in
    let few : too_many mt nt cy cx w mpc' npc ≡ false =
      ground (arith, div-le_self mt mpc', div-le_self nt npc) in
    elim (Option-cases (fit_subblock mpc' npc subblock_hw_choices)) [
      | inl f ↦ fit_subblock-append mpc' npc (take 19 subblock_hw_choices) f
      | inr (p, f) ↦
          let r : p ≡ no_params = rw (few, f) at e in
          let s = fit_subblock-some mpc' npc subblock_hw_choices p (omega arith) f in
          ground (arith, s.4)
    ]

product-pos : (fs : List ℕ) → All (λ x. 0 < x) fs → 0 < product fs
product-pos [] a = omega arith
product-pos (f ∷ fs) a = mul-pos a.0 (product-pos fs a.1)

-- No factor is above a bound of the product.
above-nil : (n : ℕ) (fs : List ℕ) → All (λ x. 0 < x) fs → product fs ≤ n → above n fs ≡ []
above-nil n [] a h = refl
above-nil n (f ∷ fs) a h =
    let pos : 0 < product fs = product-pos fs a.1 in
    let first : f ≤ f * product fs = le-mul_of_pos_right f pos in
    let others : product fs ≤ product fs * f = le-mul_of_pos_right (product fs) a.0 in
    ground (arith, mul_comm f (product fs), above-nil n fs a.1)

-- For positive numbers of tiles, with factors that are positive and multiply to them, parameters are
-- found whenever the grid has at least as many rows and columns as there are tiles, and blocks of one
-- tile fit in the memory.
pub get_large_matmul_params-found :
    (prime_factors : ℕ → List ℕ) (mt nt num_cores_y num_cores_x in0_block_w : ℕ)
    → All (λ x. 0 < x) (prime_factors mt)
    → All (λ x. 0 < x) (prime_factors nt)
    → product (prime_factors mt) ≡ mt
    → product (prime_factors nt) ≡ nt
    → mt ≤ num_cores_y
    → nt ≤ num_cores_x
    → InMemory in0_block_w 1 1
    → get_large_matmul_params prime_factors mt nt num_cores_y num_cores_x in0_block_w ≢ no_params
unfolding get_large_matmul_params
get_large_matmul_params-found prime_factors mt nt cy cx w a b e e' h k m =
    let mem : ltb (get_maximum_block_dim 1 w) 1 ≡ false =
      ground (arith, (le-get_maximum_block_dim 1 w 1 (omega arith) (omega arith)).1 m) in
    rw
      (
        above-nil cy (prime_factors mt) a (omega arith),
        above-nil cx (prime_factors nt) b (omega arith),
        mem,
      )
      (try_blocks-found mt nt cy cx w (get_possible_products (within cy (prime_factors mt))) 1 1
        (get_possible_products (within cx (prime_factors nt))) h k
        (get_possible_products-one (within cx (prime_factors nt))))
