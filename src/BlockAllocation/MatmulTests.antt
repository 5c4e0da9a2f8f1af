-- ===== src/BlockAllocation/MatmulTests.antt =====
-- The parameters of matrix multiplications at concrete sizes.
use tt_lang.Prelude.{ℕ, ◌≡◌, ◌≢◌, ◌⊎◌, refl, List, [], ◌∷◌, arith, if◌then◌else◌, ◌==◌}
use tt_lang.BlockAllocation.Matmul.{
  get_large_matmul_params, no_params, get_possible_products, get_maximum_block_dim,
}
use tt_lang.BlockAllocation.Params.{Fits, get_large_matmul_params-Fits}
use tt_lang.BlockAllocation.Found.{get_large_matmul_params-found}

abbrev factors : ℕ → List ℕ
factors n =
    if n == 6
    then 2 ∷ 3 ∷ []
    else if n == 22
    then 2 ∷ 11 ∷ []
    else if n == 8
    then 2 ∷ 2 ∷ 2 ∷ []
    else if n == 1024
    then 2 ∷ 2 ∷ 2 ∷ 2 ∷ 2 ∷ 2 ∷ 2 ∷ 2 ∷ 2 ∷ 2 ∷ []
    else []

products_of_twelve : get_possible_products (2 ∷ 2 ∷ 3 ∷ []) ≡ 1 ∷ 2 ∷ 3 ∷ 4 ∷ 6 ∷ 12 ∷ []
unfolding get_possible_products
products_of_twelve = refl

large_factor :
    get_large_matmul_params factors 22 6 8 8 1
    ≡ record { block_h = 11; block_w = 6; subblock_h = 1; subblock_w = 6 }
unfolding get_large_matmul_params get_possible_products get_maximum_block_dim
large_factor = refl

-- The height that an earlier width left is kept where no height fits in the memory: 2 and 128 tiles
-- need 776 of the 400 tiles.
too_large_for_memory :
    get_large_matmul_params factors 8 1024 8 8 2
    ≡ record { block_h = 2; block_w = 128; subblock_h = 2; subblock_w = 4 }
unfolding get_large_matmul_params get_possible_products get_maximum_block_dim
too_large_for_memory = refl

get_large_matmul_params-Fits_example :
    (get_large_matmul_params factors 22 6 8 8 1 ≡ no_params)
    ⊎ Fits 22 6 8 8 1 (get_large_matmul_params factors 22 6 8 8 1)
get_large_matmul_params-Fits_example =
    get_large_matmul_params-Fits factors 22 6 8 8 1 (omega arith) (omega arith) refl refl

get_large_matmul_params-found_example : get_large_matmul_params factors 6 8 6 8 4 ≢ no_params
get_large_matmul_params-found_example =
    get_large_matmul_params-found factors 6 8 6 8 4 (omega arith) (omega arith) refl refl
      (omega arith) (omega arith) (omega arith)
