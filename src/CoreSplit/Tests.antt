-- ===== src/CoreSplit/Tests.antt =====
-- The division of work at concrete grids.
use tt_lang.Prelude.{◌≡◌, refl, [], ◌∷◌, map, true}
use tt_lang.CoreSplit.{CoreCoord, ranges, split_work_to_cores}

abbrev grid : CoreCoord
grid = record { x = 3; y = 2 }

-- Row-wise, the first two of four cores get three units instead of two.
group_1_sample :
    (split_work_to_cores
      (ranges ((record { start = record { x = 1; y = 1 }; end = record { x = 2; y = 2 } }) ∷ []))
      10
      true).core_group_1
    ≡ map
        (λ c. record { start = c; end = c })
        ((record { x = 1; y = 1 }) ∷ (record { x = 2; y = 1 }) ∷ [])
unfolding split_work_to_cores
group_1_sample = refl
