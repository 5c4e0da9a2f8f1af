-- ===== src/DfbApi/Tests.antt =====
-- The theorems on the pool at concrete pools.
use tt_lang.Prelude.{ℕ}
use tt_lang.DfbApi.{DfbApi, new_api}

abbrev fresh : DfbApi ℕ
fresh = new_api
