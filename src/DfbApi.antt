-- ===== src/DfbApi.antt =====
-- python/sim/dfb.py, class DFBAPI: the pool of circular buffers, its identifiers, and the calls that
-- name a buffer by its identifier. The timeout is left out.
pub mod Pool
mod Tests
use tt_lang.Prelude.{
  all_positive, ℕ, ◌+◌, List, Option, none, some, Bool, true, not, ◌&&◌, if◌then◌else◌, ltb, Exec,
  ok, raise, runtime_error, validation_error, attribute_error, index_error, get_elem?, set,
  replicate,
}
use tt_lang.DfbState.{DfbState, new_state, host_configure_dfb}

abbrev pub max_dfbs : ℕ
max_dfbs = 32

pub record DfbApi (A : Type 0) : Type 0 where
  pub pool : List (Option (DfbState A))
  pub next_dfb_id : ℕ

-- A number of tiles is positive where there is one.
abbrev pub size_given : Option ℕ → Bool
size_given none = true
size_given (some n) = ltb 0 n

module _ {A : Type 0} where
  abbrev pub new_api : DfbApi A
  new_api = record { pool = replicate max_dfbs none; next_dfb_id = 0 }

  -- The counter goes up also where the call raises.
  unfoldable pub allocate_dfb_id : Exec (DfbApi A) ℕ
  allocate_dfb_id api =
      let next = record api { next_dfb_id = api.next_dfb_id + 1 } in
      if ltb max_dfbs (api.next_dfb_id + 1)
      then (raise runtime_error, next)
      else (ok api.next_dfb_id, next)

  -- A call on the entry that was found: None has no lock.
  abbrev pub on_entry :
      {B : Type 0} → ℕ → Exec (DfbState A) B → Option (Option (DfbState A)) → Exec (DfbApi A) B
  on_entry dfb_id m none api = (raise index_error, api)
  on_entry dfb_id m (some none) api = (raise attribute_error, api)
  on_entry dfb_id m (some (some s)) api =
      let (o, s') = m s in (o, record api { pool = set api.pool dfb_id (some s') })

  -- Each call of the API but one: `@validate_call` refuses an identifier out of range, and a number of
  -- tiles that is 0, before the pool is looked at. A call without such a number has `none`.
  unfoldable pub call_dfb : {B : Type 0} → ℕ → Option ℕ → Exec (DfbState A) B → Exec (DfbApi A) B
  call_dfb dfb_id num_tiles m api =
      if not (ltb dfb_id max_dfbs && size_given num_tiles)
      then (raise validation_error, api)
      else on_entry dfb_id m (get_elem? api.pool dfb_id) api

  -- The entry of the pool, made where there is none.
  abbrev pub entry_or_new : Option (Option (DfbState A)) → DfbState A
  entry_or_new (some (some s)) = s
  entry_or_new _ = new_state

  -- `host_configure_dfb` of the API: `@validate_call` refuses sizes that are not positive.
  unfoldable pub configure_dfb : ℕ → ℕ → List ℕ → Exec (DfbApi A) (Unit {0})
  unfolding host_configure_dfb
  configure_dfb dfb_id capacity_tiles shape api =
      if not (ltb dfb_id max_dfbs && (ltb 0 capacity_tiles && all_positive shape))
      then (raise validation_error, api)
      else (
        ok tt,
        record api {
          pool = set api.pool dfb_id (
              some (
                host_configure_dfb capacity_tiles shape
                  (entry_or_new (get_elem? api.pool dfb_id))));
        },
      )
