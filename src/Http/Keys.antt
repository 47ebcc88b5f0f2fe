-- ===== src/Http/Keys.antt =====
-- src/http.rs: the guard of the merchants' routes.
use spritexai_pay_core.Prelude.{String, true, ◌≡◌, inl, inr, Option, none, some}
use spritexai_pay_core.Crates.{Crates}
use spritexai_pay_core.Db.{Result, ok, Env, World, any, map_err}
use spritexai_pay_core.Db.Exec.{bind_cases, map_err_inv}
use spritexai_pay_core.Merchant.{KeyContext, verify_api_key}
use spritexai_pay_core.Merchant.Access.{grants, verify_api_key-granted}
use spritexai_pay_core.Http.{AppState, Headers, Handler, Response, ApiError, db_error}
use spritexai_pay_core.Http.Guards.{presented_key, required_scope, require_api_key, admitted}

module _ (crates : Crates) (state : AppState) (headers : Headers) (env : Env) (path : String)
    (next : Handler) (w : World) where
  abbrev pub checked : Result ApiError (Option KeyContext) × World
  checked =
      map_err db_error (verify_api_key env crates (presented_key headers) (required_scope path)) w

  -- What a check that has ended says of the key.
  ended :
      (ctx : Option KeyContext) (r : Response)
      → (verify_api_key env crates (presented_key headers) (required_scope path) w).0 ≡ ok ctx
      → (admitted crates state headers next ctx checked.1).0 ≡ ok r
      → (k : KeyContext) × (any
            (grants crates (presented_key headers) (required_scope path) k)
            w.db.api_keys
          ≡ true)
        × ((next checked.1).0 ≡ ok r)
  ended none r h a = absurd (cc a)
  ended (some k) r h a =
      (k, verify_api_key-granted crates (presented_key headers) (required_scope path) env k w h, a)

-- A merchant's route answers with a result of its handler only when the table holds an active key
-- whose digest is that of the key that the request presents and whose scopes hold the one that the
-- path requires; the result is then that of the handler, run right after the check.
pub require_api_key-granted :
    (crates : Crates) (state : AppState) (headers : Headers) (env : Env) (path : String)
    (next : Handler) (w : World) (r : Response)
    → (require_api_key crates state headers env path next w).0 ≡ ok r
    → (k : KeyContext) × (any
          (grants crates (presented_key headers) (required_scope path) k)
          w.db.api_keys
        ≡ true)
      × ((next (checked crates state headers env path next w).1).0 ≡ ok r)
unfolding require_api_key
require_api_key-granted crates state headers env path next w r h =
    let check = verify_api_key env crates (presented_key headers) (required_scope path) in
    elim (bind_cases (admitted crates state headers next) (map_err db_error check) w) [
      | inl (e, failed, p) ↦ absurd (cc (rw p at h))
      | inr (ctx, passed, p) ↦
          ended crates state headers env path next w ctx r (map_err_inv db_error check w passed)
            (rw p at h)
    ]
