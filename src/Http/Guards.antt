-- ===== src/Http/Guards.antt =====
-- src/http.rs: the two middlewares, and the base URL of a request.
use Prim.Native.String
use spritexai_pay_core.Prelude.{
  ℕ, String, Bool, true, false, Option, none, some, strip_prefix, after_first, if◌then◌else◌,
}
use spritexai_pay_core.Crates.{Crates}
use spritexai_pay_core.Db.{Env, throw, ◌>>=◌, map_err}
use spritexai_pay_core.Auth.{verify_token}
use spritexai_pay_core.Merchant.{KeyContext, verify_api_key}
use spritexai_pay_core.Http.{AppState, Headers, Handler, api_error, db_error}

abbrev pub or_text : Option String → String → String
or_text none d = d
or_text (some s) d = s

-- `.and_then(|v| v.strip_prefix("Bearer "))`
abbrev pub bearer : Option String → Option String
bearer none = none
bearer (some v) = strip_prefix "Bearer " v

abbrev or_option : Option String → Option String → Option String
or_option none b = b
or_option (some a) b = some a

abbrev pub is_none : {A : Type 0} → Option A → Bool
is_none none = true
is_none (some a) = false

-- `path.contains(p)`
abbrev contains : String → String → Bool
contains p path = elim (after_first p path) [ none ↦ false | some rest ↦ true ]

unfoldable pub required_scope : String → String
required_scope path = if contains "verify-payment" path then "verify_payment" else "create_payment"

-- The key that a request presents.
unfoldable pub presented_key : Headers → String
presented_key headers =
    or_text (or_option (headers "x-sap-api-key") (bearer (headers "authorization"))) ""

unfoldable pub resolve_base_url : AppState → Headers → String
resolve_base_url state headers = elim state.base_url [
  | some b ↦ b
  | none ↦
      String.◌++◌ (or_text (headers "x-forwarded-proto") "https")
        (String.◌++◌ "://" (or_text (headers "host") "localhost"))
]

-- The token that a request presents.
unfoldable pub presented_token : Headers → String
presented_token headers = or_text (bearer (headers "authorization")) ""

module _ (crates : Crates) (state : AppState) (headers : Headers) where
  -- At a time, in front of the handlers of the console.
  unfoldable pub require_auth : ℕ → Handler → Handler
  require_auth now next w =
      if is_none state.admin_password
      then next w
      else if verify_token crates now state.auth_secret (presented_token headers)
      then next w
      else throw (api_error 401 "authentication required") w

  -- The `match` on the checked key.
  abbrev pub admitted : Handler → Option KeyContext → Handler
  admitted next (some ctx) = next
  admitted next none = throw (api_error 401 "invalid API key or insufficient scope")

  -- In front of the handlers of a merchant's site.
  unfoldable pub require_api_key : Env → String → Handler → Handler
  require_api_key env path next = do
    ctx ← map_err db_error (verify_api_key env crates (presented_key headers) (required_scope path))
    admitted next ctx
