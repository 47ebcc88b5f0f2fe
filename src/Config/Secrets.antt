-- ===== src/Config/Secrets.antt =====
-- The secrets of src/config.rs against the guard of the console in src/http.rs.
use Prim.Native.String
use spritexai_pay_core.Prelude.{
  ℕ, ◌≡◌, refl, ◌<◌, ◌^◌, String, true, Option, none, some, inl, inr, arith, Option-cases,
}
use spritexai_pay_core.Crates.{Crates, HexRoundTrip, DigestEquality}
use spritexai_pay_core.Db.{World}
use spritexai_pay_core.Ai.{env_or}
use spritexai_pay_core.Auth.{token_of, verify_token}
use spritexai_pay_core.Auth.Tokens.{verify_token-token_of}
use spritexai_pay_core.Config.{Config, config_at, from_env, nonempty, parse_u16}
use spritexai_pay_core.Http.{AppState, Headers, Handler}
use spritexai_pay_core.Http.Guards.{require_auth}
use spritexai_pay_core.Http.Login.{presented_token-bearer}

-- `serve`'s state of a configuration.
unfoldable pub state_of : Config → AppState
state_of cfg = record {
  sms_hmac_secret = cfg.sms_hmac_secret;
  admin_password = cfg.admin_password;
  auth_secret = cfg.auth_secret;
  base_url = cfg.base_url;
}

-- Without a secret of its own, the console signs with the secret of the phones.
shared :
    (var : String → Option String) (cfg : Config)
    → nonempty (var "AUTH_SECRET") ≡ none
    → from_env var ≡ some cfg
    → cfg.auth_secret ≡ cfg.sms_hmac_secret
unfolding from_env
shared var cfg unset read = elim (Option-cases (parse_u16 (env_or var "PORT" "8080"))) [
  | inl e ↦ absurd (cc (rw (e, from_env) at read))
  | inr (port, e) ↦
      let made : config_at var port ≡ cfg = cc (rw (e, from_env) at read) in
      rw (← made) (rw unset refl)
]

-- Under the documented behaviour of the hex and HMAC crates, in a server that is started without
-- AUTH_SECRET: whoever has the secret that the paired phones sign with can write a bearer token of
-- any expiry that fits 64 bits, and the guard of the console lets the request through before then,
-- whatever the password.
pub require_auth-shared_secret :
    (crates : Crates) (var : String → Option String) (cfg : Config) (headers : Headers)
    (expiry now : ℕ) (next : Handler) (w : World)
    → HexRoundTrip crates
    → DigestEquality crates
    → nonempty (var "AUTH_SECRET") ≡ none
    → from_env var ≡ some cfg
    → headers "authorization"
      ≡ some (String.◌++◌ "Bearer " (token_of crates cfg.sms_hmac_secret expiry))
    → expiry < 2 ^ 64
    → now < expiry
    → require_auth crates (state_of cfg) headers now next w ≡ next w
unfolding require_auth state_of
require_auth-shared_secret crates var cfg headers expiry now next w hex digests unset read header
      fits early =
    let same = shared var cfg unset read in
    let accepted : verify_token crates now cfg.auth_secret
          (token_of crates cfg.sms_hmac_secret expiry)
        ≡ true =
      rw same (
        rw (verify_token-token_of crates hex digests cfg.sms_hmac_secret expiry now fits)
          (ground arith)) in
    rw (presented_token-bearer headers (token_of crates cfg.sms_hmac_secret expiry) header)
      (rw accepted (ground arith))
