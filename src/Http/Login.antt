-- ===== src/Http/Login.antt =====
-- src/http.rs: `login` and the guard of the console.
use Prim.Native.Char.{code}
use Prim.Native.String
use Prim.Native.String.append
use spritexai_pay_core.Prelude.{
  ℕ, ◌+◌, ◌^◌, ◌<◌, ltb, eqb, String, Bool-cases, true, ◌≡◌, refl, inl, inr, some, strip_prefix,
  arith, if◌then◌else◌,
}
use spritexai_pay_core.Crates.{Crates, HexRoundTrip, DigestEquality}
use spritexai_pay_core.Auth.{token_ttl_secs, password_matches, issue_token, verify_token}
use spritexai_pay_core.Auth.Tokens.{verify_token-issue_token}
use spritexai_pay_core.Db.{World, ok, err}
use spritexai_pay_core.Http.{AppState, Headers, Handler, api_error, Body, reply}
use spritexai_pay_core.Http.Guards.{presented_token, require_auth}
use spritexai_pay_core.Http.Public.{login, login_with}

strip_prefix-append : (p s : String) → strip_prefix p (String.◌++◌ p s) ≡ some s
unfolding strip_prefix
strip_prefix-append String.[] s = rw append.nil refl
strip_prefix-append (String.◌∷◌ c p) s =
    let same : eqb (code c) (code c) ≡ true = ground arith in
    rw append.cons (rw same (strip_prefix-append p s))

pub presented_token-bearer :
    (headers : Headers) (token : String)
    → headers "authorization" ≡ some (String.◌++◌ "Bearer " token)
    → presented_token headers ≡ token
unfolding presented_token
presented_token-bearer headers token h =
    rw (h, presented_token) (rw (strip_prefix-append "Bearer " token) refl)

module _ (crates : Crates) (state : AppState) (admin : String)
    (set : state.admin_password ≡ some admin) where
  -- A login that answers has checked the password, and hands out the token of its time.
  login-token :
      (issued : ℕ) (password token : String) (w v : World)
      → login crates state issued password w ≡ (ok (reply 200 (Body.token token)), v)
      → token ≡ issue_token crates issued state.auth_secret
  unfolding login
  login-token issued password token w v h =
      let opened : login_with crates state issued admin password w
          ≡ (ok (reply 200 (Body.token token)), v) =
        rw (set, login) at h in
      elim (Bool-cases (password_matches crates state.auth_secret admin password)) [
        | inl good ↦ cc (rw good at opened)
        | inr bad ↦ absurd (cc (rw bad at opened))
      ]

-- Under the documented behaviour of the hex and HMAC crates, where the console has a password and
-- the seven days from the login do not pass 64 bits: the token that a login answers with opens the
-- console, as the bearer of the Authorization header, until just before seven days have passed;
-- from then on the request is answered 401 and the handler does not run.
pub require_auth-login :
    (crates : Crates) (state : AppState) (headers : Headers) (admin password token : String)
    (issued now : ℕ) (next : Handler) (before after w : World)
    → HexRoundTrip crates
    → DigestEquality crates
    → state.admin_password ≡ some admin
    → issued + token_ttl_secs < 2 ^ 64
    → login crates state issued password before ≡ (ok (reply 200 (Body.token token)), after)
    → headers "authorization" ≡ some (String.◌++◌ "Bearer " token)
    → require_auth crates state headers now next w ≡ (
        if ltb now (issued + token_ttl_secs)
        then next w
        else (err (api_error 401 "authentication required"), w))
unfolding require_auth
require_auth-login crates state headers admin password token issued now next before after w hex
      digests set fits entered header =
    let same = login-token crates state admin set issued password token before after entered in
    let accepted : verify_token crates now state.auth_secret token
        ≡ ltb now (issued + token_ttl_secs) =
      rw same (verify_token-issue_token crates hex digests state.auth_secret issued now fits) in
    rw (set, require_auth) (rw (presented_token-bearer headers token header) (rw accepted refl))
