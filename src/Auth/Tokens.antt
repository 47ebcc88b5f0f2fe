-- ===== src/Auth/Tokens.antt =====
-- The bearer tokens and the password of src/auth.rs.
use spritexai_pay_core.Prelude.{
  ℕ, sym, ap, ◌∙◌, ◌+◌, ◌%◌, ◌^◌, ◌<◌, ◌≡◌, refl, ◌↔◌, String, true, ltb, some, show_ℕ, arith,
}
use spritexai_pay_core.Prelude.Text.Numbers.{parse-show, split_once-show}
use spritexai_pay_core.Crates.{Crates, HexRoundTrip, DigestEquality}
use spritexai_pay_core.Crypto.{sign}
use spritexai_pay_core.Crypto.Signed.{verify_iff, verify-sign}
use spritexai_pay_core.Auth.{
  token_ttl_secs, token_of, issue_token, not_expired, verify_token, password_matches,
}

module _ (c : Crates) (h : HexRoundTrip c) (d : DigestEquality c) where
  -- A token of a given expiry is good until just before it.
  pub verify_token-token_of :
      (secret : String) (expiry now : ℕ)
      → expiry < 2 ^ 64
      → verify_token c now secret (token_of c secret expiry) ≡ ltb now expiry
  unfolding verify_token not_expired
  verify_token-token_of secret expiry now b =
      rw (verify_token, split_once-show expiry "." (sign c secret (show_ℕ expiry)) refl)
        (rw (verify-sign c h d secret (show_ℕ expiry)) (rw (not_expired, parse-show expiry b) refl))

  -- Under the documented behaviour of the hex and HMAC crates, a token issued at one time is
  -- accepted at another exactly while seven days have not passed, as long as its expiry fits 64
  -- bits.
  pub verify_token-issue_token :
      (secret : String) (issued now : ℕ)
      → issued + token_ttl_secs < 2 ^ 64
      → verify_token c now secret (issue_token c issued secret) ≡ ltb now (issued + token_ttl_secs)
  unfolding issue_token
  verify_token-issue_token secret issued now b =
      let fits : (issued + token_ttl_secs) % 2 ^ 64 ≡ issued + token_ttl_secs = omega arith in
      rw fits (verify_token-token_of secret (issued + token_ttl_secs) now b)

  -- Under the documented behaviour of the hex and HMAC crates, a password is accepted exactly when
  -- it has the HMAC of the configured one.
  pub password_matches_iff :
      (secret admin_password submitted : String)
      → (password_matches c secret admin_password submitted ≡ true)
        ↔ (c.hmac secret admin_password ≡ c.hmac secret submitted)
  unfolding password_matches sign
  password_matches_iff secret admin_password submitted =
      let iff = verify_iff c d secret submitted (sign c secret admin_password) in
      let decoded = h (c.hmac secret admin_password) in
      (
        λ e.
            let at : some (c.hmac secret admin_password) ≡ some (c.hmac secret submitted) =
              sym decoded ∙ iff.0 e in
            ground arith,
        λ e. iff.1 (decoded ∙ ap (λ x. some x) e),
      )
