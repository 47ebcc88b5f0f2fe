-- ===== src/Auth.antt =====
-- src/auth.rs: the admin's password check and the signed bearer tokens. The clock is an argument.
pub mod Tokens
use Prim.Native.String
use spritexai_pay_core.Prelude.{
  ℕ, ◌+◌, ◌*◌, ◌%◌, ◌^◌, String, Bool, false, ltb, none, some, split_once, show_ℕ, parse_u64,
  if◌then◌else◌,
}
use spritexai_pay_core.Crates.{Crates}
use spritexai_pay_core.Crypto.{sign, verify}

abbrev pub token_ttl_secs : ℕ
token_ttl_secs = 7 * 24 * 60 * 60

module _ (c : Crates) where
  unfoldable pub password_matches : String → String → String → Bool
  password_matches auth_secret admin_password submitted =
      verify c auth_secret submitted (sign c auth_secret admin_password)

  -- `format!("{expiry}.{sig}")`
  abbrev pub token_of : String → ℕ → String
  token_of auth_secret expiry =
      String.◌++◌ (show_ℕ expiry) (String.◌∷◌ "." (sign c auth_secret (show_ℕ expiry)))

  unfoldable pub issue_token : ℕ → String → String
  issue_token now auth_secret = token_of auth_secret ((now + token_ttl_secs) % 2 ^ 64)

  -- The `match` on the parsed expiry.
  unfoldable pub not_expired : ℕ → String → Bool
  not_expired now expiry_str = elim (parse_u64 expiry_str) [
    | none ↦ false
    | some expiry ↦ ltb now expiry
  ]

  unfoldable pub verify_token : ℕ → String → String → Bool
  verify_token now auth_secret token = elim (split_once b'.' token) [
    | none ↦ false
    | some (expiry_str, sig) ↦
        if verify c auth_secret expiry_str sig then not_expired now expiry_str else false
  ]
