-- ===== src/Crypto.antt =====
-- src/crypto.rs: HMAC signatures in hex.
pub mod Signed
use spritexai_pay_core.Prelude.{String, Bool, false, none, some}
use spritexai_pay_core.Crates.{Crates}

unfoldable pub sign : Crates → String → String → String
sign c secret body = c.hex_encode (c.hmac secret body)

unfoldable pub verify : Crates → String → String → String → Bool
verify c secret body signature_hex = elim (c.hex_decode signature_hex) [
  | none ↦ false
  | some sig ↦ c.same_digest (c.hmac secret body) sig
]
