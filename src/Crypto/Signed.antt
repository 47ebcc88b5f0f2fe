-- ===== src/Crypto/Signed.antt =====
-- src/crypto.rs: `sign` and `verify` together.
use spritexai_pay_core.Prelude.{◌≡◌, refl, ◌↔◌, inl, inr, String, true, some, arith, Option-cases}
use spritexai_pay_core.Crates.{Crates, HexRoundTrip, DigestEquality}
use spritexai_pay_core.Crypto.{sign, verify}

module _ (c : Crates) where
  -- Where digests are compared exactly, a signature is accepted exactly when it decodes to the
  -- HMAC of the body under the secret.
  pub verify_iff :
      DigestEquality c
      → (secret body signature : String)
      → (verify c secret body signature ≡ true)
        ↔ (c.hex_decode signature ≡ some (c.hmac secret body))
  unfolding verify
  verify_iff d secret body signature = elim (Option-cases (c.hex_decode signature)) [
    | inl n ↦ rw (n, verify) (λ h. absurd (cc h), λ h. absurd (cc h))
    | inr (sig, e) ↦
        rw (e, verify)
          (
            λ h. rw (d.sound (c.hmac secret body) sig h) refl,
            λ h. let same : sig ≡ c.hmac secret body = ground arith in rw same (d.complete _),
          )
  ]

  -- Under the documented behaviour of the hex and HMAC crates, what `sign` writes `verify`
  -- accepts.
  pub verify-sign :
      HexRoundTrip c
      → DigestEquality c
      → (secret body : String) → verify c secret body (sign c secret body) ≡ true
  unfolding verify sign
  verify-sign h d secret body =
      rw (verify, h (c.hmac secret body)) (d.complete (c.hmac secret body))
