-- ===== src/Webhook/Backoff.antt =====
-- `backoff_seconds` of src/webhook.rs.
pub mod Bounds
use spritexai_pay_core.Prelude.{ℤ, pos, ℕ, ◌%◌, ◌^◌, ◌-◌, leb_ℤ, leb, ltb, u64_of, if◌then◌else◌}

-- `attempts.min(20) as u32`
abbrev pub exponent : ℤ → ℕ
exponent attempts = u64_of (if leb_ℤ attempts (pos 20) then attempts else pos 20) % 2 ^ 32

-- `2i64.saturating_pow(n)`
abbrev pub saturating_pow_two : ℕ → ℕ
saturating_pow_two n = if ltb n 63 then 2 ^ n else 2 ^ 63 - 1

unfoldable pub backoff_seconds : ℤ → ℕ
backoff_seconds attempts =
    let p = saturating_pow_two (exponent attempts) in if leb p 3600 then p else 3600
