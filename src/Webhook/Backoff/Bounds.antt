-- ===== src/Webhook/Backoff/Bounds.antt =====
-- The delays of `backoff_seconds` of src/webhook.rs.
use spritexai_pay_core.Prelude.{
  pos, Bool, true, false, inl, inr, eqb, ◌&&◌, Bool-cases, ℕ, zero, suc, ◌^◌, ◌≤◌, ◌<◌, ◌≡◌, refl,
  ltb, arith, if◌then◌else◌,
}
use spritexai_pay_core.Webhook.Backoff.{backoff_seconds, exponent}

eqb_eq : (a b : ℕ) → eqb a b ≡ true → a ≡ b
eqb_eq a b h = ground arith

-- Twenty attempts or more are counted as twenty.
exponent_large : (n : ℕ) → 20 ≤ n → exponent (pos n) ≡ 20
exponent_large n h = ground arith

large : (n : ℕ) → 20 ≤ n → backoff_seconds (pos n) ≡ 3600
unfolding backoff_seconds
large n h = rw (exponent_large n h) refl

abbrev all_below : ℕ → (ℕ → Bool) → Bool
all_below zero p = true
all_below (suc m) p = p m && all_below m p

all_below_lem : (m : ℕ) (p : ℕ → Bool) (n : ℕ) → all_below m p ≡ true → n < m → p n ≡ true
all_below_lem zero p n h b = absurd (omega arith)
all_below_lem (suc m) p n h b = elim (Bool-cases (eqb n m)) [
  | inl here ↦ let same : n ≡ m = ground arith in rw same (ground arith)
  | inr other ↦ all_below_lem m p n (ground arith) (ground arith)
]

-- The closed form of the delays, up to twenty attempts.
abbrev agrees : ℕ → Bool
agrees n = eqb (backoff_seconds (pos n)) (if ltb n 12 then 2 ^ n else 3600)

agrees_20 : all_below 20 agrees ≡ true
unfolding backoff_seconds
agrees_20 = refl

-- After n failed attempts the delay is 2^n seconds while n is below twelve, and an hour from then
-- on.
pub backoff_seconds_lem : (n : ℕ) → backoff_seconds (pos n) ≡ (if ltb n 12 then 2 ^ n else 3600)
backoff_seconds_lem n = elim (Bool-cases (ltb n 20)) [
  | inl below ↦
      let agree : agrees n ≡ true = all_below_lem 20 agrees n agrees_20 (ground arith) in
      eqb_eq _ _ agree
  | inr above ↦ let far : ltb n 12 ≡ false = ground arith in rw far (large n (ground arith))
]
