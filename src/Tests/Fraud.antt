-- ===== src/Tests/Fraud.antt =====
-- The amount rule of the fraud scan, with a float that computes exactly: a fraction of naturals.
use native.Mathlib.Nat.{lt-mul-div-succ}
use spritexai_pay_core.Prelude.{
  ℤ, pos, negsuc, ℕ, suc, ◌+◌, ◌*◌, ◌/◌, String, true, false, none, some, List, [], ◌∷◌, map, ◌≡◌,
  refl, arith,
}
use spritexai_pay_core.Crates.{Float64}
use spritexai_pay_core.Db.{Tables, SmsEvent, ok}
use spritexai_pay_core.Fraud.{amount_outliers}
use spritexai_pay_core.Fraud.Outliers.{total, size, CloseMean, amount_outliers-few}
use spritexai_pay_core.Tests.Outside.{quiet, no_rows, at_start}

abbrev Fraction : Type 0
Fraction = ℕ × ℕ

abbrev sum : List ℤ → ℕ
sum [] = 0
sum (pos n ∷ rest) = n + sum rest
sum (negsuc n ∷ rest) = sum rest

abbrev length : List ℤ → ℕ
length [] = 0
length (a ∷ rest) = suc (length rest)

abbrev whole : ℕ → ℕ → ℤ
whole a b = pos (a / b)

abbrev fraction_float : Float64
fraction_float = record {
  F = Fraction;
  is_finite = λ x. true;
  is_nonpositive = λ x. false;
  times_hundred = λ (a, b). (a * 100, b);
  over_hundred = λ (a, b). (a, b * 100);
  of_i64 = λ a. (sum (a ∷ []), 1);
  round_i64 = λ (a, b). whole a b;
  times_ten = λ (a, b). (10 * a, b);
  average = λ ns. (sum ns, length ns);
  parse = λ s. none;
  two_decimals = λ x. "";
}

sum-map : (ns : List ℕ) → sum (map pos ns) ≡ total ns
sum-map [] = refl
sum-map (n ∷ ns) = omega (arith, sum-map ns)

length-map : (ns : List ℕ) → length (map pos ns) ≡ size ns
length-map [] = refl
length-map (n ∷ ns) = omega (arith, length-map ns)

fraction-CloseMean : CloseMean fraction_float
fraction-CloseMean ns bound some_amount = (
  10 * total ns / size ns,
  rw (sum-map, length-map) refl,
  omega (arith, lt-mul-div-succ (10 * total ns) some_amount),
)

abbrev event : String → ℕ → SmsEvent
event id n = record {
  id = id;
  gateway = "bkash";
  txn_id = id;
  amount_minor = pos n;
  sender_msisdn = none;
  charge_id = some "c";
  raw_sha256 = "";
  matched = true;
  parse_source = "regex";
  received_at = 0;
}

-- Five payments of a taka, and one of ten thousand.
abbrev six_events : Tables
six_events = record no_rows {
  sms_events =
      event "1" 100
      ∷ event "2" 100
      ∷ event "3" 100
      ∷ event "4" 100
      ∷ event "5" 100
      ∷ event "6" 1000000
      ∷ [];
}

amount_outliers-few_example : (amount_outliers fraction_float quiet (at_start six_events)).0 ≡ ok []
amount_outliers-few_example =
    amount_outliers-few fraction_float quiet (100 ∷ 100 ∷ 100 ∷ 100 ∷ 100 ∷ 1000000 ∷ [])
      (at_start six_events) fraction-CloseMean (λ n. refl) refl (omega arith) (omega arith)
