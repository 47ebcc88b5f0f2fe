-- ===== src/Tests/Edges.antt =====
-- The theorems on the checkout, the keys, the tokens, the callbacks and the whitelist, applied.
use spritexai_pay_core.Prelude.{
  ◌==◌, pos, ℕ, ◌+ℤ◌, ◌^◌, ltb, ◌≡◌, ◌≢◌, refl, String, true, false, none, some, [], ◌∷◌, arith,
  before, after_first, strip_prefix, if◌then◌else◌,
}
use spritexai_pay_core.Db.{
  Tables, ApiKey, KeyStatus, WebhookDelivery, DeliveryStatus, ok, exec, any,
}
use spritexai_pay_core.Tests.Outside.{quiet, toy_crates, toy_float, no_rows, charge_of, at_start}
use spritexai_pay_core.Gateway.{ParsedTxn}
use spritexai_pay_core.Ai
use spritexai_pay_core.Ai.{
  AiOutside, returns, extract, try_providers, providers_from_env, env_or, parse_reply,
  parse_extraction, json_span, find, rfind, slice_inclusive, skip_chars, read_extraction,
}
use spritexai_pay_core.Ai.Valid.{Among, Answered, extract-Valid}
use spritexai_pay_core.Ai.Attempts.{Attempts}
use spritexai_pay_core.Crypto.{sign}
use spritexai_pay_core.Checkout.{CreateCheckout, create_checkout, submit_manual}
use spritexai_pay_core.Checkout.Guarded.{Created, Checked, create_checkout-Created}
use spritexai_pay_core.Checkout.Hints.{ignoring_hints, submit_manual-ignoring_hints}
use spritexai_pay_core.Domain.{host_of, is_allowed}
use spritexai_pay_core.Domain.Whitelist.{Verdict, is_allowed-Verdict}
use spritexai_pay_core.Merchant.{
  KeyContext, verify_api_key, revoke_api_key, select_active_key, stamp_key, set_revoked, admit,
  parse_scopes, key_domain,
}
use spritexai_pay_core.Merchant.Access.{grants, verify_api_key-granted, revoked_refused}
use spritexai_pay_core.Webhook.Backoff.{backoff_seconds}
use spritexai_pay_core.Webhook.Backoff.Bounds.{backoff_seconds_lem}
use spritexai_pay_core.Webhook.Worker.{Network, response, drain_due}
use spritexai_pay_core.Webhook.Worker.Attempts.{AllCapped, drain_due-AllCapped}

-- A store with one charge and one listed domain.
abbrev store : Tables
store = record no_rows {
  charges = charge_of "chg_1" (pos 500) none ∷ [];
  allowed_domains = record { id = "dom_1"; domain = "shop.example"; created_at = 0 } ∷ [];
}

abbrev request : CreateCheckout ℕ
request = record {
  full_name = none;
  email_address = none;
  mobile_number = none;
  amount = 500;
  currency = "BDT";
  return_url = some "https://shop.example/thanks";
  webhook_url = none;
  metadata = none;
}

create_checkout-Created_example :
    Created toy_float request store
      (create_checkout quiet toy_float "https://pay.example" request (at_start store))
    × Checked toy_float request store
        (create_checkout quiet toy_float "https://pay.example" request (at_start store)).0
create_checkout-Created_example =
    create_checkout-Created quiet toy_float "https://pay.example" request (at_start store)

submit_manual-ignoring_hints_example :
    ignoring_hints (submit_manual quiet "chg_1" "FAKE1" none (at_start store)).1.db
    ≡ ignoring_hints store
submit_manual-ignoring_hints_example =
    submit_manual-ignoring_hints quiet "chg_1" "FAKE1" none (at_start store)

is_allowed-Verdict_example :
    Verdict
      (some "https://shop.example/x")
      store
      (is_allowed quiet (some "https://shop.example/x") (at_start store))
is_allowed-Verdict_example =
    is_allowed-Verdict quiet (some "https://shop.example/x") (at_start store)

abbrev shop : String
shop = "shop.example"

-- A listed host before an `@` is taken for the host of the URL.
userinfo_host : host_of "https://shop.example:x@evil.example/hook" ≡ some "shop.example"
unfolding host_of after_first strip_prefix before
userinfo_host = refl

-- Two keys, one of them of the raw key "spk_1".
abbrev key : ApiKey
key = record {
  id = "ak_1";
  key_sha256 = sign toy_crates key_domain "spk_1";
  label = none;
  scopes = "[]";
  status = KeyStatus.active;
  created_at = 0;
  last_used_at = none;
}

abbrev keys : Tables
keys = record no_rows {
  api_keys = record key { id = "ak_0"; key_sha256 = sign toy_crates key_domain "spk_0" } ∷ key ∷ [];
}

abbrev admitted : KeyContext
admitted = record { id = "ak_1"; scopes = "create_payment" ∷ [] }

verified :
    (verify_api_key quiet toy_crates "spk_1" "create_payment" (at_start keys)).0
    ≡ ok (some admitted)
unfolding verify_api_key select_active_key admit parse_scopes stamp_key exec sign
verified = refl

verify_api_key-granted_example :
    any (grants toy_crates "spk_1" "create_payment" admitted) keys.api_keys ≡ true
verify_api_key-granted_example =
    verify_api_key-granted toy_crates "spk_1" "create_payment" quiet admitted (at_start keys)
      verified

-- With the other key revoked, this one is still admitted.
revoked : (revoke_api_key quiet "ak_0" (at_start keys)).0 ≡ ok true
unfolding revoke_api_key set_revoked exec
revoked = refl

still_verified :
    (verify_api_key quiet toy_crates "spk_1" "create_payment"
      (revoke_api_key quiet "ak_0" (at_start keys)).1).0
    ≡ ok (some admitted)
unfolding verify_api_key select_active_key admit parse_scopes stamp_key exec sign revoke_api_key
    set_revoked
still_verified = refl

revoked_refused_example : admitted.id ≢ "ak_0"
revoked_refused_example =
    revoked_refused quiet toy_crates "spk_1" "create_payment" "ak_0" admitted true (at_start keys)
      revoked still_verified

-- A delivery on its last attempt, and a network that answers with an error.
abbrev callback : WebhookDelivery
callback = record {
  id = "whd_1";
  charge_id = "chg_1";
  url = "https://shop.example/hook";
  payload = "{}";
  event = "charge.paid";
  status = DeliveryStatus.pending;
  attempts = pos 7;
  max_attempts = pos 8;
  next_attempt_at = 0;
  last_error = none;
  updated_at = 0;
}

abbrev queue : Tables
queue = record store { webhook_deliveries = callback ∷ [] }

abbrev down : Network
down n = response false "503 Service Unavailable"

queue-AllCapped : AllCapped (λ id. pos 8) queue
unfolding ◌+ℤ◌
queue-AllCapped =
    ((refl, (omega arith, omega arith, (omega arith, omega arith), λ p. omega arith)), tt)

drain_due-AllCapped_example :
    AllCapped (λ id. pos 8) (drain_due quiet toy_crates down "secret" (at_start queue)).1.db
drain_due-AllCapped_example =
    drain_due-AllCapped (λ id. pos 8) quiet toy_crates down "secret" (at_start queue)
      queue-AllCapped

backoff_seconds_lem_example : backoff_seconds (pos 12) ≡ (if ltb 12 12 then 2 ^ 12 else 3600)
backoff_seconds_lem_example = backoff_seconds_lem 12

-- Two providers are configured: the first gives no answer, the second a transaction.
abbrev second_answers : AiOutside ℕ
second_answers = record {
  var = λ key. some "k";
  chat = λ p prompt body. if p.name == "openrouter" then none else some "{}";
  extraction =
      λ s. some (record { txn_id = some "TX9"; amount_bdt = some 12; sender_msisdn = none });
  trim = λ s. s;
}

abbrev second_txn : ParsedTxn
second_txn = record {
  gateway = "bkash";
  txn_id = "TX9";
  amount_minor = pos 12;
  sender_msisdn = none;
}

second_returns :
    (extract quiet toy_float second_answers "bkash" "SMS" "sha" (at_start store)).0
    ≡ returns (some second_txn)
unfolding extract try_providers providers_from_env env_or parse_reply parse_extraction json_span
    find rfind slice_inclusive Ai.take_chars skip_chars read_extraction
second_returns = refl

extract-Valid_example :
    Among
      (Answered toy_float second_answers "bkash" "SMS" second_txn)
      (providers_from_env (λ key. some "k"))
extract-Valid_example =
    extract-Valid quiet toy_float second_answers "bkash" "SMS" "sha" second_txn (at_start store)
      second_returns
