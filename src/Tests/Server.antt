-- ===== src/Tests/Server.antt =====
-- The server of src/http.rs on small inputs.
use Prim.Native.String
use spritexai_pay_core.Prelude.{
  add64, wrap64, ℕ, pos, ◌+ℤ◌, ◌≤ℤ◌, int_laws, ◌+◌, ltb, String, Option, after_first, strip_prefix,
  parse_u64, true, ◌≡◌, refl, ◌⊎◌, some, none, [], ◌∷◌, arith, if◌then◌else◌,
}
use spritexai_pay_core.Crypto.{sign, verify}
use spritexai_pay_core.Db.{
  Env, select, World, ok, err, any, exec, pure, KeyStatus, WebhookDelivery, DeliveryStatus,
}
use spritexai_pay_core.Charge.Sound.{Sound}
use spritexai_pay_core.Gateway.{ParsedTxn}
use spritexai_pay_core.Sms.{choose, claims, candidates_of, record_and_settle}
use spritexai_pay_core.Sms.Quiet.{settled_by, IsPaid, record_and_settle-returning}
use spritexai_pay_core.Http.{reply, Body, api_error, Handler, then_answer, AppState, Headers}
use spritexai_pay_core.Auth.{issue_token, token_ttl_secs, password_matches, token_of}
use spritexai_pay_core.Config.{Config, config_at, from_env}
use spritexai_pay_core.Config.Secrets.{state_of, require_auth-shared_secret}
use spritexai_pay_core.Ai.{env_or}
use spritexai_pay_core.Device.{select_active_device, stamp, stamp_device}
use spritexai_pay_core.Device
use spritexai_pay_core.Merchant.{
  KeyContext, key_domain, verify_api_key, select_active_key, admit, stamp_key, parse_scopes,
}
use spritexai_pay_core.Merchant.Access.{grants}
use spritexai_pay_core.Http.Public
use spritexai_pay_core.Http.Guards.{require_auth, require_api_key, presented_key, required_scope}
use spritexai_pay_core.Http.Login.{require_auth-login}
use spritexai_pay_core.Http.Keys.{require_api_key-granted, checked}
use spritexai_pay_core.Http.Exchange.{exchange_token-paired, is_paired}
use spritexai_pay_core.Http.Server.{Call, AdminCall, PublicCall, handle}
use spritexai_pay_core.Settlement.{Run, bills, paid_ids}
use spritexai_pay_core.Settlement.Abstract.{handle-Run}
use spritexai_pay_core.Settlement.Paid.{IsAuthentic, handle-paid_ids}
use spritexai_pay_core.Settlement.Reach.{start, serve, deliver, Reach-Sound}
use spritexai_pay_core.Webhook.Worker.Rounds.{tries, begin, round, between, Rounds-end}
use spritexai_pay_core.Webhook.Backoff.{backoff_seconds}
use spritexai_pay_core.Webhook.Worker.{
  select_due, deliver_all, send, after_send, set_delivered, set_failed, reschedule, deliver_one,
  Network, Outcome, drain_due,
}
use spritexai_pay_core.Tests.Outside.{
  quiet, toy_crates, toy_outside, toy_state, toy-Saturating, toy-DigestEquality, toy-HexRoundTrip,
  header, no_rows, charge_of, at_start,
}

-- One charge, for the amount of every SMS.
abbrev one_charge : World
one_charge = at_start (record no_rows { charges = charge_of "c1" (pos 500) none ∷ [] })

abbrev signed : Call ℕ
signed = Call.unguarded (PublicCall.sms_webhook "hi")

abbrev claimed : Call ℕ
claimed = Call.unguarded (PublicCall.checkout_claim "c1" "TRX9" none)

handle-Run_example : Run (bills one_charge.db.charges) (
    bills
      (handle toy_outside quiet toy_state
        (header "x-signature" (sign toy_crates "s" "hi"))
        0
        signed
        one_charge).1.db.charges)
handle-Run_example =
    handle-Run toy_outside quiet toy_state (header "x-signature" (sign toy_crates "s" "hi")) 0
      signed one_charge toy-Saturating tt

handle-paid_ids_example :
    IsAuthentic toy_outside toy_state (header "x" "y") claimed
    ⊎ (paid_ids
          (handle toy_outside quiet toy_state (header "x" "y") 0 claimed one_charge).1.db.charges
        ≡ [])
handle-paid_ids_example =
    handle-paid_ids toy_outside quiet toy_state (header "x" "y") 0 claimed one_charge
      toy-DigestEquality toy-Saturating tt

abbrev no_answer : Network
no_answer = λ n. Outcome.failure "timeout"

abbrev new_charge : Call ℕ
new_charge = Call.console (
    AdminCall.create_charge (record {
      order_id = "o1";
      amount_minor = pos 500;
      currency = "BDT";
      customer_name = none;
      customer_msisdn = none;
      callback_url = some "https://shop.example/hook";
    }))

-- A charge without a password set, an SMS for it, and a round of the worker.
abbrev open_state : AppState
open_state = record toy_state { admin_password = none }

abbrev charged : World
charged = (handle toy_outside quiet open_state (header "x" "y") 0 new_charge (at_start no_rows)).1

abbrev settled : World
settled =
    (handle toy_outside quiet open_state (header "x-signature" (sign toy_crates "s" "hi")) 0 signed
      charged).1

abbrev ran : World
ran = (drain_due quiet toy_crates no_answer "w" settled).1

Reach-Sound_example : Sound ran.db
Reach-Sound_example = Reach-Sound toy_outside open_state "w" ran toy-Saturating (
    deliver quiet no_answer (
      serve quiet (header "x-signature" (sign toy_crates "s" "hi")) 0 signed tt (
        serve quiet (header "x" "y") 0 new_charge (omega arith, omega arith)
          (start (at_start no_rows) (refl, refl, refl)))))

abbrev token_0 : String
token_0 = issue_token toy_crates 0 "a"

abbrev bearer_0 : Headers
bearer_0 = header "authorization" (String.◌++◌ "Bearer " token_0)

abbrev ping : Handler
ping = pure (reply 200 (Body.plain "pong"))

logged_in :
    Public.login toy_crates toy_state 0 "p" (at_start no_rows)
    ≡ (ok (reply 200 (Body.token token_0)), at_start no_rows)
unfolding Public.login password_matches verify sign
logged_in = refl

require_auth-login_example :
    require_auth toy_crates toy_state bearer_0 9 ping (at_start no_rows) ≡ (
      if ltb 9 (0 + token_ttl_secs)
      then ping (at_start no_rows)
      else (err (api_error 401 "authentication required"), at_start no_rows))
require_auth-login_example =
    require_auth-login toy_crates toy_state bearer_0 "p" "p" token_0 0 9 ping (at_start no_rows)
      (at_start no_rows) (at_start no_rows) toy-HexRoundTrip toy-DigestEquality refl (omega arith)
      logged_in refl

-- A key "k" whose scope is the one that the toy JSON reads.
abbrev one_key : World
one_key = at_start (record no_rows {
  api_keys =
      record {
        id = "ak1";
        key_sha256 = sign toy_crates key_domain "k";
        label = none;
        scopes = "";
        status = KeyStatus.active;
        created_at = 0;
        last_used_at = none;
      }
      ∷ [];
})

abbrev key_header : Headers
key_header = header "x-sap-api-key" "k"

let_through :
    (require_api_key toy_crates toy_state key_header quiet "/api/checkout/redirect" ping one_key).0
    ≡ ok (reply 200 (Body.plain "pong"))
unfolding require_api_key presented_key required_scope verify_api_key select_active_key admit
    stamp_key exec sign after_first strip_prefix parse_scopes
let_through = refl

require_api_key-granted_example :
    (k : KeyContext) × (any
        (grants toy_crates (presented_key key_header) (required_scope "/api/checkout/redirect") k)
        one_key.db.api_keys
      ≡ true)
    × ((ping
          (checked toy_crates toy_state key_header quiet "/api/checkout/redirect" ping one_key).1).0
        ≡ ok (reply 200 (Body.plain "pong")))
require_api_key-granted_example =
    require_api_key-granted toy_crates toy_state key_header quiet "/api/checkout/redirect" ping
      one_key (reply 200 (Body.plain "pong")) let_through

abbrev one_phone : World
one_phone = at_start (record no_rows {
  devices =
      record {
        id = "d1";
        label = none;
        token_sha256 = sign toy_crates "device-token" "t";
        status = KeyStatus.active;
        last_seen_at = none;
        created_at = 0;
      }
      ∷ [];
})

given_out :
    (Public.exchange_token quiet toy_crates toy_state "t" one_phone).0
    ≡ ok (reply 200 (Body.exchanged "d1" "s"))
unfolding Public.exchange_token then_answer Device.exchange_token select_active_device stamp
    stamp_device exec sign
given_out = refl

exchange_token-paired_example :
    (any (is_paired (sign toy_crates "device-token" "t") "d1") one_phone.db.devices ≡ true)
    × ("s" ≡ toy_state.sms_hmac_secret)
exchange_token-paired_example =
    exchange_token-paired toy_crates quiet toy_state "t" "d1" "s" one_phone given_out

-- No variable of the environment is set.
abbrev unset : String → Option String
unset key = none

abbrev default_config : Config
default_config = config_at unset 8080

read_default : from_env unset ≡ some default_config
unfolding from_env env_or parse_u64
read_default = refl

abbrev forged : Headers
forged =
    header "authorization"
      (String.◌++◌ "Bearer " (token_of toy_crates default_config.sms_hmac_secret 99))

require_auth-shared_secret_example :
    require_auth toy_crates (state_of default_config) forged 9 ping (at_start no_rows)
    ≡ ping (at_start no_rows)
require_auth-shared_secret_example =
    require_auth-shared_secret toy_crates unset default_config forged 99 9 ping (at_start no_rows)
      toy-HexRoundTrip toy-DigestEquality refl read_default refl (omega arith) (omega arith)

-- An SMS of the amount of the one charge.
abbrev five_taka : ParsedTxn
five_taka = record {
  gateway = "bkash";
  txn_id = "TRX1";
  amount_minor = pos 500;
  sender_msisdn = none;
}

chosen_c1 :
    choose none (candidates_of (select (claims (pos 500)) one_charge.db.charges)) ≡ some "c1"
unfolding choose
chosen_c1 = refl

record_and_settle-returning_example :
    ((record_and_settle quiet toy_crates "fp" five_taka "regex" one_charge).0
      ≡ ok (settled_by quiet one_charge five_taka "c1"))
    × IsPaid "c1" (record_and_settle quiet toy_crates "fp" five_taka "regex" one_charge).1.db
record_and_settle-returning_example =
    record_and_settle-returning quiet toy_crates "fp" "regex" "c1" five_taka one_charge (λ n. refl)
      chosen_c1 refl
      (record {
        row = charge_of "c1" (pos 500) none;
        found = refl;
        amount = (omega arith, (omega arith, omega arith));
        new_posting = refl;
        new_delivery = refl;
      })

abbrev queued_once : WebhookDelivery
queued_once = record {
  id = "whd1";
  charge_id = "c1";
  url = "https://shop.example/hook";
  payload = "{}";
  event = "charge.paid";
  status = DeliveryStatus.pending;
  attempts = pos 0;
  max_attempts = pos 8;
  next_attempt_at = 0;
  last_error = none;
  updated_at = 0;
}

-- Another delivery waits behind it.
abbrev queue : World
queue =
    at_start (record no_rows {
      webhook_deliveries = queued_once ∷ record queued_once { id = "whd2" } ∷ [];
    })

abbrev first_round : World
first_round = (drain_due quiet toy_crates no_answer "w" queue).1

-- A charge comes in between the rounds.
abbrev later : World
later = record first_round {
  db = record first_round.db { charges = charge_of "c1" (pos 500) none ∷ [] };
}

-- A run an hour later.
abbrev an_hour_on : Env
an_hour_on = record quiet { now = λ n. n + 3600000 }

abbrev second_round : World
second_round = (drain_due an_hour_on toy_crates no_answer "w" later).1

tried_twice : tries "whd1" second_round ≡ 2
unfolding drain_due select_due deliver_all deliver_one send after_send set_delivered set_failed
    reschedule exec add64 wrap64 ◌+ℤ◌ backoff_seconds
tried_twice = refl

Rounds-end_example : pos 0 +ℤ pos (tries "whd1" second_round) ≤ℤ pos 8 +ℤ pos (tries "whd1" queue)
Rounds-end_example =
    Rounds-end toy_crates "w" "whd1" queued_once queue second_round refl (omega arith)
      (omega arith, omega arith, (omega arith, omega arith), λ p. omega (arith, int_laws))
      (round an_hour_on no_answer
        (between later (round quiet no_answer begin (λ n. refl)) (refl, refl, refl)) (λ n. refl))
