-- ===== src/Checkout.antt =====
-- src/checkout.rs: the hosted checkout.
pub mod Guarded
pub mod Hints
pub mod Status
use Prim.Native.Char.{code}
use Prim.Native.String
use spritexai_pay_core.Prelude.{
  ℤ, ℕ, String, Bool, true, false, not, eqb, leb, ◌||◌, ◌&&◌, Option, none, some, List, [], ◌∷◌,
  ◌++◌, ◌==◌, if◌then◌else◌,
}
use spritexai_pay_core.Crates.{Crates, Float64}
use spritexai_pay_core.Db.{
  Tables, ChargeRow, ChargeStatus, is_pending, GatewayConfig, SmsEvent, Result, ok, err, DbError,
  Env, World, M, pure, throw, lift, ok_or, ◌>>=◌, ◌>>◌, map_err, Stmt, exec, new_v4, first, update,
  any, select,
}
use spritexai_pay_core.Invoice.Settle.{holds}
use spritexai_pay_core.Domain.{is_allowed}
use spritexai_pay_core.Charge.{insert_charge}

-- `metadata` is the text of the request's JSON, and none for `null`.
pub record CreateCheckout (F : Type 0) : Type 0 where
  pub full_name : Option String
  pub email_address : Option String
  pub mobile_number : Option String
  pub amount : F
  pub currency : String
  pub return_url : Option String
  pub webhook_url : Option String
  pub metadata : Option String

pub record CheckoutCreated : Type 0 where
  pub sap_id : String
  pub sap_url : String

pub data CheckoutError : Type 0 where
  invalid_amount not_found domain_not_allowed : CheckoutError
  db_error : DbError → CheckoutError

-- `trim_end_matches('/')`
unfoldable pub trim_slashes : String → String
trim_slashes String.[] = ""
trim_slashes (String.◌∷◌ c s) =
    let rest = trim_slashes s in if eqb (code c) b'/' && rest == "" then "" else String.◌∷◌ c rest

unfoldable pub pay_url : String → String → String
pay_url base_url pay_ref = String.◌++◌ (trim_slashes base_url) (String.◌++◌ "/pay/" pay_ref)

module _ (f : Float64) where
  abbrev pub checkout_row : String → String → ℤ → CreateCheckout f.F → ChargeRow
  checkout_row id pay_ref amount_minor req = record {
    id = id;
    order_id = pay_ref;
    amount_minor = amount_minor;
    currency = req.currency;
    customer_name = req.full_name;
    customer_msisdn = req.mobile_number;
    callback_url = req.webhook_url;
    status = ChargeStatus.pending;
    created_at = 0;
    updated_at = 0;
    pay_ref = some pay_ref;
    customer_email = req.email_address;
    return_url = req.return_url;
    webhook_url = req.webhook_url;
    metadata = req.metadata;
    gateway = none;
    claimed_trx_id = none;
    claimed_sender = none;
  }

-- Both URLs against the whitelist; the second is looked at only if the first passes.
unfoldable pub urls_allowed : Env → Option String → Option String → M DbError Bool
urls_allowed env return_url webhook_url = do
  first_ok ← is_allowed env return_url
  if first_ok then is_allowed env webhook_url else pure false

module _ (env : Env) (f : Float64) where
  -- `create_checkout` behind its guards.
  unfoldable pub insert_checkout : String → CreateCheckout f.F → M CheckoutError CheckoutCreated
  insert_checkout base_url req = do
    uuid ← new_v4 env
    ref_uuid ← new_v4 env
    let pay_ref = String.◌++◌ "pay_" ref_uuid
    map_err db_error (
        exec env (
          insert_charge (
            checkout_row f (String.◌++◌ "chg_" uuid) pay_ref
              (f.round_i64 (f.times_hundred req.amount)) req)))
    pure (record { sap_id = pay_ref; sap_url = pay_url base_url pay_ref })

  unfoldable pub create_checkout : String → CreateCheckout f.F → M CheckoutError CheckoutCreated
  create_checkout base_url req w =
      if not (f.is_finite req.amount) || f.is_nonpositive req.amount
      then (err invalid_amount, w)
      else (do
        allowed ← map_err db_error (urls_allowed env req.return_url req.webhook_url)
        if allowed then insert_checkout base_url req else throw domain_not_allowed)
          w

-- The charge of a pay reference.
abbrev pub has_ref : String → ChargeRow → Bool
has_ref pay_ref r = holds r.pay_ref pay_ref

unfoldable pub select_by_ref : String → Stmt (Option ChargeRow)
select_by_ref pay_ref t db = ok (first (has_ref pay_ref) db.charges, db)

pub record Receiver : Type 0 where
  pub gateway : String
  pub label : Option String
  pub account_msisdn : Option String

pub record PublicCharge : Type 0 where
  pub pay_ref : String
  pub amount_minor : ℤ
  pub currency : String
  pub status : ChargeStatus
  pub gateway : Option String
  pub return_url : Option String
  pub receivers : List Receiver

abbrev pub receivers_of : List GatewayConfig → List Receiver
receivers_of [] = []
receivers_of (g ∷ gs) =
    record { gateway = g.gateway; label = g.label; account_msisdn = g.account_msisdn }
    ∷ receivers_of gs

-- The enabled gateways; `by_gateway` is the ORDER BY of SQLite on their names.
unfoldable pub select_receivers : (List GatewayConfig → List GatewayConfig) → Stmt (List Receiver)
select_receivers by_gateway t db =
    ok (receivers_of (by_gateway (select (λ g. g.enabled) db.gateway_configs)), db)

unfoldable pub get_public_charge :
    Env → (List GatewayConfig → List GatewayConfig) → String → M CheckoutError PublicCharge
get_public_charge env by_gateway pay_ref = do
  row ← map_err db_error (exec env (select_by_ref pay_ref))
  c ← lift (ok_or row not_found)
  receivers ← map_err db_error (exec env (select_receivers by_gateway))
  pure (record {
    pay_ref = pay_ref;
    amount_minor = c.amount_minor;
    currency = c.currency;
    status = c.status;
    gateway = c.gateway;
    return_url = c.return_url;
    receivers = receivers;
  })

abbrev pub open_ref : String → ChargeRow → Bool
open_ref pay_ref r = has_ref pay_ref r && is_pending r.status

-- UPDATE charges SET gateway = ? …, with whether a row was affected.
unfoldable pub set_gateway : String → String → Stmt Bool
set_gateway pay_ref gateway t db = ok (
  any (open_ref pay_ref) db.charges,
  record db {
    charges = update (open_ref pay_ref) (λ r. record r { gateway = some gateway }) db.charges;
  },
)

unfoldable pub set_claim : String → String → Option String → Stmt Bool
set_claim pay_ref trx_id sender t db = ok (
  any (open_ref pay_ref) db.charges,
  record db {
    charges =
        update (open_ref pay_ref)
          (λ r. record r { claimed_trx_id = some trx_id; claimed_sender = sender }) db.charges;
  },
)

abbrev pub affected : Bool → Result CheckoutError Unit
affected true = ok tt
affected false = err not_found

module _ (env : Env) where
  unfoldable pub select_gateway : String → String → M CheckoutError Unit
  select_gateway pay_ref gateway = do
    done ← map_err db_error (exec env (set_gateway pay_ref gateway))
    lift (affected done)

  unfoldable pub submit_manual : String → String → Option String → M CheckoutError Unit
  submit_manual pay_ref trx_id sender = do
    done ← map_err db_error (exec env (set_claim pay_ref trx_id sender))
    lift (affected done)

pub record VerifyResult : Type 0 where
  pub sap_id : String
  pub full_name : Option String
  pub email_address : Option String
  pub mobile_number : Option String
  pub gateway : Option String
  pub amount : String
  pub currency : String
  pub transaction_id : Option String
  pub sender : Option String
  pub metadata : Option String
  pub status : String
  pub date : ℕ

-- `"paid" => "completed", other => other`
abbrev pub public_status : ChargeStatus → String
public_status ChargeStatus.pending = "pending"
public_status ChargeStatus.paid = "completed"
public_status ChargeStatus.failed = "failed"
public_status ChargeStatus.expired = "expired"

-- … WHERE charge_id = ? AND matched = 1
abbrev pub settles : String → SmsEvent → Bool
settles id e = holds e.charge_id id && e.matched

abbrev pub newer : SmsEvent → Option SmsEvent → SmsEvent
newer e none = e
newer e (some d) = if leb d.received_at e.received_at then e else d

-- … ORDER BY received_at DESC LIMIT 1: of events at one time, the first inserted.
unfoldable pub latest : List SmsEvent → Option SmsEvent
latest [] = none
latest (e ∷ es) = some (newer e (latest es))

abbrev pub txn_of : Option SmsEvent → Option String
txn_of none = none
txn_of (some e) = some e.txn_id

unfoldable pub select_settled_trx : String → Stmt (Option String)
select_settled_trx id t db = ok (txn_of (latest (select (settles id) db.sms_events)), db)

-- `Option::or` and `unwrap_or_default`
abbrev or : Option String → Option String → Option String
or none b = b
or (some a) b = some a

abbrev or_default : Option String → String
or_default none = ""
or_default (some a) = a

abbrev metadata_of : Crates → Option String → Option String
metadata_of crates none = none
metadata_of crates (some m) = crates.json_value m

unfoldable pub verify_result : Crates → Float64 → ChargeRow → Option String → VerifyResult
verify_result crates f c settled_trx = record {
  sap_id = or_default c.pay_ref;
  full_name = c.customer_name;
  email_address = c.customer_email;
  mobile_number = c.customer_msisdn;
  gateway = c.gateway;
  amount = f.two_decimals (f.over_hundred (f.of_i64 c.amount_minor));
  currency = c.currency;
  transaction_id = or settled_trx c.claimed_trx_id;
  sender = c.claimed_sender;
  metadata = metadata_of crates c.metadata;
  status = public_status c.status;
  date = c.created_at;
}

unfoldable pub verify : Env → Crates → Float64 → String → M CheckoutError VerifyResult
verify env crates f pay_ref = do
  row ← map_err db_error (exec env (select_by_ref pay_ref))
  c ← lift (ok_or row not_found)
  settled_trx ← map_err db_error (exec env (select_settled_trx c.id))
  pure (verify_result crates f c settled_trx)
