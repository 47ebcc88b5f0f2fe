-- ===== src/Charge.antt =====
-- src/charge.rs: payment intents, and their settlement.
pub mod Effect
pub mod Events
pub mod Sound
pub mod Settle
pub mod Quiet
use spritexai_pay_core.Prelude.{
  ℤ, pos, ltb_ℤ, leb_ℤ, ℕ, String, Bool, ◌≡◌, Option, none, some, List, [], ◌∷◌, ◌++◌, ◌==◌, show_ℤ,
  if◌then◌else◌,
}
use Prim.Native.String
use spritexai_pay_core.Crates.{Crates, Scalar, text, number}
use spritexai_pay_core.Db.{
  newest_first, at_most, Tables, ChargeRow, ChargeStatus, is_pending, Result, ok, err, DbError,
  unique_violation, check_violation, is_unique_violation, protocol, Env, World, M, pure, throw,
  lift, ok_or, ◌>>=◌, ◌>>◌, map_err, Stmt, exec, new_v4, any, first, update, count,
}
use spritexai_pay_core.Ledger.{LedgerError, unbalanced, too_few_entries, debit, credit, post}
use spritexai_pay_core.Invoice.Settle.{settle_for_charge}
use spritexai_pay_core.Webhook.{enqueue}

abbrev pub merchant_receivable : String
merchant_receivable = "merchant:receivable"

abbrev pub customer_clearing : String
customer_clearing = "customer:clearing"

pub record CreateCharge : Type 0 where
  pub order_id : String
  pub amount_minor : ℤ
  pub currency : String
  pub customer_name : Option String
  pub customer_msisdn : Option String
  pub callback_url : Option String

-- The columns that `charge::Charge` reads.
pub record Charge : Type 0 where
  pub id : String
  pub order_id : String
  pub amount_minor : ℤ
  pub currency : String
  pub customer_name : Option String
  pub customer_msisdn : Option String
  pub callback_url : Option String
  pub status : ChargeStatus
  pub created_at : ℕ
  pub updated_at : ℕ

abbrev pub to_charge : ChargeRow → Charge
to_charge r = record {
  id = r.id;
  order_id = r.order_id;
  amount_minor = r.amount_minor;
  currency = r.currency;
  customer_name = r.customer_name;
  customer_msisdn = r.customer_msisdn;
  callback_url = r.callback_url;
  status = r.status;
  created_at = r.created_at;
  updated_at = r.updated_at;
}

pub data ChargeError : Type 0 where
  invalid_amount not_found : ChargeError
  duplicate_order : String → ChargeError
  db_error : DbError → ChargeError

-- INSERT INTO charges: the CHECK on the amount, the primary key and the unique index on `order_id`.
unfoldable pub insert_charge : ChargeRow → Stmt Unit
insert_charge row t db =
    if ltb_ℤ (pos 0) row.amount_minor
    then if any (λ r. r.id == row.id) db.charges
      then err unique_violation
      else if any (λ r. r.order_id == row.order_id) db.charges
      then err unique_violation
      else ok (
        tt,
        record db { charges = db.charges ++ record row { created_at = t; updated_at = t } ∷ [] },
      )
    else err check_violation

abbrev pub new_row : String → CreateCharge → ChargeRow
new_row id req = record {
  id = id;
  order_id = req.order_id;
  amount_minor = req.amount_minor;
  currency = req.currency;
  customer_name = req.customer_name;
  customer_msisdn = req.customer_msisdn;
  callback_url = req.callback_url;
  status = ChargeStatus.pending;
  created_at = 0;
  updated_at = 0;
  pay_ref = none;
  customer_email = none;
  return_url = none;
  webhook_url = none;
  metadata = none;
  gateway = none;
  claimed_trx_id = none;
  claimed_sender = none;
}

-- SELECT * FROM charges WHERE id = ?
unfoldable pub select_charge : String → Stmt (Option ChargeRow)
select_charge id t db = ok (first (λ r. r.id == id) db.charges, db)

unfoldable pub set_charge_paid : String → Stmt Unit
set_charge_paid id t db = ok (
  tt,
  record db {
    charges =
        update (λ r. r.id == id) (λ r. record r { status = ChargeStatus.paid; updated_at = t })
          db.charges;
  },
)

abbrev to_charges : List ChargeRow → List Charge
to_charges [] = []
to_charges (r ∷ rs) = to_charge r ∷ to_charges rs

unfoldable pub select_charges : ℤ → Stmt (List Charge)
select_charges limit t db =
    ok (to_charges (at_most limit (newest_first (λ r. r.created_at) db.charges)), db)

-- How `create` reads the outcome of its INSERT.
abbrev pub insert_error : String → DbError → ChargeError
insert_error order_id e =
    if is_unique_violation e then duplicate_order order_id else ChargeError.db_error e

-- `LedgerError::to_string`
abbrev ledger_text : LedgerError → String
ledger_text (unbalanced n) =
    String.◌++◌ "ledger transaction does not balance: entries sum to "
      (String.◌++◌ (show_ℤ n) ", expected 0")
ledger_text too_few_entries = "ledger transaction needs at least two entries"
ledger_text (LedgerError.db_error e) = ""

abbrev pub ledger_error : LedgerError → ChargeError
ledger_error (LedgerError.db_error e) = ChargeError.db_error e
ledger_error other = ChargeError.db_error (protocol (ledger_text other))

module _ (env : Env) where
  unfoldable pub get : String → M ChargeError Charge
  get id = do
    row ← map_err ChargeError.db_error (exec env (select_charge id))
    found ← lift (ok_or row not_found)
    pure (to_charge found)

  unfoldable pub list : ℤ → M ChargeError (List Charge)
  list limit = map_err ChargeError.db_error (exec env (select_charges limit))

  unfoldable pub create : CreateCharge → M ChargeError Charge
  create req w =
      if leb_ℤ req.amount_minor (pos 0)
      then (err invalid_amount, w)
      else (do
        uuid ← new_v4 env
        let id = String.◌++◌ "chg_" uuid
        map_err (insert_error req.order_id) (exec env (insert_charge (new_row id req)))
        get id)
          w

  module _ (crates : Crates) where
    -- The webhook body of a settled charge.
    abbrev pub paid_payload : Charge → String
    paid_payload charge = crates.json (
        ("event", text "charge.paid")
        ∷ ("charge_id", text charge.id)
        ∷ ("order_id", text charge.order_id)
        ∷ ("amount_minor", number charge.amount_minor)
        ∷ ("currency", text charge.currency)
        ∷ ("status", text "paid")
        ∷ [])

    abbrev pub memo_of : Charge → String
    memo_of charge =
        String.◌++◌ "charge "
          (String.◌++◌ charge.id (String.◌++◌ " settled for order " charge.order_id))

    -- `if let Some(url) = charge.callback_url`
    unfoldable pub notify : Charge → Option String → M ChargeError Unit
    notify charge none = pure tt
    notify charge (some url) = do
      map_err ChargeError.db_error (enqueue env charge.id url "charge.paid" (paid_payload charge))
      pure tt

    unfoldable pub mark_paid : String → M ChargeError Unit
    mark_paid id = do
      charge ← get id
      uuid ← new_v4 env
      map_err ledger_error (
          post env (String.◌++◌ "ltx_" uuid) charge.id (memo_of charge) (
            debit merchant_receivable charge.amount_minor charge.currency
            ∷ credit customer_clearing charge.amount_minor charge.currency
            ∷ []))
      map_err ChargeError.db_error (exec env (set_charge_paid id))
      map_err ChargeError.db_error (settle_for_charge env id)
      notify charge charge.callback_url
