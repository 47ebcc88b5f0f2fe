-- ===== src/Invoice/Bill.antt =====
-- src/invoice.rs: drafting an invoice, and opening a checkout for it.
pub mod Total
use Prim.Native.String
use spritexai_pay_core.Prelude.{
  ℤ, pos, leb_ℤ, ltb_ℤ, add64, mul64, String, Option, none, some, List, [], ◌∷◌, ◌++◌, ◌==◌,
  take_chars, drop_chars, if◌then◌else◌,
}
use spritexai_pay_core.Crates.{Float64}
use spritexai_pay_core.Db.{
  Invoice, InvoiceStatus, ChargeRow, ok, err, DbError, unique_violation, check_violation,
  foreign_key_violation, Env, M, pure, lift, ok_or, ◌>>=◌, ◌>>◌, map_err, Stmt, exec, new_v4, any,
  first, update, newest_first, at_most,
}
use spritexai_pay_core.Checkout.{
  CreateCheckout, CheckoutCreated, CheckoutError, create_checkout, has_ref,
}

pub record LineItem : Type 0 where
  pub description : String
  pub quantity : ℤ
  pub unit_minor : ℤ

pub record CreateInvoice : Type 0 where
  pub number : Option String
  pub customer_id : Option String
  pub currency : Option String
  pub items : List LineItem

pub data InvoiceError : Type 0 where
  invalid_amount not_found : InvoiceError
  db_error : DbError → InvoiceError

-- `impl From<CheckoutError> for InvoiceError`
unfoldable pub from_checkout : CheckoutError → InvoiceError
from_checkout CheckoutError.not_found = not_found
from_checkout CheckoutError.invalid_amount = invalid_amount
from_checkout CheckoutError.domain_not_allowed = invalid_amount
from_checkout (CheckoutError.db_error e) = db_error e

-- `req.items.iter().map(|i| i.quantity * i.unit_minor).sum()`
unfoldable pub total_from : ℤ → List LineItem → ℤ
total_from acc [] = acc
total_from acc (i ∷ is) = total_from (add64 acc (mul64 i.quantity i.unit_minor)) is

unfoldable pub insert_invoice : Invoice → Stmt Unit
insert_invoice row t db =
    if ltb_ℤ (pos 0) row.amount_minor
    then if any (λ r. r.id == row.id) db.invoices
      then err unique_violation
      else if any (λ r. r.number == row.number) db.invoices
      then err unique_violation
      else ok (
        tt,
        record db { invoices = db.invoices ++ record row { created_at = t; updated_at = t } ∷ [] },
      )
    else err check_violation

unfoldable pub insert_item : String → String → LineItem → Stmt Unit
insert_item item_id invoice_id item t db =
    if any (λ r. r.id == item_id) db.invoice_items
    then err unique_violation
    else if any (λ r. r.id == invoice_id) db.invoices
    then ok (
      tt,
      record db {
        invoice_items =
            db.invoice_items
            ++ record {
              id = item_id;
              invoice_id = invoice_id;
              description = item.description;
              quantity = item.quantity;
              unit_minor = item.unit_minor;
            }
              ∷ [];
      },
    )
    else err foreign_key_violation

unfoldable pub select_invoice : String → Stmt (Option Invoice)
select_invoice id t db = ok (first (λ r. r.id == id) db.invoices, db)

unfoldable pub select_invoices : ℤ → Stmt (List Invoice)
select_invoices limit t db = ok (at_most limit (newest_first (λ r. r.created_at) db.invoices), db)

abbrev pub id_of : Option ChargeRow → Option String
id_of none = none
id_of (some r) = some r.id

unfoldable pub select_charge_id : String → Stmt (Option String)
select_charge_id pay_ref t db = ok (id_of (first (has_ref pay_ref) db.charges), db)

unfoldable pub link_charge : String → String → Option String → Stmt Unit
link_charge id pay_ref charge_id t db = ok (
  tt,
  record db {
    invoices =
        update (λ r. r.id == id)
          (λ r. record r { pay_ref = some pay_ref; charge_id = charge_id; updated_at = t })
          db.invoices;
  },
)

abbrev or_else : Option String → String → String
or_else none d = d
or_else (some s) d = s

module _ (env : Env) where
  unfoldable pub get : String → M InvoiceError (Option Invoice)
  get id = map_err db_error (exec env (select_invoice id))

  unfoldable pub list : ℤ → M InvoiceError (List Invoice)
  list limit = map_err db_error (exec env (select_invoices limit))

  -- `for item in &req.items`
  unfoldable pub insert_items : String → List LineItem → M InvoiceError Unit
  insert_items id [] = pure tt
  insert_items id (i ∷ is) = do
    uuid ← new_v4 env
    map_err db_error (exec env (insert_item (String.◌++◌ "itm_" uuid) id i))
    insert_items id is

  abbrev pub draft : String → CreateInvoice → ℤ → Invoice
  draft id req amount_minor = record {
    id = id;
    number = or_else req.number (String.◌++◌ "INV-" (take_chars 8 (drop_chars 4 id)));
    customer_id = req.customer_id;
    amount_minor = amount_minor;
    currency = or_else req.currency "BDT";
    status = InvoiceStatus.unpaid;
    charge_id = none;
    pay_ref = none;
    created_at = 0;
    updated_at = 0;
  }

  unfoldable pub create : CreateInvoice → M InvoiceError Invoice
  create req w =
      let amount_minor = total_from (pos 0) req.items in
      if leb_ℤ amount_minor (pos 0)
      then (err invalid_amount, w)
      else (do
        uuid ← new_v4 env
        let id = String.◌++◌ "inv_" uuid
        map_err db_error (exec env (insert_invoice (draft id req amount_minor)))
        insert_items id req.items
        row ← get id
        lift (ok_or row not_found))
          w

  module _ (f : Float64) where
    abbrev pub invoice_checkout : Invoice → CreateCheckout f.F
    invoice_checkout invoice = record {
      full_name = none;
      email_address = none;
      mobile_number = none;
      amount = f.over_hundred (f.of_i64 invoice.amount_minor);
      currency = invoice.currency;
      return_url = none;
      webhook_url = none;
      metadata = none;
    }

    unfoldable pub issue_payment : String → String → M InvoiceError CheckoutCreated
    issue_payment base_url id = do
      row ← get id
      invoice ← lift (ok_or row not_found)
      created ← map_err from_checkout (create_checkout env f base_url (invoice_checkout invoice))
      charge_id ← map_err db_error (exec env (select_charge_id created.sap_id))
      map_err db_error (exec env (link_charge id created.sap_id charge_id))
      pure created
