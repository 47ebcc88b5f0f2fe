-- ===== src/PaymentLink.antt =====
-- src/payment_link.rs: reusable links that mint checkouts.
pub mod Exhausted
use Prim.Native.String
use spritexai_pay_core.Prelude.{
  ℤ, pos, negsuc, ◌+ℤ◌, ltb_ℤ, String, Bool, true, false, Option, none, some, List, [], ◌∷◌, ◌++◌,
  ◌==◌, take_chars, if◌then◌else◌,
}
use spritexai_pay_core.Crates.{Float64}
use spritexai_pay_core.Db.{
  PaymentLink, LinkStatus, Result, ok, err, DbError, unique_violation, Env, M, throw, lift, ok_or,
  ◌>>=◌, ◌>>◌, map_err, Stmt, exec, new_v4, any, first, update, newest_first, at_most,
}
use spritexai_pay_core.Checkout.{CreateCheckout, CheckoutCreated, CheckoutError, create_checkout}

pub record CreatePaymentLink : Type 0 where
  pub product_name : String
  pub amount_minor : Option ℤ
  pub currency : Option String
  pub quantity : Option ℤ

pub data LinkError : Type 0 where
  not_found inactive amount_required : LinkError
  db_error : DbError → LinkError

unfoldable pub insert_link : PaymentLink → Stmt Unit
insert_link row t db =
    if any (λ r. r.id == row.id) db.payment_links
    then err unique_violation
    else if any (λ r. r.reference == row.reference) db.payment_links
    then err unique_violation
    else ok
        (tt, record db { payment_links = db.payment_links ++ record row { created_at = t } ∷ [] })

unfoldable pub select_link : String → Stmt (Option PaymentLink)
select_link reference t db = ok (first (λ r. r.reference == reference) db.payment_links, db)

unfoldable pub select_links : ℤ → Stmt (List PaymentLink)
select_links limit t db = ok (at_most limit (newest_first (λ r. r.created_at) db.payment_links), db)

-- `req.currency.filter(|c| !c.is_empty()).unwrap_or("BDT")`
abbrev pub currency_of : Option String → String
currency_of none = "BDT"
currency_of (some c) = if c == "" then "BDT" else c

-- `quantity - 1`, where NULL stays NULL.
abbrev pub one_less : Option ℤ → Option ℤ
one_less none = none
one_less (some q) = some (q +ℤ negsuc 0)

unfoldable pub take_one : String → Stmt Unit
take_one reference t db = ok (
  tt,
  record db {
    payment_links =
        update (λ r. r.reference == reference) (λ r. record r { quantity = one_less r.quantity })
          db.payment_links;
  },
)

abbrev pub is_active_link : LinkStatus → Bool
is_active_link LinkStatus.active = true
is_active_link LinkStatus.inactive = false

-- The amount of an opening: the link's own, else the customer's.
abbrev pub amount_of : Option ℤ → Option ℤ → Result LinkError ℤ
amount_of (some a) over = ok a
amount_of none over = ok_or over amount_required

module _ (env : Env) where
  unfoldable pub load : String → M LinkError (Option PaymentLink)
  load reference = map_err db_error (exec env (select_link reference))

  unfoldable pub create : CreatePaymentLink → M LinkError PaymentLink
  create req = do
    uuid ← new_v4 env
    ref_uuid ← new_v4 env
    let reference = take_chars 12 ref_uuid
    map_err db_error (
        exec env (
          insert_link (record {
            id = String.◌++◌ "lnk_" uuid;
            reference = reference;
            product_name = req.product_name;
            amount_minor = req.amount_minor;
            currency = currency_of req.currency;
            quantity = req.quantity;
            status = LinkStatus.active;
            created_at = 0;
          })))
    row ← load reference
    lift (ok_or row not_found)

  unfoldable pub list : ℤ → M LinkError (List PaymentLink)
  list limit = map_err db_error (exec env (select_links limit))

  -- Consume one use of a link that is limited.
  unfoldable pub consume : String → Option ℤ → M LinkError Unit
  consume reference none w = (ok tt, w)
  consume reference (some q) w =
      if ltb_ℤ (pos 0) q then map_err db_error (exec env (take_one reference)) w else (ok tt, w)

  module _ (f : Float64) where
    abbrev pub link_checkout : String → ℤ → CreateCheckout f.F
    link_checkout currency amount_minor = record {
      full_name = none;
      email_address = none;
      mobile_number = none;
      amount = f.over_hundred (f.of_i64 amount_minor);
      currency = currency;
      return_url = none;
      webhook_url = none;
      metadata = none;
    }

    abbrev pub any_error : CheckoutError → LinkError
    any_error e = amount_required

    -- `open` behind the check of the status.
    unfoldable pub open_active :
        String → PaymentLink → String → Option ℤ → M LinkError CheckoutCreated
    open_active base_url link reference over = do
      amount_minor ← lift (amount_of link.amount_minor over)
      consume reference link.quantity
      map_err any_error (create_checkout env f base_url (link_checkout link.currency amount_minor))

    unfoldable pub open_link : String → String → Option ℤ → M LinkError CheckoutCreated
    open_link base_url reference over = do
      row ← load reference
      link ← lift (ok_or row not_found)
      if is_active_link link.status
          then open_active base_url link reference over
          else throw inactive
