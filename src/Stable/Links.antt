-- ===== src/Stable/Links.antt =====
-- The operations of src/invoice.rs and src/payment_link.rs: records of their own, and checkouts.
use Prim.Native.String
use spritexai_pay_core.Prelude.{
  ℤ, pos, ltb_ℤ, leb_ℤ, String, Option, none, some, List, [], ◌∷◌, take_chars,
}
use spritexai_pay_core.Crates.{Float64}
use spritexai_pay_core.Db.{Tables, err, Env, ok_or, PaymentLink, LinkStatus}
use spritexai_pay_core.Stable.{
  Stable, Keeps, Keeps-pure, Keeps-lift, Keeps-bind, Keeps-map_err, Keeps-new_v4, Keeps-exec,
  Keeps-if, Keeps-if_at,
}
use spritexai_pay_core.Stable.Rows
use spritexai_pay_core.Stable.Checkouts.{Saturating, create_checkout-Keeps}
use spritexai_pay_core.Invoice.Bill.{
  CreateInvoice, LineItem, InvoiceError, from_checkout, total_from, insert_items, draft,
  invoice_checkout, issue_payment,
}
use spritexai_pay_core.Invoice.Bill
use spritexai_pay_core.PaymentLink.{
  CreatePaymentLink, LinkError, load, currency_of, consume, amount_of, is_active_link, any_error,
  link_checkout, open_active, open_link, inactive,
}
use spritexai_pay_core.PaymentLink

module _ {P : Tables → Type 0} (S : Stable P) (env : Env) where
  pub get_invoice-Keeps : (id : String) → Keeps P (Bill.get env id)
  unfolding Bill.get
  get_invoice-Keeps id =
      Keeps-map_err InvoiceError.db_error (Keeps-exec S env _ (Rows.select_invoice-Framed id))

  insert_items-Keeps : (id : String) (items : List LineItem) → Keeps P (insert_items env id items)
  unfolding insert_items
  insert_items-Keeps id [] = Keeps-pure tt
  insert_items-Keeps id (i ∷ is) = Keeps-bind (Keeps-new_v4 env) λ uuid.
      Keeps-bind
        (Keeps-map_err InvoiceError.db_error
          (Keeps-exec S env _ (Rows.insert_item-Framed (String.◌++◌ "itm_" uuid) id i)))
        (λ u. insert_items-Keeps id is)

  pub create_invoice-Keeps : (req : CreateInvoice) → Keeps P (Bill.create env req)
  unfolding Bill.create
  create_invoice-Keeps req =
      Keeps-if_at (leb_ℤ (total_from (pos 0) req.items) (pos 0))
        (Keeps-lift (err InvoiceError.invalid_amount))
        (Keeps-bind (Keeps-new_v4 env) λ uuid.
          Keeps-bind
            (Keeps-map_err InvoiceError.db_error (
              Keeps-exec S env _ (
                Rows.insert_invoice-Framed
                  (draft env (String.◌++◌ "inv_" uuid) req (total_from (pos 0) req.items)))))
            λ u. Keeps-bind (insert_items-Keeps (String.◌++◌ "inv_" uuid) req.items) λ u'.
              Keeps-bind (get_invoice-Keeps (String.◌++◌ "inv_" uuid))
                (λ row. Keeps-lift (ok_or row InvoiceError.not_found)))

  pub load-Keeps : (reference : String) → Keeps P (load env reference)
  unfolding load
  load-Keeps reference =
      Keeps-map_err LinkError.db_error (Keeps-exec S env _ (Rows.select_link-Framed reference))

  pub create_link-Keeps : (req : CreatePaymentLink) → Keeps P (PaymentLink.create env req)
  unfolding PaymentLink.create
  create_link-Keeps req = Keeps-bind (Keeps-new_v4 env) λ uuid.
      Keeps-bind (Keeps-new_v4 env) λ ref_uuid.
        Keeps-bind
          (Keeps-map_err LinkError.db_error (
            Keeps-exec S env _ (
              Rows.insert_link-Framed (record {
                id = String.◌++◌ "lnk_" uuid;
                reference = take_chars 12 ref_uuid;
                product_name = req.product_name;
                amount_minor = req.amount_minor;
                currency = currency_of req.currency;
                quantity = req.quantity;
                status = LinkStatus.active;
                created_at = 0;
              }))))
          λ u.
            Keeps-bind (load-Keeps (take_chars 12 ref_uuid))
              (λ row. Keeps-lift (ok_or row LinkError.not_found))

  consume-Keeps : (reference : String) (q : Option ℤ) → Keeps P (consume env reference q)
  unfolding consume
  consume-Keeps reference none = Keeps-pure tt
  consume-Keeps reference (some q) =
      Keeps-if_at (ltb_ℤ (pos 0) q)
        (Keeps-map_err LinkError.db_error (Keeps-exec S env _ (Rows.take_one-Framed reference)))
        (Keeps-pure tt)

  module _ (f : Float64) (saturating : Saturating f) where
    pub issue_payment-Keeps : (base_url id : String) → Keeps P (issue_payment env f base_url id)
    unfolding issue_payment
    issue_payment-Keeps base_url id = Keeps-bind (get_invoice-Keeps id) λ row.
        Keeps-bind (Keeps-lift (ok_or row InvoiceError.not_found)) λ invoice.
          Keeps-bind
            (Keeps-map_err from_checkout
              (create_checkout-Keeps S env f saturating base_url (invoice_checkout env f invoice)))
            λ created.
              Keeps-bind
                (Keeps-map_err InvoiceError.db_error
                  (Keeps-exec S env _ (Rows.select_charge_id-Framed created.sap_id)))
                λ charge_id.
                  Keeps-bind
                    (Keeps-map_err InvoiceError.db_error
                      (Keeps-exec S env _ (Rows.link_charge-Framed id created.sap_id charge_id)))
                    (λ u. Keeps-pure created)

    open_active-Keeps :
        (base_url : String) (link : PaymentLink) (reference : String) (over : Option ℤ)
        → Keeps P (open_active env f base_url link reference over)
    unfolding open_active
    open_active-Keeps base_url link reference over =
        Keeps-bind (Keeps-lift (amount_of link.amount_minor over)) λ amount_minor.
          Keeps-bind (consume-Keeps reference link.quantity) λ u. Keeps-map_err (any_error env f) (
            create_checkout-Keeps S env f saturating base_url
              (link_checkout env f link.currency amount_minor))

    pub open_link-Keeps :
        (base_url reference : String) (over : Option ℤ)
        → Keeps P (open_link env f base_url reference over)
    unfolding open_link
    open_link-Keeps base_url reference over = Keeps-bind (load-Keeps reference) λ row.
        Keeps-bind (Keeps-lift (ok_or row LinkError.not_found)) λ link.
          Keeps-if (is_active_link link.status) (open_active-Keeps base_url link reference over)
            (Keeps-lift (err inactive))
