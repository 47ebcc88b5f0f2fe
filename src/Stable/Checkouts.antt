-- ===== src/Stable/Checkouts.antt =====
-- The operations of src/charge.rs, src/checkout.rs, src/invoice.rs and src/payment_link.rs that
-- create charges or write notes on them.
use Prim.Native.String
use spritexai_pay_core.Prelude.{
  pos, ltb_ℤ, leb_ℤ, ℕ, String, ◌≡◌, refl, inl, inr, true, false, InI64, Option, some, List, ◌==◌,
  not, ◌||◌, Bool-cases,
}
use spritexai_pay_core.Crates.{Crates, Float64}
use spritexai_pay_core.Db.{Tables, ChargeRow, is_pending, err, Env, ok_or, any, exec, GatewayConfig}
use spritexai_pay_core.Db.Triple.{StmtPost, Triple-exec}
use spritexai_pay_core.Stable.{
  Stable, Keeps, Keeps-pure, Keeps-lift, Keeps-bind, Keeps-map_err, Keeps-new_v4, Keeps-exec,
  Keeps-if, Keeps-if_at,
}
use spritexai_pay_core.Stable.Rows
use spritexai_pay_core.Stable.Operations.{is_allowed-Keeps}
use spritexai_pay_core.Charge.{
  CreateCharge, insert_charge, insert_error, new_row, to_charge, ChargeError,
}
use spritexai_pay_core.Charge
use spritexai_pay_core.Checkout.{
  CreateCheckout, CheckoutError, checkout_row, urls_allowed, insert_checkout, create_checkout,
  pay_url, has_ref, open_ref, set_gateway, set_claim, select_gateway, submit_manual, affected,
  get_public_charge, verify, verify_result, domain_not_allowed,
}
use spritexai_pay_core.Checkout

-- `as i64` saturates.
abbrev pub Saturating : Float64 → Type 0
Saturating f = (x : f.F) → InI64 (f.round_i64 x)

module _ {P : Tables → Type 0} (S : Stable P) (env : Env) where
  insert_charge-kept :
      (row : ChargeRow) (t : ℕ) (db : Tables)
      → InI64 row.amount_minor
      → is_pending row.status ≡ true
      → P db
      → StmtPost (λ _. P) (insert_charge row t db)
  unfolding insert_charge
  insert_charge-kept row t db range pending s = elim (Bool-cases (ltb_ℤ (pos 0) row.amount_minor)) [
    | inr bad ↦ rw bad tt
    | inl good ↦ rw good (elim (Bool-cases (any (λ r. r.id == row.id) db.charges)) [
      | inl taken ↦ rw taken tt
      | inr free ↦ rw free (elim (Bool-cases (any (λ r. r.order_id == row.order_id) db.charges)) [
        | inl taken ↦ rw taken tt
        | inr fresh ↦ rw fresh (
            S.inserted (record row { created_at = t; updated_at = t }) db
              (record { positive = good; range = range; pending = pending; fresh = free }) s)
      ])
    ])
  ]

  insert_charge-Keeps :
      (row : ChargeRow)
      → InI64 row.amount_minor
      → is_pending row.status ≡ true
      → Keeps P (exec env (insert_charge row))
  insert_charge-Keeps row range pending =
      Triple-exec env (insert_charge row) (λ db s. s)
        (λ t db s. insert_charge-kept row t db range pending s)

  pub get_charge-Keeps : (id : String) → Keeps P (Charge.get env id)
  unfolding Charge.get
  get_charge-Keeps id =
      Keeps-bind
        (Keeps-map_err ChargeError.db_error (Keeps-exec S env _ (Rows.select_charge-Framed id)))
        λ row.
          Keeps-bind (Keeps-lift (ok_or row Charge.not_found))
            (λ found. Keeps-pure (to_charge found))

  pub create_charge-Keeps :
      (req : CreateCharge) → InI64 req.amount_minor → Keeps P (Charge.create env req)
  unfolding Charge.create
  create_charge-Keeps req range =
      Keeps-if_at (leb_ℤ req.amount_minor (pos 0)) (Keeps-lift (err Charge.invalid_amount)) (
        Keeps-bind (Keeps-new_v4 env) λ uuid.
          Keeps-bind
            (Keeps-map_err (insert_error req.order_id)
              (insert_charge-Keeps (new_row (String.◌++◌ "chg_" uuid) req) range refl))
            (λ u. get_charge-Keeps (String.◌++◌ "chg_" uuid)))

  urls_allowed-Keeps :
      (return_url webhook_url : Option String) → Keeps P (urls_allowed env return_url webhook_url)
  unfolding urls_allowed
  urls_allowed-Keeps return_url webhook_url =
      Keeps-bind (is_allowed-Keeps S env return_url)
        (λ first_ok. Keeps-if first_ok (is_allowed-Keeps S env webhook_url) (Keeps-pure false))

  pub select_gateway-Keeps :
      (pay_ref gateway : String) → Keeps P (select_gateway env pay_ref gateway)
  unfolding select_gateway set_gateway
  select_gateway-Keeps pay_ref gateway =
      Keeps-bind
        (Keeps-map_err CheckoutError.db_error (
          Triple-exec env (set_gateway pay_ref gateway) (λ db s. s)
            λ t db s.
              S.noted (open_ref pay_ref) (λ r. record r { gateway = some gateway }) db
                (λ r. record { id = refl; amount = refl; currency = refl; status = refl }) s))
        (λ done. Keeps-lift (affected done))

  pub submit_manual-Keeps :
      (pay_ref trx_id : String) (sender : Option String)
      → Keeps P (submit_manual env pay_ref trx_id sender)
  unfolding submit_manual set_claim
  submit_manual-Keeps pay_ref trx_id sender =
      Keeps-bind
        (Keeps-map_err CheckoutError.db_error (
          Triple-exec env (set_claim pay_ref trx_id sender) (λ db s. s)
            λ t db s.
              S.noted (open_ref pay_ref)
                (λ r. record r { claimed_trx_id = some trx_id; claimed_sender = sender }) db
                (λ r. record { id = refl; amount = refl; currency = refl; status = refl }) s))
        (λ done. Keeps-lift (affected done))

  pub get_public_charge-Keeps :
      (by_gateway : List GatewayConfig → List GatewayConfig) (pay_ref : String)
      → Keeps P (get_public_charge env by_gateway pay_ref)
  unfolding get_public_charge
  get_public_charge-Keeps by_gateway pay_ref =
      Keeps-bind
        (Keeps-map_err CheckoutError.db_error
          (Keeps-exec S env _ (Rows.select_by_ref-Framed pay_ref)))
        λ row. Keeps-bind (Keeps-lift (ok_or row Checkout.not_found)) λ c.
          Keeps-bind
            (Keeps-map_err CheckoutError.db_error
              (Keeps-exec S env _ (Rows.select_receivers-Framed by_gateway)))
            λ receivers. Keeps-pure (record {
              pay_ref = pay_ref;
              amount_minor = c.amount_minor;
              currency = c.currency;
              status = c.status;
              gateway = c.gateway;
              return_url = c.return_url;
              receivers = receivers;
            })

  pub verify-Keeps :
      (crates : Crates) (f : Float64) (pay_ref : String) → Keeps P (verify env crates f pay_ref)
  unfolding verify
  verify-Keeps crates f pay_ref =
      Keeps-bind
        (Keeps-map_err CheckoutError.db_error
          (Keeps-exec S env _ (Rows.select_by_ref-Framed pay_ref)))
        λ row. Keeps-bind (Keeps-lift (ok_or row Checkout.not_found)) λ c.
          Keeps-bind
            (Keeps-map_err CheckoutError.db_error
              (Keeps-exec S env _ (Rows.select_settled_trx-Framed c.id)))
            (λ trx. Keeps-pure (verify_result crates f c trx))

  module _ (f : Float64) (saturating : Saturating f) where
    insert_checkout-Keeps :
        (base_url : String) (req : CreateCheckout f.F)
        → Keeps P (insert_checkout env f base_url req)
    unfolding insert_checkout
    insert_checkout-Keeps base_url req = Keeps-bind (Keeps-new_v4 env) λ uuid.
        Keeps-bind (Keeps-new_v4 env) λ ref_uuid.
          Keeps-bind
            (Keeps-map_err CheckoutError.db_error (
              insert_charge-Keeps
                (checkout_row f (String.◌++◌ "chg_" uuid) (String.◌++◌ "pay_" ref_uuid)
                  (f.round_i64 (f.times_hundred req.amount)) req)
                (saturating (f.times_hundred req.amount)) refl))
            λ u. Keeps-pure (record {
              sap_id = String.◌++◌ "pay_" ref_uuid;
              sap_url = pay_url base_url (String.◌++◌ "pay_" ref_uuid);
            })

    pub create_checkout-Keeps :
        (base_url : String) (req : CreateCheckout f.F)
        → Keeps P (create_checkout env f base_url req)
    unfolding create_checkout
    create_checkout-Keeps base_url req =
        Keeps-if_at (not (f.is_finite req.amount) || f.is_nonpositive req.amount)
          (Keeps-lift (err CheckoutError.invalid_amount))
          (Keeps-bind
            (Keeps-map_err CheckoutError.db_error
              (urls_allowed-Keeps req.return_url req.webhook_url))
            λ allowed.
              Keeps-if allowed (insert_checkout-Keeps base_url req)
                (Keeps-lift (err domain_not_allowed)))
