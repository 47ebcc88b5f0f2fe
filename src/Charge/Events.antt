-- ===== src/Charge/Events.antt =====
-- src/charge.rs: `mark_paid`, and the recorded SMS events.
use Prim.Native.String
use spritexai_pay_core.Prelude.{
  sym, inl, inr, ℕ, String, Option, none, some, List, [], ◌∷◌, ◌==◌, Bool-cases,
}
use mathlib.Core.Path.{subst}
use spritexai_pay_core.Crates.{Crates}
use spritexai_pay_core.Db.{Tables, SmsEvent, Env, lift, ok_or, any}
use spritexai_pay_core.Db.Triple.{
  Triple, StmtPost, Triple-bind, Triple-map_err, Triple-exec, Triple-new_v4, Triple-const,
  Triple-pure,
}
use spritexai_pay_core.Ledger.{Entry, debit, credit, post}
use spritexai_pay_core.Ledger.Atomic.{post_atomic}
use spritexai_pay_core.Invoice.Settle.{settle_for_charge, set_invoice_paid}
use spritexai_pay_core.Webhook.{insert_delivery, enqueue}
use spritexai_pay_core.Charge.{
  Charge, ChargeError, get, not_found, to_charge, select_charge, set_charge_paid, notify,
  paid_payload, mark_paid, ledger_error, memo_of, merchant_receivable, customer_clearing,
}

module _ (env : Env) (P : List SmsEvent → Type 0) where
  -- The predicate, of the tables.
  abbrev pub OnEvents : Tables → Type 0
  OnEvents db = P db.sms_events

  pub get-OnEvents : (id : String) → Triple OnEvents (get env id) (λ _. OnEvents) OnEvents
  unfolding get select_charge
  get-OnEvents id =
      Triple-bind (λ _. OnEvents)
        (Triple-map_err ChargeError.db_error
          (Triple-exec env (select_charge id) (λ db s. s) (λ t db s. s)))
        λ row.
          Triple-bind (λ _. OnEvents) (Triple-const {m = lift (ok_or row not_found)} (λ w s. s))
            λ found. Triple-pure (to_charge found) (λ db s. s)

  pub post-OnEvents :
      (id reference memo : String) (es : List Entry)
      → Triple OnEvents (post env id reference memo es) (λ _. OnEvents) OnEvents
  post-OnEvents id reference memo es = Triple-const λ w s.
      elim (post_atomic env id reference memo es w) [
        | inl (failed, same) ↦ subst OnEvents (sym same) s
        | inr (done, made, fresh, enough, zero) ↦ subst OnEvents (sym made) s
      ]

  insert_delivery-OnEvents :
      (id charge_id url event payload : String) (t : ℕ) (db : Tables)
      → OnEvents db
      → StmtPost (λ _. OnEvents) (insert_delivery id charge_id url event payload t db)
  unfolding insert_delivery
  insert_delivery-OnEvents id charge_id url event payload t db s =
      elim (Bool-cases (any (λ r. r.id == id) db.webhook_deliveries)) [
        | inl taken ↦ rw taken tt
        | inr free ↦ rw free (elim (Bool-cases (any (λ r. r.id == charge_id) db.charges)) [
          | inl here ↦ rw here s
          | inr gone ↦ rw gone tt
        ])
      ]

  module _ (crates : Crates) where
    pub notify-OnEvents :
        (c : Charge) (url : Option String)
        → Triple OnEvents (notify env crates c url) (λ _. OnEvents) OnEvents
    unfolding notify enqueue
    notify-OnEvents c none = Triple-pure tt (λ db s. s)
    notify-OnEvents c (some url) =
        Triple-bind (λ _. OnEvents)
          (Triple-map_err ChargeError.db_error (
            Triple-bind (λ _. OnEvents) (Triple-new_v4 env)
              λ uuid.
                Triple-bind (λ _. OnEvents)
                  (Triple-exec env
                    (insert_delivery (String.◌++◌ "whd_" uuid) c.id url "charge.paid"
                      (paid_payload env crates c))
                    (λ db s. s)
                    (insert_delivery-OnEvents (String.◌++◌ "whd_" uuid) c.id url "charge.paid"
                      (paid_payload env crates c)))
                  λ _. Triple-pure (String.◌++◌ "whd_" uuid) (λ db s. s)))
          λ _. Triple-pure tt (λ db s. s)

    pub mark_paid-OnEvents :
        (id : String) → Triple OnEvents (mark_paid env crates id) (λ _. OnEvents) OnEvents
    unfolding mark_paid set_charge_paid settle_for_charge set_invoice_paid
    mark_paid-OnEvents id =
        Triple-bind (λ _. OnEvents) (get-OnEvents id)
          λ c.
            Triple-bind (λ _. OnEvents) (Triple-new_v4 env)
              λ uuid.
                Triple-bind (λ _. OnEvents)
                  (Triple-map_err ledger_error (
                    post-OnEvents (String.◌++◌ "ltx_" uuid) c.id (memo_of env crates c) (
                      debit merchant_receivable c.amount_minor c.currency
                      ∷ credit customer_clearing c.amount_minor c.currency
                      ∷ [])))
                  λ u1.
                    Triple-bind (λ _. OnEvents)
                      (Triple-map_err ChargeError.db_error
                        (Triple-exec env (set_charge_paid id) (λ db s. s) (λ t db s. s)))
                      λ u2.
                        Triple-bind (λ _. OnEvents)
                          (Triple-map_err ChargeError.db_error
                            (Triple-exec env (set_invoice_paid id) (λ db s. s) (λ t db s. s)))
                          λ u3. notify-OnEvents c c.callback_url
