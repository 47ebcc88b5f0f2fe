-- ===== src/Settlement/Bills.antt =====
-- src/charge.rs: `mark_paid`, for a predicate on the table of charges alone.
use Prim.Native.String
use spritexai_pay_core.Prelude.{ℕ, String, inl, inr, Option, none, some, List, ◌==◌, arith}
use spritexai_pay_core.Crates.{Crates}
use spritexai_pay_core.Db.{Tables, ChargeRow, ChargeStatus, Env, update}
use spritexai_pay_core.Db.Triple.{Triple-const, Triple-exec}
use spritexai_pay_core.Ledger.{Entry, post}
use spritexai_pay_core.Ledger.Atomic.{post_atomic}
use spritexai_pay_core.Invoice.Settle.{settle_for_charge, set_invoice_paid}
use spritexai_pay_core.Webhook.{enqueue, insert_delivery}
use spritexai_pay_core.Charge.Sound.{settlement}
use spritexai_pay_core.Charge.{
  Charge, ChargeError, set_charge_paid, notify, mark_paid, paid_payload, memo_of, ledger_error,
}
use spritexai_pay_core.Stable.{
  Stable, Settles, Framed, Keeps, Keeps-pure, Keeps-bind, Keeps-map_err, Keeps-new_v4, Keeps-exec,
}
use spritexai_pay_core.Stable.Checkouts.{get_charge-Keeps}

set_invoice_paid-Framed : (id : String) → Framed (set_invoice_paid id)
unfolding set_invoice_paid
set_invoice_paid-Framed id = record { at = λ t a db v e. ground arith }

insert_delivery-Framed :
    (id charge_id url event payload : String)
    → Framed (insert_delivery id charge_id url event payload)
unfolding insert_delivery
insert_delivery-Framed id charge_id url event payload = record { at = λ t a db v e. ground arith }

-- The row of a settled charge.
abbrev pub paid_at : ℕ → ChargeRow → ChargeRow
paid_at t r = record r { status = ChargeStatus.paid; updated_at = t }

module _ (C : List ChargeRow → Type 0) (S : Stable (λ db. C db.charges))
    (paid : (id : String) (t : ℕ) (rs : List ChargeRow)
      → C rs
      → C (update (λ r. r.id == id) (paid_at t) rs)) where
  abbrev P : Tables → Type 0
  P db = C db.charges

  post-Keeps :
      (env : Env) (id reference memo : String) (es : List Entry)
      → Keeps P (post env id reference memo es)
  post-Keeps env id reference memo es = Triple-const λ w s.
      elim (post_atomic env id reference memo es w) [
        | inl (failed, same) ↦ rw same s
        | inr (done, made, fresh, enough, zero) ↦ rw made s
      ]

  notify-Keeps :
      (env : Env) (crates : Crates) (c : Charge) (url : Option String)
      → Keeps P (notify env crates c url)
  unfolding notify enqueue
  notify-Keeps env crates c none = Keeps-pure tt
  notify-Keeps env crates c (some url) =
      Keeps-bind
        (Keeps-map_err ChargeError.db_error (
          Keeps-bind (Keeps-new_v4 env) λ uuid.
            Keeps-bind
              (Keeps-exec S env _ (
                insert_delivery-Framed (String.◌++◌ "whd_" uuid) c.id url "charge.paid"
                  (paid_payload env crates c)))
              (λ u. Keeps-pure (String.◌++◌ "whd_" uuid))))
        (λ id. Keeps-pure tt)

  -- A settlement, whichever of its statements fails.
  pub mark_paid-Settles : Settles P
  unfolding mark_paid settle_for_charge set_charge_paid
  mark_paid-Settles env crates id = Keeps-bind (get_charge-Keeps S env id) λ c.
      Keeps-bind (Keeps-new_v4 env) λ uuid.
        Keeps-bind
          (Keeps-map_err ledger_error (
            post-Keeps env (String.◌++◌ "ltx_" uuid) c.id (memo_of env crates c)
              (settlement c.amount_minor c.currency)))
          λ u1.
            Keeps-bind
              (Keeps-map_err ChargeError.db_error (
                Triple-exec env (set_charge_paid id) (λ db s. s)
                  (λ t db s. paid id t db.charges s)))
              λ u2.
                Keeps-bind
                  (Keeps-map_err ChargeError.db_error
                    (Keeps-exec S env _ (set_invoice_paid-Framed id)))
                  (λ u3. notify-Keeps env crates c c.callback_url)
