-- ===== src/Charge/Effect.antt =====
-- src/charge.rs: the tables before and after `mark_paid`.
use Prim.Native.String
use spritexai_pay_core.Prelude.{
  ◌≡◌, refl, sym, ap, ◌∙◌, inl, inr, ℕ, String, Option, none, some, ◌++◌, ◌==◌, Bool-cases,
}
use spritexai_pay_core.Crates.{Crates}
use spritexai_pay_core.Db.{
  Tables, ChargeRow, ChargeStatus, ok, Env, World, ok_or, exec, any, first, update,
}
use spritexai_pay_core.Db.Triple.{
  Triple, Post, StmtPost, Triple-bind, Triple-map_err, Triple-exec, Triple-new_v4, Triple-pure,
  Triple-lift, Triple-ok,
}
use spritexai_pay_core.Ledger.{post}
use spritexai_pay_core.Ledger.Atomic.{post_atomic, rows_of}
use spritexai_pay_core.Invoice.Settle.{settle_for_charge, set_invoice_paid}
use spritexai_pay_core.Webhook.{insert_delivery, enqueue}
use spritexai_pay_core.Charge.Sound.{settlement}
use spritexai_pay_core.Charge.{
  Charge, ChargeError, get, not_found, to_charge, select_charge, set_charge_paid, notify,
  paid_payload, mark_paid, ledger_error, memo_of,
}

-- The charge was in the table, it is paid now, and the ledger has gained exactly the debit of the
-- merchant and the credit of the customer for its amount.
abbrev pub Settled : String → Tables → Tables → Type 0
Settled id before after =
    (r : ChargeRow) × (txn_id : String) × (t : ℕ) × (first (λ c. c.id == id) before.charges
      ≡ some r)
    × (after.charges
        ≡ update (λ c. c.id == id) (λ c. record c { status = ChargeStatus.paid; updated_at = t })
            before.charges)
    × (after.ledger_entries
        ≡ before.ledger_entries ++ rows_of txn_id (settlement r.amount_minor r.currency))

module _ (env : Env) (id : String) (start : Tables) where
  abbrev pub AtStart : Tables → Type 0
  AtStart db = db ≡ start

  abbrev pub Failed : Tables → Type 0
  Failed db = Unit {0}

  -- The row that was read.
  abbrev Found : Charge → Type 0
  Found c = (r : ChargeRow) × (first (λ x. x.id == id) start.charges ≡ some r) × (c ≡ to_charge r)

  abbrev Posted : Charge → Tables → Type 0
  Posted c db =
      (txn_id : String) × (db.charges ≡ start.charges)
      × (db.ledger_entries
          ≡ start.ledger_entries ++ rows_of txn_id (settlement c.amount_minor c.currency))

  some_found :
      (row : Option ChargeRow) (db : Tables)
      → (db ≡ start) × (row ≡ first (λ x. x.id == id) start.charges)
      → Post
          (λ found db. (db ≡ start) × (first (λ x. x.id == id) start.charges ≡ some found))
          Failed
          (ok_or row not_found)
          db
  some_found none db h = tt
  some_found (some r) db (e, f) = (e, sym f)

  get-Found : Triple AtStart (get env id) (λ c db. (db ≡ start) × Found c) Failed
  unfolding get select_charge
  get-Found =
      Triple-bind (λ row db. (db ≡ start) × (row ≡ first (λ x. x.id == id) start.charges))
        (Triple-map_err ChargeError.db_error (
          Triple-exec env (select_charge id) (λ db s. tt)
            (λ t db e. (e, ap (λ d. first (λ x. x.id == id) d.charges) e))))
        λ row.
          Triple-bind
            (λ found db. (db ≡ start) × (first (λ x. x.id == id) start.charges ≡ some found))
            (Triple-lift (ok_or row not_found) (some_found row))
            λ found. Triple-pure (to_charge found) (λ db h. (h.0, (found, h.1, refl)))

  post-Posted :
      (txn_id memo : String) (c : Charge)
      → Triple
          (λ db. (db ≡ start) × Found c)
          (post env txn_id c.id memo (settlement c.amount_minor c.currency))
          (λ _ db. Found c × Posted c db)
          Failed
  post-Posted txn_id memo c = record {
    at = λ w (e, f).
        elim (post_atomic env txn_id c.id memo (settlement c.amount_minor c.currency) w) [
          | inl (failed, same) ↦ rw (failed.1) tt
          | inr (done, made, fresh, enough, zero) ↦ rw done (
            f,
            (
              txn_id,
              ap (λ d. d.charges) (made) ∙ ap (λ d. d.charges) e,
              ap (λ d. d.ledger_entries) made
                  ∙ ap
                      (λ d.
                        d.ledger_entries ++ rows_of txn_id (settlement c.amount_minor c.currency))
                      e,
            ),
          )
        ];
  }

  -- The charge of the row that was read asks for its amount in its currency.
  Settled-from :
      (c : Charge) (t : ℕ) (db db' : Tables)
      → Found c
      → Posted c db
      → db'.charges
        ≡ update
            (λ x. x.id == id)
            (λ x. record x { status = ChargeStatus.paid; updated_at = t })
            db.charges
      → db'.ledger_entries ≡ db.ledger_entries
      → Settled id start db'
  Settled-from c t db db' (r, f, e) (txn_id, p, q) paid same = (
    r,
    txn_id,
    t,
    f,
    paid
        ∙ ap
            (update (λ x. x.id == id)
              (λ x. record x { status = ChargeStatus.paid; updated_at = t }))
            p,
    same
        ∙ q
        ∙ ap (λ x. start.ledger_entries ++ rows_of txn_id (settlement x.amount_minor x.currency)) e,
  )

  paid-Settled :
      (c : Charge)
      → Triple
          (λ db. Found c × Posted c db)
          (exec env (set_charge_paid id))
          (λ _. Settled id start)
          Failed
  unfolding set_charge_paid
  paid-Settled c =
      Triple-exec env (set_charge_paid id) (λ db s. tt)
        λ t db h.
          Settled-from c t db
            (record db {
              charges =
                  update (λ x. x.id == id)
                    (λ x. record x { status = ChargeStatus.paid; updated_at = t }) db.charges;
            })
            h.0 h.1 refl refl

  insert_delivery-Settled :
      (whd charge_id url event payload : String) (t : ℕ) (db : Tables)
      → Settled id start db
      → StmtPost (λ _. Settled id start) (insert_delivery whd charge_id url event payload t db)
  unfolding insert_delivery
  insert_delivery-Settled whd charge_id url event payload t db s =
      elim (Bool-cases (any (λ r. r.id == whd) db.webhook_deliveries)) [
        | inl taken ↦ rw taken tt
        | inr free ↦ rw free (elim (Bool-cases (any (λ r. r.id == charge_id) db.charges)) [
          | inl here ↦ rw here s
          | inr gone ↦ rw gone tt
        ])
      ]

  notify-Settled :
      (crates : Crates) (c : Charge) (url : Option String)
      → Triple (Settled id start) (notify env crates c url) (λ _. Settled id start) Failed
  unfolding notify enqueue
  notify-Settled crates c none = Triple-pure tt (λ db s. s)
  notify-Settled crates c (some url) =
      Triple-bind (λ _. Settled id start)
        (Triple-map_err ChargeError.db_error (
          Triple-bind (λ _. Settled id start) (Triple-new_v4 env)
            λ uuid.
              Triple-bind (λ _. Settled id start)
                (Triple-exec env
                  (insert_delivery (String.◌++◌ "whd_" uuid) c.id url "charge.paid"
                    (paid_payload env crates c))
                  (λ db s. tt)
                  (insert_delivery-Settled (String.◌++◌ "whd_" uuid) c.id url "charge.paid"
                    (paid_payload env crates c)))
                λ _. Triple-pure (String.◌++◌ "whd_" uuid) (λ db s. s)))
        λ _. Triple-pure tt (λ db s. s)

  pub mark_paid-Triple :
      (crates : Crates) → Triple AtStart (mark_paid env crates id) (λ _. Settled id start) Failed
  unfolding mark_paid settle_for_charge set_invoice_paid
  mark_paid-Triple crates =
      Triple-bind (λ c db. (db ≡ start) × Found c) get-Found
        λ c.
          Triple-bind (λ _ db. (db ≡ start) × Found c) (Triple-new_v4 env)
            λ uuid.
              Triple-bind (λ _ db. Found c × Posted c db)
                (Triple-map_err ledger_error
                  (post-Posted (String.◌++◌ "ltx_" uuid) (memo_of env crates c) c))
                λ u1.
                  Triple-bind (λ _. Settled id start)
                    (Triple-map_err ChargeError.db_error (paid-Settled c))
                    λ u2.
                      Triple-bind (λ _. Settled id start)
                        (Triple-map_err ChargeError.db_error
                          (Triple-exec env (set_invoice_paid id) (λ db s. tt) (λ t db s. s)))
                        λ u3. notify-Settled crates c c.callback_url

-- A settlement that returns has found its charge, marked it paid, and posted exactly the debit of
-- the merchant's account and the credit of the customers' for the amount of that charge.
pub mark_paid-Settled :
    (env : Env) (crates : Crates) (id : String) (w : World)
    → (mark_paid env crates id w).0 ≡ ok tt
    → Settled id w.db (mark_paid env crates id w).1.db
mark_paid-Settled env crates id w h = Triple-ok w (mark_paid-Triple env id w.db crates) refl h
