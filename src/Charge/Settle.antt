-- ===== src/Charge/Settle.antt =====
-- src/charge.rs: `create` and `mark_paid`, and the money invariant.
use Prim.Native.String
use spritexai_pay_core.Prelude.{
  ℤ, pos, ◌≤ℤ◌, ◌≡◌, refl, inl, inr, String, leb_ℤ, ltb_ℤ, InI64, Option, none, some, [], ◌∷◌, ◌==◌,
  arith, Bool-cases, ℕ,
}
use spritexai_pay_core.Crates.{Crates}
use spritexai_pay_core.Db.{
  Tables, ChargeRow, ChargeStatus, Env, World, ◌>>=◌, ◌>>◌, exec, new_v4, lift, ok_or, first, any,
  map_err, pure,
}
use spritexai_pay_core.Db.Lists.{All-append, All-update, first-All}
use spritexai_pay_core.Db.Triple.{
  Triple, StmtPost, Triple-bind, Triple-map_err, Triple-exec, Triple-new_v4, Triple-pure,
  Triple-weaken, Triple-kept,
}
use spritexai_pay_core.Ledger.{post}
use spritexai_pay_core.Ledger.Atomic.{post_atomic}
use spritexai_pay_core.Invoice.Settle.{settle_for_charge, set_invoice_paid}
use spritexai_pay_core.Webhook.{enqueue, insert_delivery}
use spritexai_pay_core.Charge.{
  Charge, ChargeError, CreateCharge, not_found, to_charge, select_charge, set_charge_paid,
  insert_charge, get, create, notify, mark_paid, insert_error, new_row, paid_payload, memo_of,
  ledger_error,
}
use spritexai_pay_core.Charge.Sound.{Sound, IsAmount, HasAmount, settlement, posted-Sound, Sound-of}

-- A charge that was read has a proper amount.
abbrev pub Read : Charge → Tables → Type 0
Read c db = Sound db × IsAmount c.amount_minor

-- The row that was read, if any, has a proper amount.
abbrev RowRead : Option ChargeRow → Tables → Type 0
RowRead none db = Sound db
RowRead (some r) db = Sound db × HasAmount r

row_read :
    (id : String) (db : Tables) (o : Option ChargeRow)
    → first (λ r. r.id == id) db.charges ≡ o
    → Sound db
    → RowRead o db
row_read id db none e s = s
row_read id db (some r) e s =
    (s, (first-All HasAmount (λ r. r.id == id) db.charges r s.amounts e).0)

Read-found :
    (o : Option ChargeRow)
    → Triple (RowRead o) (do found ← lift (ok_or o not_found); pure (to_charge found)) Read Sound
Read-found none = record { at = λ w p. p }
Read-found (some r) = record { at = λ w p. p }

module _ (env : Env) where
  pub get-Sound : (id : String) → Triple Sound (get env id) Read Sound
  unfolding get select_charge
  get-Sound id =
      Triple-bind RowRead
        (Triple-map_err ChargeError.db_error
          (Triple-exec env (select_charge id) (λ db s. s) (λ t db s. row_read id db _ refl s)))
        Read-found

  pub post-Sound :
      (id reference memo currency : String) (a : ℤ)
      → Triple
          (λ db. Sound db × IsAmount a)
          (post env id reference memo (settlement a currency))
          (λ _. Sound)
          Sound
  post-Sound id reference memo currency a = record {
    at = λ w p. elim (post_atomic env id reference memo (settlement a currency) w) [
      | inl (failed, same) ↦ rw failed.1 (rw same p.0)
      | inr (done, made, fresh, _, _) ↦
          rw done (rw made (posted-Sound id reference memo currency a p.1 fresh p.0))
    ];
  }

  pub paid-Sound : (id : String) → Triple Sound (exec env (set_charge_paid id)) (λ _. Sound) Sound
  unfolding set_charge_paid
  paid-Sound id =
      Triple-exec env (set_charge_paid id) (λ db s. s)
        λ t db s.
          Sound-of
            (All-update HasAmount (λ r. r.id == id)
              (λ r. record r { status = ChargeStatus.paid; updated_at = t }) db.charges (λ x h. h)
              s.amounts)
            refl refl s

  pub settle-Sound : (id : String) → Triple Sound (settle_for_charge env id) (λ _. Sound) Sound
  unfolding settle_for_charge set_invoice_paid
  settle-Sound id =
      Triple-exec env (set_invoice_paid id) (λ db s. s) λ t db s. Sound-of s.amounts refl refl s

  insert_delivery-Sound :
      (id charge_id url event payload : String) (t : ℕ) (db : Tables)
      → Sound db
      → StmtPost (λ _. Sound) (insert_delivery id charge_id url event payload t db)
  unfolding insert_delivery
  insert_delivery-Sound id charge_id url event payload t db s =
      elim (Bool-cases (any (λ r. r.id == id) db.webhook_deliveries)) [
        | inl taken ↦ rw taken tt
        | inr free ↦ rw free (elim (Bool-cases (any (λ r. r.id == charge_id) db.charges)) [
          | inl here ↦ rw here (Sound-of s.amounts refl refl s)
          | inr gone ↦ rw gone tt
        ])
      ]

  insert_charge-Sound :
      (row : ChargeRow) (t : ℕ) (db : Tables)
      → HasAmount row
      → Sound db
      → StmtPost (λ _. Sound) (insert_charge row t db)
  unfolding insert_charge
  insert_charge-Sound row t db h s = elim (Bool-cases (ltb_ℤ (pos 0) row.amount_minor)) [
    | inr bad ↦ rw bad tt
    | inl good ↦ rw good (elim (Bool-cases (any (λ r. r.id == row.id) db.charges)) [
      | inl taken ↦ rw taken tt
      | inr free ↦ rw free (elim (Bool-cases (any (λ r. r.order_id == row.order_id) db.charges)) [
        | inl taken ↦ rw taken tt
        | inr fresh ↦ rw fresh (
            Sound-of
              (All-append HasAmount db.charges (record row { created_at = t; updated_at = t } ∷ [])
                s.amounts (h, tt))
              refl refl s)
      ])
    ])
  ]

  exec-insert_charge-Sound :
      (row : ChargeRow)
      → HasAmount row
      → Triple Sound (exec env (insert_charge row)) (λ _. Sound) Sound
  exec-insert_charge-Sound row h =
      Triple-exec env (insert_charge row) (λ db s. s) (λ t db s. insert_charge-Sound row t db h s)

  -- `create` behind its test of the amount.
  created :
      (req : CreateCharge)
      → InI64 req.amount_minor
      → pos 1 ≤ℤ req.amount_minor
      → Triple Sound
          (do
            uuid ← new_v4 env
            let id = String.◌++◌ "chg_" uuid
            map_err (insert_error req.order_id) (exec env (insert_charge (new_row id req)))
            get env id)
          (λ _. Sound)
          Sound
  created req range positive =
      Triple-bind (λ _. Sound) (Triple-new_v4 env)
        λ uuid.
          Triple-bind (λ _. Sound)
            (Triple-map_err (insert_error req.order_id)
              (exec-insert_charge-Sound (new_row (String.◌++◌ "chg_" uuid) req) (positive, range)))
            λ _. Triple-weaken (λ db s. s) (λ a db s. s.0) (get-Sound (String.◌++◌ "chg_" uuid))

  pub create-Triple :
      (req : CreateCharge)
      → InI64 req.amount_minor
      → Triple Sound (create env req) (λ _. Sound) Sound
  unfolding create
  create-Triple req range = record {
    at = λ w s. elim (Bool-cases (leb_ℤ req.amount_minor (pos 0))) [
      | inl bad ↦ rw bad s
      | inr good ↦ rw good ((created req range (ground arith)).at w s)
    ];
  }

  enqueue-Sound :
      (charge_id url event payload : String)
      → Triple Sound (enqueue env charge_id url event payload) (λ _. Sound) Sound
  unfolding enqueue
  enqueue-Sound charge_id url event payload =
      Triple-bind (λ _. Sound) (Triple-new_v4 env)
        λ uuid.
          Triple-bind (λ _. Sound)
            (Triple-exec env (insert_delivery (String.◌++◌ "whd_" uuid) charge_id url event payload)
              (λ db s. s)
              (λ t db s.
                insert_delivery-Sound (String.◌++◌ "whd_" uuid) charge_id url event payload t db s))
            λ _. Triple-pure (String.◌++◌ "whd_" uuid) (λ db s. s)

  module _ (crates : Crates) where
    pub notify-Sound :
        (c : Charge) (url : Option String)
        → Triple Sound (notify env crates c url) (λ _. Sound) Sound
    unfolding notify
    notify-Sound c none = Triple-pure tt (λ db s. s)
    notify-Sound c (some url) =
        Triple-bind (λ _. Sound)
          (Triple-map_err ChargeError.db_error
            (enqueue-Sound c.id url "charge.paid" (paid_payload env crates c)))
          λ _. Triple-pure tt (λ db s. s)

    pub mark_paid-Triple : (id : String) → Triple Sound (mark_paid env crates id) (λ _. Sound) Sound
    unfolding mark_paid
    mark_paid-Triple id = Triple-bind Read (get-Sound id) λ c.
        Triple-bind (λ _. Read c) (Triple-weaken (λ db s. s) (λ a db s. s) (Triple-new_v4 env))
          λ uuid.
            Triple-bind (λ _. Sound)
              (Triple-map_err ledger_error (
                post-Sound (String.◌++◌ "ltx_" uuid) c.id (memo_of env crates c) c.currency
                  c.amount_minor))
              λ u1.
                Triple-bind (λ _. Sound) (Triple-map_err ChargeError.db_error (paid-Sound id))
                  λ u2.
                    Triple-bind (λ _. Sound) (Triple-map_err ChargeError.db_error (settle-Sound id))
                      λ u3. notify-Sound c c.callback_url

-- Settling a charge keeps the money invariant, whichever of its statements fails.
pub mark_paid-Sound :
    (env : Env) (crates : Crates) (id : String) (w : World)
    → Sound w.db
    → Sound (mark_paid env crates id w).1.db
mark_paid-Sound env crates id w = Triple-kept w (mark_paid-Triple env crates id)

-- Creating a charge keeps the money invariant, whatever amount of 64 bits is asked for and
-- whichever statement fails.
pub create-Sound :
    (env : Env) (req : CreateCharge) (w : World)
    → InI64 req.amount_minor
    → Sound w.db
    → Sound (create env req w).1.db
create-Sound env req w range = Triple-kept w (create-Triple env req range)
