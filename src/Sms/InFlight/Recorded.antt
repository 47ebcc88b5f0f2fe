-- ===== src/Sms/InFlight/Recorded.antt =====
-- No step of an ingestion takes a transaction off the record.
use Prim.Native.String
use spritexai_pay_core.Prelude.{
  ℕ, String, true, ◌&&◌, ◌||◌, Option, none, some, List, [], ◌∷◌, ◌==◌, ◌≡◌, refl, inl, inr,
  Bool-cases,
}
use spritexai_pay_core.Crates.{Crates}
use spritexai_pay_core.Db.{Tables, SmsEvent, Env, All, any}
use spritexai_pay_core.Db.Lists.{any-append}
use spritexai_pay_core.Db.Triple.{
  Triple, StmtPost, Triple-bind, Triple-map_err, Triple-exec, Triple-new_v4, Triple-pure,
  Triple-const,
}
use spritexai_pay_core.Gateway.{ParsedTxn}
use spritexai_pay_core.Ledger.{debit, credit}
use spritexai_pay_core.Invoice.Settle.{settle_for_charge, set_invoice_paid}
use spritexai_pay_core.Charge.{
  Charge, ChargeError, set_charge_paid, merchant_receivable, customer_clearing, ledger_error,
  memo_of,
}
use spritexai_pay_core.Charge.Events.{get-OnEvents, post-OnEvents, notify-OnEvents}
use spritexai_pay_core.Sms.{
  charge, db_error, event_error, charge_exists, insert_event, find_matching_charge, record_event,
}
use spritexai_pay_core.Sms.Replay.{recorded, find_cases}
use spritexai_pay_core.Sms.InFlight.{
  Arrival, post_settlement, mark_paid_task, settle_matched_task, settle_task, settle_tasks,
}
use spritexai_pay_core.Task.Pool.{
  Steady, Steady-atomically, Steady-finally, Steady-and_then, Steady-map_err_task,
}

module _ (env : Env) (p : ParsedTxn) where
  -- The transaction `p` is on record.
  abbrev pub OnRecord : Tables → Type 0
  OnRecord db = recorded p db ≡ true

  insert_event-OnRecord :
      (id : String) (q : ParsedTxn) (m : Option String) (raw source : String) (t : ℕ) (db : Tables)
      → OnRecord db
      → StmtPost (λ _. OnRecord) (insert_event id q m raw source t db)
  unfolding insert_event
  insert_event-OnRecord id q m raw source t db h =
      elim (Bool-cases
        (any (λ r. r.id == id || r.gateway == q.gateway && r.txn_id == q.txn_id) db.sms_events)) [
          | inl taken ↦ rw taken tt
          | inr free ↦ rw free (elim (Bool-cases (charge_exists m db.charges)) [
            | inr gone ↦ rw gone tt
            | inl here ↦ rw here (rw any-append (rw h refl))
          ])
        ]

  find-OnRecord :
      (q : ParsedTxn) → Triple OnRecord (find_matching_charge env q) (λ _. OnRecord) OnRecord
  find-OnRecord q =
      Triple-const λ w h. elim (find_cases env q w) [ inl e ↦ rw e h | inr e ↦ rw e h ]

  module _ (crates : Crates) where
    record_event-OnRecord :
        (raw : String) (q : ParsedTxn) (source : String) (m : Option String)
        → Triple OnRecord (record_event env crates raw q source m) (λ _. OnRecord) OnRecord
    unfolding record_event
    record_event-OnRecord raw q source m =
        Triple-bind (λ _. OnRecord) (Triple-new_v4 env)
          λ uuid.
            Triple-bind (λ _. OnRecord)
              (Triple-map_err event_error (
                Triple-exec env (insert_event (String.◌++◌ "sms_" uuid) q m raw source) (λ db s. s)
                  (insert_event-OnRecord (String.◌++◌ "sms_" uuid) q m raw source)))
              λ _. Triple-pure (String.◌++◌ "sms_" uuid) (λ db s. s)

    abbrev Events : List SmsEvent → Type 0
    Events es = any (λ r. r.gateway == p.gateway && r.txn_id == p.txn_id) es ≡ true

    post_settlement-OnRecord :
        (c : Charge) → Triple OnRecord (post_settlement env crates c) (λ _. OnRecord) OnRecord
    unfolding post_settlement
    post_settlement-OnRecord c =
        Triple-bind (λ _. OnRecord) (Triple-new_v4 env)
          λ uuid. Triple-map_err ledger_error (
            post-OnEvents env Events (String.◌++◌ "ltx_" uuid) c.id (memo_of env crates c) (
              debit merchant_receivable c.amount_minor c.currency
              ∷ credit customer_clearing c.amount_minor c.currency
              ∷ []))

    mark_paid_task-Steady : (id : String) → Steady OnRecord (mark_paid_task env crates id)
    unfolding mark_paid_task set_charge_paid settle_for_charge set_invoice_paid
    mark_paid_task-Steady id = Steady-atomically OnRecord _ _ (get-OnEvents env Events id) λ c.
        Steady-atomically OnRecord _ _ (post_settlement-OnRecord c) λ _.
          Steady-atomically OnRecord _ _
            (Triple-map_err ChargeError.db_error
              (Triple-exec env (set_charge_paid id) (λ db s. s) (λ t db s. s)))
            λ _.
              Steady-atomically OnRecord _ _
                (Triple-map_err ChargeError.db_error
                  (Triple-exec env (set_invoice_paid id) (λ db s. s) (λ t db s. s)))
                λ _. Steady-finally OnRecord _ (notify-OnEvents env Events crates c c.callback_url)

    pub settle_matched_task-Steady :
        (m : Option String) → Steady OnRecord (settle_matched_task env crates m)
    unfolding settle_matched_task
    settle_matched_task-Steady none = tt
    settle_matched_task-Steady (some id) =
        Steady-map_err_task OnRecord charge _ (mark_paid_task-Steady id)

    pub settle_task-Steady :
        (raw : String) (q : ParsedTxn) (source : String)
        → Steady OnRecord (settle_task env crates raw q source)
    unfolding settle_task
    settle_task-Steady raw q source =
        Steady-atomically OnRecord _ _ (Triple-map_err db_error (find-OnRecord q)) λ m.
          Steady-atomically OnRecord _ _ (record_event-OnRecord raw q source m)
            λ id. Steady-and_then OnRecord _ _ (settle_matched_task-Steady m) λ _. tt

    pub settle_tasks-Steady :
        (arrivals : List Arrival) → All (Steady OnRecord) (settle_tasks env crates arrivals)
    settle_tasks-Steady [] = tt
    settle_tasks-Steady (a ∷ later) =
        (settle_task-Steady a.raw_sha256 a.parsed a.parse_source, settle_tasks-Steady later)
