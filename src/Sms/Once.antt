-- ===== src/Sms/Once.antt =====
-- src/sms.rs: the record that an ingested SMS leaves.
pub mod Stranded
use Prim.Native.String
use spritexai_pay_core.Prelude.{
  ◌≡◌, refl, inl, inr, ℕ, String, Bool, true, ◌&&◌, ◌||◌, Option, none, some, List, [], ◌∷◌, ◌++◌,
  ◌==◌, eq_refl, arith, Bool-cases,
}
use spritexai_pay_core.Crates.{Crates}
use spritexai_pay_core.Db.{Tables, SmsEvent, ok, Env, World, any, map_err}
use spritexai_pay_core.Db.Triple.{
  Triple, StmtPost, Triple-bind, Triple-map_err, Triple-exec, Triple-new_v4, Triple-const,
  Triple-pure, Triple-forget, Triple-ok,
}
use spritexai_pay_core.Gateway.{ParsedTxn}
use spritexai_pay_core.Charge.Events.{mark_paid-OnEvents}
use spritexai_pay_core.Sms.{
  Ingested, charge, db_error, event_error, charge_exists, insert_event, is_some,
  find_matching_charge, settle_matched, record_event, settle_recorded, record_matched,
  record_and_settle,
}
use spritexai_pay_core.Sms.Replay.{recorded, Refused, replay-Refused}

-- A transaction that stands at the end of the events is one of them.
any_last :
    (p : SmsEvent → Bool) (es : List SmsEvent) (e : SmsEvent)
    → p e ≡ true
    → any p (es ++ e ∷ []) ≡ true
any_last p [] e h = rw h refl
any_last p (x ∷ es) e h = ground (arith, any_last p es e h)

module _ (env : Env) (p : ParsedTxn) where
  abbrev pub OnRecord : Tables → Type 0
  OnRecord db = recorded p db ≡ true

  abbrev pub Anything : Tables → Type 0
  Anything db = Unit {0}

  insert_event-OnRecord :
      (id : String) (m : Option String) (raw source : String) (t : ℕ) (db : Tables)
      → StmtPost (λ _. OnRecord) (insert_event id p m raw source t db)
  unfolding insert_event
  insert_event-OnRecord id m raw source t db =
      elim (Bool-cases
        (any (λ r. r.id == id || r.gateway == p.gateway && r.txn_id == p.txn_id) db.sms_events)) [
          | inl taken ↦ rw taken tt
          | inr free ↦ rw free (elim (Bool-cases (charge_exists m db.charges)) [
            | inr gone ↦ rw gone tt
            | inl here ↦ rw here (
                any_last (λ r. r.gateway == p.gateway && r.txn_id == p.txn_id) db.sms_events
                  (record {
                    id = id;
                    gateway = p.gateway;
                    txn_id = p.txn_id;
                    amount_minor = p.amount_minor;
                    sender_msisdn = p.sender_msisdn;
                    charge_id = m;
                    raw_sha256 = raw;
                    matched = is_some m;
                    parse_source = source;
                    received_at = t;
                  })
                  (rw (eq_refl p.gateway) (eq_refl p.txn_id)))
          ])
        ]

  module _ (crates : Crates) where
    pub record_event-OnRecord :
        (raw source : String) (m : Option String)
        → Triple Anything (record_event env crates raw p source m) (λ _. OnRecord) Anything
    unfolding record_event
    record_event-OnRecord raw source m =
        Triple-bind (λ _. Anything) (Triple-new_v4 env)
          λ uuid.
            Triple-bind (λ _. OnRecord)
              (Triple-map_err event_error (
                Triple-exec env (insert_event (String.◌++◌ "sms_" uuid) p m raw source) (λ db s. tt)
                  (λ t db s. insert_event-OnRecord (String.◌++◌ "sms_" uuid) m raw source t db)))
              λ _. Triple-pure (String.◌++◌ "sms_" uuid) (λ db s. s)

    settle_matched-OnRecord :
        (m : Option String) → Triple OnRecord (settle_matched env crates m) (λ _. OnRecord) OnRecord
    unfolding settle_matched
    settle_matched-OnRecord none = Triple-pure tt (λ db s. s)
    settle_matched-OnRecord (some id) = Triple-map_err charge (
        mark_paid-OnEvents env
          (λ es. any (λ r. r.gateway == p.gateway && r.txn_id == p.txn_id) es ≡ true) crates id)

    settle_recorded-OnRecord :
        (m : Option String) (id : String)
        → Triple OnRecord (settle_recorded env crates p m id) (λ _. OnRecord) OnRecord
    unfolding settle_recorded
    settle_recorded-OnRecord m id =
        Triple-bind (λ _. OnRecord) (settle_matched-OnRecord m) λ _. Triple-pure _ (λ db s. s)

    record_and_settle-OnRecord :
        (raw source : String)
        → Triple Anything (record_and_settle env crates raw p source) (λ _. OnRecord) Anything
    unfolding record_and_settle record_matched
    record_and_settle-OnRecord raw source =
        Triple-bind (λ _. Anything)
          (Triple-const {m = map_err db_error (find_matching_charge env p)} (λ w s. tt))
          λ m.
            Triple-bind (λ _. OnRecord) (record_event-OnRecord raw source m)
              λ id. Triple-forget (settle_recorded-OnRecord m id)

    -- Once the recording and settling of a parsed SMS has returned, a second arrival of the same
    -- transaction right after it, with whatever text and parse source, is refused as a duplicate
    -- or because the database failed, and changes no table.
    pub second_arrival-Refused :
        (raw source raw' source' : String) (done : Ingested) (w : World)
        → (record_and_settle env crates raw p source w).0 ≡ ok done
        → let w' = (record_and_settle env crates raw p source w).1 in
          Refused w' (record_and_settle env crates raw' p source' w')
    second_arrival-Refused raw source raw' source' done w h =
        replay-Refused env crates raw' p source' (record_and_settle env crates raw p source w).1
          (Triple-ok w (record_and_settle-OnRecord raw source) tt h)
