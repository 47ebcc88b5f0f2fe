-- ===== src/Sms/InFlight/Posted.antt =====
-- What a recorded SMS that settles its charge posts, from the charges and the entries before it.
use Prim.Native.String
use spritexai_pay_core.Prelude.{
  ℕ, String, ◌&&◌, ◌||◌, Option, some, List, ◌++◌, ◌==◌, ◌≡◌, refl, inl, inr, Bool-cases,
}
use spritexai_pay_core.Crates.{Crates}
use spritexai_pay_core.Db.{
  Tables, ChargeRow, ChargeStatus, LedgerEntry, Result, ok, err, Env, first, update, any,
}
use spritexai_pay_core.Db.Triple.{
  Triple, Post, StmtPost, Triple-bind, Triple-map_err, Triple-exec, Triple-new_v4, Triple-pure,
}
use spritexai_pay_core.Gateway.{ParsedTxn}
use spritexai_pay_core.Ledger.Atomic.{rows_of}
use spritexai_pay_core.Charge.Sound.{settlement}
use spritexai_pay_core.Charge.Effect.{Settled, mark_paid-Triple}
use spritexai_pay_core.Sms.{
  IngestError, charge, event_error, charge_exists, insert_event, record_event, record_matched,
  settle_recorded, settle_matched,
}
use spritexai_pay_core.Task.{after}

-- `Settled`, by the charges and the entries that it starts from.
abbrev pub SettledFrom : String → List ChargeRow → List LedgerEntry → Tables → Type 0
SettledFrom id charges entries after =
    (r : ChargeRow) × (txn_id : String) × (t : ℕ) × (first (λ c. c.id == id) charges ≡ some r)
    × (after.charges
        ≡ update (λ c. c.id == id) (λ c. record c { status = ChargeStatus.paid; updated_at = t })
            charges)
    × (after.ledger_entries ≡ entries ++ rows_of txn_id (settlement r.amount_minor r.currency))

module _ (env : Env) (crates : Crates) (id : String) (charges : List ChargeRow)
    (entries : List LedgerEntry) where
  abbrev pub Before : Tables → Type 0
  Before db = (db.charges ≡ charges) × (db.ledger_entries ≡ entries)

  abbrev pub Failed : Tables → Type 0
  Failed db = Unit {0}

  insert_event-Before :
      (event_id : String) (p : ParsedTxn) (m : Option String) (raw source : String) (t : ℕ)
      (db : Tables)
      → Before db
      → StmtPost (λ _. Before) (insert_event event_id p m raw source t db)
  unfolding insert_event
  insert_event-Before event_id p m raw source t db h =
      elim (Bool-cases (
        any (λ r. r.id == event_id || r.gateway == p.gateway && r.txn_id == p.txn_id)
          db.sms_events)) [
            | inl taken ↦ rw taken tt
            | inr free ↦ rw free (elim (Bool-cases (charge_exists m db.charges)) [
              | inr gone ↦ rw gone tt
              | inl exists ↦ rw exists h
            ])
          ]

  settled_from :
      (before : Tables)
      → Before before
      → (r : Result IngestError Unit) (db : Tables) → Post (λ _. Settled id before) Failed r db
      → Post (λ _. SettledFrom id charges entries) Failed r db
  settled_from before h (ok u) db s = rw (← h.0) (rw (← h.1) s)
  settled_from before h (err e) db s = tt

  settle_matched-Settled :
      Triple Before
        (settle_matched env crates (some id))
        (λ _. SettledFrom id charges entries)
        Failed
  unfolding settle_matched
  settle_matched-Settled = record {
    at = λ w h.
        settled_from w.db h _ _
          ((Triple-map_err charge (mark_paid-Triple env id w.db crates)).at w refl);
  }

  pub record_matched-Settled :
      (raw source : String) (p : ParsedTxn)
      → Triple Before
          (record_matched env crates raw p source (some id))
          (λ _. SettledFrom id charges entries)
          Failed
  unfolding record_matched record_event settle_recorded
  record_matched-Settled raw source p =
      Triple-bind (λ _. Before)
        (Triple-bind (λ _. Before) (Triple-new_v4 env)
          λ uuid.
            Triple-bind (λ _. Before)
              (Triple-map_err event_error (
                Triple-exec env (insert_event (String.◌++◌ "sms_" uuid) p (some id) raw source)
                  (λ db s. tt)
                  (insert_event-Before (String.◌++◌ "sms_" uuid) p (some id) raw source)))
              λ u. Triple-pure (String.◌++◌ "sms_" uuid) (λ db s. s))
        λ event_id.
          Triple-bind (λ _. SettledFrom id charges entries) settle_matched-Settled
            λ u. Triple-pure _ (λ db s. s)
