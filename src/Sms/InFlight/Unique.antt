-- ===== src/Sms/InFlight/Unique.antt =====
-- Two arrivals of one transaction, in flight at once.
use Prim.Native.String
use mathlib.Core.Path.{subst}
use spritexai_pay_core.Prelude.{
  suc, String, true, ◌&&◌, Option, List, ◌∷◌, ◌++◌, ◌==◌, ◌≡◌, refl, inl, inr, arith,
}
use spritexai_pay_core.Crates.{Crates}
use spritexai_pay_core.Db.{Tables, SmsEvent, Result, ok, err, World, transport, Env, any}
use spritexai_pay_core.Db.Lists.{any-append}
use spritexai_pay_core.Gateway.{ParsedTxn}
use spritexai_pay_core.Sms.{IngestError, Ingested, duplicate, db_error, record_event}
use spritexai_pay_core.Sms.Replay.{recorded, insert_recorded}
use spritexai_pay_core.Sms.Once.{record_event-OnRecord}
use spritexai_pay_core.Db.Exec.{Result-cases}
use spritexai_pay_core.Db.Triple.{Triple-ok}
use spritexai_pay_core.Sms.InFlight.{Arrival, settle_task, settle_tasks}
use spritexai_pay_core.Sms.InFlight.Recorded.{settle_task-Steady, settle_tasks-Steady}
use spritexai_pay_core.Task.{Task, done, atomically}
use spritexai_pay_core.Task.Pool.{Reach}
use spritexai_pay_core.Sms.InFlight.Racing.{
  Doomed, Racing, Reach-OneAtMost, Doomed-after, Racing-after, Racing-atomically,
}

module _ (env : Env) (crates : Crates) (p : ParsedTxn) where
  abbrev Recorded : Tables → Type 0
  Recorded db = recorded p db ≡ true

  module _ (raw source : String) (m : Option String) (k : String → Task IngestError Ingested) where
    record_event-fails :
        (w : World)
        → Recorded w.db
        → (e : IngestError) × ((record_event env crates raw p source m w).0 ≡ err e)
    unfolding record_event
    record_event-fails w h =
        let id = String.◌++◌ "sms_" (env.uuid w.drawn) in
        elim (insert_recorded env id p m raw source (record w { drawn = suc w.drawn }) h) [
          | inl e ↦ (db_error transport, ground arith)
          | inr e ↦ (duplicate, ground arith)
        ]

    abbrev recording : World → Result IngestError String × World
    recording = record_event env crates raw p source m

    record-Doomed : Doomed Recorded (atomically recording k)
    unfolding atomically
    record-Doomed = λ w h.
        Doomed-after Recorded (recording w).0 k
          λ a e. let (x, failed) = record_event-fails w h in cc

    record-Racing : Racing Recorded (atomically recording k)
    unfolding atomically
    record-Racing = (
      record-Doomed,
      λ w. elim (Result-cases (recording w).0) [
        | inl (id, e) ↦ inr (Triple-ok w (record_event-OnRecord env p crates raw source m) tt e)
        | inr (x, e) ↦ inl (Racing-after Recorded (recording w).0 k (λ a f. cc))
      ],
    )

  settle_task-Racing : (raw source : String) → Racing Recorded (settle_task env crates raw p source)
  unfolding settle_task
  settle_task-Racing raw source = Racing-atomically Recorded _ _ (λ m. record-Racing raw source m _)

-- What the rest of the server does to the events: it may add some, and takes none away.
abbrev pub AddsEvents : Tables → Tables → Type 0
AddsEvents a b = (more : List SmsEvent) × (b.sms_events ≡ a.sms_events ++ more)

AddsEvents-recorded :
    (p : ParsedTxn) (a b : Tables) → AddsEvents a b → recorded p a ≡ true → recorded p b ≡ true
AddsEvents-recorded p a b (more, e) h = rw (e, any-append, h) refl

-- The record goes by the gateway and the id alone.
same_record :
    (p q : ParsedTxn)
    → q.gateway ≡ p.gateway
    → q.txn_id ≡ p.txn_id
    → ◌≡◌ {A = Tables → Type 0} (λ db. recorded q db ≡ true) (λ db. recorded p db ≡ true)
same_record p q same_gateway same_id =
    λ i db. any (λ r. r.gateway == same_gateway i && r.txn_id == same_id i) db.sms_events ≡ true

-- Two arrivals of one transaction, whatever texts, amounts and parse sources they come with, never
-- both return, in whatever order their steps come, those of any number of other ingestions, and
-- other changes of the tables that take away no event.
pub returning_once :
    (env : Env) (crates : Crates) (p q : ParsedTxn) (raw source raw' source' : String)
    (others : List Arrival) (w v : World) (us : List (Task IngestError Ingested))
    (first second : Ingested)
    → q.gateway ≡ p.gateway
    → q.txn_id ≡ p.txn_id
    → ¬ Reach AddsEvents
        (settle_task env crates raw p source
          ∷ settle_task env crates raw' q source'
          ∷ settle_tasks env crates others)
        w
        (done (ok first) ∷ done (ok second) ∷ us)
        v
returning_once env crates p q raw source raw' source' others w v us first second same_gateway
      same_id reached =
    let q_races : Racing (Recorded env crates p) (settle_task env crates raw' q source') =
      subst (λ R. Racing R (settle_task env crates raw' q source'))
        (same_record p q same_gateway same_id) (settle_task-Racing env crates q raw' source') in
    elim (Reach-OneAtMost (Recorded env crates p) (AddsEvents-recorded p) reached (
      (
        settle_task-Steady env p crates raw p source,
        (settle_task-Steady env p crates raw' q source', settle_tasks-Steady env p crates others),
      ),
      inl (settle_task-Racing env crates p raw source, q_races),
    )).1 [
      | inl (ra, rb) ↦ ra first refl
      | inr (on_record, inl da) ↦ da first refl
      | inr (on_record, inr db) ↦ db second refl
    ]
