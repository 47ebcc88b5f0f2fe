-- ===== src/Sms/InFlight/Sound.antt =====
-- The money invariant, while any number of ingestions are in flight at once.
use Prim.Native.String
use spritexai_pay_core.Prelude.{ℕ, String, Option, none, some, List, [], ◌∷◌}
use spritexai_pay_core.Crates.{Crates}
use spritexai_pay_core.Db.{Tables, Env, World, M, All}
use spritexai_pay_core.Db.Triple.{
  Triple, Triple-weaken, Triple-map_err, Triple-bind, Triple-new_v4, Triple-kept,
}
use spritexai_pay_core.Gateway.{ParsedTxn}
use spritexai_pay_core.Charge.{Charge, ChargeError, ledger_error, memo_of}
use spritexai_pay_core.Charge.Sound.{Sound, IsAmount}
use spritexai_pay_core.Charge.Settle.{get-Sound, post-Sound, paid-Sound, settle-Sound, notify-Sound}
use spritexai_pay_core.Sms.{IngestError, Ingested, charge, db_error}
use spritexai_pay_core.Sms.InFlight.{
  Arrival, post_settlement, mark_paid_task, settle_matched_task, settle_task, settle_tasks,
}
use spritexai_pay_core.Stable.Ingest.{find-Keeps, record_event-Keeps}
use spritexai_pay_core.Stable.Instances.{Sound-Stable, Sound-Settles}
use spritexai_pay_core.Stable.Checkouts.{Saturating}
use spritexai_pay_core.Stable.Routes.{InRangeCall, handle-Keeps_all}
use spritexai_pay_core.Settlement.Reach.{drain_due-Keeps}
use spritexai_pay_core.Webhook.Worker.{Network, drain_due}
use spritexai_pay_core.Http.{AppState, Headers}
use spritexai_pay_core.Http.Server.{Outside, Call, handle}
use spritexai_pay_core.Task.{Task}
use spritexai_pay_core.Task.Pool.{
  Reach, Safe, Safe-atomically, Safe-finally, Safe-and_then, Safe-map_err_task, Reach-Safe,
}

-- A block that finds out nothing that has to last.
Blank :
    {E A : Type 0} {m : M E A}
    → Triple Sound m (λ _. Sound) Sound
    → Triple Sound m (λ a db. Sound db × Unit {0}) Sound
Blank t = Triple-weaken (λ db s. s) (λ a db s. (s, tt)) t

module _ (env : Env) (crates : Crates) where
  post_settlement-Sound :
      (c : Charge)
      → IsAmount c.amount_minor
      → Triple Sound (post_settlement env crates c) (λ _. Sound) Sound
  unfolding post_settlement
  post_settlement-Sound c amount =
      Triple-bind (λ _. Sound) (Triple-new_v4 env)
        λ uuid. Triple-map_err ledger_error (
          Triple-weaken (λ db s. (s, amount)) (λ a db s. s)
            (post-Sound env (String.◌++◌ "ltx_" uuid) c.id (memo_of env crates c) c.currency
              c.amount_minor))

  mark_paid_task-Safe : (id : String) → Safe Sound (mark_paid_task env crates id)
  unfolding mark_paid_task
  mark_paid_task-Safe id =
      Safe-atomically Sound (λ c. IsAmount c.amount_minor) _ _ (get-Sound env id)
        λ c amount.
          Safe-atomically Sound (λ _. Unit {0}) _ _ (Blank (post_settlement-Sound c amount))
            λ _ _.
              Safe-atomically Sound (λ _. Unit {0}) _ _
                (Blank (Triple-map_err ChargeError.db_error (paid-Sound env id)))
                λ _ _.
                  Safe-atomically Sound (λ _. Unit {0}) _ _
                    (Blank (Triple-map_err ChargeError.db_error (settle-Sound env id)))
                    λ _ _. Safe-finally Sound _ (notify-Sound env crates c c.callback_url)

  settle_matched_task-Safe : (m : Option String) → Safe Sound (settle_matched_task env crates m)
  unfolding settle_matched_task
  settle_matched_task-Safe none = tt
  settle_matched_task-Safe (some id) = Safe-map_err_task Sound charge _ (mark_paid_task-Safe id)

  settle_task-Safe :
      (raw : String) (p : ParsedTxn) (source : String)
      → Safe Sound (settle_task env crates raw p source)
  unfolding settle_task
  settle_task-Safe raw p source =
      Safe-atomically Sound (λ _. Unit {0}) _ _
        (Blank (Triple-map_err db_error (find-Keeps Sound-Stable Sound-Settles env p)))
        λ m _.
          Safe-atomically Sound (λ _. Unit {0}) _ _
            (Blank (record_event-Keeps Sound-Stable Sound-Settles env crates raw p source m))
            λ id _. Safe-and_then Sound _ _ (settle_matched_task-Safe m) λ _. tt

  settle_tasks-Safe :
      (arrivals : List Arrival) → All (Safe Sound) (settle_tasks env crates arrivals)
  settle_tasks-Safe [] = tt
  settle_tasks-Safe (a ∷ later) =
      (settle_task-Safe a.raw_sha256 a.parsed a.parse_source, settle_tasks-Safe later)

-- What another request of the server, or a round of its worker, does to the tables.
pub data Served (x : Outside) (state : AppState) (secret : String) : Tables → Tables → Type 0 where
  request :
      (env : Env) (headers : Headers) (now : ℕ) (call : Call x.float.F) (w : World)
      → InRangeCall call
      → Served x state secret w.db (handle x env state headers now call w).1.db
  round :
      (env : Env) (network : Network) (w : World)
      → Served x state secret w.db (drain_due env x.crates network secret w).1.db

module _ (x : Outside) (state : AppState) (secret : String) (saturating : Saturating x.float) where
  Served-Sound : (a b : Tables) → Served x state secret a b → Sound a → Sound b
  Served-Sound a b (request env headers now call w range) =
      Triple-kept w
        (handle-Keeps_all Sound-Stable x saturating env state headers Sound-Settles now call range)
  Served-Sound a b (round env network w) =
      Triple-kept w (drain_due-Keeps Sound-Stable x env network secret)

  -- Any number of parsed SMS that are recorded and settled at once, in whatever order their steps
  -- come, and with requests of others and rounds of the delivery worker between them, keep the
  -- money invariant, whichever statements fail. It is assumed that the cast of a float to an i64
  -- saturates, and that the amounts of the requests for charges are i64s.
  pub in_flight-Sound :
      (env : Env) (arrivals : List Arrival) {w : World} {us : List (Task IngestError Ingested)}
      {v : World}
      → Reach (Served x state secret) (settle_tasks env x.crates arrivals) w us v
      → Sound w.db
      → Sound v.db
  in_flight-Sound env arrivals reached s =
      (Reach-Safe Sound Served-Sound reached (settle_tasks-Safe env x.crates arrivals) s).0
