-- ===== src/Sms/InFlight.antt =====
-- src/sms.rs: an ingestion from the parsed transaction on, as the steps between its awaits, with those
-- of `mark_paid` of src/charge.rs inside. Other requests may run between any two of them.
pub mod Sound
pub mod Recorded
pub mod Racing
pub mod Unique
pub mod Posted
pub mod Race
use Prim.Native.String
use spritexai_pay_core.Prelude.{String, Option, none, some, List, ◌∷◌, [], ◌≡◌, refl}
use spritexai_pay_core.Crates.{Crates}
use spritexai_pay_core.Db.{ok, Env, M, ◌>>=◌, ◌>>◌, map_err, exec, new_v4, World}
use spritexai_pay_core.Gateway.{ParsedTxn}
use spritexai_pay_core.Ledger.{debit, credit, post}
use spritexai_pay_core.Invoice.Settle.{settle_for_charge}
use spritexai_pay_core.Charge.{
  Charge, ChargeError, get, set_charge_paid, merchant_receivable, customer_clearing, ledger_error,
  memo_of, notify, mark_paid,
}
use spritexai_pay_core.Sms.{
  IngestError, Ingested, charge, db_error, find_matching_charge, record_event, record_and_settle,
  record_matched, settle_recorded, settle_matched,
}
use spritexai_pay_core.Task.{
  Task, done, atomically, finally, run-finally, run-done, and_then, map_err_task, run,
  run-atomically, run-and_then, run-map_err_task,
}

-- A parsed SMS on its way to be recorded.
pub record Arrival : Type 0 where
  pub raw_sha256 : String
  pub parsed : ParsedTxn
  pub parse_source : String

module _ (env : Env) (crates : Crates) where
  -- The posting of a settlement, which is one transaction of the database.
  unfoldable pub post_settlement : Charge → M ChargeError Unit
  post_settlement c = do
    uuid ← new_v4 env
    map_err ledger_error (
        post env (String.◌++◌ "ltx_" uuid) c.id (memo_of env crates c) (
          debit merchant_receivable c.amount_minor c.currency
          ∷ credit customer_clearing c.amount_minor c.currency
          ∷ []))

  unfoldable pub mark_paid_task : String → Task ChargeError Unit
  mark_paid_task id = atomically (get env id) λ c. atomically (post_settlement c) λ _.
      atomically (map_err ChargeError.db_error (exec env (set_charge_paid id))) λ _.
        atomically (map_err ChargeError.db_error (settle_for_charge env id))
          λ _. finally (notify env crates c c.callback_url)

  unfoldable pub settle_matched_task : Option String → Task IngestError Unit
  settle_matched_task none = done (ok tt)
  settle_matched_task (some id) = map_err_task charge (mark_paid_task id)

  -- From the matched charge on.
  unfoldable pub record_task :
      String → ParsedTxn → String → Option String → Task IngestError Ingested
  record_task raw_sha256 parsed parse_source matched =
      atomically (record_event env crates raw_sha256 parsed parse_source matched) λ event_id.
        and_then (settle_matched_task matched) λ _. done (
          ok (record { sms_event_id = event_id; txn_id = parsed.txn_id; matched_charge = matched }))

  unfoldable pub settle_task : String → ParsedTxn → String → Task IngestError Ingested
  unfolding record_task
  settle_task raw_sha256 parsed parse_source =
      atomically (map_err db_error (find_matching_charge env parsed))
        λ matched. record_task raw_sha256 parsed parse_source matched

  abbrev pub settle_tasks : List Arrival → List (Task IngestError Ingested)
  settle_tasks [] = []
  settle_tasks (a ∷ later) = settle_task a.raw_sha256 a.parsed a.parse_source ∷ settle_tasks later

  run-mark_paid_task : (id : String) → run (mark_paid_task id) ≡ mark_paid env crates id
  unfolding mark_paid_task mark_paid post_settlement
  run-mark_paid_task id = simp (run-atomically, run-finally) refl

  run-settle_matched_task :
      (m : Option String) → run (settle_matched_task m) ≡ settle_matched env crates m
  unfolding settle_matched_task settle_matched
  run-settle_matched_task none = run-done _
  run-settle_matched_task (some id) = rw run-map_err_task (rw run-mark_paid_task refl)

  pub run-record_task :
      (raw_sha256 : String) (parsed : ParsedTxn) (parse_source : String) (matched : Option String)
      → run (record_task raw_sha256 parsed parse_source matched)
        ≡ record_matched env crates raw_sha256 parsed parse_source matched
  unfolding record_task record_matched settle_recorded
  run-record_task raw_sha256 parsed parse_source matched =
      simp (run-atomically, run-and_then, run-settle_matched_task, run-done) refl

  -- An ingestion whose steps nothing comes between is the recording and settling that the code
  -- writes: the same result and the same world, whichever statements fail.
  pub run-settle_task :
      (raw_sha256 : String) (parsed : ParsedTxn) (parse_source : String)
      → run (settle_task raw_sha256 parsed parse_source)
        ≡ record_and_settle env crates raw_sha256 parsed parse_source
  unfolding settle_task record_and_settle record_matched settle_recorded
  run-settle_task raw_sha256 parsed parse_source =
      simp (run-atomically, run-and_then, run-settle_matched_task, run-done) refl
