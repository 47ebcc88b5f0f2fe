-- ===== src/Sms.antt =====
-- src/sms.rs: an inbound confirmation SMS is parsed, recorded once, and settles the one pending
-- charge that it belongs to.
pub mod Match
pub mod Msisdn
pub mod Once
pub mod Replay
pub mod Sound
pub mod Quiet
pub mod InFlight
use Prim.Native.String
use spritexai_pay_core.Prelude.{
  ℤ, ℕ, ◌-◌, String, Bool, true, false, ltb, eqb_ℤ, ◌&&◌, ◌||◌, Option, none, some, List, [], ◌∷◌,
  ◌++◌, ◌==◌, keep, is_ascii_digit, chars, drop_chars, if◌then◌else◌,
}
use spritexai_pay_core.Crates.{Crates, Float64}
use spritexai_pay_core.Crypto.{sign}
use spritexai_pay_core.Db.{
  Tables, ChargeRow, SmsEvent, is_pending, Result, ok, err, DbError, unique_violation,
  foreign_key_violation, is_unique_violation, Env, World, M, pure, throw, lift, ok_or, ◌>>=◌, ◌>>◌,
  map_err, Stmt, exec, new_v4, any, select, newest_first, at_most,
}
use spritexai_pay_core.Gateway.{Gateway, ParsedTxn, ParseError, resolve, parse_sms}
use spritexai_pay_core.Gateway
use spritexai_pay_core.Ai.{AiOutside, Panicking, panics, returns, extract}
use spritexai_pay_core.Charge.{ChargeError, mark_paid}

pub data IngestError : Type 0 where
  unknown_gateway duplicate : IngestError
  parse : ParseError → IngestError
  charge : ChargeError → IngestError
  db_error : DbError → IngestError
  -- no error of the source: the process is gone
  aborted : IngestError

pub record Ingested : Type 0 where
  pub sms_event_id : String
  pub txn_id : String
  pub matched_charge : Option String

unfoldable pub normalize_msisdn : String → String
normalize_msisdn raw =
    let digits = keep is_ascii_digit raw in
    let n = chars digits in if ltb 10 n then drop_chars (n - 10) digits else digits

-- A row (id, customer_msisdn) of the candidates.
abbrev pub Candidate : Type 0
Candidate = String × Option String

abbrev pub candidate : ChargeRow → Candidate
candidate r = (r.id, r.customer_msisdn)

abbrev pub claims : ℤ → ChargeRow → Bool
claims amount r = eqb_ℤ r.amount_minor amount && is_pending r.status

abbrev pub candidates_of : List ChargeRow → List Candidate
candidates_of [] = []
candidates_of (r ∷ rs) = candidate r ∷ candidates_of rs

unfoldable pub select_candidates : ℤ → Stmt (List Candidate)
select_candidates amount t db = ok (candidates_of (select (claims amount) db.charges), db)

abbrev pub declares : String → Candidate → Bool
declares sender (id, none) = false
declares sender (id, some declared) = normalize_msisdn declared == sender

-- `match (hits.next(), hits.next())`
abbrev pub only_hit : List Candidate → Option String
only_hit (h ∷ []) = some h.0
only_hit _ = none

-- The `match` on the candidates.
unfoldable pub choose : Option String → List Candidate → Option String
choose sender [] = none
choose sender (c ∷ []) = some c.0
choose none (c ∷ d ∷ cs) = none
choose (some sender) (c ∷ d ∷ cs) =
    only_hit (select (declares (normalize_msisdn sender)) (c ∷ d ∷ cs))

unfoldable pub find_matching_charge : Env → ParsedTxn → M DbError (Option String)
find_matching_charge env parsed = do
  candidates ← exec env (select_candidates parsed.amount_minor)
  pure (choose parsed.sender_msisdn candidates)

abbrev pub is_some : {A : Type 0} → Option A → Bool
is_some none = false
is_some (some a) = true

-- The foreign key of `sms_events.charge_id`.
abbrev pub charge_exists : Option String → List ChargeRow → Bool
charge_exists none rows = true
charge_exists (some id) rows = any (λ r. r.id == id) rows

unfoldable pub insert_event : String → ParsedTxn → Option String → String → String → Stmt Unit
insert_event id parsed matched raw_sha256 parse_source t db =
    if any (λ r. r.id == id || r.gateway == parsed.gateway && r.txn_id == parsed.txn_id)
      db.sms_events
    then err unique_violation
    else if charge_exists matched db.charges
    then ok (
      tt,
      record db {
        sms_events =
            db.sms_events
            ++ record {
              id = id;
              gateway = parsed.gateway;
              txn_id = parsed.txn_id;
              amount_minor = parsed.amount_minor;
              sender_msisdn = parsed.sender_msisdn;
              charge_id = matched;
              raw_sha256 = raw_sha256;
              matched = is_some matched;
              parse_source = parse_source;
              received_at = t;
            }
              ∷ [];
      },
    )
    else err foreign_key_violation

-- The columns that the dashboard's feed reads: neither the fingerprint nor how it was parsed.
pub record SmsEventView : Type 0 where
  pub id : String
  pub gateway : String
  pub txn_id : String
  pub amount_minor : ℤ
  pub sender_msisdn : Option String
  pub charge_id : Option String
  pub matched : Bool
  pub received_at : ℕ

abbrev views_of : List SmsEvent → List SmsEventView
views_of [] = []
views_of (e ∷ es) =
    record {
      id = e.id;
      gateway = e.gateway;
      txn_id = e.txn_id;
      amount_minor = e.amount_minor;
      sender_msisdn = e.sender_msisdn;
      charge_id = e.charge_id;
      matched = e.matched;
      received_at = e.received_at;
    }
    ∷ views_of es

unfoldable pub select_events : ℤ → Stmt (List SmsEventView)
select_events limit t db =
    ok (views_of (at_most limit (newest_first (λ r. r.received_at) db.sms_events)), db)

unfoldable pub list_events : Env → ℤ → M DbError (List SmsEventView)
list_events env limit = exec env (select_events limit)

abbrev pub event_error : DbError → IngestError
event_error e = if is_unique_violation e then duplicate else db_error e

-- How `ingest` reads the outcome of the fallback chain.
abbrev pub fallback_outcome :
    ParseError → Panicking (Option ParsedTxn) → Result IngestError (ParsedTxn × String)
fallback_outcome regex_err panics = err aborted
fallback_outcome regex_err (returns (some p)) = ok (p, "ai")
fallback_outcome regex_err (returns none) = err (parse regex_err)

module _ (env : Env) (crates : Crates) where
  -- `if let Some(ref charge_id) = matched_charge`
  unfoldable pub settle_matched : Option String → M IngestError Unit
  settle_matched none = pure tt
  settle_matched (some charge_id) = map_err charge (mark_paid env crates charge_id)

  -- `ingest` from the matched charge on: the event is recorded, then the charge is settled.
  unfoldable pub record_event : String → ParsedTxn → String → Option String → M IngestError String
  record_event raw_sha256 parsed parse_source matched = do
    uuid ← new_v4 env
    let event_id = String.◌++◌ "sms_" uuid
    map_err event_error (exec env (insert_event event_id parsed matched raw_sha256 parse_source))
    pure event_id

  unfoldable pub settle_recorded : ParsedTxn → Option String → String → M IngestError Ingested
  settle_recorded parsed matched event_id = do
    settle_matched matched
    pure (record { sms_event_id = event_id; txn_id = parsed.txn_id; matched_charge = matched })

  unfoldable pub record_matched :
      String → ParsedTxn → String → Option String → M IngestError Ingested
  record_matched raw_sha256 parsed parse_source matched = do
    event_id ← record_event raw_sha256 parsed parse_source matched
    settle_recorded parsed matched event_id

  -- `ingest` from the parsed transaction on.
  unfoldable pub record_and_settle : String → ParsedTxn → String → M IngestError Ingested
  record_and_settle raw_sha256 parsed parse_source = do
    matched ← map_err db_error (find_matching_charge env parsed)
    record_matched raw_sha256 parsed parse_source matched

  module _ (f : Float64) (o : AiOutside f.F) where
    -- The transaction and how it was parsed: by the regexes, else by the AI chain.
    unfoldable pub parse_or_extract : String → Gateway → String → M IngestError (ParsedTxn × String)
    parse_or_extract raw_sha256 gateway raw_body w = elim (parse_sms f crates gateway raw_body) [
      | ok p ↦ (ok (p, "regex"), w)
      | err regex_err ↦
          let (outcome, w') = extract env f o (Gateway.id gateway) raw_body raw_sha256 w in
          (fallback_outcome regex_err outcome, w')
    ]

    unfoldable pub ingest : String → String → M IngestError Ingested
    ingest gw raw_body = do
      let raw_sha256 = sign crates "sms-audit" raw_body
      gateway ← lift (ok_or (resolve gw) unknown_gateway)
      (parsed, parse_source) ← parse_or_extract raw_sha256 gateway raw_body
      record_and_settle raw_sha256 parsed parse_source
