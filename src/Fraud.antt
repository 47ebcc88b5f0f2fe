-- ===== src/Fraud.antt =====
-- src/fraud.rs: the rules over the recorded SMS events. The rows of a grouped query come in the
-- order in which their groups first occur.
pub mod Outliers
use Prim.Native.String
use spritexai_pay_core.Prelude.{
  ℤ, pos, ltb_ℤ, ltb, ℕ, zero, suc, ◌+◌, String, Bool, true, false, not, ◌&&◌, Option, none, some,
  List, [], ◌∷◌, ◌++◌, ◌==◌, show_ℕ, show_ℤ, if◌then◌else◌,
}
use spritexai_pay_core.Crates.{Float64}
use spritexai_pay_core.Db.{
  Tables, SmsEvent, ChargeRow, ok, DbError, Env, M, pure, ◌>>=◌, Stmt, exec, select, any, count,
  first,
}

pub record Anomaly : Type 0 where
  pub kind : String
  pub severity : String
  pub detail : String
  pub txn_id : Option String
  pub charge_id : Option String

pub record FraudReport : Type 0 where
  pub anomaly_count : ℕ
  pub anomalies : List Anomaly

abbrev pub min_sample_for_amount : ℕ
min_sample_for_amount = 5

-- The distinct values of a column, in the order of their first rows.
unfoldable pub distinct : (SmsEvent → String) → List String → List SmsEvent → List String
distinct column seen [] = []
distinct column seen (e ∷ es) =
    let rest = distinct column (column e ∷ seen) es in
    if any (λ s. s == column e) seen then rest else column e ∷ rest

abbrev size : {A : Type 0} → List A → ℕ
size [] = 0
size (x ∷ xs) = suc (size xs)

-- `COUNT(DISTINCT gateway)` of the group of a transaction id.
unfoldable pub gateways_of : String → List SmsEvent → ℕ
gateways_of txn_id es = size (distinct (λ e. e.gateway) [] (select (λ e. e.txn_id == txn_id) es))

-- … GROUP BY txn_id HAVING n > 1, of the groups given.
unfoldable pub shared_txids : List SmsEvent → List String → List (String × ℕ)
shared_txids es [] = []
shared_txids es (t ∷ ts) =
    let n = gateways_of t es in if ltb 1 n then (t, n) ∷ shared_txids es ts else shared_txids es ts

unfoldable pub select_shared_txids : Stmt (List (String × ℕ))
select_shared_txids t db =
    ok (shared_txids db.sms_events (distinct (λ e. e.txn_id) [] db.sms_events), db)

abbrev duplicate_anomalies : List (String × ℕ) → List Anomaly
duplicate_anomalies [] = []
duplicate_anomalies ((txn_id, n) ∷ rows) =
    record {
      kind = "duplicate_txid";
      severity = "high";
      detail = String.◌++◌ "txn_id seen on " (String.◌++◌ (show_ℕ n) " different gateways");
      txn_id = some txn_id;
      charge_id = none;
    }
    ∷ duplicate_anomalies rows

-- A row (charge_id, sender_msisdn, customer_msisdn) of the join.
pub record Mismatch : Type 0 where
  pub charge_id : String
  pub got : String
  pub expected : String

-- `s.sender_msisdn <> c.customer_msisdn`, where NULL passes no test.
abbrev mismatch_of : String → Option String → Option String → List Mismatch
mismatch_of id (some got) (some expected) =
    if got == expected then [] else record { charge_id = id; got = got; expected = expected } ∷ []
mismatch_of id _ _ = []

-- The charges that an event joins: `charges.id` is the primary key.
abbrev joined : Option String → Option String → List ChargeRow → List Mismatch
joined none sender cs = []
joined (some id) sender cs = elim (first (λ c. c.id == id) cs) [
  | none ↦ []
  | some c ↦ mismatch_of id sender c.customer_msisdn
]

unfoldable pub mismatches : List ChargeRow → List SmsEvent → List Mismatch
mismatches cs [] = []
mismatches cs (e ∷ es) = joined e.charge_id e.sender_msisdn cs ++ mismatches cs es

unfoldable pub select_mismatches : Stmt (List Mismatch)
select_mismatches t db = ok (mismatches db.charges db.sms_events, db)

abbrev mismatch_anomalies : List Mismatch → List Anomaly
mismatch_anomalies [] = []
mismatch_anomalies (m ∷ ms) =
    record {
      kind = "sender_mismatch";
      severity = "medium";
      detail =
          String.◌++◌ "paid by " (String.◌++◌ m.got (String.◌++◌ ", charge expected " m.expected));
      txn_id = none;
      charge_id = some m.charge_id;
    }
    ∷ mismatch_anomalies ms

abbrev pub amounts : List SmsEvent → List ℤ
amounts [] = []
amounts (e ∷ es) = e.amount_minor ∷ amounts es

-- The `amount_minor` of the settled events.
abbrev pub settled_amounts : List SmsEvent → List ℤ
settled_amounts es = amounts (select (λ e. e.matched) es)

abbrev rows_above : List SmsEvent → List (String × ℤ)
rows_above [] = []
rows_above (e ∷ es) = (e.txn_id, e.amount_minor) ∷ rows_above es

unfoldable pub select_above : ℤ → Stmt (List (String × ℤ))
select_above threshold t db =
    ok (rows_above (select (λ e. e.matched && ltb_ℤ threshold e.amount_minor) db.sms_events), db)

module _ (f : Float64) where
  -- COUNT(*) and the average
  unfoldable pub select_norm : Stmt (ℕ × f.F)
  select_norm t db =
      ok ((count (λ e. e.matched) db.sms_events, f.average (settled_amounts db.sms_events)), db)

  abbrev outlier_anomalies : f.F → List (String × ℤ) → List Anomaly
  outlier_anomalies avg [] = []
  outlier_anomalies avg ((txn_id, amount) ∷ rows) =
      record {
        kind = "amount_anomaly";
        severity = "medium";
        detail = String.◌++◌ "amount " (
            String.◌++◌ (show_ℤ amount)
              (String.◌++◌ " minor is >10× the average of " (show_ℤ (f.round_i64 avg))));
        txn_id = some txn_id;
        charge_id = none;
      }
      ∷ outlier_anomalies avg rows

  module _ (env : Env) where
    unfoldable pub duplicate_txids : M DbError (List Anomaly)
    duplicate_txids = do rows ← exec env select_shared_txids; pure (duplicate_anomalies rows)

    unfoldable pub sender_mismatches : M DbError (List Anomaly)
    sender_mismatches = do rows ← exec env select_mismatches; pure (mismatch_anomalies rows)

    -- `amount_outliers` behind its test of the sample.
    unfoldable pub outliers_above : f.F → M DbError (List Anomaly)
    outliers_above avg = do
      rows ← exec env (select_above (f.round_i64 (f.times_ten avg)))
      pure (outlier_anomalies avg rows)

    unfoldable pub amount_outliers : M DbError (List Anomaly)
    amount_outliers = do
      (n, avg) ← exec env select_norm
      if ltb n min_sample_for_amount then pure [] else outliers_above avg

    unfoldable pub scan : M DbError FraudReport
    scan = do
      duplicates ← duplicate_txids
      mismatched ← sender_mismatches
      outliers ← amount_outliers
      let anomalies = duplicates ++ mismatched ++ outliers
      pure (record { anomaly_count = size anomalies; anomalies = anomalies })
