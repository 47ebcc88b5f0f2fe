-- ===== src/Ai/Attempts.antt =====
-- src/ai.rs: the rows of `ai_parse_log` that one extraction writes.
use spritexai_pay_core.Prelude.{
  ◌≡◌, ◌⊎◌, String, true, false, Option, none, some, List, [], ◌∷◌, ◌++◌,
}
use spritexai_pay_core.Db.{Tables, AiParseLog}
use spritexai_pay_core.Gateway.{ParsedTxn}
use spritexai_pay_core.Ai.{Provider, is_some, opt_map, opt_then}

-- The tables with rows added to the parse log.
abbrev pub with_log : List AiParseLog → Tables → Tables
with_log rows db = record db { ai_parse_log = db.ai_parse_log ++ rows }

module _ (gateway raw_body raw_sha256 : String) where
  -- The row of an attempt at a provider.
  abbrev row_of : Provider → Option ParsedTxn → AiParseLog
  row_of p parsed = record {
    gateway = gateway;
    raw_sha256 = raw_sha256;
    provider = p.name;
    success = is_some parsed;
    txn_id = opt_map (λ (x : ParsedTxn). x.txn_id) parsed;
    amount_minor = opt_map (λ (x : ParsedTxn). x.amount_minor) parsed;
    sender_msisdn = opt_then parsed (λ (x : ParsedTxn). x.sender_msisdn);
    raw_body = raw_body;
  }

  -- The rows of an extraction: one for each provider, in their order, up to the first that gives a
  -- transaction. Its row alone is a success, and holds the id and the amount that are returned.
  abbrev pub Attempts : Option ParsedTxn → List Provider → List AiParseLog → Type 0
  Attempts r [] rows = (rows ≡ []) × (r ≡ none)
  Attempts r (p ∷ ps) [] = ⊥
  Attempts r (p ∷ ps) (row ∷ rows) =
      (row.provider ≡ p.name)
      × (row.gateway ≡ gateway)
      × (row.raw_sha256 ≡ raw_sha256)
      × (row.raw_body ≡ raw_body)
      × (((row.success ≡ true)
            × (rows ≡ [])
            × (t : ParsedTxn) × (r ≡ some t)
            × (row.txn_id ≡ some t.txn_id)
            × (row.amount_minor ≡ some t.amount_minor)
            × (row.sender_msisdn ≡ t.sender_msisdn))
          ⊎ ((row.success ≡ false)
              × (row.txn_id ≡ none)
              × (row.amount_minor ≡ none)
              × Attempts r ps rows))
