-- ===== src/Ai/Chat.antt =====
-- src/ai.rs: the two other uses of the providers, a suggestion of regexes and the routing of a
-- question.
use Prim.Native.String
use spritexai_pay_core.Prelude.{
  ℕ, suc, String, Bool, ◌&&◌, Option, none, some, List, [], ◌∷◌, ◌==◌, if◌then◌else◌,
}
use spritexai_pay_core.Db.{AiParseLog, ok, err, Env, World, Stmt, exec, select}
use spritexai_pay_core.Ai.{
  AiOutside, Provider, Panicking, panics, returns, providers_from_env, json_span,
}

abbrev pub suggest_prompt : String
suggest_prompt =
    "You are a Rust engineer maintaining regex parsers for mobile-money (bKash/Nagad Bangladesh) confirmation SMS. Below are real SMS samples the current parser FAILED on, one per line. Propose Rust `regex` crate patterns (with `(?i)` where useful) that capture, in one group each: the transaction id (TrxID/TxnID), the received amount, and the 11-digit sender number (01...). Reply with ONLY a JSON object, no prose, no code fences: {\"txid\": string, \"amount\": string, \"sender\": string, \"note\": string}. Each pattern is a raw regex string. `note` briefly says how the format drifted."

abbrev pub recon_prompt : String
recon_prompt =
    "You translate a merchant's plain-language question about their mobile-money settlements into a structured query. Reply with ONLY a JSON object, no prose, no code fences: {\"intent\": \"reconcile\"|\"fraud\"|\"unknown\", \"gateway\": \"bkash\"|\"nagad\"|null}. Use intent \"reconcile\" for questions about totals, settled amounts, how much came in, or pending payments. Use \"fraud\" for questions about suspicious, duplicate, or anomalous transactions. Use \"unknown\" if the question is unrelated. Set gateway only if the question names one, else null."

-- `suggest_regex`'s `Raw`
pub record Raw : Type 0 where
  pub txid : String
  pub amount : String
  pub sender : String
  pub note : String

pub record RegexSuggestion : Type 0 where
  pub gateway : String
  pub sample_count : ℕ
  pub txid : String
  pub amount : String
  pub sender : String
  pub note : String

pub record ChatIntent : Type 0 where
  pub intent : String
  pub gateway : Option String

-- serde_json's reading of the two replies, whether the regex crate compiles a pattern, and what
-- SQLite leaves of the texts of some rows under `DISTINCT … ORDER BY id DESC LIMIT 20`, where the
-- rows come in insertion order.
pub record ChatOutside : Type 0 where
  pub raw : String → Option Raw
  pub chat_intent : String → Option ChatIntent
  pub compiles : String → Bool
  pub distinct_newest : List String → List String

-- `chain.first()`
abbrev pub first_provider : List Provider → Option Provider
first_provider [] = none
first_provider (p ∷ ps) = some p

abbrev bodies : List AiParseLog → List String
bodies [] = []
bodies (r ∷ rs) = r.raw_body ∷ bodies rs

abbrev recovered : String → AiParseLog → Bool
recovered gateway r = r.gateway == gateway && r.success

abbrev size : List String → ℕ
size [] = 0
size (x ∷ xs) = suc (size xs)

-- `samples.join("\n")`
abbrev join_lines : List String → String
join_lines [] = ""
join_lines (s ∷ []) = s
join_lines (s ∷ ss) = String.◌++◌ s (String.◌++◌ "\n" (join_lines ss))

abbrev map_returned : {A B : Type 0} → (A → Option B) → Panicking (Option A) → Panicking (Option B)
map_returned g panics = panics
map_returned g (returns none) = returns none
map_returned g (returns (some a)) = returns (g a)

module _ (c : ChatOutside) where
  unfoldable pub select_samples : String → Stmt (List String)
  select_samples gateway t db =
      ok (c.distinct_newest (bodies (select (recovered gateway) db.ai_parse_log)), db)

  -- The JSON between the braces of a reply; patterns that do not compile are refused.
  unfoldable pub read_suggestion : String → ℕ → String → Option RegexSuggestion
  read_suggestion gateway sample_count span = elim (c.raw span) [
    | none ↦ none
    | some raw ↦
        if c.compiles raw.txid && c.compiles raw.amount && c.compiles raw.sender
        then some (record {
          gateway = gateway;
          sample_count = sample_count;
          txid = raw.txid;
          amount = raw.amount;
          sender = raw.sender;
          note = raw.note;
        })
        else none
  ]

  unfoldable pub parse_intent : String → Panicking (Option ChatIntent)
  parse_intent content = map_returned c.chat_intent (json_span content)

  module _ {F : Type 0} (o : AiOutside F) where
    -- The reply to the samples, as a suggestion.
    unfoldable pub suggest_from :
        String → Provider → List String → Panicking (Option RegexSuggestion)
    suggest_from gateway p [] = returns none
    suggest_from gateway p (s ∷ ss) = elim (o.chat p suggest_prompt (join_lines (s ∷ ss))) [
      | none ↦ returns none
      | some content ↦ map_returned (read_suggestion gateway (size (s ∷ ss))) (json_span content)
    ]

    unfoldable pub suggest_regex : Env → String → World → Panicking (Option RegexSuggestion) × World
    suggest_regex env gateway w = elim (first_provider (providers_from_env o.var)) [
      | none ↦ (returns none, w)
      | some p ↦
          let (samples, w') = exec env (select_samples gateway) w in
          elim samples [ err e ↦ (returns none, w') | ok ss ↦ (suggest_from gateway p ss, w') ]
    ]

    unfoldable pub classify_question : String → Panicking (Option ChatIntent)
    classify_question question = elim (first_provider (providers_from_env o.var)) [
      | none ↦ returns none
      | some p ↦ elim (o.chat p recon_prompt question) [
        | none ↦ returns none
        | some content ↦ parse_intent content
      ]
    ]
