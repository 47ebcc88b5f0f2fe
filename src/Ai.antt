-- ===== src/Ai.antt =====
-- src/ai.rs: the fallback of the SMS parser on a chain of chat providers.
pub mod Log
pub mod Valid
pub mod Attempts
pub mod Chat
use Prim.Native.Char.{Char, code}
use Prim.Native.String.{[] as empty, ◌∷◌ as push}
use spritexai_pay_core.Prelude.{
  ℤ, ℕ, zero, suc, ◌+◌, String, Bool, true, false, ◌||◌, ◌&&◌, not, eqb, leb, ltb, Option, none,
  some, List, [], ◌∷◌, ◌++◌, ◌==◌, if◌then◌else◌,
}
use spritexai_pay_core.Crates.{Crates, Float64}
use spritexai_pay_core.Gateway.{ParsedTxn}
use spritexai_pay_core.Db.{
  Tables, AiParseLog, Result, ok, err, DbError, Env, World, M, pure, ◌>>=◌, ◌>>◌, Stmt, exec,
}

pub record Provider : Type 0 where
  pub name : String
  pub base_url : String
  pub api_key : String
  pub model : String

-- `ai::Extraction`
pub record Extraction (F : Type 0) : Type 0 where
  pub txn_id : Option String
  pub amount_bdt : Option F
  pub sender_msisdn : Option String

-- The process environment, the provider's HTTP answer to a prompt (None for any failure), and
-- serde_json's reading of an extraction.
pub record AiOutside (F : Type 0) : Type 0 where
  pub var : String → Option String
  pub chat : Provider → String → String → Option String
  pub extraction : String → Option (Extraction F)
  -- `str::trim`, whose white space is Unicode's
  pub trim : String → String

-- A call that panics aborts the process (`panic = "abort"` in Cargo.toml).
pub data Panicking (A : Type 0) : Type 0 where
  panics : Panicking A
  returns : A → Panicking A

-- `env_or`
unfoldable pub env_or : (String → Option String) → String → String → String
env_or var key default = elim (var key) [ none ↦ default | some v ↦ v ]

-- One `if let Ok(key) = std::env::var(..) { if !key.is_empty() { push } }`.
abbrev provider_entry : Option String → (String → Provider) → List Provider
provider_entry none make = []
provider_entry (some key) make = if key == "" then [] else make key ∷ []

unfoldable pub providers_from_env : (String → Option String) → List Provider
providers_from_env var =
    provider_entry (var "OPENROUTER_API_KEY") (λ key. record {
      name = "openrouter";
      base_url = env_or var "OPENROUTER_BASE" "https://openrouter.ai/api/v1";
      api_key = key;
      model = env_or var "OPENROUTER_MODEL" "meta-llama/llama-3.3-70b-instruct:free";
    })
    ++ provider_entry (var "OPENCODE_ZEN_API_KEY") (λ key. record {
      name = "opencode-zen";
      base_url = env_or var "OPENCODE_ZEN_BASE" "https://opencode.ai/zen/v1";
      api_key = key;
      model = env_or var "OPENCODE_ZEN_MODEL" "grok-code";
    })

abbrev pub extraction_prompt : String
extraction_prompt =
    "You extract fields from a mobile-money (bKash/Nagad Bangladesh) confirmation SMS. Reply with ONLY a JSON object, no prose, no code fences: {\"txn_id\": string, \"amount_bdt\": number, \"sender_msisdn\": string|null}. txn_id is the transaction reference (TrxID/TxnID). amount_bdt is the received amount in taka. sender_msisdn is the 11-digit sender number starting 01, or null. If the SMS is not a money-received confirmation, reply exactly: {\"txn_id\": null}"

abbrev bump : Option ℕ → Option ℕ
bump none = none
bump (some n) = some (suc n)

-- `content.find(c)`, as a count of characters.
unfoldable pub find : ℕ → String → Option ℕ
find k empty = none
find k (push c s) = let rest = bump (find k s) in if eqb (code c) k then some 0 else rest

-- `content.rfind(c)`, as a count of characters.
unfoldable pub rfind : ℕ → String → Option ℕ
rfind k empty = none
rfind k (push c s) = elim (rfind k s) [
  | some n ↦ some (suc n)
  | none ↦ if eqb (code c) k then some 0 else none
]

-- The characters at positions `from` to `from + n - 1`.
unfoldable pub take_chars : ℕ → String → String
take_chars zero s = empty
take_chars (suc n) empty = empty
take_chars (suc n) (push c s) = push c (take_chars n s)

unfoldable pub skip_chars : ℕ → String → String
skip_chars zero s = s
skip_chars (suc n) empty = empty
skip_chars (suc n) (push c s) = skip_chars n s

-- `&content[start..=end]` panics when `end + 1 < start`. The characters at both ends are one byte
-- each, so that is the same test on bytes and on characters.
unfoldable pub slice_inclusive : String → ℕ → ℕ → Panicking String
slice_inclusive content start end =
    if ltb (end + 1) start
    then panics
    else returns (skip_chars start (take_chars (end + 1) content))

-- `content.find('{')?`, `content.rfind('}')?` and the slice between.
unfoldable pub json_span : String → Panicking (Option String)
json_span content = elim (find b'{' content) [
  | none ↦ returns none
  | some start ↦ elim (rfind b'}' content) [
    | none ↦ returns none
    | some end ↦ elim (slice_inclusive content start end) [
      | panics ↦ panics
      | returns s ↦ returns (some s)
    ]
  ]
]

abbrev pub nonempty : Option String → Option String
nonempty none = none
nonempty (some s) = if s == "" then none else some s

module _ (f : Float64) (o : AiOutside f.F) where
  -- The reading of an extraction that parsed as JSON.
  unfoldable pub read_extraction : String → Extraction f.F → Option ParsedTxn
  read_extraction gateway ex = elim ex.txn_id [
    | none ↦ none
    | some raw ↦ if o.trim raw == "" then none else elim ex.amount_bdt [
      | none ↦ none
      | some amount ↦
          if not (f.is_finite amount) || f.is_nonpositive amount
          then none
          else some (record {
            gateway = gateway;
            txn_id = o.trim raw;
            amount_minor = f.round_i64 (f.times_hundred amount);
            sender_msisdn = nonempty ex.sender_msisdn;
          })
    ]
  ]

  unfoldable pub parse_extraction : String → String → Panicking (Option ParsedTxn)
  parse_extraction gateway content = elim (json_span content) [
    | panics ↦ panics
    | returns none ↦ returns none
    | returns (some s) ↦ elim (o.extraction s) [
      | none ↦ returns none
      | some ex ↦ returns (read_extraction gateway ex)
    ]
  ]

  -- `result.as_deref().and_then(|c| parse_extraction(gateway, c))`
  unfoldable pub parse_reply : String → Option String → Panicking (Option ParsedTxn)
  parse_reply gateway none = returns none
  parse_reply gateway (some content) = parse_extraction gateway content

abbrev pub is_some : {A : Type 0} → Option A → Bool
is_some none = false
is_some (some a) = true

abbrev pub opt_map : {A B : Type 0} → (A → B) → Option A → Option B
opt_map g none = none
opt_map g (some a) = some (g a)

abbrev pub opt_then : {A B : Type 0} → Option A → (A → Option B) → Option B
opt_then none g = none
opt_then (some a) g = g a

unfoldable pub log_attempt : String → String → String → String → Option ParsedTxn → Stmt Unit
log_attempt gateway raw_sha256 raw_body provider parsed t db = ok (
  tt,
  record db {
    ai_parse_log =
        db.ai_parse_log
        ++ record {
          gateway = gateway;
          raw_sha256 = raw_sha256;
          provider = provider;
          success = is_some parsed;
          txn_id = opt_map (λ (p : ParsedTxn). p.txn_id) parsed;
          amount_minor = opt_map (λ (p : ParsedTxn). p.amount_minor) parsed;
          sender_msisdn = opt_then parsed (λ (p : ParsedTxn). p.sender_msisdn);
          raw_body = raw_body;
        }
          ∷ [];
  },
)

-- `let _ = query.execute(db).await;`: the outcome is dropped.
abbrev pub ignore : {A : Type 0} → M DbError A → World → World
ignore m w = (m w).1

module _ (env : Env) (f : Float64) (o : AiOutside f.F) where
  -- The loop of `extract` over the providers. It never returns an error; it may panic.
  unfoldable pub try_providers :
      String → String → String → List Provider → World → Panicking (Option ParsedTxn) × World
  try_providers gateway raw_body raw_sha256 [] w = (returns none, w)
  try_providers gateway raw_body raw_sha256 (p ∷ ps) w =
      elim (parse_reply f o gateway (o.chat p extraction_prompt raw_body)) [
        | panics ↦ (panics, w)
        | returns parsed ↦
            let w' = ignore (exec env (log_attempt gateway raw_sha256 raw_body p.name parsed)) w in
            elim parsed [
              | some txn ↦ (returns (some txn), w')
              | none ↦ try_providers gateway raw_body raw_sha256 ps w'
            ]
      ]

  unfoldable pub extract : String → String → String → World → Panicking (Option ParsedTxn) × World
  extract gateway raw_body raw_sha256 w =
      try_providers gateway raw_body raw_sha256 (providers_from_env o.var) w
