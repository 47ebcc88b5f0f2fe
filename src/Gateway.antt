-- ===== src/Gateway.antt =====
-- src/gateway.rs: the MFS gateways and the regex extraction of a confirmation SMS.
use Prim.Native.Char.{Char, code}
use spritexai_pay_core.Prelude.{
  ℤ, ℕ, ◌+◌, String, Bool, ◌||◌, ◌&&◌, leb, eqb, false, true, Option, none, some, List, [], ◌∷◌,
  keep, is_ascii_digit, if◌then◌else◌,
}
use spritexai_pay_core.Crates.{Crates, Float64}
use spritexai_pay_core.Db.{Result, ok, err}

pub record ParsedTxn : Type 0 where
  pub gateway : String
  pub txn_id : String
  pub amount_minor : ℤ
  pub sender_msisdn : Option String

pub data ParseError : Type 0 where
  no_match : String → ParseError
  bad_amount : ParseError

-- The two implementations of the trait `Gateway`.
pub data Gateway : Type 0 where
  bkash nagad : Gateway

unfoldable pub id : Gateway → String
id bkash = "bkash"
id nagad = "nagad"

-- `to_ascii_lowercase`, on code points.
abbrev lower_code : ℕ → ℕ
lower_code c = if leb b'A' c && leb c b'Z' then c + 32 else c

abbrev pub lower_codes : String → List ℕ
lower_codes String.[] = []
lower_codes (String.◌∷◌ c s) = lower_code (code c) ∷ lower_codes s

abbrev pub same_codes : List ℕ → List ℕ → Bool
same_codes [] [] = true
same_codes (a ∷ s) (b ∷ t) = eqb a b && same_codes s t
same_codes _ _ = false

unfoldable pub resolve : String → Option Gateway
resolve gateway =
    let name = lower_codes gateway in
    if same_codes name (lower_codes "bkash")
    then some bkash
    else if same_codes name (lower_codes "nagad")
    then some nagad
    else none

abbrev pub bkash_txid : String
bkash_txid = "(?i)TrxID[:\\s]+([A-Z0-9]+)"

abbrev pub bkash_amount : String
bkash_amount = "(?i)(?:received|Tk\\.?)\\s*Tk?\\.?\\s*([\\d,]+(?:\\.\\d+)?)"

abbrev pub bkash_sender : String
bkash_sender = "(?i)from\\s+(01\\d{9})"

abbrev pub nagad_txid : String
nagad_txid = "(?i)(?:TxnID|TrxID)[:\\s]+([A-Z0-9]+)"

abbrev pub nagad_amount : String
nagad_amount = "(?i)Amount[:\\s]+Tk\\.?\\s*([\\d,]+(?:\\.\\d+)?)"

abbrev pub nagad_sender : String
nagad_sender = "(?i)Sender[:\\s]+(01\\d{9})"

abbrev amount_char : Char → Bool
amount_char c = is_ascii_digit c || eqb (code c) b'.'

infixl 5 ◌>>=◌
abbrev ◌>>=◌ : {E A B : Type 0} → Result E A → (A → Result E B) → Result E B
ok a >>= f = f a
err e >>= f = err e

abbrev or_no_match : String → Option String → Result ParseError String
or_no_match name none = err (no_match name)
or_no_match name (some s) = ok s

module _ (f : Float64) where
  unfoldable pub amount_to_minor : String → Result ParseError ℤ
  amount_to_minor raw = elim (f.parse (keep amount_char raw)) [
    | none ↦ err bad_amount
    | some value ↦ ok (f.round_i64 (f.times_hundred value))
  ]

  module _ (c : Crates) where
    -- The three patterns of a gateway on a body; both `parse_sms` have this shape.
    abbrev extract_fields : String → String → String → String → String → Result ParseError ParsedTxn
    extract_fields name txid amount sender body = do
      txn_id ← or_no_match name (c.captures txid body)
      raw ← or_no_match name (c.captures amount body)
      amount_minor ← amount_to_minor raw
      ok (record {
        gateway = name;
        txn_id = txn_id;
        amount_minor = amount_minor;
        sender_msisdn = c.captures sender body;
      })

    unfoldable pub parse_sms : Gateway → String → Result ParseError ParsedTxn
    parse_sms bkash body = extract_fields "bkash" bkash_txid bkash_amount bkash_sender body
    parse_sms nagad body = extract_fields "nagad" nagad_txid nagad_amount nagad_sender body
