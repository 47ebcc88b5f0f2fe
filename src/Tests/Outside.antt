-- ===== src/Tests/Outside.antt =====
-- The parameters of the model, instantiated: a database that does not fail, a toy digest with its
-- hex, prices in hundredths, and an empty set of tables.
use Prim.Native.Char.{code}
use Prim.Native.String
use spritexai_pay_core.Prelude.{
  ℤ, pos, negsuc, ℕ, zero, suc, ◌+◌, ◌-◌, ◌*◌, ◌/◌, ◌^◌, ltb, eqb, inl, inr, Bool-cases, ◌≡◌, refl,
  String, Bool, true, false, ◌&&◌, Option, none, some, List, [], ◌∷◌, ◌==◌, arith, parse_u64,
  show_ℕ, if◌then◌else◌,
}
use spritexai_pay_core.Crates.{Crates, HexRoundTrip, DigestEquality, Float64}
use spritexai_pay_core.Db.{Tables, ChargeRow, ChargeStatus, Env, World}
use spritexai_pay_core.Gateway.{bkash_txid, bkash_amount}
use spritexai_pay_core.Ai.{AiOutside}
use spritexai_pay_core.Ai.Chat.{ChatOutside}
use spritexai_pay_core.Stable.Checkouts.{Saturating}
use spritexai_pay_core.Http.{AppState, Headers}
use spritexai_pay_core.Http.Server.{Outside}

abbrev pub tag : ℕ → String
tag zero = "u"
tag (suc n) = String.◌∷◌ "x" (tag n)

abbrev pub quiet : Env
quiet = record { uuid = tag; now = λ n. n; fails = λ n. false }

abbrev pub codes : String → List ℕ
codes String.[] = []
codes (String.◌∷◌ c s) = code c ∷ codes s

-- A number in unary, and its end.
abbrev ones : ℕ → String → String
ones zero s = String.◌∷◌ "0" s
ones (suc n) s = String.◌∷◌ "1" (ones n s)

abbrev pub encode : List ℕ → String
encode [] = ""
encode (n ∷ ns) = ones n (encode ns)

abbrev cons_some : ℕ → Option (List ℕ) → Option (List ℕ)
cons_some n none = none
cons_some n (some l) = some (n ∷ l)

abbrev decode_from : ℕ → String → Option (List ℕ)
decode_from acc String.[] = some []
decode_from acc (String.◌∷◌ c s) =
    let ended = decode_from 0 s in
    let more = decode_from (suc acc) s in
    if eqb (code c) 48 then cons_some acc ended else if eqb (code c) 49 then more else none

abbrev pub same : List ℕ → List ℕ → Bool
same [] [] = true
same (a ∷ al) (b ∷ bl) = eqb a b && same al bl
same _ _ = false

abbrev pub toy_crates : Crates
toy_crates = record {
  hmac = λ secret body. codes (String.◌++◌ secret body);
  hex_encode = encode;
  hex_decode = decode_from 0;
  same_digest = same;
  captures = λ pattern body.
      if pattern == bkash_txid
      then some "TRX1"
      else if pattern == bkash_amount
      then some "5"
      else none;
  json = λ fields. "{}";
  json_value = λ m. some m;
  json_strings = λ l. "[]";
  json_strings_of = λ s. some ("create_payment" ∷ []);
}

decode-ones :
    (n acc : ℕ) (s : String) → decode_from acc (ones n s) ≡ cons_some (acc + n) (decode_from 0 s)
decode-ones zero acc s = let e : acc + 0 ≡ acc = omega arith in rw e refl
decode-ones (suc n) acc s =
    let e : suc acc + n ≡ acc + suc n = omega arith in rw (decode-ones n (suc acc) s) (rw e refl)

pub toy-HexRoundTrip : HexRoundTrip toy_crates
toy-HexRoundTrip [] = refl
toy-HexRoundTrip (n ∷ ns) =
    let e : 0 + n ≡ n = omega arith in
    rw (decode-ones n 0 (encode ns)) (rw (toy-HexRoundTrip ns) (rw e refl))

same_sound : (a b : List ℕ) → same a b ≡ true → a ≡ b
same_sound [] [] h = refl
same_sound [] (b ∷ bl) h = absurd (cc h)
same_sound (a ∷ al) [] h = absurd (cc h)
same_sound (a ∷ al) (b ∷ bl) h = ground (arith, same_sound al bl)

same_complete : (a : List ℕ) → same a a ≡ true
same_complete [] = refl
same_complete (a ∷ al) = ground (arith, same_complete al)

pub toy-DigestEquality : DigestEquality toy_crates
toy-DigestEquality = record { sound = same_sound; complete = same_complete }

-- Amounts in hundredths of a taka, from zero up.
abbrev hundredths : Option ℕ → Option ℕ
hundredths none = none
hundredths (some n) = some (n * 100)

abbrev of_ℤ : ℤ → ℕ
of_ℤ (pos n) = n * 100
of_ℤ (negsuc n) = 0

-- The greatest `i64` stands for all above it.
abbrev capped : ℕ → ℕ
capped n = if ltb n (2 ^ 63) then n else 2 ^ 63 - 1

-- The mean of the amounts from zero up, in hundredths rounded down.
abbrev mean : ℕ → ℕ → List ℤ → ℕ
mean n sum [] = if eqb n 0 then 0 else sum / n
mean n sum (a ∷ rest) = mean (suc n) (sum + of_ℤ a) rest

abbrev pub toy_float : Float64
toy_float = record {
  F = ℕ;
  is_finite = λ x. true;
  is_nonpositive = λ x. eqb x 0;
  times_hundred = λ x. x * 100;
  over_hundred = λ x. x / 100;
  of_i64 = of_ℤ;
  round_i64 = λ x. pos (capped (x / 100));
  times_ten = λ x. x * 10;
  average = mean 0 0;
  parse = λ s. hundredths (parse_u64 s);
  two_decimals = show_ℕ;
}

pub toy-Saturating : Saturating toy_float
toy-Saturating x = elim (Bool-cases (ltb (x / 100) (2 ^ 63))) [
  | inl small ↦ rw small (ground arith)
  | inr big ↦ rw big (omega arith)
]

abbrev pub no_ai : AiOutside ℕ
no_ai = record {
  var = λ key. none;
  chat = λ p prompt body. none;
  extraction = λ s. none;
  trim = λ s. s;
}

abbrev pub no_rows : Tables
no_rows = record {
  charges = [];
  ledger_transactions = [];
  ledger_entries = [];
  sms_events = [];
  webhook_deliveries = [];
  gateway_configs = [];
  devices = [];
  api_keys = [];
  invoices = [];
  invoice_items = [];
  payment_links = [];
  allowed_domains = [];
  ai_parse_log = [];
  customers = [];
  settings = [];
  audit_log = [];
}

abbrev pub charge_of : String → ℤ → Option String → ChargeRow
charge_of id amount msisdn = record {
  id = id;
  order_id = id;
  amount_minor = amount;
  currency = "BDT";
  customer_name = none;
  customer_msisdn = msisdn;
  callback_url = some "https://shop.example/hook";
  status = ChargeStatus.pending;
  created_at = 0;
  updated_at = 0;
  pay_ref = some id;
  customer_email = none;
  return_url = none;
  webhook_url = none;
  metadata = none;
  gateway = none;
  claimed_trx_id = none;
  claimed_sender = none;
}

abbrev pub at_start : Tables → World
at_start db = record { db = db; drawn = 0; statements = 0; sent = [] }

abbrev no_chat : ChatOutside
no_chat = record {
  raw = λ s. none;
  chat_intent = λ s. none;
  compiles = λ p. false;
  distinct_newest = λ l. l;
}

-- Every SMS request is a bKash confirmation.
abbrev pub toy_outside : Outside
toy_outside = record {
  crates = toy_crates;
  float = toy_float;
  ai = no_ai;
  chat = no_chat;
  by_gateway = λ gs. gs;
  payload_of = λ raw. some (record { gateway = "bkash"; body = raw });
  debug = λ s. String.◌++◌ "\"" (String.◌++◌ s "\"");
}

abbrev pub toy_state : AppState
toy_state = record {
  sms_hmac_secret = "s";
  admin_password = some "p";
  auth_secret = "a";
  base_url = none;
}

abbrev pub header : String → String → Headers
header name value = λ n. if n == name then some value else none
