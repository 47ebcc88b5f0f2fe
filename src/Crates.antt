-- ===== src/Crates.antt =====
-- What the code takes from third-party crates: parameters of the model, with the laws that the
-- proofs use as predicates of their own.
use spritexai_pay_core.Prelude.{ℤ, ℕ, String, Bool, true, Option, some, List, ◌≡◌}

-- A value inside a `serde_json::json!` object of the code.
pub data Scalar : Type 0 where
  text : String → Scalar
  number : ℤ → Scalar

pub record Crates : Type 0 where
  -- hmac + sha2: the HMAC-SHA256 of a body under a secret
  pub hmac : String → String → List ℕ
  -- hex::encode and hex::decode
  pub hex_encode : List ℕ → String
  pub hex_decode : String → Option (List ℕ)
  -- `verify_slice`: equality of two digests
  pub same_digest : List ℕ → List ℕ → Bool
  -- regex: the first group of the first match of a pattern in a text
  pub captures : String → String → Option String
  -- serde_json: an object as its text
  pub json : List (String × Scalar) → String
  -- serde_json: the value that a text denotes, as its text; none for `null` and for no JSON
  pub json_value : String → Option String
  -- serde_json: a list of texts as JSON, and back
  pub json_strings : List String → String
  pub json_strings_of : String → Option (List String)

-- Documented behaviour of the hex crate: `decode` reads back what `encode` writes.
abbrev pub HexRoundTrip : Crates → Type 0
HexRoundTrip c = (b : List ℕ) → c.hex_decode (c.hex_encode b) ≡ some b

-- Documented behaviour of `verify_slice`: it accepts a digest exactly when it is the computed one.
pub record DigestEquality (c : Crates) : Type 0 where
  pub sound : (a b : List ℕ) → c.same_digest a b ≡ true → a ≡ b
  pub complete : (a : List ℕ) → c.same_digest a a ≡ true

-- `f64`, as far as the code computes with it.
pub record Float64 : Type 1 where
  pub F : Type 0
  pub is_finite : F → Bool
  -- `x <= 0.0`
  pub is_nonpositive : F → Bool
  pub times_hundred : F → F
  pub over_hundred : F → F
  -- `n as f64`
  pub of_i64 : ℤ → F
  -- `x.round() as i64`
  pub round_i64 : F → ℤ
  -- `x * 10.0`
  pub times_ten : F → F
  -- SQLite's `COALESCE(AVG(column), 0.0)` over integers
  pub average : List ℤ → F
  -- `s.parse::<f64>()`
  pub parse : String → Option F
  -- `format!("{x:.2}")`
  pub two_decimals : F → String
