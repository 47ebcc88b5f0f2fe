-- ===== src/Prelude/Text/Numbers.antt =====
-- Decimal numbers: `to_string` and `parse::<u64>`.
use Prim.Native.Nat.{ℕ, zero, suc, ◌+◌, ◌-◌, ◌*◌, ◌/◌, ◌%◌, ◌^◌, ◌<◌}
use Prim.Native.Char.{Char, code}
use Prim.Native.String
use Prim.Native.String.append
use Prim.Native.String.{String, [], ◌∷◌}
use mathlib.Core.Path.{◌≡◌, refl, ◌∙◌}
use mathlib.Core.Logic.{inl, inr}
use mathlib.Core.Bool.{true, false}
use mathlib.Core.Option.{some}
use native.Mathlib.Omega.{arith}
use spritexai_pay_core.Prelude.Tests.{ltb, eqb, Bool-cases}
use spritexai_pay_core.Prelude.Text.{
  is_ascii_digit, split_once, digit_char, show_from, show_ℕ, parse_from, parse_digits, parse_u64,
  digit_char-code,
}

abbrev Digits : String → Type 0
Digits [] = Unit {0}
Digits (c ∷ s) = (is_ascii_digit c ≡ true) × Digits s

digit_char-IsDigit : (d : ℕ) → d < 10 → is_ascii_digit (digit_char d) ≡ true
digit_char-IsDigit d h = rw (digit_char-code d h) (ground arith)

show_from-Digits : (fuel n : ℕ) (out : String) → Digits out → Digits (show_from fuel n out)
unfolding show_from
show_from-Digits zero n out h = h
show_from-Digits (suc fuel) n out h = elim (Bool-cases (ltb n 10)) [
  | inl last ↦ rw last (digit_char-IsDigit n (ground arith), h)
  | inr more ↦
      rw more (show_from-Digits fuel (n / 10) _ (digit_char-IsDigit (n % 10) (omega arith), h))
]

-- One digit more is read as one digit more.
parse_step :
    (acc d : ℕ) (s : String)
    → d < 10
    → acc * 10 + d < 2 ^ 64
    → parse_from acc (digit_char d ∷ s) ≡ parse_from (acc * 10 + d) s
unfolding parse_from
parse_step acc d s h b =
    let minus : 48 + d - 48 ≡ d = omega arith in
    let fits : ltb (acc * 10 + d) (2 ^ 64) ≡ true = ground arith in
    rw (digit_char-IsDigit d h) (rw (digit_char-code d h) (rw minus (rw fits refl)))

parse-show_from :
    (fuel n : ℕ) (out : String)
    → n < fuel
    → n < 2 ^ 64
    → parse_from 0 (show_from fuel n out) ≡ parse_from n out
unfolding show_from
parse-show_from zero n out h b = absurd (omega arith)
parse-show_from (suc fuel) n out h b =
    let start : 0 * 10 + n ≡ n = omega arith in
    let parts : n / 10 * 10 + n % 10 ≡ n = omega arith in
    elim (Bool-cases (ltb n 10)) [
      | inl last ↦ rw last (parse_step 0 n out (ground arith) (omega arith) ∙ rw start refl)
      | inr more ↦ rw more (
          parse-show_from fuel (n / 10) (digit_char (n % 10) ∷ out) (ground arith) (omega arith)
          ∙ parse_step (n / 10) (n % 10) out (omega arith) (omega arith)
          ∙ rw parts refl)
    ]

-- A text that starts with a digit is read digit by digit, with no sign.
parse_u64_digits :
    (c : Char) (s : String) → is_ascii_digit c ≡ true → parse_u64 (c ∷ s) ≡ parse_from 0 (c ∷ s)
unfolding parse_u64 parse_digits
parse_u64_digits c s h = let no_sign : eqb (code c) b'+' ≡ false = ground arith in rw no_sign refl

show_from-head :
    (fuel n : ℕ) (out : String)
    → (c : Char) × (s : String) × (show_from (suc fuel) n out ≡ c ∷ s) × (is_ascii_digit c ≡ true)
unfolding show_from
show_from-head zero n out = elim (Bool-cases (ltb n 10)) [
  | inl last ↦ (digit_char n, out, rw last refl, digit_char-IsDigit n (ground arith))
  | inr more ↦ (digit_char (n % 10), out, rw more refl, digit_char-IsDigit (n % 10) (omega arith))
]
show_from-head (suc fuel) n out = elim (Bool-cases (ltb n 10)) [
  | inl last ↦ (digit_char n, out, rw last refl, digit_char-IsDigit n (ground arith))
  | inr more ↦
      let (c, s, e, d) = show_from-head fuel (n / 10) (digit_char (n % 10) ∷ out) in
      (c, s, rw more e, d)
]

-- `parse::<u64>` reads what `to_string` writes.
pub parse-show : (n : ℕ) → n < 2 ^ 64 → parse_u64 (show_ℕ n) ≡ some n
unfolding show_ℕ parse_from
parse-show n b =
    let (c, s, e, d) = show_from-head n n [] in
    let read : parse_u64 (show_from (suc n) n []) ≡ parse_from 0 (show_from (suc n) n []) =
      rw e (parse_u64_digits c s d) in
    read ∙ parse-show_from (suc n) n [] (omega arith) b

-- Digits hold no other character, so a separator that follows them is the first one.
split_once-Digits :
    (a : String) (c : Char) (b : String)
    → Digits a
    → is_ascii_digit c ≡ false
    → split_once (code c) (String.◌++◌ a (c ∷ b)) ≡ some (a, b)
unfolding split_once
split_once-Digits [] c b h n =
    let here : eqb (code c) (code c) ≡ true = ground arith in rw append.nil (rw here refl)
split_once-Digits (x ∷ a) c b h n =
    let differ : eqb (code x) (code c) ≡ false = elim (Bool-cases (eqb (code x) (code c))) [
      | inl same ↦ let codes : code x ≡ code c = ground arith in absurd (ground arith)
      | inr other ↦ other
    ] in
    rw append.cons (rw differ (rw (split_once-Digits a c b h.1 n) refl))

pub split_once-show :
    (n : ℕ) (c : Char) (b : String)
    → is_ascii_digit c ≡ false
    → split_once (code c) (String.◌++◌ (show_ℕ n) (c ∷ b)) ≡ some (show_ℕ n, b)
unfolding show_ℕ
split_once-show n c b h = split_once-Digits _ c b (show_from-Digits (suc n) n [] tt) h
