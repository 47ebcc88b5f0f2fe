-- ===== src/Prelude/Text.antt =====
-- The `str` operations of the standard library that the code uses, over the characters of a text.
pub mod Numbers
use Prim.Native.Nat.{ℕ, zero, suc, ◌+◌, ◌-◌, ◌*◌, ◌/◌, ◌%◌, ◌^◌, ◌<◌, ◌≤◌}
use Prim.Native.Char.{Char, code}
use Prim.Native.String
use Prim.Native.String.{String, [], ◌∷◌}
use mathlib.Core.Path.{◌≡◌, refl}
use mathlib.Core.Bool.{Bool, ◌&&◌}
use mathlib.Core.Logic.{◌⊎◌}
use mathlib.Core.Option.{Option, none, some}
use native.Mathlib.Omega.{arith}
use text.Mathlib.Text.{◌==◌}
use spritexai_pay_core.Prelude.Tests.{ltb, leb, eqb, if◌then◌else◌}
use spritexai_pay_core.Prelude.Int.{ℤ, pos, negsuc}

-- `char::is_ascii_digit`
abbrev pub is_ascii_digit : Char → Bool
is_ascii_digit c = leb 48 (code c) && leb (code c) 57

-- `.chars().filter(p).collect()`
unfoldable pub keep : (Char → Bool) → String → String
keep p [] = []
keep p (c ∷ s) = if p c then c ∷ keep p s else keep p s

-- The number of characters.
unfoldable pub chars : String → ℕ
chars [] = 0
chars (c ∷ s) = suc (chars s)

-- `s[n..]`, where each character is one byte.
unfoldable pub drop_chars : ℕ → String → String
drop_chars zero s = s
drop_chars (suc n) [] = []
drop_chars (suc n) (c ∷ s) = drop_chars n s

-- `s[..n]`, where each character is one byte and the text is long enough.
unfoldable pub take_chars : ℕ → String → String
take_chars zero s = []
take_chars (suc n) [] = []
take_chars (suc n) (c ∷ s) = c ∷ take_chars n s

-- `s.split(c).next()`: the text before the first `c`, or all of it.
unfoldable pub before : ℕ → String → String
before k [] = []
before k (c ∷ s) = let rest = before k s in if eqb (code c) k then [] else c ∷ rest

abbrev cons_first : Char → Option (String × String) → Option (String × String)
cons_first c none = none
cons_first c (some (a, b)) = some (c ∷ a, b)

-- `s.split_once(c)`
unfoldable pub split_once : ℕ → String → Option (String × String)
split_once k [] = none
split_once k (c ∷ s) =
    let rest = split_once k s in if eqb (code c) k then some ([], s) else cons_first c rest

-- `s.strip_prefix(p)`
unfoldable pub strip_prefix : String → String → Option String
strip_prefix [] s = some s
strip_prefix (a ∷ p) [] = none
strip_prefix (a ∷ p) (c ∷ s) =
    let rest = strip_prefix p s in if eqb (code a) (code c) then rest else none

-- What follows the first occurrence of `p`: the second half of `s.split_once(p)`.
unfoldable pub after_first : String → String → Option String
unfolding strip_prefix
after_first p [] = strip_prefix p []
after_first p (c ∷ s) =
    let rest = after_first p s in elim (strip_prefix p (c ∷ s)) [ some r ↦ some r | none ↦ rest ]

-- A text has a character.
abbrev pub Holds : ℕ → String → Type 0
Holds k [] = ⊥
Holds k (c ∷ s) = (code c ≡ k) ⊎ Holds k s

abbrev digit_char : ℕ → Char
digit_char zero = "0"
digit_char (suc zero) = "1"
digit_char (suc (suc zero)) = "2"
digit_char (suc (suc (suc zero))) = "3"
digit_char (suc (suc (suc (suc zero)))) = "4"
digit_char (suc (suc (suc (suc (suc zero))))) = "5"
digit_char (suc (suc (suc (suc (suc (suc zero)))))) = "6"
digit_char (suc (suc (suc (suc (suc (suc (suc zero))))))) = "7"
digit_char (suc (suc (suc (suc (suc (suc (suc (suc zero)))))))) = "8"
digit_char _ = "9"

show_from : ℕ → ℕ → String → String
show_from zero n out = out
show_from (suc fuel) n out =
    let rest = show_from fuel (n / 10) (digit_char (n % 10) ∷ out) in
    if ltb n 10 then digit_char n ∷ out else rest

-- `n.to_string()` of an unsigned number.
unfoldable pub show_ℕ : ℕ → String
unfolding show_from
show_ℕ n = show_from (suc n) n []

-- `n.to_string()` of a signed number.
unfoldable pub show_ℤ : ℤ → String
unfolding show_ℕ
show_ℤ (pos n) = show_ℕ n
show_ℤ (negsuc n) = String.◌++◌ "-" (show_ℕ (suc n))

parse_from : ℕ → String → Option ℕ
parse_from acc [] = some acc
parse_from acc (c ∷ s) =
    let n = acc * 10 + (code c - 48) in
    let rest = parse_from n s in
    if is_ascii_digit c then if ltb n (2 ^ 64) then rest else none else none

parse_digits : String → Option ℕ
unfolding parse_from
parse_digits [] = none
parse_digits (c ∷ s) = parse_from 0 (c ∷ s)

-- `s.parse::<u64>()`: digits behind an optional `+`.
unfoldable pub parse_u64 : String → Option ℕ
unfolding parse_digits
parse_u64 [] = none
parse_u64 (c ∷ s) = if eqb (code c) b'+' then parse_digits s else parse_digits (c ∷ s)

digit_char-code : (d : ℕ) → d < 10 → code (digit_char d) ≡ 48 + d
digit_char-code zero h = refl
digit_char-code (suc zero) h = refl
digit_char-code (suc (suc zero)) h = refl
digit_char-code (suc (suc (suc zero))) h = refl
digit_char-code (suc (suc (suc (suc zero)))) h = refl
digit_char-code (suc (suc (suc (suc (suc zero))))) h = refl
digit_char-code (suc (suc (suc (suc (suc (suc zero)))))) h = refl
digit_char-code (suc (suc (suc (suc (suc (suc (suc zero))))))) h = refl
digit_char-code (suc (suc (suc (suc (suc (suc (suc (suc zero)))))))) h = refl
digit_char-code (suc (suc (suc (suc (suc (suc (suc (suc (suc zero))))))))) h = refl
digit_char-code (suc (suc (suc (suc (suc (suc (suc (suc (suc (suc n)))))))))) h =
    absurd (omega arith)

show_40507 : show_ℕ 40507 ≡ "40507"
unfolding show_ℕ
show_40507 = refl

parse_40507 : parse_u64 "40507" ≡ some 40507
unfolding parse_u64
parse_40507 = refl
