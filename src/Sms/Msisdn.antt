-- ===== src/Sms/Msisdn.antt =====
-- The canonical form of a phone number in src/sms.rs.
use Prim.Native.Char.{Char}
use Prim.Native.String
use Prim.Native.String.append
use native.Mathlib.Nat.{zero-add}
use spritexai_pay_core.Prelude.{
  ap, ◌⊎◌, ◌+◌, Bool, ◌≡◌, refl, inl, inr, ℕ, zero, suc, ◌-◌, ◌≤◌, String, true, false, ltb, keep,
  is_ascii_digit, chars, drop_chars, arith, Bool-cases,
}
use spritexai_pay_core.Sms.{normalize_msisdn}

abbrev pub Digits : String → Type 0
Digits String.[] = Unit {0}
Digits (String.◌∷◌ c s) = (is_ascii_digit c ≡ true) × Digits s

keep-Digits : (s : String) → Digits (keep is_ascii_digit s)
unfolding keep
keep-Digits String.[] = tt
keep-Digits (String.◌∷◌ c s) = elim (Bool-cases (is_ascii_digit c)) [
  | inl d ↦ rw d (d, keep-Digits s)
  | inr n ↦ rw n (keep-Digits s)
]

keep_id : (s : String) → Digits s → keep is_ascii_digit s ≡ s
unfolding keep
keep_id String.[] h = refl
keep_id (String.◌∷◌ c s) h = rw (h.0) (rw (keep_id s h.1) refl)

drop_chars-Digits : (n : ℕ) (s : String) → Digits s → Digits (drop_chars n s)
unfolding drop_chars
drop_chars-Digits zero s h = h
drop_chars-Digits (suc n) String.[] h = tt
drop_chars-Digits (suc n) (String.◌∷◌ c s) h = drop_chars-Digits n s h.1

chars-drop_chars : (n : ℕ) (s : String) → chars (drop_chars n s) ≡ chars s - n
unfolding drop_chars chars
chars-drop_chars zero s = omega arith
chars-drop_chars (suc n) String.[] = omega arith
chars-drop_chars (suc n) (String.◌∷◌ c s) = rw (chars-drop_chars n s) (omega arith)

-- What is normal already stays as it is.
normal_id : (s : String) → Digits s → chars s ≤ 10 → normalize_msisdn s ≡ s
unfolding normalize_msisdn
normal_id s h short =
    let low : ltb 10 (chars s) ≡ false = ground arith in rw (keep_id s h) (rw low refl)

normalize_msisdn-Digits :
    (raw : String) → Digits (normalize_msisdn raw) × (chars (normalize_msisdn raw) ≤ 10)
unfolding normalize_msisdn
normalize_msisdn-Digits raw =
    let digits = keep is_ascii_digit raw in
    elim (Bool-cases (ltb 10 (chars digits))) [
      | inl long ↦ rw long (
        drop_chars-Digits (chars digits - 10) digits (keep-Digits raw),
        rw (chars-drop_chars (chars digits - 10) digits) (ground arith),
      )
      | inr short ↦ rw short (keep-Digits raw, ground arith)
    ]

-- Cutting a text into its first characters and the others.
drop_chars-split :
    (n : ℕ) (s : String) → (front : String) × (s ≡ String.◌++◌ front (drop_chars n s))
unfolding drop_chars
drop_chars-split zero s = ("", rw append.nil refl)
drop_chars-split (suc n) String.[] = ("", rw append.nil refl)
drop_chars-split (suc n) (String.◌∷◌ c s) =
    let (front, e) = drop_chars-split n s in
    (String.◌∷◌ c front, rw append.cons (ap (String.◌∷◌ c) e))

chars-append : (a b : String) → chars (String.◌++◌ a b) ≡ chars a + chars b
unfolding chars
chars-append String.[] b = rw append.nil (omega arith)
chars-append (String.◌∷◌ c a) b = rw append.cons (rw (chars-append a b) (omega arith))

keep-append :
    (p : Char → Bool) (a b : String) → keep p (String.◌++◌ a b) ≡ String.◌++◌ (keep p a) (keep p b)
unfolding keep
keep-append p String.[] b = rw append.nil (rw append.nil refl)
keep-append p (String.◌∷◌ c a) b = rw append.cons (elim (Bool-cases (p c)) [
  | inl d ↦ rw d (rw append.cons (ap (String.◌∷◌ c) (keep-append p a b)))
  | inr n ↦ rw n (keep-append p a b)
])

drop_chars-append :
    (a b : String) (n : ℕ) → drop_chars (chars a + n) (String.◌++◌ a b) ≡ drop_chars n b
unfolding drop_chars chars
drop_chars-append String.[] b n = rw append.nil (rw zero-add refl)
drop_chars-append (String.◌∷◌ c a) b n =
    let e : suc (chars a) + n ≡ suc (chars a + n) = omega arith in
    rw append.cons (rw e (drop_chars-append a b n))

-- The last ten digits of a number that has ten or more.
normalize_last :
    (raw : String)
    → 10 ≤ chars (keep is_ascii_digit raw)
    → normalize_msisdn raw
      ≡ drop_chars (chars (keep is_ascii_digit raw) - 10) (keep is_ascii_digit raw)
unfolding normalize_msisdn drop_chars
normalize_last raw enough = elim (Bool-cases (ltb 10 (chars (keep is_ascii_digit raw)))) [
  | inl long ↦ rw long refl
  | inr short ↦
      let none_left : chars (keep is_ascii_digit raw) - 10 ≡ 0 = ground arith in
      rw (short, none_left) refl
]

-- What stands before the canonical number.
normalize_msisdn-front :
    (raw : String)
    → (front : String) × (keep is_ascii_digit raw ≡ String.◌++◌ front (normalize_msisdn raw))
      × ((front ≡ "") ⊎ (chars (normalize_msisdn raw) ≡ 10))
unfolding normalize_msisdn
normalize_msisdn-front raw =
    let digits = keep is_ascii_digit raw in
    elim (Bool-cases (ltb 10 (chars digits))) [
      | inl long ↦
          let (front, e) = drop_chars-split (chars digits - 10) digits in
          rw long (front, e, inr (rw (chars-drop_chars (chars digits - 10) digits) (ground arith)))
      | inr short ↦ rw short ("", rw append.nil refl, inl refl)
    ]

-- Whatever stands in front of a text that has ten digits or more, such as a country code or a
-- plus, its canonical number is the same.
pub normalize_msisdn-append :
    (prefix raw : String)
    → 10 ≤ chars (keep is_ascii_digit raw)
    → normalize_msisdn (String.◌++◌ prefix raw) ≡ normalize_msisdn raw
normalize_msisdn-append prefix raw enough =
    let p = keep is_ascii_digit prefix in
    let r = keep is_ascii_digit raw in
    let size : chars (String.◌++◌ p r) ≡ chars p + chars r = chars-append p r in
    let more : 10 ≤ chars (keep is_ascii_digit (String.◌++◌ prefix raw)) =
      rw (keep-append is_ascii_digit prefix raw) (rw size (omega arith)) in
    let cut : (chars p + chars r) - 10 ≡ chars p + (chars r - 10) = omega arith in
    rw (normalize_last (String.◌++◌ prefix raw) more) (
      rw (normalize_last raw enough) (
        rw (keep-append is_ascii_digit prefix raw)
          (rw size (rw cut (drop_chars-append p r (chars r - 10))))))

-- The digits of a text are some front and its canonical number behind it, which has ten characters
-- unless the front is empty, and never more than ten; all of them are digits, and a canonical
-- number is its own canonical form.
pub normalize_msisdn_lem :
    (raw : String)
    → ((front : String) × (keep is_ascii_digit raw ≡ String.◌++◌ front (normalize_msisdn raw))
        × ((front ≡ "") ⊎ (chars (normalize_msisdn raw) ≡ 10)))
      × Digits (normalize_msisdn raw)
      × (chars (normalize_msisdn raw) ≤ 10)
      × (normalize_msisdn (normalize_msisdn raw) ≡ normalize_msisdn raw)
normalize_msisdn_lem raw =
    let (digits, short) = normalize_msisdn-Digits raw in
    (normalize_msisdn-front raw, digits, short, normal_id (normalize_msisdn raw) digits short)
