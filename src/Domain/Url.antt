-- ===== src/Domain/Url.antt =====
-- src/domain.rs: the text that `host_of` reads from a URL, by what stands around it.
use Prim.Native.Char.{Char, code}
use Prim.Native.String
use Prim.Native.String.append
use text.Mathlib.TextEquality.{Char-path}
use text.Mathlib.TextLemmas.{append_assoc}
use spritexai_pay_core.Prelude.{
  ℕ, ◌∙◌, ◌≤◌, ap, ◌≡◌, ◌≢◌, eq_iff, after_first, strip_prefix, chars, Holds, refl, ◌⊎◌, inl, inr,
  String, true, eqb, none, some, ◌==◌, before, arith, Bool-cases, Option-cases,
}
use spritexai_pay_core.Domain.{or_else, host_of}

-- A text with another in it.
abbrev pub At : String → String → String → String → Type 0
At p s a b = s ≡ String.◌++◌ a (String.◌++◌ p b)

strip_prefix-split : (p s r : String) → strip_prefix p s ≡ some r → s ≡ String.◌++◌ p r
unfolding strip_prefix
strip_prefix-split String.[] s r h = rw append.nil (cc h)
strip_prefix-split (String.◌∷◌ a p) String.[] r h = absurd (cc h)
strip_prefix-split (String.◌∷◌ a p) (String.◌∷◌ c s) r h =
    elim (Bool-cases (eqb (code a) (code c))) [
      | inl same ↦
          let e : c ≡ a = Char-path c a (ground (arith, same)) in
          rw append.cons (rw e (ap (String.◌∷◌ a) (strip_prefix-split p s r (rw same at h))))
      | inr other ↦ absurd (cc (rw other at h))
    ]

strip_prefix-append : (p s : String) → strip_prefix p (String.◌++◌ p s) ≡ some s
unfolding strip_prefix
strip_prefix-append String.[] s = rw append.nil refl
strip_prefix-append (String.◌∷◌ c p) s =
    let same : eqb (code c) (code c) ≡ true = ground arith in
    rw append.cons (rw same (strip_prefix-append p s))

tail : String → String
tail String.[] = ""
tail (String.◌∷◌ c s) = s

strip_prefix-starts : (p s b : String) → At p s "" b → strip_prefix p s ≡ some b
strip_prefix-starts p s b e = rw e (rw append.nil (strip_prefix-append p b))

-- A text that holds a separator behind its first character holds it in what follows.
At-tail : (p s a b : String) (c d : Char) → At p (String.◌∷◌ c s) (String.◌∷◌ d a) b → At p s a b
unfolding tail
At-tail p s a b c d e = ap tail (rw append.cons at e)

-- Where a separator is not found, the text does not have it.
after_first-none : (p s a b : String) → after_first p s ≡ none → ¬ At p s a b
unfolding after_first tail
after_first-none p String.[] String.[] b h e = absurd (cc (strip_prefix-starts p "" b e, h))
after_first-none p String.[] (String.◌∷◌ d a) b h e = absurd (cc (rw append.cons at e))
after_first-none p (String.◌∷◌ c s) String.[] b h e =
    absurd (cc (rw (strip_prefix-starts p (String.◌∷◌ c s) b e, after_first) at h))
after_first-none p (String.◌∷◌ c s) (String.◌∷◌ d a) b h e =
    elim (Option-cases (strip_prefix p (String.◌∷◌ c s))) [
      | inl n ↦ after_first-none p s a b (rw (n, after_first) at h) (At-tail p s a b c d e)
      | inr (r, q) ↦ absurd (cc (rw (q, after_first) at h))
    ]

first_behind :
    (p s : String) (c : Char) (pre : String)
    → strip_prefix p (String.◌∷◌ c s) ≡ none
    → ((a b : String) → At p s a b → chars pre ≤ chars a)
    → (a b : String) → At p (String.◌∷◌ c s) a b
    → chars (String.◌∷◌ c pre) ≤ chars a
unfolding chars
first_behind p s c pre n first String.[] b e =
    absurd (cc (strip_prefix-starts p (String.◌∷◌ c s) b e, n))
first_behind p s c pre n first (String.◌∷◌ d a) b e =
    let rest : chars pre ≤ chars a = first a b (At-tail p s a b c d e) in omega arith

-- What is found behind a separator stands behind its first occurrence.
after_first-some :
    (p s r : String)
    → after_first p s ≡ some r
    → (pre : String) × At p s pre r × ((a b : String) → At p s a b → chars pre ≤ chars a)
unfolding after_first chars
after_first-some p String.[] r h =
    ("", rw append.nil (strip_prefix-split p "" r h), λ a b e. omega arith)
after_first-some p (String.◌∷◌ c s) r h = elim (Option-cases (strip_prefix p (String.◌∷◌ c s))) [
  | inl n ↦
      let (pre, at_pre, first) = after_first-some p s r (rw (n, after_first) at h) in
      (String.◌∷◌ c pre, rw append.cons (ap (String.◌∷◌ c) at_pre), first_behind p s c pre n first)
  | inr (q, e) ↦ (
    "",
    rw append.nil (strip_prefix-split p (String.◌∷◌ c s) r (e ∙ (rw (e, after_first) at h))),
    λ a b x. omega arith,
  )
]

-- What a text is cut at, or its end.
abbrev pub Ends : (ℕ → Type 0) → String → Type 0
Ends p rest = (rest ≡ "") ⊎ ((c : Char) × (t : String) × (rest ≡ String.◌∷◌ c t) × p (code c))

-- A text is what stands before a separator, and then nothing or the separator.
before-split :
    (k : ℕ) (s : String)
    → (rest : String) × (s ≡ String.◌++◌ (before k s) rest) × Ends (λ x. x ≡ k) rest
unfolding before
before-split k String.[] = ("", rw append.nil refl, inl refl)
before-split k (String.◌∷◌ c s) = elim (Bool-cases (eqb (code c) k)) [
  | inl here ↦ rw here (String.◌∷◌ c s, rw append.nil refl, inr (c, s, refl, ground (arith, here)))
  | inr other ↦
      let (rest, e, ends) = before-split k s in
      rw other (rest, rw append.cons (ap (String.◌∷◌ c) e), ends)
]

-- The text before a separator does not hold it.
before_lem : (k : ℕ) (s : String) → ¬ Holds k (before k s)
unfolding before
before_lem k String.[] h = h
before_lem k (String.◌∷◌ c s) h = elim (Bool-cases (eqb (code c) k)) [
  | inl here ↦ rw here at h
  | inr other ↦ elim (rw other at h) [ inl e ↦ absurd (ground arith) | inr t ↦ before_lem k s t ]
]

-- Cutting a text at another separator brings no character in.
Holds-before : (k j : ℕ) (s : String) → Holds k (before j s) → Holds k s
unfolding before
Holds-before k j String.[] h = h
Holds-before k j (String.◌∷◌ c s) h = elim (Bool-cases (eqb (code c) j)) [
  | inl here ↦ absurd (rw here at h)
  | inr other ↦ elim (rw other at h) [ inl e ↦ inl e | inr t ↦ inr (Holds-before k j s t) ]
]

-- What stands before the host in a URL: a scheme and the first `://` of the URL, or nothing where
-- the URL has no `://`.
abbrev pub Front : String → String → Type 0
Front url front =
    ((front ≡ "") × ((a b : String) → ¬ At "://" url a b))
    ⊎ ((scheme : String) × (front ≡ String.◌++◌ scheme "://")
        × ((a b : String) → At "://" url a b → chars scheme ≤ chars a))

-- The host of a URL, as the whitelist reads it: behind the first `://`, or from the start where
-- there is none, a text that is not empty and holds neither a slash nor a colon, up to the first
-- slash or colon or the end of the URL.
abbrev pub Reads : String → String → Type 0
Reads url host =
    (front : String) × (rest : String) × At host url front rest
    × Front url front
    × (host ≢ "")
    × (¬ Holds b'/' host)
    × (¬ Holds b':' host)
    × Ends (λ k. (k ≡ b'/') ⊎ (k ≡ b':')) rest

-- What follows the scheme.
after_scheme-split :
    (url : String)
    → (front : String) × (url ≡ String.◌++◌ front (or_else (after_first "://" url) url))
      × Front url front
after_scheme-split url = elim (Option-cases (after_first "://" url)) [
  | inl n ↦ rw n ("", rw append.nil refl, inl (refl, λ a b. after_first-none "://" url a b n))
  | inr (r, e) ↦
      let (scheme, at_scheme, first) = after_first-some "://" url r e in
      rw e (String.◌++◌ scheme "://", rw append_assoc at_scheme, inr (scheme, refl, first))
]

-- Where the authority is cut at its colon.
Ends-append :
    (a b : String)
    → Ends (λ x. x ≡ b':') a
    → Ends (λ x. x ≡ b'/') b
    → Ends (λ k. (k ≡ b'/') ⊎ (k ≡ b':')) (String.◌++◌ a b)
Ends-append a b (inr (c, t, e, k)) h = inr (c, String.◌++◌ t b, rw e (rw append.cons refl), inr k)
Ends-append a b (inl e) (inl x) = inl (rw (e, x) (rw append.nil refl))
Ends-append a b (inl e) (inr (c, t, x, k)) = inr (c, t, rw e (rw append.nil x), inl k)

authority-Reads :
    (url : String)
    → let authority = before b'/' (or_else (after_first "://" url) url) in
      (before b':' authority ≢ "") → Reads url (before b':' authority)
authority-Reads url full =
    let after = or_else (after_first "://" url) url in
    let authority = before b'/' after in
    let (front, at_front, is_front) = after_scheme-split url in
    let (path, at_path, ends_path) = before-split b'/' after in
    let (port, at_port, ends_port) = before-split b':' authority in
    let whole : after ≡ String.◌++◌ (before b':' authority) (String.◌++◌ port path) =
      at_path ∙ (ap (λ x. String.◌++◌ x path) at_port ∙ append_assoc _ _ _) in
    (
      front,
      String.◌++◌ port path,
      at_front ∙ ap (String.◌++◌ front) whole,
      is_front,
      full,
      λ has. before_lem b'/' after (Holds-before b'/' b':' authority has),
      before_lem b':' authority,
      Ends-append port path ends_port ends_path,
    )

-- The host that is read from a URL.
pub host_of-Reads : (url host : String) → host_of url ≡ some host → Reads url host
unfolding host_of
host_of-Reads url host h =
    let authority = before b'/' (or_else (after_first "://" url) url) in
    elim (Bool-cases (before b':' authority == "")) [
      | inl empty ↦ absurd (cc (rw empty at h))
      | inr full ↦
          let cut : before b':' authority ≡ host = ground arith in
          rw (← cut) (authority-Reads url (λ e. absurd (cc (full, (eq_iff _ _).1 e))))
    ]
