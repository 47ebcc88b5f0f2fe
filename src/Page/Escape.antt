-- ===== src/Page/Escape.antt =====
-- src/checkout_page.rs: `esc`, against the way a browser reads character references.
use Prim.Native.Char.{Char, code}
use Prim.Native.String.{[], ◌∷◌, ◌++◌}
use Prim.Native.String.append
use text.Mathlib.TextLemmas.{append-nil, append_assoc}
use text.Mathlib.TextEquality.{Char-path}
use spritexai_pay_core.Prelude.{
  ℕ, String, false, true, eqb, Holds, ◌⊎◌, ◌≡◌, refl, ◌∙◌, sym, ap, inl, inr, Bool-cases, none,
  arith, if◌then◌else◌,
}
use spritexai_pay_core.Page.{replace, esc}
use spritexai_pay_core.Page.Browser.{reference, unescape_from, unescape}

-- What `esc` writes for one character.
abbrev pub entity : Char → String
entity c =
    if eqb (code c) b'&'
    then "&amp;"
    else if eqb (code c) b'<'
    then "&lt;"
    else if eqb (code c) b'>'
    then "&gt;"
    else if eqb (code c) b'"'
    then "&quot;"
    else if eqb (code c) b'\''
    then "&#39;"
    else c ∷ []

same_char : (c d : Char) → eqb (code c) (code d) ≡ true → c ≡ d
same_char c d h = Char-path c d (ground arith)

-- A character that no pass rewrites.
abbrev IsPlain : Char → Type 0
IsPlain c =
    (eqb (code c) b'&' ≡ false)
    × (eqb (code c) b'<' ≡ false)
    × (eqb (code c) b'>' ≡ false)
    × (eqb (code c) b'"' ≡ false)
    × (eqb (code c) b'\'' ≡ false)

entity-elim :
    (P : Char → String → Type 0)
    → P "&" "&amp;"
    → P "<" "&lt;"
    → P ">" "&gt;"
    → P "\"" "&quot;"
    → P "'" "&#39;"
    → ((c : Char) → IsPlain c → P c (c ∷ []))
    → (c : Char) → P c (entity c)
entity-elim P amp lt gt quot apos plain c = elim (Bool-cases (eqb (code c) b'&')) [
  | inl h ↦ rw (same_char c "&" h) amp
  | inr n1 ↦ rw n1 (elim (Bool-cases (eqb (code c) b'<')) [
    | inl h ↦ rw (same_char c "<" h) lt
    | inr n2 ↦ rw n2 (elim (Bool-cases (eqb (code c) b'>')) [
      | inl h ↦ rw (same_char c ">" h) gt
      | inr n3 ↦ rw n3 (elim (Bool-cases (eqb (code c) b'"')) [
        | inl h ↦ rw (same_char c "\"" h) quot
        | inr n4 ↦ rw n4 (elim (Bool-cases (eqb (code c) b'\'')) [
          | inl h ↦ rw (same_char c "'" h) apos
          | inr n5 ↦ rw n5 (plain c (n1, n2, n3, n4, n5))
        ])
      ])
    ])
  ])
]

replace-append : (k : ℕ) (v a b : String) → replace k v (a ++ b) ≡ replace k v a ++ replace k v b
unfolding replace
replace-append k v [] b = simp append.nil
replace-append k v (c ∷ a) b = elim (Bool-cases (eqb (code c) k)) [
  | inl hit ↦
      rw (append.cons, replace) (rw hit (rw (replace-append k v a b) (sym (append_assoc v _ _))))
  | inr miss ↦ rw (append.cons, replace) (rw miss (rw (append.cons, replace-append k v a b) refl))
]

esc-append : (a b : String) → esc (a ++ b) ≡ esc a ++ esc b
unfolding esc
esc-append a b = simp replace-append

replace-singleton :
    (k : ℕ) (v : String) (c : Char) → replace k v (c ∷ []) ≡ (if eqb (code c) k then v else c ∷ [])
unfolding replace
replace-singleton k v c = rw (append-nil v) refl

esc-singleton : (c : Char) → esc (c ∷ []) ≡ entity c
unfolding esc
esc-singleton =
    entity-elim (λ c e. esc (c ∷ []) ≡ e) refl refl refl refl refl
      (λ c (n1, n2, n3, n4, n5).
        rw
          (
            replace-singleton, n1, replace-singleton, n2, replace-singleton, n3, replace-singleton,
            n4, replace-singleton, n5,
          )
          refl)

-- The five passes over the text are one: no pass rewrites what an earlier one has written.
pub esc-cons : (c : Char) (s : String) → esc (c ∷ s) ≡ entity c ++ esc s
esc-cons c s =
    ap esc (sym (rw append.cons (rw append.nil refl)))
    ∙ esc-append (c ∷ []) s
    ∙ rw esc-singleton refl

reference-plain : (c : Char) (s : String) → eqb (code c) b'&' ≡ false → reference (c ∷ s) ≡ none
unfolding reference
reference-plain c s h = ground arith

unescape-plain :
    (c : Char) (s : String) → eqb (code c) b'&' ≡ false → unescape (c ∷ s) ≡ c ∷ unescape s
unfolding unescape
unescape-plain c s h = rw (reference-plain c s h, unescape_from) refl

unescape-entity : (c : Char) (s : String) → unescape (entity c ++ s) ≡ c ∷ unescape s
unfolding unescape
unescape-entity c s =
    entity-elim (λ c e. unescape (e ++ s) ≡ c ∷ unescape s)
      (rw (append.cons, append.cons, append.cons, append.cons, append.cons, append.nil) refl)
      (rw (append.cons, append.cons, append.cons, append.cons, append.nil) refl)
      (rw (append.cons, append.cons, append.cons, append.cons, append.nil) refl)
      (rw (append.cons, append.cons, append.cons, append.cons, append.cons, append.cons, append.nil)
        refl)
      (rw (append.cons, append.cons, append.cons, append.cons, append.cons, append.nil) refl)
      (λ c plain. rw (append.cons, append.nil) (unescape-plain c s plain.0)) c

pub unescape-esc : (s : String) → unescape (esc s) ≡ s
unfolding esc unescape
unescape-esc [] = refl
unescape-esc (c ∷ s) = rw (esc-cons, unescape-entity) (rw (unescape-esc s) refl)

Holds-append : (k : ℕ) (a b : String) → Holds k (a ++ b) → Holds k a ⊎ Holds k b
Holds-append k [] b h = inr (rw append.nil at h)
Holds-append k (c ∷ a) b h = elim (rw append.cons at h) [
  | inl e ↦ inl (inl e)
  | inr t ↦ elim (Holds-append k a b t) [ inl x ↦ inl (inr x) | inr y ↦ inr y ]
]

-- A character that ends an attribute's value or opens a tag.
abbrev pub IsMarkup : ℕ → Type 0
IsMarkup k = (k ≡ b'<') ⊎ ((k ≡ b'>') ⊎ ((k ≡ b'"') ⊎ (k ≡ b'\'')))

entity-lacking : (k : ℕ) (c : Char) → IsMarkup k → ¬ Holds k (entity c)
entity-lacking k c m =
    entity-elim (λ c e. ¬ Holds k e) (λ h. ground arith) (λ h. ground arith) (λ h. ground arith)
      (λ h. ground arith) (λ h. ground arith) (λ c plain h. ground arith) c

pub esc-lacking : (k : ℕ) (s : String) → IsMarkup k → ¬ Holds k (esc s)
unfolding esc
esc-lacking k [] m h = h
esc-lacking k (c ∷ s) m h = elim (Holds-append k (entity c) (esc s) (rw (esc-cons c s) at h)) [
  | inl x ↦ entity-lacking k c m x
  | inr y ↦ esc-lacking k s m y
]

-- What `esc` writes has no character that ends an attribute's value or opens or closes a tag, and
-- a browser reads the text back from it.
pub esc_lem : (s : String) → (unescape (esc s) ≡ s) × ((k : ℕ) → IsMarkup k → ¬ Holds k (esc s))
esc_lem s = (unescape-esc s, λ k m. esc-lacking k s m)
