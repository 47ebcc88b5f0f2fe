-- ===== src/Sms/Match.antt =====
-- `find_matching_charge` of src/sms.rs: which charge an SMS settles.
use mathlib.Core.List.{Permᴰ}
use mathlib.Core.List.Permᴰ
use mathlib.Core.List.Permᴰ.{nil, cons, swap, trans}
use spritexai_pay_core.Prelude.{
  ℤ, ◌≡◌, refl, sym, ◌∙◌, ap, ◌⊎◌, inl, inr, ◌↔◌, eqb_ℤ_iff, String, Bool, true, Option, none, some,
  List, [], ◌∷◌, arith, Bool-cases,
}
use spritexai_pay_core.Db.{ChargeRow, is_pending, select}
use spritexai_pay_core.Sms.{
  Candidate, candidate, claims, candidates_of, declares, only_hit, choose, normalize_msisdn,
}

-- A row of the table that bears the id, waits for its payment and asks for exactly the amount.
abbrev pub Owed : ℤ → String → List ChargeRow → Type 0
Owed amount id [] = ⊥
Owed amount id (r ∷ rs) =
    ((r.id ≡ id) × (r.amount_minor ≡ amount) × (is_pending r.status ≡ true)) ⊎ Owed amount id rs

-- An id is that of a candidate.
abbrev pub Listed : String → List Candidate → Type 0
Listed id [] = ⊥
Listed id (c ∷ cs) = (c.0 ≡ id) ⊎ Listed id cs

Listed-select :
    (p : Candidate → Bool) (id : String) (cs : List Candidate)
    → Listed id (select p cs)
    → Listed id cs
Listed-select p id [] h = h
Listed-select p id (c ∷ cs) h = elim (Bool-cases (p c)) [
  | inl hit ↦ elim (rw hit at h) [ inl e ↦ inl e | inr t ↦ inr (Listed-select p id cs t) ]
  | inr miss ↦ inr (Listed-select p id cs (rw miss at h))
]

only_hit-Listed : (id : String) (cs : List Candidate) → only_hit cs ≡ some id → Listed id cs
only_hit-Listed id [] h = cc
only_hit-Listed id (c ∷ []) h = inl (ground arith)
only_hit-Listed id (c ∷ d ∷ cs) h = cc

choose-Listed :
    (sender : Option String) (id : String) (cs : List Candidate)
    → choose sender cs ≡ some id
    → Listed id cs
unfolding choose
choose-Listed sender id [] h = cc
choose-Listed sender id (c ∷ []) h = inl (ground arith)
choose-Listed none id (c ∷ d ∷ cs) h = cc
choose-Listed (some s) id (c ∷ d ∷ cs) h =
    Listed-select (declares (normalize_msisdn s)) id (c ∷ d ∷ cs) (only_hit-Listed id _ h)

Listed-Owed :
    (amount : ℤ) (id : String) (rs : List ChargeRow)
    → Listed id (candidates_of (select (claims amount) rs))
    → Owed amount id rs
Listed-Owed amount id [] h = h
Listed-Owed amount id (r ∷ rs) h = elim (Bool-cases (claims amount r)) [
  | inr miss ↦ inr (Listed-Owed amount id rs (rw miss at h))
  | inl hit ↦ elim (rw hit at h) [
    | inr t ↦ inr (Listed-Owed amount id rs t)
    | inl e ↦ inl (e, (eqb_ℤ_iff _ _).0 (ground arith), ground arith)
  ]
]

-- The charge that an SMS is matched to is in the table, is pending, and asks for exactly the
-- amount of the SMS.
pub matched-Owed :
    (amount : ℤ) (sender : Option String) (id : String) (rows : List ChargeRow)
    → choose sender (candidates_of (select (claims amount) rows)) ≡ some id
    → Owed amount id rows
matched-Owed amount sender id rows h = Listed-Owed amount id rows (choose-Listed sender id _ h)

module _ {A : Type 0} where
  select-Permᴰ : (p : A → Bool) {xs ys : List A} → Permᴰ xs ys → Permᴰ (select p xs) (select p ys)
  select-Permᴰ p nil = nil
  select-Permᴰ p (cons {a} {b} e d) = rw (← e) (elim (Bool-cases (p a)) [
    | inl hit ↦ rw hit (cons refl (select-Permᴰ p d))
    | inr miss ↦ rw miss (select-Permᴰ p d)
  ])
  select-Permᴰ p (swap {a} {b} {a'} {b'} {l} e f) =
      rw (← e, ← f)
        (elim (Bool-cases (p a)) [
          | inl hit ↦ elim (Bool-cases (p b)) [
            | inl both ↦ rw (hit, both) (swap refl refl)
            | inr one ↦ rw (hit, one) (cons refl (Permᴰ.refl (select p l)))
          ]
          | inr miss ↦ rw miss (Permᴰ.refl _)
        ])
  select-Permᴰ p (trans d e) = trans (select-Permᴰ p d) (select-Permᴰ p e)

  -- A reordering of no rows is no rows.
  nil-Permᴰ : {xs ys : List A} → Permᴰ xs ys → (xs ≡ []) ↔ (ys ≡ [])
  nil-Permᴰ nil = (λ h. h, λ h. h)
  nil-Permᴰ (cons e d) = (λ h. absurd (cc h), λ h. absurd (cc h))
  nil-Permᴰ (swap e f) = (λ h. absurd (cc h), λ h. absurd (cc h))
  nil-Permᴰ (trans d e) =
      let f = nil-Permᴰ d in let g = nil-Permᴰ e in (λ h. g.0 (f.0 h), λ h. f.1 (g.1 h))

candidates_of-Permᴰ :
    {xs ys : List ChargeRow} → Permᴰ xs ys → Permᴰ (candidates_of xs) (candidates_of ys)
candidates_of-Permᴰ nil = nil
candidates_of-Permᴰ (cons e d) = cons (ap (λ r. candidate r) e) (candidates_of-Permᴰ d)
candidates_of-Permᴰ (swap e f) = swap (ap (λ r. candidate r) e) (ap (λ r. candidate r) f)
candidates_of-Permᴰ (trans d e) = trans (candidates_of-Permᴰ d) (candidates_of-Permᴰ e)

only_hit-cons :
    (c d : Candidate) (xs ys : List Candidate)
    → c ≡ d
    → (xs ≡ []) ↔ (ys ≡ [])
    → only_hit (c ∷ xs) ≡ only_hit (d ∷ ys)
only_hit-cons c d [] [] e h = ap (λ (x : Candidate). some x.0) e
only_hit-cons c d [] (y ∷ ys) e h = absurd (cc (h.0 refl))
only_hit-cons c d (x ∷ xs) [] e h = absurd (cc (h.1 refl))
only_hit-cons c d (x ∷ xs) (y ∷ ys) e h = refl

only_hit-Permᴰ : {xs ys : List Candidate} → Permᴰ xs ys → only_hit xs ≡ only_hit ys
only_hit-Permᴰ nil = refl
only_hit-Permᴰ (cons {a} {b} {l₁} {l₂} e d) = only_hit-cons a b l₁ l₂ e (nil-Permᴰ d)
only_hit-Permᴰ (swap e f) = refl
only_hit-Permᴰ (trans d e) = only_hit-Permᴰ d ∙ only_hit-Permᴰ e

-- Two candidates or more: the sender decides, if there is one.
abbrev by_sender : Option String → List Candidate → Option String
by_sender none cs = none
by_sender (some s) cs = only_hit (select (declares (normalize_msisdn s)) cs)

by_sender-Permᴰ :
    (sender : Option String) {xs ys : List Candidate}
    → Permᴰ xs ys
    → by_sender sender xs ≡ by_sender sender ys
by_sender-Permᴰ none d = refl
by_sender-Permᴰ (some s) d = only_hit-Permᴰ (select-Permᴰ (declares (normalize_msisdn s)) d)

choose_many :
    (sender : Option String) (c d : Candidate) (cs : List Candidate)
    → choose sender (c ∷ d ∷ cs) ≡ by_sender sender (c ∷ d ∷ cs)
unfolding choose
choose_many none c d cs = refl
choose_many (some s) c d cs = refl

choose-cons :
    (sender : Option String) (c d : Candidate) (xs ys : List Candidate)
    → c ≡ d
    → Permᴰ xs ys
    → (xs ≡ []) ↔ (ys ≡ [])
    → choose sender (c ∷ xs) ≡ choose sender (d ∷ ys)
unfolding choose
choose-cons sender c d [] [] e p h = ap (λ (x : Candidate). some x.0) e
choose-cons sender c d [] (y ∷ ys) e p h = absurd (cc (h.0 refl))
choose-cons sender c d (x ∷ xs) [] e p h = absurd (cc (h.1 refl))
choose-cons sender c d (x ∷ xs) (y ∷ ys) e p h =
    choose_many sender c x xs ∙ by_sender-Permᴰ sender (cons e p) ∙ sym (choose_many sender d y ys)

choose-Permᴰ :
    (sender : Option String) {xs ys : List Candidate}
    → Permᴰ xs ys
    → choose sender xs ≡ choose sender ys
choose-Permᴰ sender nil = refl
choose-Permᴰ sender (cons {a} {b} {l₁} {l₂} e d) = choose-cons sender a b l₁ l₂ e d (nil-Permᴰ d)
choose-Permᴰ sender (swap {a} {b} {a'} {b'} {l} e f) =
    choose_many sender a b l ∙ by_sender-Permᴰ sender (swap e f) ∙ sym (choose_many sender a' b' l)
choose-Permᴰ sender (trans d e) = choose-Permᴰ sender d ∙ choose-Permᴰ sender e

-- The choice of the charge does not depend on the order in which the database returns the rows.
pub match_order_irrelevant :
    (amount : ℤ) (sender : Option String) (rows rows' : List ChargeRow)
    → Permᴰ rows rows'
    → choose sender (candidates_of (select (claims amount) rows))
      ≡ choose sender (candidates_of (select (claims amount) rows'))
match_order_irrelevant amount sender rows rows' p =
    choose-Permᴰ sender (candidates_of-Permᴰ (select-Permᴰ (claims amount) p))
