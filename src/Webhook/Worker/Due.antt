-- ===== src/Webhook/Worker/Due.antt =====
-- src/webhook.rs: what the list of due deliveries holds of one id.
use spritexai_pay_core.Prelude.{
  ◌≡◌, refl, ◌≤◌, ℕ, zero, suc, String, Bool, Bool-cases, inl, inr, true, false, some, List, [],
  ◌∷◌, ◌==◌, leb, arith,
}
use spritexai_pay_core.Db.{WebhookDelivery, All, first, select, count, update}
use spritexai_pay_core.Webhook.Worker.{is_pending_delivery, is_due, insert_due, order_due, limit}

-- The test for the row of an id.
abbrev pub of_id : String → WebhookDelivery → Bool
of_id id r = r.id == id

module _ {A : Type 0} (p q : A → Bool) where
  count-select : (xs : List A) → count p (select q xs) ≤ count p xs
  count-select [] = omega arith
  count-select (x ∷ xs) = ground (arith, count-select xs)

  count-limit : (n : ℕ) (xs : List A) → count p (limit n xs) ≤ count p xs
  count-limit zero [] = omega arith
  count-limit zero (x ∷ xs) = omega arith
  count-limit (suc n) [] = omega arith
  count-limit (suc n) (x ∷ xs) = ground (arith, count-limit n xs)

  pub count-update :
      (f : A → A) (xs : List A) → ((x : A) → p (f x) ≡ p x) → count p (update q f xs) ≡ count p xs
  count-update f [] same = refl
  count-update f (x ∷ xs) same = ground (arith, same x, count-update f xs same)

  -- An update of rows that a query does not select leaves what it finds.
  pub first-update_other :
      (f : A → A) (xs : List A)
      → ((x : A) → q x ≡ true → (p x ≡ false) × (p (f x) ≡ false))
      → first p (update q f xs) ≡ first p xs
  first-update_other f [] other = refl
  first-update_other f (x ∷ xs) other = elim (Bool-cases (q x)) [
    | inl e ↦ let (was, is) = other x e in rw e (rw was (rw is (first-update_other f xs other)))
    | inr e ↦ rw e (elim (Bool-cases (p x)) [
      | inl h ↦ rw h refl
      | inr h ↦ rw h (first-update_other f xs other)
    ])
  ]

module _ {A : Type 0} (P : A → Type 0) where
  All-select :
      (p : A → Bool) (Q : A → Type 0) (xs : List A)
      → ((x : A) → p x ≡ true → P x → Q x)
      → All P xs
      → All Q (select p xs)
  All-select p Q [] more h = tt
  All-select p Q (x ∷ xs) more h = elim (Bool-cases (p x)) [
    | inl e ↦ rw e (more x e h.0, All-select p Q xs more h.1)
    | inr e ↦ rw e (All-select p Q xs more h.1)
  ]

  All-limit : (n : ℕ) (xs : List A) → All P xs → All P (limit n xs)
  All-limit zero [] h = tt
  All-limit zero (x ∷ xs) h = tt
  All-limit (suc n) [] h = tt
  All-limit (suc n) (x ∷ xs) h = (h.0, All-limit n xs h.1)

module _ (P : WebhookDelivery → Type 0) where
  All-insert_due :
      (d : WebhookDelivery) (es : List WebhookDelivery) → P d → All P es → All P (insert_due d es)
  All-insert_due d [] h hs = (h, tt)
  All-insert_due d (e ∷ es) h hs = elim (Bool-cases (leb d.next_attempt_at e.next_attempt_at)) [
    | inl x ↦ rw x (h, hs)
    | inr x ↦ rw x (hs.0, All-insert_due d es h hs.1)
  ]

  All-order_due : (ds : List WebhookDelivery) → All P ds → All P (order_due ds)
  All-order_due [] h = tt
  All-order_due (d ∷ ds) h = All-insert_due d (order_due ds) h.0 (All-order_due ds h.1)

module _ (p : WebhookDelivery → Bool) where
  count-insert_due :
      (d : WebhookDelivery) (es : List WebhookDelivery)
      → count p (insert_due d es) ≡ count p (d ∷ es)
  count-insert_due d [] = refl
  count-insert_due d (e ∷ es) = ground (arith, count-insert_due d es)

  count-order_due : (ds : List WebhookDelivery) → count p (order_due ds) ≡ count p ds
  count-order_due [] = refl
  count-order_due (d ∷ ds) = ground (arith, count-insert_due d (order_due ds), count-order_due ds)

-- A row that is the given one if it has the id.
abbrev OnlyRow : String → WebhookDelivery → WebhookDelivery → Type 0
OnlyRow id d r = of_id id r ≡ true → r ≡ d

-- The same of a row that is due.
abbrev pub OnlyDue : String → WebhookDelivery → WebhookDelivery → Type 0
OnlyDue id d r = of_id id r ≡ true → (r ≡ d) × (is_pending_delivery r.status ≡ true)

none-OnlyRow :
    (id : String) (d : WebhookDelivery) (rs : List WebhookDelivery)
    → count (of_id id) rs ≡ 0
    → All (OnlyRow id d) rs
none-OnlyRow id d [] h = tt
none-OnlyRow id d (r ∷ rs) h = (λ e. absurd (ground arith), none-OnlyRow id d rs (ground arith))

first-OnlyRow :
    (id : String) (d : WebhookDelivery) (rs : List WebhookDelivery)
    → first (of_id id) rs ≡ some d
    → count (of_id id) rs ≤ 1
    → All (OnlyRow id d) rs
first-OnlyRow id d [] h few = tt
first-OnlyRow id d (r ∷ rs) h few = elim (Bool-cases (of_id id r)) [
  | inl e ↦ (λ x. cc (rw e at h), none-OnlyRow id d rs (ground arith))
  | inr e ↦ (λ x. absurd (cc (e, x)), first-OnlyRow id d rs (rw e at h) (ground arith))
]

-- The list that `select_due` gives at a time.
abbrev pub due : ℕ → List WebhookDelivery → List WebhookDelivery
due t rows = limit 20 (order_due (select (is_due t) rows))

pub due-OnlyDue :
    (id : String) (d : WebhookDelivery) (t : ℕ) (rows : List WebhookDelivery)
    → first (of_id id) rows ≡ some d
    → count (of_id id) rows ≤ 1
    → All (OnlyDue id d) (due t rows)
due-OnlyDue id d t rows found few =
    All-limit (OnlyDue id d) 20 (order_due (select (is_due t) rows)) (
      All-order_due (OnlyDue id d) (select (is_due t) rows) (
        All-select (OnlyRow id d) (is_due t) (OnlyDue id d) rows
          (λ r is_due_at only e. (only e, ground arith)) (first-OnlyRow id d rows found few)))

pub count-due :
    (id : String) (t : ℕ) (rows : List WebhookDelivery)
    → count (of_id id) (due t rows) ≤ count (of_id id) rows
count-due id t rows =
    let ordered = order_due (select (is_due t) rows) in
    let cut : count (of_id id) (limit 20 ordered) ≤ count (of_id id) ordered =
      count-limit (of_id id) (of_id id) 20 ordered in
    let same : count (of_id id) ordered ≡ count (of_id id) (select (is_due t) rows) =
      count-order_due (of_id id) (select (is_due t) rows) in
    let sifted : count (of_id id) (select (is_due t) rows) ≤ count (of_id id) rows =
      count-select (of_id id) (is_due t) rows in
    omega arith
