-- ===== src/Db/Lists.antt =====
-- Facts about the rows of a table under the SQL operations.
use spritexai_pay_core.Prelude.{
  ◌≡◌, refl, inl, inr, Bool, Bool-cases, true, ◌||◌, some, List, [], ◌∷◌, ◌++◌, map, arith,
}
use spritexai_pay_core.Db.Table.{first, update, any, All}

module _ {A : Type 0} (P : A → Type 0) where
  pub All-append : (xs ys : List A) → All P xs → All P ys → All P (xs ++ ys)
  All-append [] ys hx hy = hy
  All-append (x ∷ xs) ys hx hy = (hx.0, All-append xs ys hx.1 hy)

  pub All-update :
      (p : A → Bool) (f : A → A) (xs : List A)
      → ((x : A) → P x → P (f x))
      → All P xs
      → All P (update p f xs)
  All-update p f [] keep h = tt
  All-update p f (x ∷ xs) keep h = (
    elim (Bool-cases (p x)) [ inl e ↦ rw e (keep x h.0) | inr e ↦ rw e h.0 ],
    All-update p f xs keep h.1,
  )

  -- The same, when only the rows that are updated keep the predicate.
  pub All-update_where :
      (p : A → Bool) (f : A → A) (xs : List A)
      → ((x : A) → p x ≡ true → P x → P (f x))
      → All P xs
      → All P (update p f xs)
  All-update_where p f [] keep h = tt
  All-update_where p f (x ∷ xs) keep h = (
    elim (Bool-cases (p x)) [ inl e ↦ rw e (keep x e h.0) | inr e ↦ rw e h.0 ],
    All-update_where p f xs keep h.1,
  )

  pub All-map : (Q : A → Type 0) (xs : List A) → ((x : A) → P x → Q x) → All P xs → All Q xs
  All-map Q [] f h = tt
  All-map Q (x ∷ xs) f h = (f x h.0, All-map Q xs f h.1)

  -- The row that a query finds is one of the table, and passes the test.
  pub first-All :
      (p : A → Bool) (xs : List A) (a : A) → All P xs → first p xs ≡ some a → P a × (p a ≡ true)
  first-All p [] a h e = cc
  first-All p (x ∷ xs) a h e = elim (Bool-cases (p x)) [
    | inl t ↦ let same : x ≡ a = ground arith in (rw (← same) h.0, rw (← same) t)
    | inr f ↦ first-All p xs a h.1 (rw f at e)
  ]

module _ {A : Type 0} where
  pub any-append : (p : A → Bool) (xs ys : List A) → any p (xs ++ ys) ≡ (any p xs || any p ys)
  any-append p [] ys = refl
  any-append p (x ∷ xs) ys = ground (arith, any-append p xs ys)

  -- An update that keeps what a test reads keeps the answer of the test.
  pub any-update :
      (q p : A → Bool) (f : A → A) (xs : List A)
      → ((x : A) → q (f x) ≡ q x)
      → any q (update p f xs) ≡ any q xs
  any-update q p f [] same = refl
  any-update q p f (x ∷ xs) same = ground (arith, same x, any-update q p f xs same)

-- An update of what a function forgets is forgotten.
pub map-update :
    {A B : Type 0} (g : A → B) (p : A → Bool) (f : A → A) (xs : List A)
    → ((x : A) → g (f x) ≡ g x)
    → map g (update p f xs) ≡ map g xs
map-update g p f [] same = refl
map-update g p f (x ∷ xs) same = ground (arith, same x, map-update g p f xs same)
