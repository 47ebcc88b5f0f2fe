-- ===== src/Db/Table.antt =====
-- SQL over one table: WHERE, UPDATE, the affected rows, COUNT, and the constraints of an INSERT.
use spritexai_pay_core.Prelude.{
  ℤ, pos, negsuc, ℕ, zero, suc, leb, ◌+◌, Bool, false, ◌||◌, Option, none, some, List, [], ◌∷◌,
  if◌then◌else◌,
}

module _ {A : Type 0} where
  -- SELECT … WHERE p
  abbrev pub select : (A → Bool) → List A → List A
  select p [] = []
  select p (x ∷ xs) = if p x then x ∷ select p xs else select p xs

  -- the row that `fetch_optional` gives
  abbrev pub first : (A → Bool) → List A → Option A
  first p [] = none
  first p (x ∷ xs) = if p x then some x else first p xs

  -- UPDATE … SET f WHERE p
  abbrev pub update : (A → Bool) → (A → A) → List A → List A
  update p f [] = []
  update p f (x ∷ xs) = (if p x then f x else x) ∷ update p f xs

  -- COUNT(*) WHERE p, and `rows_affected()`
  abbrev pub count : (A → Bool) → List A → ℕ
  count p [] = 0
  count p (x ∷ xs) = (if p x then 1 else 0) + count p xs

  abbrev pub any : (A → Bool) → List A → Bool
  any p [] = false
  any p (x ∷ xs) = p x || any p xs

  abbrev pub All : (A → Type 0) → List A → Type 0
  All P [] = Unit {0}
  All P (x ∷ xs) = P x × All P xs

  -- ORDER BY key DESC: a row goes before those of a lower or equal key.
  abbrev insert_newest : (A → ℕ) → A → List A → List A
  insert_newest key x [] = x ∷ []
  insert_newest key x (y ∷ ys) =
      if leb (key y) (key x) then x ∷ y ∷ ys else y ∷ insert_newest key x ys

  abbrev pub newest_first : (A → ℕ) → List A → List A
  newest_first key [] = []
  newest_first key (x ∷ xs) = insert_newest key x (newest_first key xs)

  abbrev first_rows : ℕ → List A → List A
  first_rows zero xs = []
  first_rows (suc n) [] = []
  first_rows (suc n) (x ∷ xs) = x ∷ first_rows n xs

  -- LIMIT n, where a negative n is no limit.
  abbrev pub at_most : ℤ → List A → List A
  at_most (pos n) xs = first_rows n xs
  at_most (negsuc n) xs = xs
