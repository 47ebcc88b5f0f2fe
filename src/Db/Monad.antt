-- ===== src/Db/Monad.antt =====
-- How the code reaches the database: one statement at a time, each of which may fail, with errors
-- passed on by `?`.
use spritexai_pay_core.Prelude.{
  ℕ, suc, String, ◌≡◌, Bool, true, false, Option, none, some, List, if◌then◌else◌,
}
use spritexai_pay_core.Db.Rows.{Tables}

pub data Result (E A : Type 0) : Type 0 where
  ok : A → Result E A
  err : E → Result E A

-- The `sqlx::Error`s that the code tells apart, or that the schema and the driver give rise to.
pub data DbError : Type 0 where
  transport unique_violation check_violation foreign_key_violation row_not_found : DbError
  integer_overflow : DbError
  protocol : String → DbError

-- `e.is_unique_violation()`
abbrev pub is_unique_violation : DbError → Bool
is_unique_violation unique_violation = true
is_unique_violation _ = false

-- What the store takes from outside: the n-th random UUID in its simple form, the clock at the
-- n-th statement, and whether the n-th statement fails (a busy or broken connection).
pub record Env : Type 0 where
  pub uuid : ℕ → String
  pub now : ℕ → ℕ
  pub fails : ℕ → Bool

-- A run in which no statement fails.
abbrev pub Quiet : Env → Type 0
Quiet env = (n : ℕ) → env.fails n ≡ false

-- A merchant webhook as it went out, with whether the answer was a success.
pub record SentRequest : Type 0 where
  pub url : String
  pub signature : String
  pub delivery : String
  pub body : String
  pub success : Bool

pub record World : Type 0 where
  pub db : Tables
  pub drawn : ℕ
  pub statements : ℕ
  pub sent : List SentRequest

abbrev pub M : Type 0 → Type 0 → Type 0
M E A = World → Result E A × World

module _ {E A : Type 0} where
  abbrev pub pure : A → M E A
  pure a w = (ok a, w)

  abbrev pub throw : E → M E A
  throw e w = (err e, w)

  -- `Result` as the outcome of a call that touches nothing.
  abbrev pub lift : Result E A → M E A
  lift r w = (r, w)

  -- `.ok_or(e)?`
  abbrev pub ok_or : Option A → E → Result E A
  ok_or none e = err e
  ok_or (some a) e = ok a

infixl 5 ◌>>=◌ ◌>>◌
abbrev pub ◌>>=◌ : {E A B : Type 0} → M E A → (A → M E B) → M E B
◌>>=◌ m f w = let (r, w') = m w in elim r [ ok a ↦ f a w' | err e ↦ (err e, w') ]

abbrev pub ◌>>◌ : {E A B : Type 0} → M E A → M E B → M E B
m >> k = m >>= λ _. k

abbrev pub when : {E : Type 0} → Bool → M E (Unit {0}) → M E (Unit {0})
when b m w = if b then m w else (ok tt, w)

-- `.map_err(f)`
abbrev pub map_err : {E F A : Type 0} → (E → F) → M E A → M F A
map_err f m w = let (r, w') = m w in elim r [ ok a ↦ (ok a, w') | err e ↦ (err (f e), w') ]

-- What a statement does to the tables, at a time.
abbrev pub Stmt : Type 0 → Type 0
Stmt A = ℕ → Tables → Result DbError (A × Tables)

abbrev pub settle_stmt :
    {A : Type 0} → World → Result DbError (A × Tables) → Result DbError A × World
settle_stmt w (ok (a, db)) = (ok a, record w { db = db; statements = suc w.statements })
settle_stmt w (err e) = (err e, record w { statements = suc w.statements })

abbrev pub rollback : {E A : Type 0} → Tables → Result E A × World → Result E A × World
rollback db (ok a, w) = (ok a, w)
rollback db (err e, w) = (err e, record w { db = db })

abbrev pub no_op : Stmt (Unit {0})
no_op t db = ok (tt, db)

module _ (env : Env) where
  -- `.execute(db).await` and the fetches: the statement runs whole or not at all.
  unfoldable pub exec : {A : Type 0} → Stmt A → M DbError A
  exec s w =
      if env.fails w.statements
      then (err transport, record w { statements = suc w.statements })
      else settle_stmt w (s (env.now w.statements) w.db)

  -- `uuid::Uuid::new_v4().simple()`
  abbrev pub new_v4 : {E : Type 0} → M E String
  new_v4 w = (ok (env.uuid w.drawn), record w { drawn = suc w.drawn })

  -- `db.begin()`, the body, `tx.commit()`: an error drops the transaction, which rolls back.
  unfoldable pub transaction : {A : Type 0} → M DbError A → M DbError A
  transaction body w = rollback w.db ((do exec no_op; a ← body; exec no_op; pure a) w)
