-- ===== src/Db/Exec.antt =====
-- What a statement, a bind and a transaction do, whatever fails: inversion lemmas, and the rules by
-- which a predicate on the tables is kept through a block.
use spritexai_pay_core.Prelude.{suc, Bool-cases, ◌≡◌, refl, ap, ◌⊎◌, inl, inr, arith}
use spritexai_pay_core.Db.Monad.{
  Result, ok, err, DbError, Env, World, M, ◌>>=◌, map_err, Stmt, exec, transaction, settle_stmt,
  no_op, Quiet, transport,
}

module _ (env : Env) {A : Type 0} (s : Stmt A) (w : World) where
  pub exec_ok :
      {a : A}
      → (exec env s w).0 ≡ ok a
      → s (env.now w.statements) w.db ≡ ok (a, (exec env s w).1.db)
  unfolding exec
  exec_ok h = ground arith

  pub exec_err : {e : DbError} → (exec env s w).0 ≡ err e → (exec env s w).1.db ≡ w.db
  unfolding exec
  exec_err h = ground arith

-- The world after a statement, failed or not, but for its tables.
abbrev pub counted : World → World
counted w = record w { statements = suc w.statements }

-- A statement fails, or runs on the tables.
pub exec_cases :
    (env : Env) {A : Type 0} (s : Stmt A) (w : World)
    → (exec env s w ≡ (err transport, counted w))
      ⊎ (exec env s w ≡ settle_stmt w (s (env.now w.statements) w.db))
unfolding exec
exec_cases env s w = elim (Bool-cases (env.fails w.statements)) [
  | inl fails ↦ inl (rw fails)
  | inr runs ↦ inr (rw runs)
]

pub exec-Quiet :
    (env : Env) (q : Quiet env) {A : Type 0} (s : Stmt A) (w : World)
    → exec env s w ≡ settle_stmt w (s (env.now w.statements) w.db)
unfolding exec
exec-Quiet env q s w = rw q

-- BEGIN and COMMIT touch no table.
pub db-no_op : (env : Env) (w : World) → (exec env no_op w).1.db ≡ w.db
unfolding exec
db-no_op env w = ground arith

-- A result is one or the other, with the equation kept.
pub Result-cases :
    {E A : Type 0} (r : Result E A) → ((a : A) × (r ≡ ok a)) ⊎ ((e : E) × (r ≡ err e))
Result-cases (ok a) = inl (a, refl)
Result-cases (err e) = inr (e, refl)

module _ {E A B : Type 0} (f : A → M E B) where
  bind_result :
      (r : Result E A) (w : World)
      → ((e : E) × (r ≡ err e) × (◌>>=◌ {E = E} (λ _. (r, w)) f w ≡ (err e, w)))
        ⊎ ((a : A) × (r ≡ ok a) × (◌>>=◌ {E = E} (λ _. (r, w)) f w ≡ f a w))
  bind_result (ok a) w = inr (a, refl, refl)
  bind_result (err e) w = inl (e, refl, refl)

  -- The two ways in which a bind ends: its first part failed, or the rest ran on its value.
  pub bind_cases :
      (m : M E A) (w : World)
      → ((e : E) × ((m w).0 ≡ err e) × ((m >>= f) w ≡ (err e, (m w).1)))
        ⊎ ((a : A) × ((m w).0 ≡ ok a) × ((m >>= f) w ≡ f a (m w).1))
  bind_cases m w = bind_result (m w).0 (m w).1

module _ (env : Env) {A : Type 0} (body : M DbError A) (w : World) where
  -- The world in which the body of a transaction starts.
  abbrev pub begun : World
  begun = (exec env no_op w).1

  -- A failed transaction leaves the tables as they were.
  pub transaction_err :
      {e : DbError} → (transaction env body w).0 ≡ err e → (transaction env body w).1.db ≡ w.db
  unfolding transaction
  transaction_err h = ground arith

  -- A transaction that returns has done what its body did.
  pub transaction_ok :
      {a : A}
      → (transaction env body w).0 ≡ ok a
      → ((body begun).0 ≡ ok a)
        × ((transaction env body w).1.db ≡ (body begun).1.db)
        × (begun.db ≡ w.db)
  unfolding transaction
  transaction_ok h = ground (arith, db-no_op env w, db-no_op env (body begun).1)

-- A block whose first part is known to have ended in a given way.
module _ {E A B : Type 0} (f : A → M E B) (m : M E A) (w : World) {w' : World} where
  pub bind_ok : {a : A} → m w ≡ (ok a, w') → (m >>= f) w ≡ f a w'
  bind_ok p = ap (λ (x : Result E A × World). ◌>>=◌ {E = E} (λ _. x) f w) p

  pub bind_err : {e : E} → m w ≡ (err e, w') → (m >>= f) w ≡ (err e, w')
  bind_err p = ap (λ (x : Result E A × World). ◌>>=◌ {E = E} (λ _. x) f w) p

module _ {E F A : Type 0} (g : E → F) (m : M E A) (w : World) {w' : World} where
  pub map_err_ok : {a : A} → m w ≡ (ok a, w') → map_err g m w ≡ (ok a, w')
  map_err_ok p = ap (λ (x : Result E A × World). map_err g (λ _. x) w) p

  pub map_err_err : {e : E} → m w ≡ (err e, w') → map_err g m w ≡ (err (g e), w')
  map_err_err p = ap (λ (x : Result E A × World). map_err g (λ _. x) w) p

-- A mapped error leaves the results that return.
module _ {E F A : Type 0} (g : E → F) where
  map_err_result :
      (r : Result E A) (w : World) {a : A} → (map_err g (λ _. (r, w)) w).0 ≡ ok a → r ≡ ok a
  map_err_result (ok b) w h = ground arith
  map_err_result (err e) w h = absurd (cc h)

  pub map_err_inv : (m : M E A) (w : World) {a : A} → (map_err g m w).0 ≡ ok a → (m w).0 ≡ ok a
  map_err_inv m w h = map_err_result (m w).0 (m w).1 h
