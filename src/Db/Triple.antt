-- ===== src/Db/Triple.antt =====
-- Triples over the tables: what holds before a block, after it returns, and after it fails. They
-- hold for every environment, so for every place at which a statement may fail.
use spritexai_pay_core.Prelude.{
  ℕ, ◌≡◌, refl, inl, inr, Bool-cases, Bool, true, false, if◌then◌else◌,
}
use mathlib.Core.Path.{subst}
use spritexai_pay_core.Db.Rows.{Tables}
use spritexai_pay_core.Db.Monad.{
  Result, ok, err, DbError, Env, World, M, pure, lift, ◌>>=◌, map_err, Stmt, exec, new_v4,
  settle_stmt,
}

abbrev pub Post :
    {E A : Type 0} → (A → Tables → Type 0) → (Tables → Type 0) → Result E A → Tables → Type 0
Post Q R (ok a) db = Q a db
Post Q R (err e) db = R db

pub record Triple {E A : Type 0} (P : Tables → Type 0) (m : M E A) (Q : A → Tables → Type 0)
    (R : Tables → Type 0) : Type 0 where
  pub at : (w : World) → P w.db → Post Q R (m w).0 (m w).1.db

module _ {E A : Type 0} {P : Tables → Type 0} {Q : A → Tables → Type 0} {R : Tables → Type 0} where
  pub Triple-pure : (a : A) → ((db : Tables) → P db → Q a db) → Triple P (pure {E = E} a) Q R
  Triple-pure a h = record { at = λ w p. h w.db p }

  -- Strengthen what is known before, weaken what is claimed after.
  pub Triple-weaken :
      {P' : Tables → Type 0} {Q' : A → Tables → Type 0} {m : M E A}
      → ((db : Tables) → P db → P' db)
      → ((a : A) (db : Tables) → Q' a db → Q a db)
      → Triple P' m Q' R
      → Triple P m Q R
  Triple-weaken {Q'} {m} before after t = record {
    at = λ w p. step (m w).0 (m w).1.db (t.at w (before w.db p));
  }
    where
      step : (r : Result E A) (db : Tables) → Post Q' R r db → Post Q R r db
      step (ok a) db h = after a db h
      step (err e) db h = h

-- What a statement leaves when it runs; one that is refused leaves everything.
abbrev pub StmtPost : {A : Type 0} → (A → Tables → Type 0) → Result DbError (A × Tables) → Type 0
StmtPost Q (ok (a, db)) = Q a db
StmtPost Q (err e) = Unit {0}

bind_step :
    {E A B : Type 0} (Q : A → Tables → Type 0) (S : B → Tables → Type 0) (R : Tables → Type 0)
    (f : A → M E B)
    → ((a : A) → Triple (Q a) (f a) S R)
    → (r : Result E A) (w : World) → Post Q R r w.db
    → Post S R (◌>>=◌ {E = E} (λ _. (r, w)) f w).0 (◌>>=◌ {E = E} (λ _. (r, w)) f w).1.db
bind_step Q S R f tf (ok a) w h = (tf a).at w h
bind_step Q S R f tf (err e) w h = h

map_err_step :
    {E F A : Type 0} (g : E → F) (Q : A → Tables → Type 0) (R : Tables → Type 0) (r : Result E A)
    (w : World)
    → Post Q R r w.db
    → Post Q R (map_err g (λ _. (r, w)) w).0 (map_err g (λ _. (r, w)) w).1.db
map_err_step g Q R (ok a) w h = h
map_err_step g Q R (err e) w h = h

exec_step :
    {A : Type 0} (Q : A → Tables → Type 0) (R : Tables → Type 0) (w : World)
    (r : Result DbError (A × Tables))
    → R w.db
    → StmtPost Q r
    → Post Q R (settle_stmt w r).0 (settle_stmt w r).1.db
exec_step Q R w (ok (a, db)) before h = h
exec_step Q R w (err e) before h = before

module _ {E A B : Type 0} {P : Tables → Type 0} (Q : A → Tables → Type 0) {S : B → Tables → Type 0}
    {R : Tables → Type 0} where
  -- The rule for `m >>= f`, with what holds between the two named.
  pub Triple-bind :
      {m : M E A} {f : A → M E B}
      → Triple P m Q R
      → ((a : A) → Triple (Q a) (f a) S R)
      → Triple P (m >>= f) S R
  Triple-bind {m} {f} tm tf = record {
    at = λ w p. bind_step Q S R f tf (m w).0 (m w).1 (tm.at w p);
  }

module _ {E F A : Type 0} (g : E → F) {P : Tables → Type 0} {Q : A → Tables → Type 0}
    {R : Tables → Type 0} where
  pub Triple-map_err : {m : M E A} → Triple P m Q R → Triple P (map_err g m) Q R
  Triple-map_err {m} t = record { at = λ w p. map_err_step g Q R (m w).0 (m w).1 (t.at w p) }

module _ (env : Env) {A : Type 0} {P R : Tables → Type 0} {Q : A → Tables → Type 0} where
  -- A statement: what it does when it runs, and nothing when it fails.
  pub Triple-exec :
      (s : Stmt A)
      → ((db : Tables) → P db → R db)
      → ((t : ℕ) (db : Tables) → P db → StmtPost Q (s t db))
      → Triple P (exec env s) Q R
  unfolding exec
  Triple-exec s failed ran = record {
    at = λ w p. elim (Bool-cases (env.fails w.statements)) [
      | inl fails ↦ rw fails (failed w.db p)
      | inr runs ↦ rw runs (
          exec_step Q R w (s (env.now w.statements) w.db) (failed w.db p)
            (ran (env.now w.statements) w.db p))
    ];
  }

module _ (env : Env) {E : Type 0} {P R : Tables → Type 0} where
  pub Triple-new_v4 : Triple {E = E} P (new_v4 env) (λ _. P) R
  Triple-new_v4 = record { at = λ w p. p }

-- A value that the code has at hand, or an error.
pub Triple-lift :
    {E A : Type 0} {P R : Tables → Type 0} {Q : A → Tables → Type 0} (r : Result E A)
    → ((db : Tables) → P db → Post Q R r db)
    → Triple P (lift r) Q R
Triple-lift r h = record { at = λ w p. h w.db p }

pub Triple-if :
    {E A : Type 0} {P R : Tables → Type 0} {Q : A → Tables → Type 0} (b : Bool) {m n : M E A}
    → (b ≡ true → Triple P m Q R)
    → (b ≡ false → Triple P n Q R)
    → Triple P (λ w. if b then m w else n w) Q R
Triple-if true yes_case no_case = record { at = (yes_case refl).at }
Triple-if false yes_case no_case = record { at = (no_case refl).at }

Post-const :
    {E A : Type 0} (P : Tables → Type 0) (r : Result E A) (db : Tables)
    → P db
    → Post (λ _. P) P r db
Post-const P (ok a) db h = h
Post-const P (err e) db h = h

-- A predicate that survives the block, however it ends.
pub Triple-const :
    {E A : Type 0} {P : Tables → Type 0} {m : M E A}
    → ((w : World) → P w.db → P (m w).1.db)
    → Triple P m (λ _. P) P
Triple-const {P} {m} h = record { at = λ w p. Post-const P (m w).0 (m w).1.db (h w p) }

Post-forget :
    {E A : Type 0} (Q : A → Tables → Type 0) (R : Tables → Type 0) (r : Result E A) (db : Tables)
    → Post Q R r db
    → Post Q (λ _. Unit {0}) r db
Post-forget Q R (ok a) db h = h
Post-forget Q R (err e) db h = tt

-- Forget what holds after a failure.
pub Triple-forget :
    {E A : Type 0} {P R : Tables → Type 0} {Q : A → Tables → Type 0} {m : M E A}
    → Triple P m Q R
    → Triple P m Q (λ _. Unit {0})
Triple-forget {R} {Q} {m} t = record { at = λ w p. Post-forget Q R (m w).0 (m w).1.db (t.at w p) }

-- What holds after a block that has returned.
pub Triple-ok :
    {E A : Type 0} {P R : Tables → Type 0} {Q : A → Tables → Type 0} {m : M E A} {a : A} (w : World)
    → Triple P m Q R
    → P w.db
    → (m w).0 ≡ ok a
    → Q a (m w).1.db
Triple-ok {R} {Q} {m} w t p h = subst (λ r. Post Q R r (m w).1.db) h (t.at w p)

Post-kept :
    {E A : Type 0} (P : Tables → Type 0) (r : Result E A) (db : Tables)
    → Post (λ _. P) P r db
    → P db
Post-kept P (ok a) db h = h
Post-kept P (err e) db h = h

-- What a block keeps, however it ends.
pub Triple-kept :
    {E A : Type 0} {P : Tables → Type 0} {m : M E A} (w : World)
    → Triple P m (λ _. P) P
    → P w.db
    → P (m w).1.db
Triple-kept {P} {m} w t p = Post-kept P (m w).0 (m w).1.db (t.at w p)
