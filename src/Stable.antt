-- ===== src/Stable.antt =====
-- Predicates on the tables that the operations outside the settlement keep: what such a predicate
-- has to allow, and the rules by which it passes through a block.
pub mod Rows
pub mod Operations
pub mod Checkouts
pub mod Links
pub mod Ingest
pub mod Handlers
pub mod Routes
pub mod Instances
use spritexai_pay_core.Prelude.{
  pos, ltb_ℤ, ℕ, String, ◌≡◌, refl, Bool, true, false, InI64, List, [], ◌∷◌, ◌++◌, ◌==◌,
  if◌then◌else◌,
}
use spritexai_pay_core.Crates.{Crates}
use spritexai_pay_core.Db.{
  Tables, ChargeRow, is_pending, Result, ok, err, DbError, Env, World, M, pure, lift, ◌>>=◌,
  map_err, Stmt, exec, new_v4, any, update,
}
use spritexai_pay_core.Db.Triple.{
  Triple, Post, StmtPost, Triple-bind, Triple-map_err, Triple-exec, Triple-new_v4, Triple-pure,
  Triple-lift, Triple-if,
}
use spritexai_pay_core.Charge.{mark_paid}

-- The tables that the money is in are the same.
pub record SameMoney (a b : Tables) : Type 0 where
  pub charges : a.charges ≡ b.charges
  pub transactions : a.ledger_transactions ≡ b.ledger_transactions
  pub entries : a.ledger_entries ≡ b.ledger_entries

-- What the customer owes is the same: only notes on the charge differ.
pub record SameTerms (r s : ChargeRow) : Type 0 where
  pub id : r.id ≡ s.id
  pub amount : r.amount_minor ≡ s.amount_minor
  pub currency : r.currency ≡ s.currency
  pub status : r.status ≡ s.status

-- A charge as an INSERT admits it.
pub record IsNewCharge (row : ChargeRow) (db : Tables) : Type 0 where
  pub positive : ltb_ℤ (pos 0) row.amount_minor ≡ true
  pub range : InI64 row.amount_minor
  pub pending : is_pending row.status ≡ true
  pub fresh : any (λ r. r.id == row.id) db.charges ≡ false

pub record Stable (P : Tables → Type 0) : Type 0 where
  pub frame : {a b : Tables} → SameMoney a b → P a → P b
  pub inserted :
      (row : ChargeRow) (db : Tables)
      → IsNewCharge row db
      → P db
      → P (record db { charges = db.charges ++ row ∷ [] })
  pub noted :
      (p : ChargeRow → Bool) (g : ChargeRow → ChargeRow) (db : Tables)
      → ((r : ChargeRow) → SameTerms (g r) r)
      → P db
      → P (record db { charges = update p g db.charges })

-- The predicate passes through a block, however it ends.
abbrev pub Keeps : {E A : Type 0} → (Tables → Type 0) → M E A → Type 0
Keeps P m = Triple P m (λ _. P) P

-- A settlement keeps the predicate too.
abbrev pub Settles : (Tables → Type 0) → Type 0
Settles P = (env : Env) (crates : Crates) (id : String) → Keeps P (mark_paid env crates id)

-- A statement that leaves the money alone.
pub record Framed {A : Type 0} (s : Stmt A) : Type 0 where
  pub at : (t : ℕ) (a db : Tables) (value : A) → s t a ≡ ok (value, db) → SameMoney a db

Post-const :
    {E A : Type 0} (P : Tables → Type 0) (r : Result E A) (db : Tables)
    → P db
    → Post (λ _. P) P r db
Post-const P (ok a) db h = h
Post-const P (err e) db h = h

module _ {P : Tables → Type 0} where
  pub Keeps-pure : {E A : Type 0} (a : A) → Keeps P (pure {E = E} a)
  Keeps-pure a = Triple-pure a (λ db s. s)

  pub Keeps-lift : {E A : Type 0} (r : Result E A) → Keeps P (lift r)
  Keeps-lift r = Triple-lift r (λ db s. Post-const P r db s)

  pub Keeps-bind :
      {E A B : Type 0} {m : M E A} {f : A → M E B}
      → Keeps P m
      → ((a : A) → Keeps P (f a))
      → Keeps P (m >>= f)
  Keeps-bind hm hf = Triple-bind (λ _. P) hm hf

  pub Keeps-map_err : {E F A : Type 0} (g : E → F) {m : M E A} → Keeps P m → Keeps P (map_err g m)
  Keeps-map_err g h = Triple-map_err g h

  pub Keeps-new_v4 : (env : Env) {E : Type 0} → Keeps P (new_v4 env {E = E})
  Keeps-new_v4 env = Triple-new_v4 env

  StmtPost-frame :
      {A : Type 0} (S : Stable P) (db : Tables) (r : Result DbError (A × Tables))
      → P db
      → ((value : A) (db' : Tables) → r ≡ ok (value, db') → SameMoney db db')
      → StmtPost (λ _. P) r
  StmtPost-frame S db (ok (a, db')) p h = S.frame (h a db' refl) p
  StmtPost-frame S db (err e) p h = tt

  pub Keeps-exec :
      (S : Stable P) (env : Env) {A : Type 0} (s : Stmt A) → Framed s → Keeps P (exec env s)
  Keeps-exec S env s framed =
      Triple-exec env s (λ db p. p)
        λ t db p. StmtPost-frame S db (s t db) p (λ value db' e. framed.at t db db' value e)

  -- A test between two blocks, and between two ends of a block.
  pub Keeps-if :
      {E A : Type 0} (b : Bool) {m n : M E A} → Keeps P m → Keeps P n → Keeps P (if b then m else n)
  Keeps-if true hm hn = hm
  Keeps-if false hm hn = hn

  pub Keeps-if_at :
      {E A : Type 0} (b : Bool) {m n : M E A}
      → Keeps P m
      → Keeps P n
      → Keeps P (λ w. if b then m w else n w)
  Keeps-if_at b hm hn = Triple-if b (λ e. hm) (λ e. hn)
