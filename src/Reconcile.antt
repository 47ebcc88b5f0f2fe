-- ===== src/Reconcile.antt =====
-- src/reconcile.rs: the totals of the settled events.
use spritexai_pay_core.Prelude.{
  ℤ, pos, ◌+ℤ◌, ltb, leb, pos_part, neg_part, ◌^◌, ℕ, String, Bool, true, ◌&&◌, Option, none, some,
  List, [], ◌∷◌, ◌==◌, if◌then◌else◌,
}
use spritexai_pay_core.Db.{
  SmsEvent, is_pending, ok, err, DbError, integer_overflow, Env, M, pure, ◌>>=◌, Stmt, exec, select,
  count,
}

pub record Reconciliation : Type 0 where
  pub gateway : Option String
  pub total_settled_minor : ℤ
  pub settled_count : ℕ
  pub pending_charges : ℕ

-- `?1 IS NULL OR gateway = ?1`
abbrev pub in_scope : Option String → SmsEvent → Bool
in_scope none e = true
in_scope (some gateway) e = e.gateway == gateway

abbrev pub settled_in : Option String → SmsEvent → Bool
settled_in gateway e = e.matched && in_scope gateway e

-- `SUM(amount_minor)`, which fails on an overflow.
unfoldable pub sum_events : ℤ → List SmsEvent → Option ℤ
sum_events acc [] = some acc
sum_events acc (e ∷ es) =
    let s = acc +ℤ e.amount_minor in
    let rest = sum_events s es in
    if ltb (pos_part s) (2 ^ 63) && leb (neg_part s) (2 ^ 63) then rest else none

unfoldable pub select_settled : Option String → Stmt (ℤ × ℕ)
select_settled gateway t db =
    elim (sum_events (pos 0) (select (settled_in gateway) db.sms_events)) [
      | none ↦ err integer_overflow
      | some total ↦ ok ((total, count (settled_in gateway) db.sms_events), db)
    ]

unfoldable pub count_pending : Stmt ℕ
count_pending t db = ok (count (λ r. is_pending r.status) db.charges, db)

unfoldable pub reconcile : Env → Option String → M DbError Reconciliation
reconcile env gateway = do
  (total, n) ← exec env (select_settled gateway)
  pending ← exec env count_pending
  pure (record {
    gateway = gateway;
    total_settled_minor = total;
    settled_count = n;
    pending_charges = pending;
  })
