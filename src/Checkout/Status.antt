-- ===== src/Checkout/Status.antt =====
-- src/checkout.rs: the status that `verify` reports.
use spritexai_pay_core.Prelude.{◌≡◌, refl, sym, ap, ◌∙◌, String, Option, none, some, eq_iff}
use spritexai_pay_core.Crates.{Crates, Float64}
use spritexai_pay_core.Db.{Tables, ChargeRow, ChargeStatus, ok, Env, World, ok_or, first}
use spritexai_pay_core.Db.Triple.{
  Triple, Post, Triple-bind, Triple-map_err, Triple-exec, Triple-pure, Triple-lift, Triple-ok,
}
use spritexai_pay_core.Checkout.{
  VerifyResult, not_found, db_error, has_ref, select_by_ref, select_settled_trx, verify,
  verify_result, public_status,
}

completed-paid : (s : ChargeStatus) → public_status s ≡ "completed" → s ≡ ChargeStatus.paid
completed-paid ChargeStatus.pending h = let e = (eq_iff "pending" "completed").1 h in absurd (cc e)
completed-paid ChargeStatus.paid h = refl
completed-paid ChargeStatus.failed h = let e = (eq_iff "failed" "completed").1 h in absurd (cc e)
completed-paid ChargeStatus.expired h = let e = (eq_iff "expired" "completed").1 h in absurd (cc e)

module _ (env : Env) (crates : Crates) (f : Float64) (pay_ref : String) (start : Tables) where
  abbrev AtStart : Tables → Type 0
  AtStart db = db ≡ start

  abbrev Failed : Tables → Type 0
  Failed db = Unit {0}

  abbrev IsCharge : ChargeRow → Type 0
  IsCharge c = first (has_ref pay_ref) start.charges ≡ some c

  some_found :
      (row : Option ChargeRow) (db : Tables)
      → row ≡ first (has_ref pay_ref) start.charges
      → Post (λ c _. IsCharge c) Failed (ok_or row not_found) db
  some_found none db h = tt
  some_found (some r) db h = sym h

  verify-Triple :
      Triple AtStart
        (verify env crates f pay_ref)
        (λ v _. (c : ChargeRow) × IsCharge c × (v.status ≡ public_status c.status))
        Failed
  unfolding verify select_by_ref select_settled_trx verify_result
  verify-Triple =
      Triple-bind (λ row _. row ≡ first (has_ref pay_ref) start.charges)
        (Triple-map_err db_error (
          Triple-exec env (select_by_ref pay_ref) (λ db s. tt)
            (λ t db e. ap (λ d. first (has_ref pay_ref) d.charges) e)))
        λ row.
          Triple-bind (λ c _. IsCharge c) (Triple-lift (ok_or row not_found) (some_found row))
            λ c.
              Triple-bind (λ _ _. IsCharge c)
                (Triple-map_err db_error
                  (Triple-exec env (select_settled_trx c.id) (λ db s. tt) (λ t db s. s)))
                λ trx. Triple-pure (verify_result crates f c trx) (λ db s. (c, s, refl))

-- A checkout is reported as completed only when the charge of its reference is paid.
pub verify_completed :
    (env : Env) (crates : Crates) (f : Float64) (pay_ref : String) (v : VerifyResult) (w : World)
    → (verify env crates f pay_ref w).0 ≡ ok v
    → v.status ≡ "completed"
    → (c : ChargeRow) × (first (has_ref pay_ref) w.db.charges ≡ some c)
      × (c.status ≡ ChargeStatus.paid)
verify_completed env crates f pay_ref v w h done =
    let (c, found, status) = Triple-ok w (verify-Triple env crates f pay_ref w.db) refl h in
    (c, found, completed-paid c.status (sym status ∙ done))
