-- ===== src/Checkout/Guarded.antt =====
-- src/checkout.rs: `create_checkout` and its guards.
use Prim.Native.String
use mathlib.Core.Path.{subst}
use spritexai_pay_core.Prelude.{
  pos, ℕ, suc, ◌≤ℤ◌, ltb_ℤ, ◌≡◌, refl, sym, ◌∙◌, ◌⊎◌, inl, inr, String, Bool, true, false, Option,
  [], ◌∷◌, ◌++◌, ◌==◌, arith, Bool-cases, if◌then◌else◌,
}
use spritexai_pay_core.Crates.{Float64}
use spritexai_pay_core.Db.{
  Tables, ChargeRow, Result, ok, err, DbError, transport, check_violation, unique_violation, Env,
  World, M, pure, throw, ◌>>=◌, exec, any, map_err,
}
use spritexai_pay_core.Db.Exec.{exec_cases, counted, bind_ok, bind_err, map_err_ok, map_err_err}
use spritexai_pay_core.Domain.{is_allowed}
use spritexai_pay_core.Domain.Whitelist.{Permitted, Verdict, is_allowed-Verdict}
use spritexai_pay_core.Charge.{insert_charge}
use spritexai_pay_core.Checkout.{
  pay_url, CreateCheckout, CheckoutCreated, CheckoutError, domain_not_allowed, db_error,
  checkout_row, urls_allowed, insert_checkout, create_checkout,
}

-- The verdict of both URLs.
abbrev BothVerdict : Option String → Option String → Tables → Result DbError Bool × World → Type 0
BothVerdict a b db (ok true, w) = Permitted a db × Permitted b db × (w.db ≡ db)
BothVerdict a b db (_, w) = w.db ≡ db

-- The one new row of a checkout that was created.
abbrev pub Created :
    (f : Float64)
    → CreateCheckout f.F
    → Tables
    → Result CheckoutError CheckoutCreated × World
    → Type 0
Created f req db (ok c, w) =
    (id : String) × (t : ℕ) × (w.db ≡ record db {
      charges =
          db.charges
          ++ record (checkout_row f id c.sap_id (f.round_i64 (f.times_hundred req.amount)) req) {
            created_at = t;
            updated_at = t;
          }
            ∷ [];
    })
    × (pos 1 ≤ℤ f.round_i64 (f.times_hundred req.amount))
Created f req db (err e, w) = w.db ≡ db

-- What `create_checkout` has checked before it returns.
abbrev pub Checked :
    (f : Float64) → CreateCheckout f.F → Tables → Result CheckoutError CheckoutCreated → Type 0
Checked f req db (ok c) =
    (f.is_finite req.amount ≡ true)
    × (f.is_nonpositive req.amount ≡ false)
    × Permitted req.return_url db
    × Permitted req.webhook_url db
Checked f req db (err e) = Unit {0}

module _ (env : Env) where
  both :
      (a b : Option String) (db db' : Tables) (x : Result DbError Bool × World)
      → Permitted a db
      → db' ≡ db
      → Verdict b db' x
      → BothVerdict a b db x
  both a b db db' (ok true, w) p same (q, s) = (p, rw (← same) q, s ∙ same)
  both a b db db' (ok false, w) p same s = s ∙ same
  both a b db db' (err e, w) p same s = s ∙ same

  second_url :
      (a b : Option String) (db : Tables) (v : Result DbError Bool × World) (w : World)
      → Verdict a db v
      → BothVerdict a b db (
          ◌>>=◌ {E = DbError}
            (λ _. v)
            (λ first_ok. if first_ok then is_allowed env b else pure false)
            w)
  second_url a b db (ok true, w') w (p, same) =
      both a b db w'.db (is_allowed env b w') p same (is_allowed-Verdict env b w')
  second_url a b db (ok false, w') w same = same
  second_url a b db (err e, w') w same = same

  urls_allowed-Verdict :
      (a b : Option String) (w : World) → BothVerdict a b w.db (urls_allowed env a b w)
  unfolding urls_allowed
  urls_allowed-Verdict a b w =
      second_url a b w.db (is_allowed env a w) w (is_allowed-Verdict env a w)

  -- The tables with one charge more.
  abbrev with_charge : ChargeRow → ℕ → Tables → Tables
  with_charge row t db = record db {
    charges = db.charges ++ record row { created_at = t; updated_at = t } ∷ [];
  }

  insert_charge_cases :
      (row : ChargeRow) (w : World)
      → ((e : DbError) × (exec env (insert_charge row) w ≡ (err e, counted w)))
        ⊎ ((exec env (insert_charge row) w
              ≡ (ok tt, record (counted w) { db = with_charge row (env.now w.statements) w.db }))
            × (pos 1 ≤ℤ row.amount_minor))
  unfolding insert_charge
  insert_charge_cases row w = elim (exec_cases env (insert_charge row) w) [
    | inl e ↦ inl (transport, e)
    | inr e ↦ elim (Bool-cases (ltb_ℤ (pos 0) row.amount_minor)) [
      | inr bad ↦ inl (check_violation, rw e (rw bad refl))
      | inl good ↦ elim (Bool-cases (any (λ r. r.id == row.id) w.db.charges)) [
        | inl taken ↦ inl (unique_violation, rw e (rw (good, taken) refl))
        | inr fresh ↦ elim (Bool-cases (any (λ r. r.order_id == row.order_id) w.db.charges)) [
          | inl used ↦ inl (unique_violation, rw e (rw (good, fresh, used) refl))
          | inr unused ↦ inr (rw e (rw (good, fresh, unused) refl), ground arith)
        ]
      ]
    ]
  ]

  module _ (f : Float64) where
    -- The outcome of the INSERT, and of all that follows it.
    insert_checkout-Created :
        (base_url : String) (req : CreateCheckout f.F) (w : World)
        → Created f req w.db (insert_checkout env f base_url req w)
    unfolding insert_checkout
    insert_checkout-Created base_url req w =
        let id = String.◌++◌ "chg_" (env.uuid w.drawn) in
        let pay_ref = String.◌++◌ "pay_" (env.uuid (suc w.drawn)) in
        let row = checkout_row f id pay_ref (f.round_i64 (f.times_hundred req.amount)) req in
        let w' = record w { drawn = suc (suc w.drawn) } in
        let insert = exec env (insert_charge row) in
        let rest : Unit {0} → M CheckoutError CheckoutCreated =
          λ _. pure (record { sap_id = pay_ref; sap_url = pay_url base_url pay_ref }) in
        let outcome : Result CheckoutError CheckoutCreated × World → Type 0 = Created f req w.db in
        elim (insert_charge_cases row w') [
          | inl (x, e) ↦
              subst outcome
                (sym
                  (bind_err rest (map_err db_error insert) w' (map_err_err db_error insert w' e)))
                refl
          | inr (e, good) ↦
              subst outcome
                (sym (bind_ok rest (map_err db_error insert) w' (map_err_ok db_error insert w' e)))
                (id, env.now w.statements, refl, good)
        ]

    -- What holds of every outcome once all guards have passed.
    any_outcome :
        (req : CreateCheckout f.F) (db : Tables) (r : Result CheckoutError CheckoutCreated)
        → f.is_finite req.amount ≡ true
        → f.is_nonpositive req.amount ≡ false
        → Permitted req.return_url db
        → Permitted req.webhook_url db
        → Checked f req db r
    any_outcome req db (ok c) a b p q = (a, b, p, q)
    any_outcome req db (err e) a b p q = tt

    -- The verdict on the URLs decides whether there is an INSERT at all.
    after_urls :
        (base_url : String) (req : CreateCheckout f.F) (db : Tables)
        (v : Result DbError Bool × World) (w : World)
        → f.is_finite req.amount ≡ true
        → f.is_nonpositive req.amount ≡ false
        → BothVerdict req.return_url req.webhook_url db v
        → let out =
            ◌>>=◌ {E = CheckoutError}
              (map_err db_error (λ _. v))
              (λ allowed.
                if allowed then insert_checkout env f base_url req else throw domain_not_allowed)
              w in
          Created f req db out × Checked f req db out.0
    after_urls base_url req db (ok true, w') w a b (p, q, same) =
        let out = insert_checkout env f base_url req w' in
        (
          subst (λ d. Created f req d out) same (insert_checkout-Created base_url req w'),
          any_outcome req db out.0 a b p q,
        )
    after_urls base_url req db (ok false, w') w a b same = (same, tt)
    after_urls base_url req db (err e, w') w a b same = (same, tt)

    -- A checkout is created only for a finite, positive amount and URLs that the whitelist
    -- permits; then one pending charge is added, with the reference that is returned and the
    -- rounded amount, which is positive; any failure leaves the tables as they were.
    pub create_checkout-Created :
        (base_url : String) (req : CreateCheckout f.F) (w : World)
        → Created f req w.db (create_checkout env f base_url req w)
          × Checked f req w.db (create_checkout env f base_url req w).0
    unfolding create_checkout
    create_checkout-Created base_url req w = elim (Bool-cases (f.is_finite req.amount)) [
      | inr wild ↦ rw wild (refl, tt)
      | inl tame ↦ elim (Bool-cases (f.is_nonpositive req.amount)) [
        | inl low ↦ rw (tame, low) (refl, tt)
        | inr positive ↦
            rw (tame, positive)
              (after_urls base_url req w.db (urls_allowed env req.return_url req.webhook_url w) w
                tame positive (urls_allowed-Verdict req.return_url req.webhook_url w))
      ]
    ]
