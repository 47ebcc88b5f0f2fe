-- ===== src/Charge/Quiet.antt =====
-- src/charge.rs: `mark_paid` where no statement fails.
use Prim.Native.String
use spritexai_pay_core.Prelude.{
  ℤ, pos, eqb_ℤ, eqb_ℤ_iff, wrap64, ◌+ℤ◌, ℕ, suc, String, ◌≡◌, refl, ◌∙◌, true, false, Option, none,
  some, List, [], ◌∷◌, ◌++◌, ◌==◌, eq_refl, arith,
}
use spritexai_pay_core.Crates.{Crates}
use spritexai_pay_core.Db.{
  Tables, ChargeRow, ChargeStatus, DeliveryStatus, Env, World, Quiet, ok_or, exec, any, first,
  update, map_err, new_v4, lift, pure, ◌>>=◌, ◌>>◌,
}
use spritexai_pay_core.Db.Lists.{any-update}
use spritexai_pay_core.Db.Total.{
  Returns, Returns-pure, Returns-bind, Returns-weaken, Returns-map_err, Returns-exec,
  Returns-new_v4,
}
use spritexai_pay_core.Ledger.{post, sum_from}
use spritexai_pay_core.Ledger.Atomic.{known}
use spritexai_pay_core.Ledger.Quiet.{post-Returns}
use spritexai_pay_core.Ledger.Balance.{sum_from_lem}
use spritexai_pay_core.Invoice.Settle.{settle_for_charge, set_invoice_paid}
use spritexai_pay_core.Webhook.{enqueue, insert_delivery}
use spritexai_pay_core.Charge.Sound.{IsAmount, HasAmount, settlement, exact_sum-settlement}
use spritexai_pay_core.Charge.{
  Charge, ChargeError, not_found, to_charge, select_charge, set_charge_paid, get, notify, mark_paid,
  paid_payload, memo_of, ledger_error,
}

-- The entries of a settlement pass the test of their sum.
balances :
    (a : ℤ) (currency : String)
    → IsAmount a
    → eqb_ℤ (sum_from (pos 0) (settlement a currency)) (pos 0) ≡ true
unfolding wrap64 ◌+ℤ◌
balances a currency h =
    let whole : sum_from (wrap64 (pos 0)) (settlement a currency) ≡ pos 0 =
      sum_from_lem (pos 0) (settlement a currency) ∙ rw (exact_sum-settlement a currency h) refl in
    (eqb_ℤ_iff _ _).1 whole

-- The tables with a delivery in the queue.
abbrev queued : String → String → String → String → String → ℕ → Tables → Tables
queued id charge_id url event payload t db = record db {
  webhook_deliveries =
      db.webhook_deliveries
      ++ record {
        id = id;
        charge_id = charge_id;
        url = url;
        payload = payload;
        event = event;
        status = DeliveryStatus.pending;
        attempts = pos 0;
        max_attempts = pos 8;
        next_attempt_at = t;
        last_error = none;
        updated_at = t;
      }
        ∷ [];
}

module _ (env : Env) (quiet : Quiet env) where
  -- The row that was found, as a charge.
  found-Returns :
      (r : ChargeRow) (row : Option ChargeRow) (w v : World)
      → (row ≡ some r) × (v.db ≡ w.db) × (v.drawn ≡ w.drawn)
      → Returns
          (do found ← lift (ok_or row not_found); pure (to_charge found))
          v
          (λ c v'. (c ≡ to_charge r) × (v'.db ≡ w.db) × (v'.drawn ≡ w.drawn))
  found-Returns r none w v h = absurd (cc (h.0))
  found-Returns r (some x) w v h = record {
    value = to_charge x;
    after = v;
    runs = refl;
    holds = (let same : x ≡ r = ground arith in rw same refl, h.1, h.2);
  }

  get-Returns :
      (id : String) (r : ChargeRow) (w : World)
      → first (λ x. x.id == id) w.db.charges ≡ some r
      → Returns (get env id) w (λ c v. (c ≡ to_charge r) × (v.db ≡ w.db) × (v.drawn ≡ w.drawn))
  unfolding get select_charge
  get-Returns id r w found =
      Returns-bind {Q = λ row v. (row ≡ some r) × (v.db ≡ w.db) × (v.drawn ≡ w.drawn)} w
        (Returns-map_err ChargeError.db_error w (
          Returns-exec env quiet (select_charge id) w (some r) w.db (rw found refl)
            (refl, refl, refl)))
        λ row v h. found-Returns r row w v h

  -- The id of the charge that was read, as a foreign key.
  any-first :
      (id : String) (r : ChargeRow) (rs : List ChargeRow)
      → first (λ x. x.id == id) rs ≡ some r
      → any (λ x. x.id == r.id) rs ≡ true
  any-first id r [] h = absurd (cc h)
  any-first id r (x ∷ xs) h = ground (arith, any-first id r xs, eq_refl r.id)

  module _ (crates : Crates) (id : String) where
    -- What the last steps of a settlement ask of the tables.
    abbrev Ready : Charge → World → Type 0
    Ready c v =
        (any (λ r. r.id == c.id) v.db.charges ≡ true)
        × (any (λ d. d.id == String.◌++◌ "whd_" (env.uuid v.drawn)) v.db.webhook_deliveries ≡ false)

    abbrev pub Done : Unit {0} → World → Type 0
    Done u v = Unit {0}

    paid-Returns :
        (c : Charge) (v : World)
        → Ready c v
        → Returns (exec env (set_charge_paid id)) v (λ u v'. Ready c v')
    unfolding set_charge_paid
    paid-Returns c v h =
        Returns-exec env quiet (set_charge_paid id) v tt
          (record v.db {
            charges =
                update (λ r. r.id == id)
                  (λ r. record r { status = ChargeStatus.paid; updated_at = env.now v.statements })
                  v.db.charges;
          })
          refl
          (
            any-update (λ r. r.id == c.id) (λ r. r.id == id)
                  (λ r. record r { status = ChargeStatus.paid; updated_at = env.now v.statements })
                  v.db.charges (λ r. refl)
                ∙ h.0,
            h.1,
          )

    invoice-Returns :
        (c : Charge) (v : World)
        → Ready c v
        → Returns (settle_for_charge env id) v (λ u v'. Ready c v')
    unfolding settle_for_charge set_invoice_paid
    invoice-Returns c v h = Returns-exec env quiet (set_invoice_paid id) v tt _ refl h

    enqueue-Returns :
        (c : Charge) (url event payload : String) (v : World)
        → Ready c v
        → Returns (enqueue env c.id url event payload) v (λ whd v'. Unit {0})
    unfolding enqueue insert_delivery
    enqueue-Returns c url event payload v h =
        Returns-bind {Q = λ uuid v'. (uuid ≡ env.uuid v.drawn) × (v'.db ≡ v.db)} v
          (Returns-new_v4 env v (refl, refl))
          λ uuid v' (is_next, same).
            Returns-bind {Q = Done} v'
              (Returns-exec env quiet
                (insert_delivery (String.◌++◌ "whd_" uuid) c.id url event payload) v' tt
                (queued (String.◌++◌ "whd_" uuid) c.id url event payload (env.now v'.statements)
                  v'.db)
                (rw (is_next, same) (rw h.1 (rw h.0 refl))) tt)
              (λ u v'' t. Returns-pure (String.◌++◌ "whd_" uuid) v'' tt)

    notify-Returns :
        (c : Charge) (url : Option String) (v : World)
        → Ready c v
        → Returns (notify env crates c url) v Done
    unfolding notify
    notify-Returns c none v h = Returns-pure tt v tt
    notify-Returns c (some url) v h =
        Returns-bind v
          (Returns-map_err ChargeError.db_error v
            (enqueue-Returns c url "charge.paid" (paid_payload env crates c) v h))
          (λ whd v' u. Returns-pure tt v' tt)

    settle-Returns :
        (c : Charge) (v : World)
        → IsAmount c.amount_minor
        → known (String.◌++◌ "ltx_" (env.uuid v.drawn)) v.db ≡ false
        → Ready c (record v { drawn = suc v.drawn })
        → Returns
            (do
              uuid ← new_v4 env
              map_err ledger_error (
                  post env
                    (String.◌++◌ "ltx_" uuid)
                    c.id
                    (memo_of env crates c)
                    (settlement c.amount_minor c.currency))
              map_err ChargeError.db_error (exec env (set_charge_paid id))
              map_err ChargeError.db_error (settle_for_charge env id)
              notify env crates c c.callback_url)
            v
            Done
    settle-Returns c v amount fresh ready =
        Returns-bind
          {Q = λ uuid v'. (uuid ≡ env.uuid v.drawn) × (v' ≡ record v { drawn = suc v.drawn })} v
          (Returns-new_v4 env v (refl, refl))
          λ uuid v1 (is_next, at_v1).
            Returns-bind {Q = λ u v2. Ready c v2} v1
              (Returns-map_err ledger_error v1 (
                Returns-weaken
                  (λ u v2 k. (
                    rw (k.charges) (rw at_v1 ready.0),
                    rw (k.deliveries, k.drawn) (rw at_v1 ready.1),
                  ))
                  (post-Returns env quiet (String.◌++◌ "ltx_" uuid) c.id (memo_of env crates c)
                    (settlement c.amount_minor c.currency) v1 refl
                    (balances c.amount_minor c.currency amount) (rw (is_next, at_v1) fresh))))
              λ u1 v2 r2.
                Returns-bind v2 (Returns-map_err ChargeError.db_error v2 (paid-Returns c v2 r2))
                  λ u2 v3 r3.
                    Returns-bind v3
                      (Returns-map_err ChargeError.db_error v3 (invoice-Returns c v3 r3))
                      (λ u3 v4 r4. notify-Returns c c.callback_url v4 r4)

    pub mark_paid-Returns :
        (r : ChargeRow) (w : World)
        → first (λ x. x.id == id) w.db.charges ≡ some r
        → HasAmount r
        → known (String.◌++◌ "ltx_" (env.uuid w.drawn)) w.db ≡ false
        → any (λ d. d.id == String.◌++◌ "whd_" (env.uuid (suc w.drawn))) w.db.webhook_deliveries
          ≡ false
        → Returns (mark_paid env crates id) w Done
    unfolding mark_paid
    mark_paid-Returns r w found amount fresh free =
        Returns-bind w (get-Returns id r w found) λ c v (is_r, same, drawn).
          settle-Returns c v (rw is_r amount) (rw (same, drawn) fresh)
            (rw (same, is_r) (any-first id r w.db.charges found), rw (same, drawn) free)
