-- ===== src/Webhook/Worker/Attempts.antt =====
-- The counting of the attempts of a delivery in src/webhook.rs.
use spritexai_pay_core.Prelude.{
  ℤ, pos, negsuc, ◌+ℤ◌, ◌≤ℤ◌, leb_ℤ, int_laws, add64, wrap64_id, InI64, ℕ, zero, suc, ◌+◌, ◌*◌, leb,
  some, ◌≡◌, inl, inr, String, true, false, List, [], ◌∷◌, ◌==◌, eq_iff, arith, Bool-cases,
}
use spritexai_pay_core.Crates.{Crates}
use spritexai_pay_core.Db.{Tables, WebhookDelivery, DeliveryStatus, Env, World, select, All}
use spritexai_pay_core.Db.Lists.{All-update_where}
use spritexai_pay_core.Db.Triple.{Triple, Triple-bind, Triple-exec, Triple-pure, Triple-kept}
use spritexai_pay_core.Webhook.Worker.{
  Outcome, Network, is_success, err_msg, is_pending_delivery, set_delivered, set_failed, reschedule,
  insert_due, order_due, limit, is_due, select_due, send, after_send, deliver_one, deliver_all,
  drain_due,
}
use spritexai_pay_core.Webhook.Backoff.{backoff_seconds}

-- Zero attempts or more, at most the cap of 64 bits, and below it while the delivery is pending.
abbrev pub Capped : ℤ → WebhookDelivery → Type 0
Capped cap r =
    (pos 0 ≤ℤ r.attempts)
    × (r.attempts ≤ℤ cap)
    × InI64 cap
    × (is_pending_delivery r.status ≡ true → r.attempts +ℤ pos 1 ≤ℤ cap)

-- The row bears the cap of its id, and is capped.
abbrev pub RowCapped : (String → ℤ) → WebhookDelivery → Type 0
RowCapped cap r = (r.max_attempts ≡ cap r.id) × Capped (cap r.id) r

abbrev pub AllCapped : (String → ℤ) → Tables → Type 0
AllCapped cap db = All (RowCapped cap) db.webhook_deliveries

-- A delivery that the worker has in hand: a pending row of the table.
abbrev Due : (String → ℤ) → WebhookDelivery → Type 0
Due cap d = RowCapped cap d × (is_pending_delivery d.status ≡ true)

pub next_fits : (a c : ℤ) → pos 0 ≤ℤ a → a +ℤ pos 1 ≤ℤ c → InI64 c → InI64 (a +ℤ pos 1)
unfolding ◌+ℤ◌
next_fits (pos n) c low below fits = ground arith
next_fits (negsuc n) c low below fits = absurd (omega arith)

pub room_left : (a c : ℤ) → leb_ℤ c a ≡ false → a +ℤ pos 1 ≤ℤ c
unfolding ◌+ℤ◌
room_left a c h = ground arith

module _ (cap : String → ℤ) where
  -- One attempt more does not overflow, and stays within the cap.
  next-attempt :
      (d : WebhookDelivery) → Due cap d → (add64 d.attempts (pos 1) ≡ d.attempts +ℤ pos 1)
  unfolding add64
  next-attempt d h =
      let (low, high, fits, room) = h.0.1 in
      let below = room h.1 in
      wrap64_id (d.attempts +ℤ pos 1) (next_fits d.attempts (cap d.id) low below fits)

  select-Due :
      (t : ℕ) (rows : List WebhookDelivery)
      → All (RowCapped cap) rows
      → All (Due cap) (select (is_due t) rows)
  select-Due t [] h = tt
  select-Due t (r ∷ rs) h = elim (Bool-cases (is_due t r)) [
    | inl due ↦ rw due ((h.0, ground arith), select-Due t rs h.1)
    | inr not_due ↦ rw not_due (select-Due t rs h.1)
  ]

  module _ (P : WebhookDelivery → Type 0) where
    insert_due-All :
        (d : WebhookDelivery) (ds : List WebhookDelivery) → P d → All P ds → All P (insert_due d ds)
    insert_due-All d [] p h = (p, tt)
    insert_due-All d (e ∷ es) p h = elim (Bool-cases (leb d.next_attempt_at e.next_attempt_at)) [
      | inl first ↦ rw first (p, h)
      | inr after ↦ rw after (h.0, insert_due-All d es p h.1)
    ]

    order_due-All : (ds : List WebhookDelivery) → All P ds → All P (order_due ds)
    order_due-All [] h = tt
    order_due-All (d ∷ ds) h = insert_due-All d (order_due ds) h.0 (order_due-All ds h.1)

    limit-All : (n : ℕ) (ds : List WebhookDelivery) → All P ds → All P (limit n ds)
    limit-All zero ds h = tt
    limit-All (suc n) [] h = tt
    limit-All (suc n) (d ∷ ds) h = (h.0, limit-All n ds h.1)

  -- An attempt that is written down leaves a capped row.
  attempted :
      (d r : WebhookDelivery) (status : DeliveryStatus) (a : ℤ)
      → Due cap d
      → a ≡ d.attempts +ℤ pos 1
      → (is_pending_delivery status ≡ true → a +ℤ pos 1 ≤ℤ d.max_attempts)
      → (r.id == d.id) ≡ true
      → RowCapped cap r
      → (r.max_attempts ≡ cap r.id)
        × ((pos 0 ≤ℤ a)
            × (a ≤ℤ cap r.id)
            × InI64 (cap r.id)
            × (is_pending_delivery status ≡ true → a +ℤ pos 1 ≤ℤ cap r.id))
  attempted d r status a h e more same row =
      let (low, high, fits, room) = h.0.1 in
      let below = room h.1 in
      let ids = (eq_iff r.id d.id).0 same in
      rw ids
        (rw (← ids) row.0, (rw e (omega int_laws), rw e below, fits, λ p. rw (← h.0.0) (more p)))

  module _ (env : Env) (crates : Crates) (network : Network) where
    after_send-AllCapped :
        (d : WebhookDelivery) (outcome : Outcome)
        → Due cap d
        → Triple
            (AllCapped cap)
            (after_send env crates network d outcome)
            (λ _. AllCapped cap)
            (AllCapped cap)
    unfolding after_send set_delivered set_failed reschedule
    after_send-AllCapped d outcome h =
        let a = add64 d.attempts (pos 1) in
        let next = next-attempt d h in
        elim (Bool-cases (is_success outcome)) [
          | inl won ↦ rw won (
              Triple-exec env (set_delivered d.id a) (λ db s. s)
                λ t db s.
                  All-update_where (RowCapped cap) (λ r. r.id == d.id)
                    (λ r. record r {
                      status = DeliveryStatus.delivered;
                      attempts = a;
                      updated_at = t;
                    })
                    db.webhook_deliveries
                    (λ r same row.
                      attempted d r DeliveryStatus.delivered a h next (λ p. absurd (cc p)) same row)
                    s)
          | inr lost ↦ elim (Bool-cases (leb_ℤ d.max_attempts a)) [
            | inl over ↦
                rw (lost, over)
                  (Triple-exec env (set_failed d.id a (err_msg outcome)) (λ db s. s)
                    λ t db s.
                      All-update_where (RowCapped cap) (λ r. r.id == d.id)
                        (λ r. record r {
                          status = DeliveryStatus.failed;
                          attempts = a;
                          last_error = some (err_msg outcome);
                          updated_at = t;
                        })
                        db.webhook_deliveries
                        (λ r same row.
                          attempted d r DeliveryStatus.failed a h next (λ p. absurd (cc p)) same
                            row)
                        s)
            | inr left ↦
                rw (lost, left)
                  (Triple-exec env (reschedule d.id a (err_msg outcome) (backoff_seconds a))
                    (λ db s. s)
                    λ t db s.
                      All-update_where (RowCapped cap) (λ r. r.id == d.id)
                        (λ r. record r {
                          attempts = a;
                          last_error = some (err_msg outcome);
                          next_attempt_at = t + backoff_seconds a * 1000;
                          updated_at = t;
                        })
                        db.webhook_deliveries
                        (λ r same row.
                          attempted d r r.status a h next (λ p. room_left a d.max_attempts left)
                            same row)
                        s)
          ]
        ]

    deliver_one-AllCapped :
        (secret : String) (d : WebhookDelivery)
        → Due cap d
        → Triple
            (AllCapped cap)
            (deliver_one env crates network secret d)
            (λ _. AllCapped cap)
            (AllCapped cap)
    unfolding deliver_one send
    deliver_one-AllCapped secret d h = record {
      at = λ w s.
          let (outcome, w') = send env crates network secret d w in
          (after_send-AllCapped d outcome h).at w' s;
    }

    deliver_all-AllCapped :
        (secret : String) (ds : List WebhookDelivery)
        → All (Due cap) ds
        → Triple
            (AllCapped cap)
            (deliver_all env crates network secret ds)
            (λ _. AllCapped cap)
            (AllCapped cap)
    unfolding deliver_all
    deliver_all-AllCapped secret [] h = Triple-pure tt (λ db s. s)
    deliver_all-AllCapped secret (d ∷ ds) h =
        Triple-bind (λ _. AllCapped cap) (deliver_one-AllCapped secret d h.0)
          λ _. deliver_all-AllCapped secret ds h.1

    deliver_selected :
        (secret : String) (ds : List WebhookDelivery)
        → Triple
            (λ db. All (Due cap) ds × AllCapped cap db)
            (deliver_all env crates network secret ds)
            (λ _. AllCapped cap)
            (AllCapped cap)
    deliver_selected secret ds = record {
      at = λ w p. (deliver_all-AllCapped secret ds p.0).at w p.1;
    }

    -- A round of the worker, as a triple.
    pub drain_due-Triple :
        (secret : String)
        → Triple
            (AllCapped cap)
            (drain_due env crates network secret)
            (λ _. AllCapped cap)
            (AllCapped cap)
    unfolding drain_due select_due
    drain_due-Triple secret =
        Triple-bind (λ ds db. All (Due cap) ds × AllCapped cap db)
          (Triple-exec env select_due (λ db s. s)
            λ t db s. (
              limit-All (Due cap) 20 _
                  (order_due-All (Due cap) _ (select-Due t db.webhook_deliveries s)),
              s,
            ))
          λ ds. deliver_selected secret ds

-- A round of the delivery worker keeps the attempts of every delivery within the cap of its id,
-- and below it while the delivery is pending, whatever the network answers and whichever statement
-- fails.
pub drain_due-AllCapped :
    (cap : String → ℤ) (env : Env) (crates : Crates) (network : Network) (secret : String)
    (w : World)
    → AllCapped cap w.db
    → AllCapped cap (drain_due env crates network secret w).1.db
drain_due-AllCapped cap env crates network secret w =
    Triple-kept w (drain_due-Triple cap env crates network secret)
