-- ===== src/Webhook/Worker/Tries.antt =====
-- src/webhook.rs: how often one delivery can be tried.
use spritexai_pay_core.Prelude.{
  ℤ, pos, ◌+ℤ◌, ◌≤ℤ◌, leb_ℤ, int_laws, add64, wrap64_id, ◌*◌, some, ◌≡◌, refl, ◌∙◌, inl, inr,
  String, Bool, true, List, [], ◌∷◌, ◌==◌, eq_refl, arith, Bool-cases, ◌+◌,
}
use spritexai_pay_core.Crates.{Crates}
use spritexai_pay_core.Db.{
  Tables, WebhookDelivery, DeliveryStatus, Env, World, Quiet, first, update,
}
use spritexai_pay_core.Db.Exec.{exec-Quiet}
use spritexai_pay_core.Webhook.Backoff.{backoff_seconds}
use spritexai_pay_core.Webhook.Worker.{
  Outcome, Network, is_success, err_msg, is_pending_delivery, set_delivered, set_failed, reschedule,
  send, after_send, deliver_one,
}
use spritexai_pay_core.Webhook.Worker.Attempts.{Capped, next_fits, room_left}

-- The row that a query finds passes its test, and an update of it is found in its place.
module _ {A : Type 0} (p q : A → Bool) (f : A → A) (same : (x : A) → p (f x) ≡ p x) where
  pub first-passes : (xs : List A) (d : A) → first p xs ≡ some d → p d ≡ true
  first-passes [] d h = absurd (cc h)
  first-passes (x ∷ xs) d h = elim (Bool-cases (p x)) [
    | inl e ↦ let at_x : x ≡ d = ground arith in rw (← at_x) e
    | inr e ↦ first-passes xs d (rw e at h)
  ]

  pub first-update :
      (xs : List A) (d : A)
      → first p xs ≡ some d
      → q d ≡ true
      → first p (update q f xs) ≡ some (f d)
  first-update [] d h hit = absurd (cc h)
  first-update (x ∷ xs) d h hit = elim (Bool-cases (p x)) [
    | inl e ↦
        let at_x : x ≡ d = ground arith in rw at_x (rw hit (rw (same d) (rw (← at_x) (rw e refl))))
    | inr e ↦ elim (Bool-cases (q x)) [
      | inl e' ↦ rw e' (rw (same x) (rw e (first-update xs d (rw e at h) hit)))
      | inr e' ↦ rw e' (rw e (first-update xs d (rw e at h) hit))
    ]
  ]

-- The row of an id, one try after another row.
abbrev pub OneMore : String → WebhookDelivery → Tables → Type 0
OneMore id d db =
    (d' : WebhookDelivery) × (first (λ r. r.id == id) db.webhook_deliveries ≡ some d')
    × (d'.attempts ≡ d.attempts +ℤ pos 1)
    × (d'.max_attempts ≡ d.max_attempts)
    × Capped d'.max_attempts d'

module _ (env : Env) (quiet : Quiet env) (id : String) (d : WebhookDelivery) (v : World)
    (found : first (λ r. r.id == id) v.db.webhook_deliveries ≡ some d)
    (capped : Capped d.max_attempts d) (pending : is_pending_delivery d.status ≡ true) where
  abbrev next : ℤ
  next = add64 d.attempts (pos 1)

  next-exact : next ≡ d.attempts +ℤ pos 1
  unfolding add64
  next-exact =
      let (low, high, fits, room) = capped in
      wrap64_id (d.attempts +ℤ pos 1) (next_fits d.attempts d.max_attempts low (room pending) fits)

  -- A row that is written in place of the delivery.
  written :
      (f : WebhookDelivery → WebhookDelivery)
      → ((r : WebhookDelivery) → ((f r).id == id) ≡ (r.id == id))
      → (f d).attempts ≡ next
      → (f d).max_attempts ≡ d.max_attempts
      → (is_pending_delivery (f d).status ≡ true → next +ℤ pos 1 ≤ℤ d.max_attempts)
      → OneMore id d (record v.db {
        webhook_deliveries = update (λ r. r.id == d.id) f v.db.webhook_deliveries;
      })
  written f same attempts max more =
      let (low, high, fits, room) = capped in
      let below = room pending in
      (
        f d,
        first-update (λ r. r.id == id) (λ r. r.id == d.id) f same v.db.webhook_deliveries d found
            (eq_refl d.id),
        attempts ∙ next-exact,
        max,
        rw (attempts, max)
            (
              rw next-exact (omega int_laws),
              rw next-exact below,
              fits,
              λ p. rw next-exact (rw (← next-exact) (more p)),
            ),
      )

  module _ (crates : Crates) (network : Network) where
    after_send-OneMore : (o : Outcome) → OneMore id d (after_send env crates network d o v).1.db
    unfolding after_send set_delivered set_failed reschedule
    after_send-OneMore o = elim (Bool-cases (is_success o)) [
      | inl won ↦ rw won (
          rw (exec-Quiet env quiet (set_delivered d.id next) v) (
            written
              (λ r. record r {
                status = DeliveryStatus.delivered;
                attempts = next;
                updated_at = env.now v.statements;
              })
              (λ r. refl) refl refl (λ p. absurd (cc p))))
      | inr lost ↦ elim (Bool-cases (leb_ℤ d.max_attempts next)) [
        | inl over ↦
            rw (lost, over)
              (rw (exec-Quiet env quiet (set_failed d.id next (err_msg o)) v) (
                written
                  (λ r. record r {
                    status = DeliveryStatus.failed;
                    attempts = next;
                    last_error = some (err_msg o);
                    updated_at = env.now v.statements;
                  })
                  (λ r. refl) refl refl (λ p. absurd (cc p))))
        | inr left ↦
            rw (lost, left)
              (rw (exec-Quiet env quiet (reschedule d.id next (err_msg o) (backoff_seconds next)) v)
                (written
                  (λ r. record r {
                    attempts = next;
                    last_error = some (err_msg o);
                    next_attempt_at = env.now v.statements + backoff_seconds next * 1000;
                    updated_at = env.now v.statements;
                  })
                  (λ r. refl) refl refl (λ p. room_left next d.max_attempts left)))
      ]
    ]

module _ (crates : Crates) (network : Network) (secret id : String) where
  pub deliver_one-OneMore :
      (env : Env) (quiet : Quiet env) (d : WebhookDelivery) (v : World)
      → first (λ r. r.id == id) v.db.webhook_deliveries ≡ some d
      → Capped d.max_attempts d
      → is_pending_delivery d.status ≡ true
      → OneMore id d (deliver_one env crates network secret d v).1.db
  unfolding deliver_one send
  deliver_one-OneMore env quiet d v found capped pending =
      let (o, v') = send env crates network secret d v in
      after_send-OneMore env quiet id d v' found capped pending crates network o
