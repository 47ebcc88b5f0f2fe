-- ===== src/Webhook/Worker.antt =====
-- The delivery worker of src/webhook.rs: one round of the poll, and one delivery.
pub mod Attempts
pub mod Tries
pub mod Due
pub mod Rounds
use Prim.Native.String
use spritexai_pay_core.Prelude.{
  ℤ, pos, ℕ, zero, suc, ◌+◌, ◌*◌, String, Bool, true, false, leb, leb_ℤ, add64, ◌&&◌, Option, none,
  some, List, [], ◌∷◌, ◌++◌, ◌==◌, if◌then◌else◌,
}
use spritexai_pay_core.Crates.{Crates}
use spritexai_pay_core.Crypto.{sign}
use spritexai_pay_core.Db.{
  Tables, WebhookDelivery, DeliveryStatus, Result, ok, err, DbError, Env, World, SentRequest, M,
  pure, ◌>>=◌, ◌>>◌, Stmt, exec, select, update,
}
use spritexai_pay_core.Webhook.Backoff.{backoff_seconds}

-- What `client.post(..).send()` gives: a response, with whether its status is a success and the
-- text of the status, or an error with its text.
pub data Outcome : Type 0 where
  response : Bool → String → Outcome
  failure : String → Outcome

-- The network: the answer to the n-th request of the process.
abbrev pub Network : Type 0
Network = ℕ → Outcome

-- `matches!(&outcome, Ok(r) if r.status().is_success())`
abbrev pub is_success : Outcome → Bool
is_success (response success status) = success
is_success (failure e) = false

abbrev pub err_msg : Outcome → String
err_msg (response success status) = String.◌++◌ "http " status
err_msg (failure e) = e

abbrev pub is_pending_delivery : DeliveryStatus → Bool
is_pending_delivery DeliveryStatus.pending = true
is_pending_delivery _ = false

unfoldable pub set_delivered : String → ℤ → Stmt Unit
set_delivered id attempts t db = ok (
  tt,
  record db {
    webhook_deliveries =
        update (λ r. r.id == id)
          (λ r. record r { status = DeliveryStatus.delivered; attempts = attempts; updated_at = t })
          db.webhook_deliveries;
  },
)

unfoldable pub set_failed : String → ℤ → String → Stmt Unit
set_failed id attempts msg t db = ok (
  tt,
  record db {
    webhook_deliveries =
        update (λ r. r.id == id)
          (λ r. record r {
            status = DeliveryStatus.failed;
            attempts = attempts;
            last_error = some msg;
            updated_at = t;
          })
          db.webhook_deliveries;
  },
)

unfoldable pub reschedule : String → ℤ → String → ℕ → Stmt Unit
reschedule id attempts msg delay t db = ok (
  tt,
  record db {
    webhook_deliveries =
        update (λ r. r.id == id)
          (λ r. record r {
            attempts = attempts;
            last_error = some msg;
            next_attempt_at = t + delay * 1000;
            updated_at = t;
          })
          db.webhook_deliveries;
  },
)

-- A row goes before those that are due later; rows due together keep their order.
abbrev pub insert_due : WebhookDelivery → List WebhookDelivery → List WebhookDelivery
insert_due d [] = d ∷ []
insert_due d (e ∷ es) =
    if leb d.next_attempt_at e.next_attempt_at then d ∷ e ∷ es else e ∷ insert_due d es

abbrev pub order_due : List WebhookDelivery → List WebhookDelivery
order_due [] = []
order_due (d ∷ ds) = insert_due d (order_due ds)

abbrev pub limit : {A : Type 0} → ℕ → List A → List A
limit zero xs = []
limit (suc n) [] = []
limit (suc n) (x ∷ xs) = x ∷ limit n xs

abbrev pub is_due : ℕ → WebhookDelivery → Bool
is_due t r = is_pending_delivery r.status && leb r.next_attempt_at t

unfoldable pub select_due : Stmt (List WebhookDelivery)
select_due t db = ok (limit 20 (order_due (select (is_due t) db.webhook_deliveries)), db)

module _ (env : Env) (crates : Crates) (network : Network) where
  abbrev length_sent : List SentRequest → ℕ
  length_sent [] = 0
  length_sent (s ∷ ss) = suc (length_sent ss)

  -- The POST of a delivery, logged with its answer.
  unfoldable pub send : String → WebhookDelivery → World → Outcome × World
  send secret d w =
      let outcome = network (length_sent w.sent) in
      (
        outcome,
        record w {
          sent =
              record {
                url = d.url;
                signature = sign crates secret d.payload;
                delivery = d.id;
                body = d.payload;
                success = is_success outcome;
              }
              ∷ w.sent;
        },
      )

  -- What follows the POST.
  unfoldable pub after_send : WebhookDelivery → Outcome → M DbError Unit
  after_send d outcome =
      let attempts = add64 d.attempts (pos 1) in
      if is_success outcome
      then exec env (set_delivered d.id attempts)
      else if leb_ℤ d.max_attempts attempts
      then exec env (set_failed d.id attempts (err_msg outcome))
      else exec env (reschedule d.id attempts (err_msg outcome) (backoff_seconds attempts))

  unfoldable pub deliver_one : String → WebhookDelivery → M DbError Unit
  deliver_one secret d w = let (outcome, w') = send secret d w in after_send d outcome w'

  unfoldable pub deliver_all : String → List WebhookDelivery → M DbError Unit
  deliver_all secret [] = pure tt
  deliver_all secret (d ∷ ds) = deliver_one secret d >> deliver_all secret ds

  unfoldable pub drain_due : String → M DbError Unit
  drain_due secret = do due ← exec env select_due; deliver_all secret due
