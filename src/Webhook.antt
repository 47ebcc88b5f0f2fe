-- ===== src/Webhook.antt =====
-- src/webhook.rs: the durable queue of merchant callbacks. `enqueue` here; the worker is the child
-- `Worker`, the delay is `Backoff`.
pub mod Backoff
pub mod Worker
use spritexai_pay_core.Prelude.{
  pos, String, Bool, ◌≡◌, none, ◌∷◌, [], ◌++◌, ◌==◌, ◌||◌, if◌then◌else◌,
}
use Prim.Native.String
use spritexai_pay_core.Db.{
  Tables, ChargeRow, WebhookDelivery, DeliveryStatus, Result, ok, err, DbError, unique_violation,
  foreign_key_violation, Env, M, pure, ◌>>=◌, ◌>>◌, Stmt, exec, new_v4, any,
}

unfoldable pub insert_delivery : String → String → String → String → String → Stmt Unit
insert_delivery id charge_id url event payload t db =
    if any (λ r. r.id == id) db.webhook_deliveries
    then err unique_violation
    else if any (λ r. r.id == charge_id) db.charges
    then ok (
      tt,
      record db {
        webhook_deliveries =
            db.webhook_deliveries
            ++ record {
              id = id;
              charge_id = charge_id;
              url = url;
              payload = payload;
              event = event;
              status = DeliveryStatus.pending;
              attempts = pos 0;
              max_attempts = pos 8;
              next_attempt_at = t;
              last_error = none;
              updated_at = t;
            }
              ∷ [];
      },
    )
    else err foreign_key_violation

unfoldable pub enqueue : Env → String → String → String → String → M DbError String
enqueue env charge_id url event payload = do
  uuid ← new_v4 env
  let id = String.◌++◌ "whd_" uuid
  exec env (insert_delivery id charge_id url event payload)
  pure id
