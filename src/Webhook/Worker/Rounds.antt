-- ===== src/Webhook/Worker/Rounds.antt =====
-- src/webhook.rs: how often a delivery is tried over the rounds of the worker.
use spritexai_pay_core.Prelude.{
  ℤ, pos, ◌+ℤ◌, ◌≤ℤ◌, leb_ℤ, int_laws, add64, ℕ, suc, ◌+◌, ◌≤◌, some, ◌≡◌, refl, ◌∙◌, ap, inl, inr,
  String, true, false, List, [], ◌∷◌, ◌==◌, eq_iff, arith, Bool-cases, if◌then◌else◌,
}
use spritexai_pay_core.Crates.{Crates}
use spritexai_pay_core.Db.{
  Tables, WebhookDelivery, Env, World, SentRequest, Quiet, All, first, update, count, ok, exec,
}
use spritexai_pay_core.Db.Exec.{exec-Quiet, bind_cases, bind_ok}
use spritexai_pay_core.Webhook.Backoff.{backoff_seconds}
use spritexai_pay_core.Webhook.Worker.{
  Outcome, Network, is_success, err_msg, is_pending_delivery, set_delivered, set_failed, reschedule,
  send, after_send, deliver_one, deliver_all, drain_due, select_due,
}
use spritexai_pay_core.Webhook.Worker.Attempts.{Capped}
use spritexai_pay_core.Webhook.Worker.Tries.{deliver_one-OneMore, first-passes}
use spritexai_pay_core.Webhook.Worker.Due.{
  of_id, OnlyDue, due, due-OnlyDue, count-due, count-update, first-update_other,
}

-- The number of requests that have been sent for a delivery.
abbrev pub tries : String → World → ℕ
tries id w = count (λ (s : SentRequest). s.delivery == id) w.sent

-- What the UPDATE of a delivery does to the tables.
abbrev Updated : WebhookDelivery → Tables → Tables → Type 0
Updated d before after =
    (f : WebhookDelivery → WebhookDelivery) × ((r : WebhookDelivery) → (f r).id ≡ r.id)
    × (after ≡ record before {
      webhook_deliveries = update (λ r. r.id == d.id) f before.webhook_deliveries;
    })

module _ (env : Env) (quiet : Quiet env) (crates : Crates) (network : Network) where
  after_send-Updated :
      (d : WebhookDelivery) (o : Outcome) (v : World)
      → Updated d v.db (after_send env crates network d o v).1.db
        × ((after_send env crates network d o v).1.sent ≡ v.sent)
  unfolding after_send set_delivered set_failed reschedule
  after_send-Updated d o v =
      let next = add64 d.attempts (pos 1) in
      elim (Bool-cases (is_success o)) [
        | inl won ↦
            rw won
              (rw (exec-Quiet env quiet (set_delivered d.id next) v) ((_, λ r. refl, refl), refl))
        | inr lost ↦ elim (Bool-cases (leb_ℤ d.max_attempts next)) [
          | inl over ↦
              rw (lost, over)
                (rw (exec-Quiet env quiet (set_failed d.id next (err_msg o)) v)
                  ((_, λ r. refl, refl), refl))
          | inr left ↦
              rw (lost, left)
                (rw
                  (exec-Quiet env quiet (reschedule d.id next (err_msg o) (backoff_seconds next)) v)
                  ((_, λ r. refl, refl), refl))
        ]
      ]

  -- One delivery: one request of its id, and one update of its rows.
  deliver_one-Updated :
      (secret : String) (d : WebhookDelivery) (v : World)
      → Updated d v.db (deliver_one env crates network secret d v).1.db
        × ((id : String)
            → tries id (deliver_one env crates network secret d v).1
              ≡ (if d.id == id then 1 else 0) + tries id v)
  unfolding deliver_one send
  deliver_one-Updated secret d v =
      let (o, v') = send env crates network secret d v in
      let (made, same) = after_send-Updated d o v' in
      (made, λ id. ap (count (λ (s : SentRequest). s.delivery == id)) same)

-- The row of an id in a world, after the tries of it that the world has seen beyond a number.
abbrev Stands : String → WebhookDelivery → ℕ → WebhookDelivery → World → Type 0
Stands id d0 base d v =
    (first (of_id id) v.db.webhook_deliveries ≡ some d)
    × (d.attempts +ℤ pos base ≡ d0.attempts +ℤ pos (tries id v))
    × (d.max_attempts ≡ d0.max_attempts)
    × Capped d.max_attempts d
    × (count (of_id id) v.db.webhook_deliveries ≤ 1)

one_more : (a b : ℤ) (n m : ℕ) → a +ℤ pos n ≡ b +ℤ pos m → a +ℤ pos 1 +ℤ pos n ≡ b +ℤ pos (suc m)
one_more a b n m h =
    let left : a +ℤ pos 1 +ℤ pos n ≡ a +ℤ pos n +ℤ pos 1 = omega int_laws in
    let right : b +ℤ pos m +ℤ pos 1 ≡ b +ℤ pos (suc m) = omega int_laws in left ∙ (rw h right)

-- One row of the id at most, before and after an update.
count-Updated :
    (id : String) (e : WebhookDelivery) (before after : Tables)
    → Updated e before after
    → count (of_id id) after.webhook_deliveries ≡ count (of_id id) before.webhook_deliveries
count-Updated id e before after (f, same, made) = rw made (
    count-update (of_id id) (of_id e.id) f before.webhook_deliveries
      (λ r. ap (λ x. x == id) (same r)))

-- An update of another id leaves the row.
first-Updated :
    (id : String) (e : WebhookDelivery) (before after : Tables)
    → (e.id == id) ≡ false
    → Updated e before after
    → first (of_id id) after.webhook_deliveries ≡ first (of_id id) before.webhook_deliveries
first-Updated id e before after other (f, same, made) = rw made (
    first-update_other (of_id id) (of_id e.id) f before.webhook_deliveries (λ r hit.
      let there : r.id ≡ e.id = (eq_iff r.id e.id).0 hit in
      let was : (r.id == id) ≡ false = rw there other in (was, rw (same r) was)))

module _ (env : Env) (quiet : Quiet env) (crates : Crates) (network : Network) (secret id : String)
    (d0 : WebhookDelivery) (base : ℕ) where
  abbrev delivered_to : WebhookDelivery → World → World
  delivered_to e v = (deliver_one env crates network secret e v).1

  other-Stands :
      (e d : WebhookDelivery) (v : World)
      → (e.id == id) ≡ false
      → Stands id d0 base d v
      → Stands id d0 base d (delivered_to e v)
  other-Stands e d v other (found, counted, max, capped, few) =
      let (made, tried) = deliver_one-Updated env quiet crates network secret e v in
      let same : tries id (delivered_to e v) ≡ tries id v = tried id ∙ rw other (omega arith) in
      (
        first-Updated id e v.db (delivered_to e v).db other made ∙ found,
        rw same counted,
        max,
        capped,
        rw (count-Updated id e v.db (delivered_to e v).db made) few,
      )

  own-Stands :
      (d : WebhookDelivery) (v : World)
      → is_pending_delivery d.status ≡ true
      → Stands id d0 base d v
      → (d' : WebhookDelivery) × Stands id d0 base d' (delivered_to d v)
  own-Stands d v pending (found, counted, max, capped, few) =
      let (made, tried) = deliver_one-Updated env quiet crates network secret d v in
      let own : (d.id == id) ≡ true =
        first-passes (of_id id) (of_id id) (λ x. x) (λ x. refl) v.db.webhook_deliveries d found in
      let more : tries id (delivered_to d v) ≡ suc (tries id v) = tried id ∙ rw own (omega arith) in
      let (d', found', next, max', capped') =
        deliver_one-OneMore crates network secret id env quiet d v found capped pending in
      (
        d',
        (
          found',
          rw more (rw next (one_more d.attempts d0.attempts base (tries id v) counted)),
          max' ∙ max,
          capped',
          rw (count-Updated id d v.db (delivered_to d v).db made) few,
        ),
      )

  -- Deliveries of other ids leave the row and its tries.
  others-Stands :
      (es : List WebhookDelivery) (d : WebhookDelivery) (v : World)
      → count (of_id id) es ≡ 0
      → Stands id d0 base d v
      → Stands id d0 base d (deliver_all env crates network secret es v).1
  unfolding deliver_all
  others-Stands [] d v absent h = h
  others-Stands (e ∷ es) d v absent h =
      let step = other-Stands e d v (ground arith) h in
      elim (bind_cases (λ _. deliver_all env crates network secret es)
        (deliver_one env crates network secret e) v) [
          | inl (x, q, p) ↦ rw p step
          | inr (u, q, p) ↦ rw p (others-Stands es d (delivered_to e v) (ground arith) step)
        ]

  round-Stands :
      (es : List WebhookDelivery) (d : WebhookDelivery) (v : World)
      → All (OnlyDue id d) es
      → count (of_id id) es ≤ 1
      → Stands id d0 base d v
      → (d' : WebhookDelivery) × Stands id d0 base d' (deliver_all env crates network secret es v).1
  unfolding deliver_all
  round-Stands [] d v only few h = (d, h)
  round-Stands (e ∷ es) d v only few h =
      let rest = λ (_ : Unit {0}). deliver_all env crates network secret es in
      elim (Bool-cases (e.id == id)) [
        | inl own ↦
            let (same, pending) = only.0 own in
            let (d', step) = own-Stands d v (rw (← same) pending) h in
            let step' : Stands id d0 base d' (delivered_to e v) = rw same step in
            elim (bind_cases rest (deliver_one env crates network secret e) v) [
              | inl (x, q, p) ↦ (d', rw p step')
              | inr (u, q, p) ↦
                  (d', rw p (others-Stands es d' (delivered_to e v) (ground arith) step'))
            ]
        | inr other ↦
            let step = other-Stands e d v other h in
            elim (bind_cases rest (deliver_one env crates network secret e) v) [
              | inl (x, q, p) ↦ (d, rw p step)
              | inr (u, q, p) ↦
                  let (d', after) =
                    round-Stands es d (delivered_to e v) only.1 (ground arith) step in
                  (d', rw p after)
            ]
      ]

  drain_due-Stands :
      (d : WebhookDelivery) (v : World)
      → Stands id d0 base d v
      → (d' : WebhookDelivery) × Stands id d0 base d' (drain_due env crates network secret v).1
  unfolding drain_due select_due
  drain_due-Stands d v h =
      let (found, counted, max, capped, few) = h in
      let t = env.now v.statements in
      let rows = v.db.webhook_deliveries in
      let fewer : count (of_id id) (due t rows) ≤ 1 =
        let at_most = count-due id t rows in omega arith in
      let ran : exec env select_due v
          ≡ (ok (due t rows), record v { statements = suc v.statements }) =
        exec-Quiet env quiet select_due v in
      rw (bind_ok (deliver_all env crates network secret) (exec env select_due) v ran) (
        round-Stands (due t rows) d (record v { statements = suc v.statements })
          (due-OnlyDue id d t rows found few) fewer h)

-- Anything else that happens to the system: it leaves the first row of the id, the number of such
-- rows and the requests that were sent for it as they were, and is free in all else.
abbrev pub Elsewhere : String → World → World → Type 0
Elsewhere id v u =
    (first (of_id id) u.db.webhook_deliveries ≡ first (of_id id) v.db.webhook_deliveries)
    × (count (of_id id) u.db.webhook_deliveries ≡ count (of_id id) v.db.webhook_deliveries)
    × (tries id u ≡ tries id v)

-- Rounds of the worker, each with an environment in which no statement fails and a network of its
-- own, and anything between them that leaves the delivery alone.
pub data Rounds (crates : Crates) (secret id : String) (w : World) : World → Type 0 where
  begin : Rounds crates secret id w w
  round :
      {v : World} (env : Env) (network : Network)
      → Rounds crates secret id w v
      → Quiet env
      → Rounds crates secret id w (drain_due env crates network secret v).1
  between :
      {v : World} (u : World)
      → Rounds crates secret id w v
      → Elsewhere id v u
      → Rounds crates secret id w u

Rounds-Stands :
    (crates : Crates) (secret id : String) (d0 : WebhookDelivery) (w v : World)
    → first (of_id id) w.db.webhook_deliveries ≡ some d0
    → count (of_id id) w.db.webhook_deliveries ≤ 1
    → Capped d0.max_attempts d0
    → Rounds crates secret id w v
    → (d : WebhookDelivery) × Stands id d0 (tries id w) d v
Rounds-Stands crates secret id d0 w v found few capped begin =
    (d0, (found, refl, refl, capped, few))
Rounds-Stands crates secret id d0 w v found few capped (round {v = u} env network before quiet) =
    let (d, h) = Rounds-Stands crates secret id d0 w u found few capped before in
    drain_due-Stands env quiet crates network secret id d0 (tries id w) d u h
Rounds-Stands crates secret id d0 w v found few capped
      (between {v = u} _ before (row, rows, sent)) =
    let (d, (at_d, counted, max, held, unique)) =
      Rounds-Stands crates secret id d0 w u found few capped before in
    (d, (row ∙ at_d, rw sent counted, max, held, rw rows unique))

-- However many rounds the worker makes in which no statement fails, whatever the network answers,
-- and whatever else stands in the queue or happens between the rounds without touching the
-- delivery: the attempts that the row of a delivery starts with and the requests that are sent for
-- it from then on are together at most its cap.
pub Rounds-end :
    (crates : Crates) (secret id : String) (d0 : WebhookDelivery) (w v : World)
    → first (of_id id) w.db.webhook_deliveries ≡ some d0
    → count (of_id id) w.db.webhook_deliveries ≤ 1
    → Capped d0.max_attempts d0
    → Rounds crates secret id w v
    → d0.attempts +ℤ pos (tries id v) ≤ℤ d0.max_attempts +ℤ pos (tries id w)
Rounds-end crates secret id d0 w v found few capped rounds =
    let (d, (at_d, counted, max, (low, high, fits, room), unique)) =
      Rounds-Stands crates secret id d0 w v found few capped rounds in
    rw (← counted) (rw (← max) (omega int_laws))
