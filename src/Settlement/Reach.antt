-- ===== src/Settlement/Reach.antt =====
-- The server of src/http.rs and the worker of src/webhook.rs, run from the empty database in any
-- order: one request or one round of the worker after another.
use spritexai_pay_core.Prelude.{pos, ℤ, ◌+ℤ◌, ℕ, String, ◌≡◌, refl, List, [], ◌∷◌, leb_ℤ, arith}
use spritexai_pay_core.Db.{Tables, WebhookDelivery, Env, World}
use spritexai_pay_core.Db.Triple.{Triple-kept}
use spritexai_pay_core.Charge.Sound.{Sound}
use spritexai_pay_core.Webhook.Backoff.{backoff_seconds}
use spritexai_pay_core.Webhook.Worker.{
  Network, Outcome, is_success, err_msg, set_delivered, set_failed, reschedule, select_due,
  after_send, send, deliver_one, deliver_all, drain_due,
}
use spritexai_pay_core.Prelude.{add64}
use spritexai_pay_core.Stable.{Stable, Framed, Keeps, Keeps-pure, Keeps-bind, Keeps-exec, Keeps-if}
use spritexai_pay_core.Stable.Checkouts.{Saturating}
use spritexai_pay_core.Stable.Routes.{InRangeCall, handle-Keeps_all}
use spritexai_pay_core.Stable.Instances.{Sound-Stable, Sound-Settles}
use spritexai_pay_core.Http.{AppState, Headers}
use spritexai_pay_core.Http.Server.{Outside, Call, handle}

set_delivered-Framed : (id : String) (a : ℤ) → Framed (set_delivered id a)
unfolding set_delivered
set_delivered-Framed id a = record { at = λ t a db v e. ground arith }

set_failed-Framed : (id : String) (a : ℤ) (msg : String) → Framed (set_failed id a msg)
unfolding set_failed
set_failed-Framed id a msg = record { at = λ t a db v e. ground arith }

reschedule-Framed :
    (id : String) (a : ℤ) (msg : String) (delay : ℕ) → Framed (reschedule id a msg delay)
unfolding reschedule
reschedule-Framed id a msg delay = record { at = λ t a db v e. ground arith }

select_due-Framed : Framed select_due
unfolding select_due
select_due-Framed = record { at = λ t a db v e. ground arith }

module _ {P : Tables → Type 0} (S : Stable P) (x : Outside) (env : Env) (network : Network)
    (secret : String) where
  after_send-Keeps :
      (d : WebhookDelivery) (o : Outcome) → Keeps P (after_send env x.crates network d o)
  unfolding after_send
  after_send-Keeps d o =
      let a = add64 d.attempts (pos 1) in
      Keeps-if (is_success o) (Keeps-exec S env _ (set_delivered-Framed d.id a)) (
        Keeps-if (leb_ℤ d.max_attempts a)
          (Keeps-exec S env _ (set_failed-Framed d.id a (err_msg o)))
          (Keeps-exec S env _ (reschedule-Framed d.id a (err_msg o) (backoff_seconds a))))

  deliver_one-Keeps : (d : WebhookDelivery) → Keeps P (deliver_one env x.crates network secret d)
  unfolding deliver_one send
  deliver_one-Keeps d = record {
    at =
        λ w s. let (o, w') = send env x.crates network secret d w in (after_send-Keeps d o).at w' s;
  }

  deliver_all-Keeps :
      (ds : List WebhookDelivery) → Keeps P (deliver_all env x.crates network secret ds)
  unfolding deliver_all
  deliver_all-Keeps [] = Keeps-pure tt
  deliver_all-Keeps (d ∷ ds) = Keeps-bind (deliver_one-Keeps d) (λ u. deliver_all-Keeps ds)

  -- A round of the worker touches no money.
  pub drain_due-Keeps : Keeps P (drain_due env x.crates network secret)
  unfolding drain_due
  drain_due-Keeps = Keeps-bind (Keeps-exec S env _ select_due-Framed) deliver_all-Keeps

-- No charge and no ledger yet.
abbrev pub NoMoney : Tables → Type 0
NoMoney db = (db.charges ≡ []) × (db.ledger_transactions ≡ []) × (db.ledger_entries ≡ [])

-- The worlds that the server and its worker reach, each step with an environment of its own: which
-- statements fail, what the clock and the random ids are, what the network answers.
pub data Reach (x : Outside) (state : AppState) (secret : String) : World → Type 0 where
  start : (w : World) → NoMoney w.db → Reach x state secret w
  serve :
      {w : World} (env : Env) (headers : Headers) (now : ℕ) (call : Call x.float.F)
      → InRangeCall call
      → Reach x state secret w
      → Reach x state secret (handle x env state headers now call w).1
  deliver :
      {w : World} (env : Env) (network : Network)
      → Reach x state secret w
      → Reach x state secret (drain_due env x.crates network secret w).1

Sound-NoMoney : {db : Tables} → NoMoney db → Sound db
unfolding ◌+ℤ◌
Sound-NoMoney h = record {
  amounts = rw (h.0) tt;
  entries = rw (h.2) tt;
  balanced = λ id. rw (h.2) refl;
  mirrored = rw (h.2) refl;
}

-- From an empty database on, after any sequence of requests and of rounds of the delivery worker,
-- whatever fails along the way: every charge has a positive amount, every ledger entry has its
-- transaction, every transaction sums to zero, and the two settlement accounts mirror each other.
-- It is assumed that the cast of a float to an i64 saturates, and that the amounts of the requests
-- for charges are i64s.
pub Reach-Sound :
    (x : Outside) (state : AppState) (secret : String) (w : World)
    → Saturating x.float
    → Reach x state secret w
    → Sound w.db
Reach-Sound x state secret w saturating (start w' h) = Sound-NoMoney h
Reach-Sound x state secret w saturating (serve {w = v} env headers now call range before) =
    Triple-kept v
      (handle-Keeps_all Sound-Stable x saturating env state headers Sound-Settles now call range)
      (Reach-Sound x state secret v saturating before)
Reach-Sound x state secret w saturating (deliver {w = v} env network before) =
    Triple-kept v (drain_due-Keeps Sound-Stable x env network secret)
      (Reach-Sound x state secret v saturating before)
