-- ===== src/Checkout/Hints.antt =====
-- src/checkout.rs: `select_gateway` and `submit_manual`, which a customer can call.
use spritexai_pay_core.Prelude.{◌≡◌, refl, String, Option, none, some, map, arith}
use spritexai_pay_core.Db.{Tables, ChargeRow, Env, World}
use spritexai_pay_core.Db.Lists.{map-update}
use spritexai_pay_core.Db.Exec.{exec_cases}
use spritexai_pay_core.Checkout.{open_ref, set_gateway, set_claim, select_gateway, submit_manual}

-- A charge without what the customer claims about it.
abbrev pub without_hints : ChargeRow → ChargeRow
without_hints r = record r { gateway = none; claimed_trx_id = none; claimed_sender = none }

-- The tables without the customers' hints: what money, statuses and deliveries depend on.
abbrev pub ignoring_hints : Tables → Tables
ignoring_hints db = record db { charges = map without_hints db.charges }

module _ (env : Env) (pay_ref : String) where
  -- A transaction id that a customer enters changes no status, no amount and no other table,
  -- whether the call returns or fails.
  pub submit_manual-ignoring_hints :
      (trx_id : String) (sender : Option String) (w : World)
      → ignoring_hints (submit_manual env pay_ref trx_id sender w).1.db ≡ ignoring_hints w.db
  unfolding submit_manual set_claim
  submit_manual-ignoring_hints trx_id sender w =
      let same =
        map-update without_hints (open_ref pay_ref)
          (λ r. record r { claimed_trx_id = some trx_id; claimed_sender = sender }) w.db.charges
          (λ r. refl) in
      ground (arith, exec_cases env (set_claim pay_ref trx_id sender) w)

  -- The customer's choice of a gateway changes no status, no amount and no other table, whether
  -- the call returns or fails.
  pub select_gateway-ignoring_hints :
      (gateway : String) (w : World)
      → ignoring_hints (select_gateway env pay_ref gateway w).1.db ≡ ignoring_hints w.db
  unfolding select_gateway set_gateway
  select_gateway-ignoring_hints gateway w =
      let same =
        map-update without_hints (open_ref pay_ref) (λ r. record r { gateway = some gateway })
          w.db.charges (λ r. refl) in
      ground (arith, exec_cases env (set_gateway pay_ref gateway) w)
