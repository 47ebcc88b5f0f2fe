-- ===== src/Http/Page.antt =====
-- src/http.rs: `checkout_page`, from the tables to what a browser reads.
use spritexai_pay_core.Prelude.{
  String, Option, none, some, List, ◌≡◌, ◌⊎◌, refl, ◌∙◌, inl, inr, Option-cases,
}
use spritexai_pay_core.Crates.{Float64}
use spritexai_pay_core.Db.{
  ChargeRow, GatewayConfig, ok, err, Env, World, Quiet, exec, first, select, All, M, lift, ok_or,
  map_err, pure, ◌>>=◌,
}
use spritexai_pay_core.Db.Exec.{exec-Quiet, counted, bind_ok, map_err_ok}
use spritexai_pay_core.Checkout.{
  CheckoutError, PublicCharge, Receiver, has_ref, receivers_of, select_by_ref, select_receivers,
  get_public_charge,
}
use spritexai_pay_core.Page
use spritexai_pay_core.Page.{options_of}
use spritexai_pay_core.Page.Browser.{outside, tags}
use spritexai_pay_core.Page.Buttons.{IsTagless, options_tags, tags-options_of}
use spritexai_pay_core.Http.{Body, reply}
use spritexai_pay_core.Http.Public.{checkout_page}

module _ (by_gateway : List GatewayConfig → List GatewayConfig) (pay_ref : String) (w : World) where
  -- The gateways that are switched on.
  abbrev pub receivers : List Receiver
  receivers = receivers_of (by_gateway (select (λ g. g.enabled) w.db.gateway_configs))

  abbrev pub view_of : ChargeRow → PublicCharge
  view_of c = record {
    pay_ref = pay_ref;
    amount_minor = c.amount_minor;
    currency = c.currency;
    status = c.status;
    gateway = c.gateway;
    return_url = c.return_url;
    receivers = receivers;
  }

module _ (env : Env) (quiet : Quiet env) (by_gateway : List GatewayConfig → List GatewayConfig)
    (pay_ref : String) (w : World) where
  abbrev found_row : Option ChargeRow
  found_row = first (has_ref pay_ref) w.db.charges

  -- What `get_public_charge` does with the row that it has read.
  abbrev with_row : Option ChargeRow → M CheckoutError PublicCharge
  with_row row = do
    c ← lift (ok_or row CheckoutError.not_found)
    rs ← map_err CheckoutError.db_error (exec env (select_receivers by_gateway))
    pure (record (view_of by_gateway pay_ref w c) { receivers = rs })

  row_read : get_public_charge env by_gateway pay_ref w ≡ with_row found_row (counted w)
  unfolding get_public_charge select_by_ref
  row_read =
      bind_ok with_row (map_err CheckoutError.db_error (exec env (select_by_ref pay_ref))) w (
        map_err_ok CheckoutError.db_error (exec env (select_by_ref pay_ref)) w
          (exec-Quiet env quiet (select_by_ref pay_ref) w))

  receivers_read :
      map_err CheckoutError.db_error (exec env (select_receivers by_gateway)) (counted w)
      ≡ (ok (receivers by_gateway pay_ref w), counted (counted w))
  unfolding select_receivers
  receivers_read =
      map_err_ok CheckoutError.db_error (exec env (select_receivers by_gateway)) (counted w)
        (exec-Quiet env quiet (select_receivers by_gateway) (counted w))

  public_charge-missing :
      found_row ≡ none
      → get_public_charge env by_gateway pay_ref w ≡ (err CheckoutError.not_found, counted w)
  public_charge-missing gone = row_read ∙ rw gone refl

  public_charge-found :
      (c : ChargeRow)
      → found_row ≡ some c
      → get_public_charge env by_gateway pay_ref w
        ≡ (ok (view_of by_gateway pay_ref w c), counted (counted w))
  public_charge-found c found =
      row_read
      ∙ rw found (
          bind_ok (λ rs. pure (record (view_of by_gateway pay_ref w c) { receivers = rs }))
            (map_err CheckoutError.db_error (exec env (select_receivers by_gateway))) (counted w)
            receivers_read)

-- In a run in which no statement fails, and where no gateway that is switched on has a `<` in its
-- identifier: the page of a pay reference changes no table, and is answered with 404 and the page
-- for an unknown link where no charge has the reference, else with 200 and what `render` makes of
-- the first charge that has it; a browser reads the options of that charge as the buttons of the
-- gateways that are switched on, in the order that the database gives.
pub checkout_page_lem :
    (env : Env) (by_gateway : List GatewayConfig → List GatewayConfig) (f : Float64)
    (debug : String → String) (pay_ref : String) (w : World)
    → Quiet env
    → All IsTagless (receivers by_gateway pay_ref w)
    → ((checkout_page env by_gateway f debug pay_ref w).1.db ≡ w.db)
      × (((first (has_ref pay_ref) w.db.charges ≡ none)
            × ((checkout_page env by_gateway f debug pay_ref w).0
                ≡ ok (reply 404 (Body.html Page.not_found))))
          ⊎ ((c : ChargeRow) × (first (has_ref pay_ref) w.db.charges ≡ some c)
              × ((checkout_page env by_gateway f debug pay_ref w).0
                  ≡ ok (
                      reply 200 (Body.html (Page.render f debug (view_of by_gateway pay_ref w c)))))
              × (tags outside (options_of (view_of by_gateway pay_ref w c).receivers)
                  ≡ options_tags (receivers by_gateway pay_ref w))))
unfolding checkout_page
checkout_page_lem env by_gateway f debug pay_ref w quiet clean =
    elim (Option-cases (first (has_ref pay_ref) w.db.charges)) [
      | inl gone ↦
          rw (public_charge-missing env quiet by_gateway pay_ref w gone) (refl, inl (gone, refl))
      | inr (c, found) ↦
          rw (public_charge-found env quiet by_gateway pay_ref w c found)
            (refl, inr (c, found, refl, tags-options_of (receivers by_gateway pay_ref w) clean))
    ]
