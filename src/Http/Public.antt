-- ===== src/Http/Public.antt =====
-- src/http.rs: the handlers outside the console, for merchants' sites, customers and phones.
use spritexai_pay_core.Prelude.{ℕ, String, true, false, not, Option, none, some, if◌then◌else◌}
use spritexai_pay_core.Crates.{Crates, Float64}
use spritexai_pay_core.Crypto.{verify}
use spritexai_pay_core.Db.{Result, ok, err, GatewayConfig, Env, pure, throw, no_op, exec}
use spritexai_pay_core.Prelude.{List}
use spritexai_pay_core.Auth.{password_matches, issue_token}
use spritexai_pay_core.Device
use spritexai_pay_core.Sms.{ingest}
use spritexai_pay_core.Ai.{AiOutside}
use spritexai_pay_core.Checkout.{CreateCheckout, CheckoutError, PublicCharge, create_checkout}
use spritexai_pay_core.Checkout
use spritexai_pay_core.PaymentLink
use spritexai_pay_core.Page
use spritexai_pay_core.Http.{
  AppState, Headers, Handler, Response, ApiError, api_error, Body, reply, answer, then_answer,
  db_error, from_ingest, from_checkout, from_link,
}
use spritexai_pay_core.Http.Guards.{resolve_base_url, is_none}

-- The JSON of an inbound SMS.
pub record SmsPayload : Type 0 where
  pub gateway : String
  pub body : String

abbrev pub health_reply : {E A : Type 0} → Result E A → Response
health_reply (ok a) = reply 200 (Body.health "ok" true)
health_reply (err e) = reply 503 (Body.health "degraded" false)

abbrev pub exchange_reply : String → Option String → Result ApiError Response
exchange_reply secret (some device_id) = ok (reply 200 (Body.exchanged device_id secret))
exchange_reply secret none = err (api_error 401 "unknown or revoked pairing token")

-- `checkout_page`'s `match`
abbrev pub page_reply : (PublicCharge → String) → Result CheckoutError PublicCharge → Response
page_reply show (ok view) = reply 200 (Body.html (show view))
page_reply show (err CheckoutError.not_found) = reply 404 (Body.html Page.not_found)
page_reply show (err _) = reply 500 (Body.plain "internal error")

-- `login` behind its test that there is a password.
abbrev pub login_with : Crates → AppState → ℕ → String → String → Handler
login_with crates state now admin password w =
    if password_matches crates state.auth_secret admin password
    then pure (reply 200 (Body.token (issue_token crates now state.auth_secret))) w
    else throw (api_error 401 "invalid password") w

unfoldable pub login : Crates → AppState → ℕ → String → Handler
login crates state now password = elim state.admin_password [
  | none ↦ throw (api_error 404 "auth is not enabled")
  | some admin ↦ login_with crates state now admin password
]

unfoldable pub auth_status : AppState → Handler
auth_status state = pure (reply 200 (Body.auth_required (not (is_none state.admin_password))))

module _ (env : Env) where
  unfoldable pub health : Handler
  health w = let (r, w') = exec env no_op w in (ok (health_reply r), w')

  unfoldable pub exchange_token : Crates → AppState → String → Handler
  exchange_token crates state token =
      then_answer db_error (Device.exchange_token env crates token)
        (exchange_reply state.sms_hmac_secret)

  unfoldable pub checkout_select : String → String → Handler
  checkout_select pay_ref gateway =
      answer from_checkout (Checkout.select_gateway env pay_ref gateway)
        (λ u. reply 200 (Body.done true))

  unfoldable pub checkout_claim : String → String → Option String → Handler
  checkout_claim pay_ref trx_id sender =
      answer from_checkout (Checkout.submit_manual env pay_ref trx_id sender)
        (λ u. reply 200 (Body.done true))

  module _ (by_gateway : List GatewayConfig → List GatewayConfig) where
    unfoldable pub checkout_status : String → Handler
    checkout_status pay_ref =
        answer from_checkout (Checkout.get_public_charge env by_gateway pay_ref)
          (λ view. reply 200 (Body.public_charge view))

    unfoldable pub checkout_page : Float64 → (String → String) → String → Handler
    checkout_page f debug pay_ref w =
        let (r, w') = Checkout.get_public_charge env by_gateway pay_ref w in
        (ok (page_reply (Page.render f debug) r), w')

  module _ (f : Float64) (state : AppState) (headers : Headers) where
    unfoldable pub api_create_checkout : CreateCheckout f.F → Handler
    api_create_checkout req =
        answer from_checkout (create_checkout env f (resolve_base_url state headers) req)
          (λ created. reply 200 (Body.checkout_created created))

    unfoldable pub open_link : String → Handler
    open_link reference =
        answer from_link
          (PaymentLink.open_link env f (resolve_base_url state headers) reference none)
          (λ created. reply 303 (Body.redirect created.sap_url))

    unfoldable pub open_link_amount : String → f.F → Handler
    open_link_amount reference amount =
        answer from_link
          (PaymentLink.open_link env f (resolve_base_url state headers) reference
            (some (f.round_i64 (f.times_hundred amount))))
          (λ created. reply 200 (Body.sap_url created.sap_url))

  unfoldable pub api_verify_payment : Crates → Float64 → String → Handler
  api_verify_payment crates f sap_id =
      answer from_checkout (Checkout.verify env crates f sap_id) (λ v. reply 200 (Body.verified v))

  -- `sms_webhook` behind its checks; `payload_of` is serde_json's reading of the body.
  module _ (crates : Crates) (f : Float64) (o : AiOutside f.F)
      (payload_of : String → Option SmsPayload) where
    abbrev pub accept : Option SmsPayload → Handler
    accept none = throw (api_error 400 "invalid JSON body")
    accept (some payload) =
        answer from_ingest (ingest env crates f o payload.gateway payload.body)
          (λ result. reply 202 (Body.ingested result))

    abbrev pub check_signature : AppState → String → String → Handler
    check_signature state raw sig w =
        if verify crates state.sms_hmac_secret raw sig
        then accept (payload_of raw) w
        else throw (api_error 401 "invalid signature") w

    unfoldable pub sms_webhook : AppState → Headers → String → Handler
    sms_webhook state headers raw = elim (headers "x-signature") [
      | none ↦ throw (api_error 401 "missing signature")
      | some sig ↦ check_signature state raw sig
    ]
