-- ===== src/Stable/Routes.antt =====
-- src/http.rs: the routes outside the console and the guards, for a predicate that the operations
-- keep.
use spritexai_pay_core.Prelude.{ℕ, inl, inr, String, Option, none, some, Option-cases}
use spritexai_pay_core.Crypto.{verify}
use spritexai_pay_core.Auth.{verify_token, password_matches}
use spritexai_pay_core.Db.{Tables, Env, World, err}
use spritexai_pay_core.Db.Triple.{Triple-const, Triple-kept}
use spritexai_pay_core.Merchant.{KeyContext}
use spritexai_pay_core.Stable.{
  Stable, Settles, Keeps, Keeps-pure, Keeps-lift, Keeps-bind, Keeps-map_err, Keeps-exec,
  Keeps-if_at,
}
use spritexai_pay_core.Stable.Operations
use spritexai_pay_core.Stable.Rows
use spritexai_pay_core.Stable.Checkouts.{Saturating}
use spritexai_pay_core.Stable.Checkouts
use spritexai_pay_core.Stable.Links
use spritexai_pay_core.Stable.Ingest.{ingest-Keeps}
use spritexai_pay_core.Stable.Handlers.{then_answer-Keeps, InRange, admin_handler-Keeps}
use spritexai_pay_core.Http.{
  AppState, Headers, Handler, api_error, db_error, from_checkout, from_ingest, from_link,
}
use spritexai_pay_core.Http.Guards.{
  resolve_base_url, presented_key, presented_token, required_scope, is_none, require_auth,
  require_api_key, admitted,
}
use spritexai_pay_core.Http.Public.{SmsPayload, accept, check_signature, login_with}
use spritexai_pay_core.Http.Public
use spritexai_pay_core.Http.Server.{
  Outside, MerchantCall, PublicCall, Call, create_checkout, verify_payment, path_of,
  merchant_handler, public_handler, handle,
}

-- The calls that an `i64` or a float of the request can make.
abbrev pub InRangeCall : {F : Type 0} → Call F → Type 0
InRangeCall (Call.console call) = InRange call
InRangeCall _ = Unit {0}

module _ {P : Tables → Type 0} (S : Stable P) (x : Outside) (saturating : Saturating x.float)
    (env : Env) (state : AppState) (headers : Headers) where
  merchant_handler-Keeps :
      (call : MerchantCall x.float.F) → Keeps P (merchant_handler x env state headers call)
  unfolding merchant_handler Public.api_create_checkout Public.api_verify_payment
  merchant_handler-Keeps (create_checkout req) = then_answer-Keeps from_checkout _ (
      Checkouts.create_checkout-Keeps S env x.float saturating (resolve_base_url state headers) req)
  merchant_handler-Keeps (verify_payment sap_id) =
      then_answer-Keeps from_checkout _ (Checkouts.verify-Keeps S env x.crates x.float sap_id)

  admitted-Keeps :
      {next : Handler} (ctx : Option KeyContext)
      → Keeps P next
      → Keeps P (admitted x.crates state headers next ctx)
  admitted-Keeps none h = Keeps-lift (err (api_error 401 "invalid API key or insufficient scope"))
  admitted-Keeps (some ctx) h = h

  require_api_key-Keeps :
      (path : String) {next : Handler}
      → Keeps P next
      → Keeps P (require_api_key x.crates state headers env path next)
  unfolding require_api_key
  require_api_key-Keeps path h =
      Keeps-bind
        (Keeps-map_err db_error (
          Operations.verify_api_key-Keeps S env x.crates (presented_key headers)
            (required_scope path)))
        (λ ctx. admitted-Keeps ctx h)

  module _ (now : ℕ) where
    require_auth-Keeps :
        {next : Handler} → Keeps P next → Keeps P (require_auth x.crates state headers now next)
    unfolding require_auth
    require_auth-Keeps h = Keeps-if_at (is_none state.admin_password) h (
        Keeps-if_at (verify_token x.crates now state.auth_secret (presented_token headers)) h
          (Keeps-lift (err (api_error 401 "authentication required"))))

    login_with-Keeps :
        (admin password : String) → Keeps P (login_with x.crates state now admin password)
    login_with-Keeps admin password =
        Keeps-if_at (password_matches x.crates state.auth_secret admin password) (Keeps-pure _)
          (Keeps-lift (err (api_error 401 "invalid password")))

    login-Keeps : (password : String) → Keeps P (Public.login x.crates state now password)
    unfolding Public.login
    login-Keeps password = Triple-const λ w s. elim (Option-cases state.admin_password) [
      | inl e ↦ rw (e, Public.login) s
      | inr (admin, e) ↦ rw (e, Public.login) (Triple-kept w (login_with-Keeps admin password) s)
    ]

    page-kept :
        (pay_ref : String) (w : World)
        → P w.db
        → P (Public.checkout_page env x.by_gateway x.float x.debug pay_ref w).1.db
    unfolding Public.checkout_page
    page-kept pay_ref w s =
        Triple-kept w (Checkouts.get_public_charge-Keeps S env x.by_gateway pay_ref) s

    health-kept : (w : World) → P w.db → P (Public.health env w).1.db
    unfolding Public.health
    health-kept w s = Triple-kept w (Keeps-exec S env _ Rows.no_op-Framed) s

    -- What is asked of the SMS endpoint, and of nothing else.
    abbrev pub SmsKept : PublicCall x.float.F → Type 0
    SmsKept (PublicCall.sms_webhook raw) =
        Keeps P (Public.sms_webhook env x.crates x.float x.ai x.payload_of state headers raw)
    SmsKept _ = Unit {0}

    pub public_handler-Keeps :
        (call : PublicCall x.float.F)
        → SmsKept call
        → Keeps P (public_handler x env state headers now call)
    unfolding public_handler Public.auth_status Public.exchange_token Public.checkout_select
        Public.checkout_claim Public.checkout_status Public.open_link Public.open_link_amount
    public_handler-Keeps PublicCall.health sms = Triple-const health-kept
    public_handler-Keeps PublicCall.auth_status sms = Keeps-pure _
    public_handler-Keeps (PublicCall.login password) sms = login-Keeps password
    public_handler-Keeps (PublicCall.exchange_token token) sms =
        then_answer-Keeps db_error _ (Operations.exchange_token-Keeps S env x.crates token)
    public_handler-Keeps (PublicCall.sms_webhook raw) sms = sms
    public_handler-Keeps (PublicCall.checkout_page pay_ref) sms = Triple-const (page-kept pay_ref)
    public_handler-Keeps (PublicCall.checkout_status pay_ref) sms =
        then_answer-Keeps from_checkout _
          (Checkouts.get_public_charge-Keeps S env x.by_gateway pay_ref)
    public_handler-Keeps (PublicCall.checkout_select pay_ref gateway) sms =
        then_answer-Keeps from_checkout _ (Checkouts.select_gateway-Keeps S env pay_ref gateway)
    public_handler-Keeps (PublicCall.checkout_claim pay_ref trx_id sender) sms =
        then_answer-Keeps from_checkout _
          (Checkouts.submit_manual-Keeps S env pay_ref trx_id sender)
    public_handler-Keeps (PublicCall.open_link reference) sms = then_answer-Keeps from_link _ (
        Links.open_link-Keeps S env x.float saturating (resolve_base_url state headers) reference
          none)
    public_handler-Keeps (PublicCall.open_link_amount reference amount) sms =
        then_answer-Keeps from_link _ (
          Links.open_link-Keeps S env x.float saturating (resolve_base_url state headers) reference
            (some (x.float.round_i64 (x.float.times_hundred amount))))

    abbrev pub SmsKeptCall : Call x.float.F → Type 0
    SmsKeptCall (Call.unguarded call) = SmsKept call
    SmsKeptCall _ = Unit {0}

    -- Any request, if the SMS endpoint keeps the predicate.
    pub handle-Keeps :
        (call : Call x.float.F)
        → InRangeCall call
        → SmsKeptCall call
        → Keeps P (handle x env state headers now call)
    unfolding handle
    handle-Keeps (Call.console call) range sms =
        require_auth-Keeps (admin_handler-Keeps S x saturating env state headers call range)
    handle-Keeps (Call.merchant call) range sms =
        require_api_key-Keeps (path_of call) (merchant_handler-Keeps call)
    handle-Keeps (Call.unguarded call) range sms = public_handler-Keeps call sms

  -- The SMS endpoint, where a settlement keeps the predicate.
  module _ (settles : Settles P) where
    accept-Keeps :
        (payload : Option SmsPayload)
        → Keeps P (accept env x.crates x.float x.ai x.payload_of payload)
    accept-Keeps none = Keeps-lift (err (api_error 400 "invalid JSON body"))
    accept-Keeps (some p) =
        then_answer-Keeps from_ingest _
          (ingest-Keeps S settles env x.crates x.float x.ai p.gateway p.body)

    check_signature-Keeps :
        (raw sig : String)
        → Keeps P (check_signature env x.crates x.float x.ai x.payload_of state raw sig)
    check_signature-Keeps raw sig =
        Keeps-if_at (verify x.crates state.sms_hmac_secret raw sig)
          (accept-Keeps (x.payload_of raw)) (Keeps-lift (err (api_error 401 "invalid signature")))

    pub sms_webhook-Keeps :
        (raw : String)
        → Keeps P (Public.sms_webhook env x.crates x.float x.ai x.payload_of state headers raw)
    unfolding Public.sms_webhook
    sms_webhook-Keeps raw = Triple-const λ w s. elim (Option-cases (headers "x-signature")) [
      | inl e ↦ rw (e, Public.sms_webhook) s
      | inr (sig, e) ↦ rw (e, Public.sms_webhook) (Triple-kept w (check_signature-Keeps raw sig) s)
    ]

    sms_kept : (now : ℕ) (call : Call x.float.F) → SmsKeptCall now call
    sms_kept now (Call.unguarded (PublicCall.sms_webhook raw)) = sms_webhook-Keeps raw
    sms_kept now (Call.unguarded _) = tt
    sms_kept now _ = tt

    -- Any request at all.
    pub handle-Keeps_all :
        (now : ℕ) (call : Call x.float.F)
        → InRangeCall call
        → Keeps P (handle x env state headers now call)
    handle-Keeps_all now call range = handle-Keeps now call range (sms_kept now call)
