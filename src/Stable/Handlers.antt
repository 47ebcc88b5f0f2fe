-- ===== src/Stable/Handlers.antt =====
-- src/http.rs: the handlers and the routes, for a predicate that the operations keep.
use spritexai_pay_core.Prelude.{
  pos, InI64, inl, inr, String, Option, none, some, ◌==◌, Option-cases,
}
use spritexai_pay_core.Db.{Tables, Env, World, M, Result, err, exec}
use spritexai_pay_core.Db.Triple.{Triple-const, Triple-kept}
use spritexai_pay_core.Ai.Chat.{
  suggest_regex, select_samples, first_provider, classify_question, ChatIntent,
}
use spritexai_pay_core.Ai.{Panicking, panics, returns, providers_from_env}
use spritexai_pay_core.Stable.{
  Stable, Keeps, Keeps-pure, Keeps-lift, Keeps-bind, Keeps-map_err, Keeps-exec, Keeps-if_at,
}
use spritexai_pay_core.Stable.Rows
use spritexai_pay_core.Stable.Operations
use spritexai_pay_core.Stable.Checkouts.{Saturating}
use spritexai_pay_core.Stable.Checkouts
use spritexai_pay_core.Stable.Links
use spritexai_pay_core.Db.Exec.{Result-cases}
use spritexai_pay_core.Charge.{ChargeError}
use spritexai_pay_core.Charge
use spritexai_pay_core.Invoice.Bill.{InvoiceError}
use spritexai_pay_core.Invoice.Bill
use spritexai_pay_core.PaymentLink.{LinkError}
use spritexai_pay_core.PaymentLink
use spritexai_pay_core.Customer
use spritexai_pay_core.Domain
use spritexai_pay_core.Device
use spritexai_pay_core.Merchant
use spritexai_pay_core.Settings
use spritexai_pay_core.Activity
use spritexai_pay_core.Sms
use spritexai_pay_core.Http.{
  AppState, Headers, Response, ApiError, api_error, aborted, then_answer, from_charge, db_error,
  from_invoice, from_link,
}
use spritexai_pay_core.Http.Guards.{resolve_base_url}
use spritexai_pay_core.Http.Server.{Outside, AdminCall, admin_handler}
use spritexai_pay_core.Http.Admin
use spritexai_pay_core.Http.Records

module _ {P : Tables → Type 0} where
  pub then_answer-Keeps :
      {E A : Type 0} (g : E → ApiError) {m : M E A} (k : A → Result ApiError Response)
      → Keeps P m
      → Keeps P (then_answer g m k)
  unfolding then_answer
  then_answer-Keeps g k h = Keeps-bind (Keeps-map_err g h) (λ a. Keeps-lift (k a))

-- The amount of a request for a charge is an `i64`.
abbrev pub InRange : AdminCall → Type 0
InRange (AdminCall.create_charge req) = InI64 req.amount_minor
InRange _ = Unit {0}

module _ {P : Tables → Type 0} (S : Stable P) (x : Outside) (saturating : Saturating x.float)
    (env : Env) where
  samples-Keeps : (gateway : String) → Keeps P (exec env (select_samples x.chat gateway))
  samples-Keeps gateway = Keeps-exec S env _ (Rows.select_samples-Framed x.chat gateway)

  suggest_regex-kept :
      (gateway : String) (w : World) → P w.db → P (suggest_regex x.chat x.ai env gateway w).1.db
  unfolding suggest_regex
  suggest_regex-kept gateway w s =
      elim (Option-cases (first_provider (providers_from_env x.ai.var))) [
        | inl e ↦ rw (e, suggest_regex) s
        | inr (p, e) ↦
            rw (e, suggest_regex)
              (elim (Result-cases (exec env (select_samples x.chat gateway) w).0) [
                | inl (ss, q) ↦ rw q (Triple-kept w (samples-Keeps gateway) s)
                | inr (z, q) ↦ rw q (Triple-kept w (samples-Keeps gateway) s)
              ])
      ]

  answer_intent-Keeps : (i : ChatIntent) → Keeps P (Admin.answer_intent env x.float i)
  unfolding Admin.answer_intent
  answer_intent-Keeps i =
      Keeps-if_at (i.intent == "reconcile")
        (then_answer-Keeps db_error _ (Operations.reconcile-Keeps S env i.gateway))
        (Keeps-if_at (i.intent == "fraud")
          (then_answer-Keeps db_error _ (Operations.scan-Keeps S env x.float)) (Keeps-pure _))

  module _ (state : AppState) (headers : Headers) where
    regex_suggestion-Keeps :
        (gateway : String) → Keeps P (Admin.regex_suggestion env x.float x.ai x.chat gateway)
    unfolding Admin.regex_suggestion
    regex_suggestion-Keeps gateway = Triple-const (suggest_regex-kept gateway)

    routed-Keeps :
        (i : Panicking (Option ChatIntent)) → Keeps P (Admin.routed env x.float x.ai x.chat i)
    routed-Keeps panics = Keeps-lift (err aborted)
    routed-Keeps (returns none) =
        Keeps-lift
          (err (api_error 503 "reconciliation chat needs an AI provider (set OPENROUTER_API_KEY)"))
    routed-Keeps (returns (some i)) = answer_intent-Keeps i

    recon_chat-Keeps :
        (question : String) → Keeps P (Admin.recon_chat env x.float x.ai x.chat question)
    unfolding Admin.recon_chat
    recon_chat-Keeps question = routed-Keeps (classify_question x.chat x.ai question)

    pub admin_handler-Keeps :
        (call : AdminCall) → InRange call → Keeps P (admin_handler x env state headers call)
    unfolding admin_handler Admin.create_charge Admin.get_charge Admin.list_charges Charge.list
        Admin.list_gateways Device.list_gateways Admin.list_devices Device.list_devices
        Admin.list_merchant_keys Merchant.list_api_keys Admin.fraud_scan Records.list_customers
        Customer.list Records.list_invoices Bill.list Records.list_links PaymentLink.list
        Records.list_domains Domain.list Records.list_activities Activity.list
        Records.list_sms_events Sms.list_events Admin.register_gateway Admin.ledger_query
        Admin.pair_device Admin.create_merchant_key Admin.revoke_merchant_key
        Merchant.revoke_api_key Records.create_customer Records.get_customer Customer.get
        Records.create_invoice Records.get_invoice Records.issue_invoice Records.create_link
        Records.create_domain Records.delete_domain Domain.delete Records.get_settings
        Settings.get_group Records.put_setting Settings.set
    admin_handler-Keeps (AdminCall.create_charge req) range =
        then_answer-Keeps from_charge _ (Checkouts.create_charge-Keeps S env req range)
    admin_handler-Keeps (AdminCall.get_charge id) range =
        then_answer-Keeps from_charge _ (Checkouts.get_charge-Keeps S env id)
    admin_handler-Keeps AdminCall.list_charges range = then_answer-Keeps from_charge _ (
        Keeps-map_err ChargeError.db_error
          (Keeps-exec S env _ (Rows.select_charges-Framed (pos 100))))
    admin_handler-Keeps AdminCall.list_gateways range =
        then_answer-Keeps db_error _ (Keeps-exec S env _ Rows.select_gateways-Framed)
    admin_handler-Keeps AdminCall.list_devices range =
        then_answer-Keeps db_error _ (Keeps-exec S env _ Rows.select_devices-Framed)
    admin_handler-Keeps AdminCall.list_merchant_keys range =
        then_answer-Keeps db_error _ (Keeps-exec S env _ Rows.select_keys-Framed)
    admin_handler-Keeps AdminCall.fraud_scan range =
        then_answer-Keeps db_error _ (Operations.scan-Keeps S env x.float)
    admin_handler-Keeps AdminCall.list_customers range =
        then_answer-Keeps db_error _ (Keeps-exec S env _ (Rows.select_customers-Framed (pos 100)))
    admin_handler-Keeps AdminCall.list_invoices range = then_answer-Keeps from_invoice _ (
        Keeps-map_err InvoiceError.db_error
          (Keeps-exec S env _ (Rows.select_invoices-Framed (pos 100))))
    admin_handler-Keeps AdminCall.list_links range =
        then_answer-Keeps from_link _ (
          Keeps-map_err LinkError.db_error
            (Keeps-exec S env _ (Rows.select_links-Framed (pos 100))))
    admin_handler-Keeps AdminCall.list_domains range =
        then_answer-Keeps db_error _ (Keeps-exec S env _ Rows.select_domains-Framed)
    admin_handler-Keeps AdminCall.list_activities range =
        then_answer-Keeps db_error _ (Keeps-exec S env _ (Rows.select_activities-Framed (pos 100)))
    admin_handler-Keeps AdminCall.list_sms_events range =
        then_answer-Keeps db_error _ (Keeps-exec S env _ (Rows.select_events-Framed (pos 100)))
    admin_handler-Keeps (AdminCall.register_gateway req) range =
        then_answer-Keeps db_error _ (Operations.register_gateway-Keeps S env req)
    admin_handler-Keeps (AdminCall.regex_suggestion g) range = regex_suggestion-Keeps g
    admin_handler-Keeps (AdminCall.ledger_query g) range =
        then_answer-Keeps db_error _ (Operations.reconcile-Keeps S env g)
    admin_handler-Keeps (AdminCall.recon_chat q) range = recon_chat-Keeps q
    admin_handler-Keeps (AdminCall.pair_device label) range =
        then_answer-Keeps db_error _ (Operations.pair_device-Keeps S env x.crates label)
    admin_handler-Keeps (AdminCall.create_merchant_key req) range =
        then_answer-Keeps db_error _ (Operations.create_api_key-Keeps S env x.crates req)
    admin_handler-Keeps (AdminCall.revoke_merchant_key id) range =
        then_answer-Keeps db_error _ (Keeps-exec S env _ (Rows.set_revoked-Framed id))
    admin_handler-Keeps (AdminCall.create_customer req) range =
        then_answer-Keeps db_error _ (Operations.create_customer-Keeps S env req)
    admin_handler-Keeps (AdminCall.get_customer id) range =
        then_answer-Keeps db_error _ (Keeps-exec S env _ (Rows.select_customer-Framed id))
    admin_handler-Keeps (AdminCall.create_invoice req) range =
        then_answer-Keeps from_invoice _ (Links.create_invoice-Keeps S env req)
    admin_handler-Keeps (AdminCall.get_invoice id) range =
        then_answer-Keeps from_invoice _ (Links.get_invoice-Keeps S env id)
    admin_handler-Keeps (AdminCall.issue_invoice id) range =
        then_answer-Keeps from_invoice _
          (Links.issue_payment-Keeps S env x.float saturating (resolve_base_url state headers) id)
    admin_handler-Keeps (AdminCall.create_link req) range =
        then_answer-Keeps from_link _ (Links.create_link-Keeps S env req)
    admin_handler-Keeps (AdminCall.create_domain d) range =
        then_answer-Keeps db_error _ (Operations.create_domain-Keeps S env d)
    admin_handler-Keeps (AdminCall.delete_domain id) range =
        then_answer-Keeps db_error _ (Keeps-exec S env _ (Rows.delete_domain-Framed id))
    admin_handler-Keeps (AdminCall.get_settings g) range =
        then_answer-Keeps db_error _ (Keeps-exec S env _ (Rows.select_group-Framed g))
    admin_handler-Keeps (AdminCall.put_setting k v) range =
        then_answer-Keeps db_error _ (Keeps-exec S env _ (Rows.upsert-Framed k v))
