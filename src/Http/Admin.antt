-- ===== src/Http/Admin.antt =====
-- src/http.rs: the handlers of the console for charges, gateways, devices, keys and reports.
use spritexai_pay_core.Prelude.{pos, String, true, Option, none, some, ◌==◌, if◌then◌else◌}
use spritexai_pay_core.Crates.{Crates, Float64}
use spritexai_pay_core.Db.{Result, err, Env, pure, throw}
use spritexai_pay_core.Charge.{CreateCharge}
use spritexai_pay_core.Charge
use spritexai_pay_core.Device.{RegisterGateway}
use spritexai_pay_core.Device
use spritexai_pay_core.Merchant.{CreateApiKey}
use spritexai_pay_core.Merchant
use spritexai_pay_core.Reconcile.{reconcile}
use spritexai_pay_core.Fraud
use spritexai_pay_core.Ai.{AiOutside, Panicking, panics, returns}
use spritexai_pay_core.Ai.Chat.{
  ChatOutside, ChatIntent, RegexSuggestion, suggest_regex, classify_question,
}
use spritexai_pay_core.Http.{
  Handler, Response, ApiError, api_error, aborted, Body, reply, answer, then_answer, affected_or,
  found_or, db_error, from_charge,
}

module _ (env : Env) where
  unfoldable pub create_charge : CreateCharge → Handler
  create_charge req = answer from_charge (Charge.create env req) (λ c. reply 201 (Body.charge c))

  unfoldable pub get_charge : String → Handler
  get_charge id = answer from_charge (Charge.get env id) (λ c. reply 200 (Body.charge c))

  unfoldable pub list_charges : Handler
  list_charges = answer from_charge (Charge.list env (pos 100)) (λ cs. reply 200 (Body.charges cs))

  unfoldable pub register_gateway : RegisterGateway → Handler
  register_gateway req =
      answer db_error (Device.register_gateway env req) (λ g. reply 201 (Body.gateway g))

  unfoldable pub list_gateways : Handler
  list_gateways = answer db_error (Device.list_gateways env) (λ gs. reply 200 (Body.gateways gs))

  unfoldable pub ledger_query : Option String → Handler
  ledger_query gateway =
      answer db_error (reconcile env gateway) (λ r. reply 200 (Body.reconciliation r))

  unfoldable pub list_devices : Handler
  list_devices = answer db_error (Device.list_devices env) (λ ds. reply 200 (Body.devices ds))

  unfoldable pub list_merchant_keys : Handler
  list_merchant_keys = answer db_error (Merchant.list_api_keys env) (λ ks. reply 200 (Body.keys ks))

  unfoldable pub revoke_merchant_key : String → Handler
  revoke_merchant_key id =
      then_answer db_error (Merchant.revoke_api_key env id)
        (affected_or "key not found" (reply 200 (Body.revoked true)))

  module _ (crates : Crates) where
    unfoldable pub pair_device : Option String → Handler
    pair_device label =
        answer db_error (Device.pair_device env crates label) (λ p. reply 201 (Body.paired p))

    unfoldable pub create_merchant_key : CreateApiKey → Handler
    create_merchant_key req =
        answer db_error (Merchant.create_api_key env crates req) (λ k. reply 201 (Body.new_key k))

  module _ (f : Float64) where
    unfoldable pub fraud_scan : Handler
    fraud_scan = answer db_error (Fraud.scan f env) (λ r. reply 200 (Body.fraud r))

    -- The `match` on the intent.
    unfoldable pub answer_intent : ChatIntent → Handler
    answer_intent intent w =
        if intent.intent == "reconcile"
        then answer db_error (reconcile env intent.gateway)
            (λ r. reply 200 (Body.chat_reconciliation r)) w
        else if intent.intent == "fraud"
        then answer db_error (Fraud.scan f env) (λ r. reply 200 (Body.chat_fraud r)) w
        else pure (reply 200 Body.chat_unknown) w

    module _ (o : AiOutside f.F) (chat : ChatOutside) where
      abbrev pub suggestion_reply : Panicking (Option RegexSuggestion) → Result ApiError Response
      suggestion_reply panics = err aborted
      suggestion_reply (returns s) =
          found_or "no recovered drift samples for this gateway (or AI disabled)"
            (λ r. reply 200 (Body.suggestion r)) s

      unfoldable pub regex_suggestion : String → Handler
      regex_suggestion gateway w =
          let (s, w') = suggest_regex chat o env gateway w in (suggestion_reply s, w')

      abbrev pub routed : Panicking (Option ChatIntent) → Handler
      routed panics = throw aborted
      routed (returns none) =
          throw (api_error 503 "reconciliation chat needs an AI provider (set OPENROUTER_API_KEY)")
      routed (returns (some intent)) = answer_intent intent

      unfoldable pub recon_chat : String → Handler
      recon_chat question = routed (classify_question chat o question)
