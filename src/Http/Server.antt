-- ===== src/Http/Server.antt =====
-- src/http.rs: the routes. A call is a request that the framework has matched to its route, with
-- its path parameters and its body read.
use spritexai_pay_core.Prelude.{ℕ, String, Option, List}
use spritexai_pay_core.Crates.{Crates, Float64}
use spritexai_pay_core.Db.{GatewayConfig, Env, World}
use spritexai_pay_core.Charge.{CreateCharge}
use spritexai_pay_core.Device.{RegisterGateway}
use spritexai_pay_core.Merchant.{CreateApiKey}
use spritexai_pay_core.Customer.{CreateCustomer}
use spritexai_pay_core.Invoice.Bill.{CreateInvoice}
use spritexai_pay_core.PaymentLink.{CreatePaymentLink}
use spritexai_pay_core.Checkout.{CreateCheckout}
use spritexai_pay_core.Ai.{AiOutside}
use spritexai_pay_core.Ai.Chat.{ChatOutside}
use spritexai_pay_core.Http.{AppState, Headers, Handler, Response, into_response}
use spritexai_pay_core.Http.Guards.{require_auth, require_api_key}
use spritexai_pay_core.Http.Admin
use spritexai_pay_core.Http.Records
use spritexai_pay_core.Http.Public
use spritexai_pay_core.Http.Public.{SmsPayload}

-- All that the server takes from outside but the database.
pub record Outside : Type 1 where
  pub crates : Crates
  pub float : Float64
  pub ai : AiOutside float.F
  pub chat : ChatOutside
  -- SQLite's ORDER BY on the names of gateways
  pub by_gateway : List GatewayConfig → List GatewayConfig
  -- serde_json's reading of the body of an SMS request
  pub payload_of : String → Option SmsPayload
  -- the standard library's `{:?}` of a text
  pub debug : String → String

-- The routes of the console.
pub data AdminCall : Type 0 where
  create_charge : CreateCharge → AdminCall
  get_charge : String → AdminCall
  list_charges list_gateways list_devices list_merchant_keys fraud_scan : AdminCall
  list_customers list_invoices list_links list_domains list_activities list_sms_events : AdminCall
  register_gateway : RegisterGateway → AdminCall
  regex_suggestion : String → AdminCall
  ledger_query : Option String → AdminCall
  recon_chat : String → AdminCall
  pair_device : Option String → AdminCall
  create_merchant_key : CreateApiKey → AdminCall
  revoke_merchant_key : String → AdminCall
  create_customer : CreateCustomer → AdminCall
  get_customer : String → AdminCall
  create_invoice : CreateInvoice → AdminCall
  get_invoice : String → AdminCall
  issue_invoice : String → AdminCall
  create_link : CreatePaymentLink → AdminCall
  create_domain : String → AdminCall
  delete_domain : String → AdminCall
  get_settings : String → AdminCall
  put_setting : String → String → AdminCall

-- The routes of a merchant's site.
pub data MerchantCall (F : Type 0) : Type 0 where
  create_checkout : CreateCheckout F → MerchantCall F
  verify_payment : String → MerchantCall F

-- The routes that no middleware guards.
pub data PublicCall (F : Type 0) : Type 0 where
  health auth_status : PublicCall F
  login : String → PublicCall F
  exchange_token : String → PublicCall F
  sms_webhook : String → PublicCall F
  checkout_page : String → PublicCall F
  checkout_status : String → PublicCall F
  checkout_select : String → String → PublicCall F
  checkout_claim : String → String → Option String → PublicCall F
  open_link : String → PublicCall F
  open_link_amount : String → F → PublicCall F

pub data Call (F : Type 0) : Type 0 where
  console : AdminCall → Call F
  merchant : MerchantCall F → Call F
  unguarded : PublicCall F → Call F

unfoldable pub path_of : {F : Type 0} → MerchantCall F → String
path_of (create_checkout req) = "/api/checkout/redirect"
path_of (verify_payment sap_id) = "/api/verify-payment"

module _ (x : Outside) (env : Env) (state : AppState) (headers : Headers) where
  unfoldable pub admin_handler : AdminCall → Handler
  admin_handler (create_charge req) = Admin.create_charge env req
  admin_handler (get_charge id) = Admin.get_charge env id
  admin_handler list_charges = Admin.list_charges env
  admin_handler list_gateways = Admin.list_gateways env
  admin_handler list_devices = Admin.list_devices env
  admin_handler list_merchant_keys = Admin.list_merchant_keys env
  admin_handler fraud_scan = Admin.fraud_scan env x.float
  admin_handler list_customers = Records.list_customers env
  admin_handler list_invoices = Records.list_invoices env
  admin_handler list_links = Records.list_links env
  admin_handler list_domains = Records.list_domains env
  admin_handler list_activities = Records.list_activities env
  admin_handler list_sms_events = Records.list_sms_events env
  admin_handler (register_gateway req) = Admin.register_gateway env req
  admin_handler (regex_suggestion g) = Admin.regex_suggestion env x.float x.ai x.chat g
  admin_handler (ledger_query gateway) = Admin.ledger_query env gateway
  admin_handler (recon_chat question) = Admin.recon_chat env x.float x.ai x.chat question
  admin_handler (pair_device label) = Admin.pair_device env x.crates label
  admin_handler (create_merchant_key req) = Admin.create_merchant_key env x.crates req
  admin_handler (revoke_merchant_key id) = Admin.revoke_merchant_key env id
  admin_handler (create_customer req) = Records.create_customer env req
  admin_handler (get_customer id) = Records.get_customer env id
  admin_handler (create_invoice req) = Records.create_invoice env req
  admin_handler (get_invoice id) = Records.get_invoice env id
  admin_handler (issue_invoice id) = Records.issue_invoice env x.float state headers id
  admin_handler (create_link req) = Records.create_link env req
  admin_handler (create_domain domain) = Records.create_domain env domain
  admin_handler (delete_domain id) = Records.delete_domain env id
  admin_handler (get_settings group) = Records.get_settings env group
  admin_handler (put_setting key value) = Records.put_setting env key value

  unfoldable pub merchant_handler : MerchantCall x.float.F → Handler
  merchant_handler (create_checkout req) = Public.api_create_checkout env x.float state headers req
  merchant_handler (verify_payment sap_id) = Public.api_verify_payment env x.crates x.float sap_id

  module _ (now : ℕ) where
    unfoldable pub public_handler : PublicCall x.float.F → Handler
    public_handler health = Public.health env
    public_handler auth_status = Public.auth_status state
    public_handler (login password) = Public.login x.crates state now password
    public_handler (exchange_token token) = Public.exchange_token env x.crates state token
    public_handler (sms_webhook raw) =
        Public.sms_webhook env x.crates x.float x.ai x.payload_of state headers raw
    public_handler (checkout_page pay_ref) =
        Public.checkout_page env x.by_gateway x.float x.debug pay_ref
    public_handler (checkout_status pay_ref) = Public.checkout_status env x.by_gateway pay_ref
    public_handler (checkout_select pay_ref gateway) = Public.checkout_select env pay_ref gateway
    public_handler (checkout_claim pay_ref trx_id sender) =
        Public.checkout_claim env pay_ref trx_id sender
    public_handler (open_link reference) = Public.open_link env x.float state headers reference
    public_handler (open_link_amount reference amount) =
        Public.open_link_amount env x.float state headers reference amount

    -- The routers of `serve`, merged.
    unfoldable pub handle : Call x.float.F → Handler
    handle (console call) = require_auth x.crates state headers now (admin_handler call)
    handle (merchant call) =
        require_api_key x.crates state headers env (path_of call) (merchant_handler call)
    handle (unguarded call) = public_handler call

    -- A request from its headers to its answer.
    unfoldable pub answer_call : Call x.float.F → World → Option Response × World
    answer_call call w = let (r, w') = handle call w in (into_response r, w')
