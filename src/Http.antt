-- ===== src/Http.antt =====
-- src/http.rs: the state of the server, its requests' headers, its answers, and how the errors of
-- the domain modules become answers. The children are the guards, the handlers and the routes.
pub mod Guards
pub mod Admin
pub mod Records
pub mod Public
pub mod Server
pub mod Login
pub mod Keys
pub mod Exchange
pub mod Page
use spritexai_pay_core.Prelude.{
  ℕ, eqb, String, Bool, true, false, Option, none, some, List, if◌then◌else◌,
}
use Prim.Native.String
use spritexai_pay_core.Db.{
  Result, ok, err, DbError, World, M, map_err, lift, ◌>>=◌, GatewayConfig, AllowedDomain, Invoice,
  PaymentLink, Customer, Activity,
}
use spritexai_pay_core.Charge.{Charge, ChargeError}
use spritexai_pay_core.Charge
use spritexai_pay_core.Gateway.{ParseError, no_match, bad_amount}
use spritexai_pay_core.Sms.{IngestError, Ingested, SmsEventView}
use spritexai_pay_core.Sms
use spritexai_pay_core.Checkout.{CheckoutError, CheckoutCreated, VerifyResult, PublicCharge}
use spritexai_pay_core.Checkout
use spritexai_pay_core.Invoice.Bill.{InvoiceError}
use spritexai_pay_core.Invoice.Bill
use spritexai_pay_core.PaymentLink.{LinkError}
use spritexai_pay_core.PaymentLink
use spritexai_pay_core.Merchant.{NewApiKey, ApiKeyRow}
use spritexai_pay_core.Device.{PairedDevice, ListedDevice}
use spritexai_pay_core.Reconcile.{Reconciliation}
use spritexai_pay_core.Fraud.{FraudReport}
use spritexai_pay_core.Settings.{Setting}
use spritexai_pay_core.Ai.{Panicking, panics, returns}
use spritexai_pay_core.Ai.Chat.{RegexSuggestion}

-- `AppState` without the database, which is the world that the handlers run in.
pub record AppState : Type 0 where
  pub sms_hmac_secret : String
  pub admin_password : Option String
  pub auth_secret : String
  pub base_url : Option String

-- `headers.get(name).and_then(|v| v.to_str().ok())`
abbrev pub Headers : Type 0
Headers = String → Option String

-- What a handler puts into its answer: the value that is serialised, or the object of `json!`.
pub data Body : Type 0 where
  empty : Body
  plain : String → Body
  error : String → Body
  health : String → Bool → Body
  token : String → Body
  auth_required : Bool → Body
  exchanged : String → String → Body
  new_key : NewApiKey → Body
  keys : List ApiKeyRow → Body
  revoked : Bool → Body
  customer : Customer → Body
  customers : List Customer → Body
  invoice : Invoice → Body
  invoices : List Invoice → Body
  sap_url : String → Body
  link : PaymentLink → Body
  links : List PaymentLink → Body
  redirect : String → Body
  domain : AllowedDomain → Body
  domains : List AllowedDomain → Body
  settings : List Setting → Body
  activities : List Activity → Body
  sms_events : List SmsEventView → Body
  checkout_created : CheckoutCreated → Body
  verified : VerifyResult → Body
  public_charge : PublicCharge → Body
  -- `Html`
  html : String → Body
  done : Bool → Body
  charge : Charge → Body
  charges : List Charge → Body
  ingested : Ingested → Body
  gateway : GatewayConfig → Body
  gateways : List GatewayConfig → Body
  suggestion : RegexSuggestion → Body
  reconciliation : Reconciliation → Body
  fraud : FraudReport → Body
  chat_reconciliation : Reconciliation → Body
  chat_fraud : FraudReport → Body
  chat_unknown : Body
  paired : PairedDevice → Body
  devices : List ListedDevice → Body

pub record Response : Type 0 where
  pub status : ℕ
  pub body : Body

abbrev pub reply : ℕ → Body → Response
reply status body = record { status = status; body = body }

-- `ApiError`; a handler that panicked has taken the process with it.
pub data ApiError : Type 0 where
  api_error : ℕ → String → ApiError
  aborted : ApiError

abbrev pub Handler : Type 0
Handler = M ApiError Response

-- `let a = m.await.map_err(g)?; …`, with the answer that follows.
unfoldable pub then_answer :
    {E A : Type 0} → (E → ApiError) → M E A → (A → Result ApiError Response) → Handler
then_answer g m k = do a ← map_err g m; lift (k a)

-- … with one answer for every outcome.
abbrev pub answer : {E A : Type 0} → (E → ApiError) → M E A → (A → Response) → Handler
answer g m k = then_answer g m (λ a. ok (k a))

-- A row, or 404 with a text.
abbrev pub found_or : {A : Type 0} → String → (A → Response) → Option A → Result ApiError Response
found_or text k none = err (api_error 404 text)
found_or text k (some a) = ok (k a)

-- A row was affected, or 404 with a text.
abbrev pub affected_or : String → Response → Bool → Result ApiError Response
affected_or text r true = ok r
affected_or text r false = err (api_error 404 text)

unfoldable pub db_error : DbError → ApiError
db_error e = api_error 500 "internal error"

-- The end of each `From`: the text of an internal error stays inside.
abbrev masked : ℕ → String → ApiError
masked code text = if eqb code 500 then api_error code "internal error" else api_error code text

-- `to_string` of the errors; that of a database error is never sent.
abbrev charge_text : ChargeError → String
charge_text ChargeError.invalid_amount = "amount must be positive"
charge_text (ChargeError.duplicate_order order_id) =
    String.◌++◌ "a charge already exists for order_id " order_id
charge_text ChargeError.not_found = "charge not found"
charge_text (ChargeError.db_error e) = ""

abbrev charge_code : ChargeError → ℕ
charge_code ChargeError.invalid_amount = 422
charge_code (ChargeError.duplicate_order order_id) = 409
charge_code ChargeError.not_found = 404
charge_code (ChargeError.db_error e) = 500

unfoldable pub from_charge : ChargeError → ApiError
from_charge e = masked (charge_code e) (charge_text e)

abbrev parse_text : ParseError → String
parse_text (no_match name) = String.◌++◌ "SMS did not match the " (String.◌++◌ name " format")
parse_text bad_amount = "could not parse amount from SMS"

abbrev ingest_text : IngestError → String
ingest_text IngestError.unknown_gateway = "unknown gateway"
ingest_text (IngestError.parse e) = String.◌++◌ "could not parse SMS: " (parse_text e)
ingest_text IngestError.duplicate = "duplicate transaction (already processed)"
ingest_text _ = ""

abbrev ingest_code : IngestError → ℕ
ingest_code IngestError.unknown_gateway = 422
ingest_code (IngestError.parse e) = 422
ingest_code IngestError.duplicate = 409
ingest_code _ = 500

unfoldable pub from_ingest : IngestError → ApiError
from_ingest IngestError.aborted = aborted
from_ingest e = masked (ingest_code e) (ingest_text e)

abbrev checkout_text : CheckoutError → String
checkout_text CheckoutError.invalid_amount = "amount must be positive"
checkout_text CheckoutError.not_found = "checkout not found"
checkout_text CheckoutError.domain_not_allowed = "return_url or webhook_url host is not whitelisted"
checkout_text (CheckoutError.db_error e) = ""

abbrev checkout_code : CheckoutError → ℕ
checkout_code CheckoutError.invalid_amount = 422
checkout_code CheckoutError.not_found = 404
checkout_code CheckoutError.domain_not_allowed = 422
checkout_code (CheckoutError.db_error e) = 500

unfoldable pub from_checkout : CheckoutError → ApiError
from_checkout e = masked (checkout_code e) (checkout_text e)

abbrev invoice_text : InvoiceError → String
invoice_text InvoiceError.invalid_amount = "invoice amount must be positive"
invoice_text InvoiceError.not_found = "invoice not found"
invoice_text (InvoiceError.db_error e) = ""

abbrev invoice_code : InvoiceError → ℕ
invoice_code InvoiceError.invalid_amount = 422
invoice_code InvoiceError.not_found = 404
invoice_code (InvoiceError.db_error e) = 500

unfoldable pub from_invoice : InvoiceError → ApiError
from_invoice e = masked (invoice_code e) (invoice_text e)

abbrev link_text : LinkError → String
link_text LinkError.not_found = "payment link not found"
link_text LinkError.inactive = "payment link is inactive"
link_text LinkError.amount_required = "amount is required for an open-amount link"
link_text (LinkError.db_error e) = ""

abbrev link_code : LinkError → ℕ
link_code LinkError.not_found = 404
link_code LinkError.inactive = 409
link_code LinkError.amount_required = 422
link_code (LinkError.db_error e) = 500

unfoldable pub from_link : LinkError → ApiError
from_link e = masked (link_code e) (link_text e)

-- What is sent for the outcome of a handler; none when there is no one to send it.
unfoldable pub into_response : Result ApiError Response → Option Response
into_response (ok r) = some r
into_response (err (api_error code text)) = some (reply code (error text))
into_response (err aborted) = none
