-- ===== src/Http/Records.antt =====
-- src/http.rs: the handlers of the console for customers, invoices, links, domains, settings and
-- the feeds.
use spritexai_pay_core.Prelude.{pos, String}
use spritexai_pay_core.Crates.{Float64}
use spritexai_pay_core.Db.{Env}
use spritexai_pay_core.Customer.{CreateCustomer}
use spritexai_pay_core.Customer
use spritexai_pay_core.Invoice.Bill.{CreateInvoice}
use spritexai_pay_core.Invoice.Bill
use spritexai_pay_core.PaymentLink.{CreatePaymentLink}
use spritexai_pay_core.PaymentLink
use spritexai_pay_core.Domain
use spritexai_pay_core.Settings
use spritexai_pay_core.Activity
use spritexai_pay_core.Sms
use spritexai_pay_core.Http.{
  AppState, Headers, Handler, Body, reply, answer, then_answer, affected_or, found_or, db_error,
  from_invoice, from_link,
}
use spritexai_pay_core.Http.Guards.{resolve_base_url}

module _ (env : Env) where
  unfoldable pub create_customer : CreateCustomer → Handler
  create_customer req = answer db_error (Customer.create env req) (λ c. reply 201 (Body.customer c))

  unfoldable pub list_customers : Handler
  list_customers = answer db_error (Customer.list env (pos 100)) (λ l. reply 200 (Body.customers l))

  unfoldable pub get_customer : String → Handler
  get_customer id =
      then_answer db_error (Customer.get env id)
        (found_or "customer not found" (λ c. reply 200 (Body.customer c)))

  unfoldable pub create_invoice : CreateInvoice → Handler
  create_invoice req = answer from_invoice (Bill.create env req) (λ i. reply 201 (Body.invoice i))

  unfoldable pub list_invoices : Handler
  list_invoices = answer from_invoice (Bill.list env (pos 100)) (λ l. reply 200 (Body.invoices l))

  unfoldable pub get_invoice : String → Handler
  get_invoice id =
      then_answer from_invoice (Bill.get env id)
        (found_or "invoice not found" (λ i. reply 200 (Body.invoice i)))

  unfoldable pub issue_invoice : Float64 → AppState → Headers → String → Handler
  issue_invoice f state headers id =
      answer from_invoice (Bill.issue_payment env f (resolve_base_url state headers) id)
        (λ created. reply 200 (Body.sap_url created.sap_url))

  unfoldable pub create_link : CreatePaymentLink → Handler
  create_link req = answer from_link (PaymentLink.create env req) (λ l. reply 201 (Body.link l))

  unfoldable pub list_links : Handler
  list_links = answer from_link (PaymentLink.list env (pos 100)) (λ l. reply 200 (Body.links l))

  unfoldable pub create_domain : String → Handler
  create_domain domain = answer db_error (Domain.create env domain) (λ d. reply 201 (Body.domain d))

  unfoldable pub list_domains : Handler
  list_domains = answer db_error (Domain.list env) (λ l. reply 200 (Body.domains l))

  unfoldable pub delete_domain : String → Handler
  delete_domain id =
      then_answer db_error (Domain.delete env id)
        (affected_or "domain not found" (reply 204 Body.empty))

  unfoldable pub get_settings : String → Handler
  get_settings group =
      answer db_error (Settings.get_group env group) (λ rows. reply 200 (Body.settings rows))

  unfoldable pub put_setting : String → String → Handler
  put_setting key value =
      answer db_error (Settings.set env key value) (λ done. reply 204 Body.empty)

  unfoldable pub list_activities : Handler
  list_activities =
      answer db_error (Activity.list env (pos 100)) (λ l. reply 200 (Body.activities l))

  unfoldable pub list_sms_events : Handler
  list_sms_events =
      answer db_error (Sms.list_events env (pos 100)) (λ l. reply 200 (Body.sms_events l))
