-- ===== src/Stable/Rows.antt =====
-- The statements of the modules that leave the money alone.
use spritexai_pay_core.Prelude.{ℤ, String, Option, List, arith}
use spritexai_pay_core.Crates.{Float64}
use spritexai_pay_core.Db.{ApiKey, Invoice, PaymentLink, GatewayConfig, no_op}
use spritexai_pay_core.Stable.{Framed}
use spritexai_pay_core.Customer.{
  CreateCustomer, insert_customer, select_customer, select_one_customer, select_customers,
}
use spritexai_pay_core.Domain.{
  insert_domain, select_domain, select_domains, delete_domain, count_domains, find_domain,
}
use spritexai_pay_core.Device.{
  RegisterGateway, insert_gateway, select_gateway_config, select_gateways, insert_device,
  select_devices, select_active_device, stamp_device,
}
use spritexai_pay_core.Merchant.{insert_key, select_active_key, stamp_key, set_revoked, select_keys}
use spritexai_pay_core.Settings.{upsert, select_group}
use spritexai_pay_core.Activity.{select_activities}
use spritexai_pay_core.Sms.{select_events}
use spritexai_pay_core.Reconcile.{select_settled, count_pending}
use spritexai_pay_core.Fraud.{select_shared_txids, select_mismatches, select_norm, select_above}
use spritexai_pay_core.Ai.Chat.{ChatOutside, select_samples}
use spritexai_pay_core.Invoice.Bill.{
  LineItem, insert_invoice, insert_item, select_invoice, select_invoices, select_charge_id,
  link_charge,
}
use spritexai_pay_core.PaymentLink.{insert_link, select_link, select_links, take_one}
use spritexai_pay_core.Checkout.{select_by_ref, select_receivers, select_settled_trx}
use spritexai_pay_core.Charge.{select_charge, select_charges}

pub no_op-Framed : Framed no_op
no_op-Framed = record { at = λ t a db v e. ground arith }

pub insert_customer-Framed : (id : String) (req : CreateCustomer) → Framed (insert_customer id req)
unfolding insert_customer
insert_customer-Framed id req = record { at = λ t a db v e. ground arith }

pub select_customer-Framed : (id : String) → Framed (select_customer id)
unfolding select_customer
select_customer-Framed id = record { at = λ t a db v e. ground arith }

pub select_one_customer-Framed : (id : String) → Framed (select_one_customer id)
unfolding select_one_customer
select_one_customer-Framed id = record { at = λ t a db v e. ground arith }

pub select_customers-Framed : (limit : ℤ) → Framed (select_customers limit)
unfolding select_customers
select_customers-Framed limit = record { at = λ t a db v e. ground arith }

pub insert_domain-Framed : (id domain : String) → Framed (insert_domain id domain)
unfolding insert_domain
insert_domain-Framed id domain = record { at = λ t a db v e. ground arith }

pub select_domain-Framed : (id : String) → Framed (select_domain id)
unfolding select_domain
select_domain-Framed id = record { at = λ t a db v e. ground arith }

pub select_domains-Framed : Framed select_domains
unfolding select_domains
select_domains-Framed = record { at = λ t a db v e. ground arith }

pub delete_domain-Framed : (id : String) → Framed (delete_domain id)
unfolding delete_domain
delete_domain-Framed id = record { at = λ t a db v e. ground arith }

pub count_domains-Framed : Framed count_domains
unfolding count_domains
count_domains-Framed = record { at = λ t a db v e. ground arith }

pub find_domain-Framed : (host : String) → Framed (find_domain host)
unfolding find_domain
find_domain-Framed host = record { at = λ t a db v e. ground arith }

pub insert_gateway-Framed : (id : String) (req : RegisterGateway) → Framed (insert_gateway id req)
unfolding insert_gateway
insert_gateway-Framed id req = record { at = λ t a db v e. ground arith }

pub select_gateway_config-Framed : (id : String) → Framed (select_gateway_config id)
unfolding select_gateway_config
select_gateway_config-Framed id = record { at = λ t a db v e. ground arith }

pub select_gateways-Framed : Framed select_gateways
unfolding select_gateways
select_gateways-Framed = record { at = λ t a db v e. ground arith }

pub insert_device-Framed :
    (id : String) (label : Option String) (digest : String) → Framed (insert_device id label digest)
unfolding insert_device
insert_device-Framed id label digest = record { at = λ t a db v e. ground arith }

pub select_devices-Framed : Framed select_devices
unfolding select_devices
select_devices-Framed = record { at = λ t a db v e. ground arith }

pub select_active_device-Framed : (digest : String) → Framed (select_active_device digest)
unfolding select_active_device
select_active_device-Framed digest = record { at = λ t a db v e. ground arith }

pub stamp_device-Framed : (id : String) → Framed (stamp_device id)
unfolding stamp_device
stamp_device-Framed id = record { at = λ t a db v e. ground arith }

pub insert_key-Framed : (row : ApiKey) → Framed (insert_key row)
unfolding insert_key
insert_key-Framed row = record { at = λ t a db v e. ground arith }

pub select_active_key-Framed : (digest : String) → Framed (select_active_key digest)
unfolding select_active_key
select_active_key-Framed digest = record { at = λ t a db v e. ground arith }

pub stamp_key-Framed : (id : String) → Framed (stamp_key id)
unfolding stamp_key
stamp_key-Framed id = record { at = λ t a db v e. ground arith }

pub set_revoked-Framed : (id : String) → Framed (set_revoked id)
unfolding set_revoked
set_revoked-Framed id = record { at = λ t a db v e. ground arith }

pub select_keys-Framed : Framed select_keys
unfolding select_keys
select_keys-Framed = record { at = λ t a db v e. ground arith }

pub upsert-Framed : (key value : String) → Framed (upsert key value)
unfolding upsert
upsert-Framed key value = record { at = λ t a db v e. ground arith }

pub select_group-Framed : (group : String) → Framed (select_group group)
unfolding select_group
select_group-Framed group = record { at = λ t a db v e. ground arith }

pub select_activities-Framed : (limit : ℤ) → Framed (select_activities limit)
unfolding select_activities
select_activities-Framed limit = record { at = λ t a db v e. ground arith }

pub select_events-Framed : (limit : ℤ) → Framed (select_events limit)
unfolding select_events
select_events-Framed limit = record { at = λ t a db v e. ground arith }

pub select_settled-Framed : (gateway : Option String) → Framed (select_settled gateway)
unfolding select_settled
select_settled-Framed gateway = record { at = λ t a db v e. ground arith }

pub count_pending-Framed : Framed count_pending
unfolding count_pending
count_pending-Framed = record { at = λ t a db v e. ground arith }

pub select_shared_txids-Framed : Framed select_shared_txids
unfolding select_shared_txids
select_shared_txids-Framed = record { at = λ t a db v e. ground arith }

pub select_mismatches-Framed : Framed select_mismatches
unfolding select_mismatches
select_mismatches-Framed = record { at = λ t a db v e. ground arith }

pub select_norm-Framed : (f : Float64) → Framed (select_norm f)
unfolding select_norm
select_norm-Framed f = record { at = λ t a db v e. ground arith }

pub select_above-Framed : (threshold : ℤ) → Framed (select_above threshold)
unfolding select_above
select_above-Framed threshold = record { at = λ t a db v e. ground arith }

pub select_samples-Framed : (c : ChatOutside) (gateway : String) → Framed (select_samples c gateway)
unfolding select_samples
select_samples-Framed c gateway = record { at = λ t a db v e. ground arith }

pub insert_invoice-Framed : (row : Invoice) → Framed (insert_invoice row)
unfolding insert_invoice
insert_invoice-Framed row = record { at = λ t a db v e. ground arith }

pub insert_item-Framed :
    (item_id id : String) (item : LineItem) → Framed (insert_item item_id id item)
unfolding insert_item
insert_item-Framed item_id id item = record { at = λ t a db v e. ground arith }

pub select_invoice-Framed : (id : String) → Framed (select_invoice id)
unfolding select_invoice
select_invoice-Framed id = record { at = λ t a db v e. ground arith }

pub select_invoices-Framed : (limit : ℤ) → Framed (select_invoices limit)
unfolding select_invoices
select_invoices-Framed limit = record { at = λ t a db v e. ground arith }

pub select_charge_id-Framed : (pay_ref : String) → Framed (select_charge_id pay_ref)
unfolding select_charge_id
select_charge_id-Framed pay_ref = record { at = λ t a db v e. ground arith }

pub link_charge-Framed :
    (id pay_ref : String) (charge_id : Option String) → Framed (link_charge id pay_ref charge_id)
unfolding link_charge
link_charge-Framed id pay_ref charge_id = record { at = λ t a db v e. ground arith }

pub insert_link-Framed : (row : PaymentLink) → Framed (insert_link row)
unfolding insert_link
insert_link-Framed row = record { at = λ t a db v e. ground arith }

pub select_link-Framed : (reference : String) → Framed (select_link reference)
unfolding select_link
select_link-Framed reference = record { at = λ t a db v e. ground arith }

pub select_links-Framed : (limit : ℤ) → Framed (select_links limit)
unfolding select_links
select_links-Framed limit = record { at = λ t a db v e. ground arith }

pub take_one-Framed : (reference : String) → Framed (take_one reference)
unfolding take_one
take_one-Framed reference = record { at = λ t a db v e. ground arith }

pub select_by_ref-Framed : (pay_ref : String) → Framed (select_by_ref pay_ref)
unfolding select_by_ref
select_by_ref-Framed pay_ref = record { at = λ t a db v e. ground arith }

pub select_receivers-Framed :
    (by_gateway : List GatewayConfig → List GatewayConfig) → Framed (select_receivers by_gateway)
unfolding select_receivers
select_receivers-Framed by_gateway = record { at = λ t a db v e. ground arith }

pub select_settled_trx-Framed : (id : String) → Framed (select_settled_trx id)
unfolding select_settled_trx
select_settled_trx-Framed id = record { at = λ t a db v e. ground arith }

pub select_charge-Framed : (id : String) → Framed (select_charge id)
unfolding select_charge
select_charge-Framed id = record { at = λ t a db v e. ground arith }

pub select_charges-Framed : (limit : ℤ) → Framed (select_charges limit)
unfolding select_charges
select_charges-Framed limit = record { at = λ t a db v e. ground arith }
