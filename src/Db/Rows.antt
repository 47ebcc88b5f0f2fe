-- ===== src/Db/Rows.antt =====
-- The rows of the tables of migrations/*.sql. A table is the list of its rows in insertion order,
-- so the rowid of a row is its position. Times are numbers of milliseconds: the ISO texts that
-- `strftime` writes have a fixed width and sort as the numbers do. A column with a CHECK on a list
-- of words is a data type of those words.
use spritexai_pay_core.Prelude.{ℤ, ℕ, String, Bool, true, false, Option, List}

pub data ChargeStatus : Type 0 where
  pending paid failed expired : ChargeStatus

abbrev pub is_pending : ChargeStatus → Bool
is_pending ChargeStatus.pending = true
is_pending _ = false

-- `charges`, with the columns that 0008_checkout.sql adds.
pub record ChargeRow : Type 0 where
  pub id : String
  pub order_id : String
  pub amount_minor : ℤ
  pub currency : String
  pub customer_name : Option String
  pub customer_msisdn : Option String
  pub callback_url : Option String
  pub status : ChargeStatus
  pub created_at : ℕ
  pub updated_at : ℕ
  pub pay_ref : Option String
  pub customer_email : Option String
  pub return_url : Option String
  pub webhook_url : Option String
  pub metadata : Option String
  pub gateway : Option String
  pub claimed_trx_id : Option String
  pub claimed_sender : Option String

pub record LedgerTransaction : Type 0 where
  pub id : String
  pub reference : String
  pub memo : String

pub record LedgerEntry : Type 0 where
  pub txn_id : String
  pub account : String
  pub amount_minor : ℤ
  pub currency : String

pub record SmsEvent : Type 0 where
  pub id : String
  pub gateway : String
  pub txn_id : String
  pub amount_minor : ℤ
  pub sender_msisdn : Option String
  pub charge_id : Option String
  pub raw_sha256 : String
  pub matched : Bool
  pub parse_source : String
  pub received_at : ℕ

pub data DeliveryStatus : Type 0 where
  pending delivered failed : DeliveryStatus

pub record WebhookDelivery : Type 0 where
  pub id : String
  pub charge_id : String
  pub url : String
  pub payload : String
  pub event : String
  pub status : DeliveryStatus
  pub attempts : ℤ
  pub max_attempts : ℤ
  pub next_attempt_at : ℕ
  pub last_error : Option String
  pub updated_at : ℕ

pub record GatewayConfig : Type 0 where
  pub id : String
  pub gateway : String
  pub label : Option String
  pub account_msisdn : Option String
  pub enabled : Bool
  pub created_at : ℕ

-- The status of a device and of an API key.
pub data KeyStatus : Type 0 where
  active revoked : KeyStatus

abbrev pub is_active : KeyStatus → Bool
is_active KeyStatus.active = true
is_active _ = false

pub record Device : Type 0 where
  pub id : String
  pub label : Option String
  pub token_sha256 : String
  pub status : KeyStatus
  pub last_seen_at : Option ℕ
  pub created_at : ℕ

pub record ApiKey : Type 0 where
  pub id : String
  pub key_sha256 : String
  pub label : Option String
  pub scopes : String
  pub status : KeyStatus
  pub created_at : ℕ
  pub last_used_at : Option ℕ

pub data InvoiceStatus : Type 0 where
  unpaid paid refunded canceled : InvoiceStatus

abbrev pub is_unpaid : InvoiceStatus → Bool
is_unpaid InvoiceStatus.unpaid = true
is_unpaid _ = false

pub record Invoice : Type 0 where
  pub id : String
  pub number : String
  pub customer_id : Option String
  pub amount_minor : ℤ
  pub currency : String
  pub status : InvoiceStatus
  pub charge_id : Option String
  pub pay_ref : Option String
  pub created_at : ℕ
  pub updated_at : ℕ

pub record InvoiceItem : Type 0 where
  pub id : String
  pub invoice_id : String
  pub description : String
  pub quantity : ℤ
  pub unit_minor : ℤ

pub data LinkStatus : Type 0 where
  active inactive : LinkStatus

pub record PaymentLink : Type 0 where
  pub id : String
  pub reference : String
  pub product_name : String
  pub amount_minor : Option ℤ
  pub currency : String
  pub quantity : Option ℤ
  pub status : LinkStatus
  pub created_at : ℕ

pub record AllowedDomain : Type 0 where
  pub id : String
  pub domain : String
  pub created_at : ℕ

pub record AiParseLog : Type 0 where
  pub gateway : String
  pub raw_sha256 : String
  pub provider : String
  pub success : Bool
  pub txn_id : Option String
  pub amount_minor : Option ℤ
  pub sender_msisdn : Option String
  pub raw_body : String

pub data CustomerStatus : Type 0 where
  active inactive : CustomerStatus

pub record Customer : Type 0 where
  pub id : String
  pub name : Option String
  pub email : Option String
  pub msisdn : Option String
  pub status : CustomerStatus
  pub created_at : ℕ

pub record SettingRow : Type 0 where
  pub key : String
  pub value : Option String
  pub updated_at : ℕ

-- `audit_log`, whose INTEGER PRIMARY KEY the database mints.
pub record Activity : Type 0 where
  pub id : ℕ
  pub entity : String
  pub entity_id : String
  pub action : String
  pub actor : String
  pub detail : Option String
  pub created_at : ℕ

-- The tables that the modelled modules use.
pub record Tables : Type 0 where
  pub charges : List ChargeRow
  pub ledger_transactions : List LedgerTransaction
  pub ledger_entries : List LedgerEntry
  pub sms_events : List SmsEvent
  pub webhook_deliveries : List WebhookDelivery
  pub gateway_configs : List GatewayConfig
  pub devices : List Device
  pub api_keys : List ApiKey
  pub invoices : List Invoice
  pub invoice_items : List InvoiceItem
  pub payment_links : List PaymentLink
  pub allowed_domains : List AllowedDomain
  pub ai_parse_log : List AiParseLog
  pub customers : List Customer
  pub settings : List SettingRow
  pub audit_log : List Activity
