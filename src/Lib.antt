-- ===== src/Lib.antt =====
-- A model of the payment core: charges, the ledger, SMS settlement, checkouts and what surrounds
-- them.
--
-- The program is a self-hosted payment server. A merchant creates a charge (src/charge.rs),
-- directly or through a hosted checkout (src/checkout.rs), a payment link (src/payment_link.rs) or
-- an invoice (src/invoice.rs). A paired phone (src/device.rs) forwards the confirmation SMS of the
-- mobile-money gateways; src/sms.rs parses it with the patterns of src/gateway.rs, or with the
-- providers of src/ai.rs where no pattern matches, records it once, and settles the one pending
-- charge that it belongs to: a balanced posting in src/ledger.rs, the status of the charge, the
-- invoice, and a callback in the durable queue of src/webhook.rs. Merchants' sites show API keys
-- (src/merchant.rs), the operator a password or a token (src/auth.rs); both rest on src/crypto.rs.
-- src/domain.rs lists the hosts that a checkout may call back, src/reconcile.rs sums what was
-- settled.
--
-- Db models the database. A table is the list of its rows; a statement is a function from the time
-- and the tables to a result and the new tables, with the constraints of migrations/*.sql written
-- out, and every statement may fail: the schedule of failures, the clock and the random identifiers
-- are the record Env. Functions run in the monad M of the World (tables, counters, requests sent),
-- where exec runs one statement and transaction rolls back on an error. Db.Triple holds the rules
-- by which a predicate on the tables is kept through a block, whichever statement fails.
--
-- Each source file has a module of its name with one definition for each function: Ledger, Charge,
-- Sms, Gateway, Ai, Webhook (the worker in Webhook.Worker, the delay in Webhook.Backoff), Checkout,
-- Domain, Invoice (drafts and payments in Invoice.Bill, settlement in Invoice.Settle), PaymentLink
-- (where `open` is open_link), Merchant, Device, Auth, Crypto, Reconcile, Customer, Settings,
-- Fraud, Activity (where `record` is record_activity), Config; the rest of src/ai.rs is Ai.Chat.
-- Their children prove.
--
-- Http is src/http.rs: the answers and the errors in Http, the middlewares in Http.Guards, the
-- handlers in Http.Admin, Http.Records and Http.Public, and the routes in Http.Server, where a Call
-- is a request that the framework has matched to its route and read, and handle answers it behind
-- its guard. Page is the page of src/checkout_page.rs as the text that is sent, its fixed text in
-- Page.Chrome and Page.Body; Page.Browser is how a browser reads it, as far as quoted attributes
-- and the five character references go. Stable says what a predicate on the tables has to allow so
-- that every operation keeps it, and its children follow it through all handlers. Settlement is an
-- abstract machine of bills, the view of the charges as such bills, and the worlds that the server
-- and its worker reach. Db.Total has the rules for blocks that return, where no statement fails.
--
-- A Task is a handler as its steps between its awaits, and Task.Pool has the runs in which the
-- steps of many tasks come in any order; Sms.InFlight is the ingestion of a parsed SMS as such a
-- task, beside the Sms that runs it whole.
--
-- Prelude has integers with the 64-bit wrap-around of a release build, and the operations on text.
--
-- Third-party code is a parameter: Crates (hmac, hex, regex, serde_json), Float64 (f64), AiOutside
-- (the environment, the providers, trim), ChatOutside (serde_json, regex and SQLite's DISTINCT for
-- Ai.Chat), Outside (all of these for the server, and the `{:?}` of a text), Network (the HTTP
-- client of the worker); what the proofs rely on is stated as HexRoundTrip, DigestEquality,
-- Saturating and CloseMean. Time is a number of milliseconds. There is no fuel: every loop runs
-- over a list. The writing of a decimal number n counts down from n + 1, which is more than the
-- number of its digits.
--
-- Not modelled: in src/http.rs the framework's matching of a path and reading of a body, its rate
-- limiter, the static files and the shutdown; the connection pool and the start of the process
-- (src/db.rs, src/main.rs, src/lib.rs). Requests are run one after another, but for those of
-- Sms.InFlight; there a posting is one step, since it is one transaction of the database.
pub mod Prelude
pub mod Db
pub mod Ledger
pub mod Crates
pub mod Webhook
pub mod Invoice
pub mod Charge
pub mod Crypto
pub mod Activity
pub mod Config
pub mod Http
pub mod Stable
pub mod Settlement
pub mod Fraud
pub mod Gateway
pub mod Ai
pub mod Sms
pub mod Domain
pub mod Checkout
pub mod Auth
pub mod PaymentLink
pub mod Merchant
pub mod Device
pub mod Reconcile
pub mod Customer
pub mod Settings
pub mod Page
pub mod Task
mod Tests
