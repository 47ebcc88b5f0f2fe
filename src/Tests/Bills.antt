-- ===== src/Tests/Bills.antt =====
-- The theorems on invoices, payment links and verification, applied.
use Prim.Native.String
use spritexai_pay_core.Prelude.{
  Option, String, pos, ◌+ℤ◌, ◌^◌, ◌≡◌, refl, none, some, List, [], ◌∷◌, ◌*ℤ◌, add64, mul64, wrap64,
  show_ℕ,
}
use spritexai_pay_core.Db.{
  World, Tables, ChargeRow, ok, exec, PaymentLink, LinkStatus, ChargeStatus, first,
}
use spritexai_pay_core.Tests.Outside.{quiet, toy_crates, toy_float, no_rows, charge_of, at_start}
use spritexai_pay_core.Invoice.Bill.{LineItem, total_from}
use spritexai_pay_core.Invoice.Bill.Total.{exact_total, total_from_lem}
use spritexai_pay_core.PaymentLink.{open_active, open_link, load, select_link, consume}
use spritexai_pay_core.Checkout.{create_checkout, insert_checkout, urls_allowed, pay_url}
use spritexai_pay_core.Domain.{is_allowed}
use spritexai_pay_core.Charge.{insert_charge}
use spritexai_pay_core.Checkout.{
  VerifyResult, has_ref, select_by_ref, select_settled_trx, verify_result, latest,
}
use spritexai_pay_core.Checkout
use spritexai_pay_core.Settings
use spritexai_pay_core.Settings.{set, upsert, select_setting}
use spritexai_pay_core.Settings.Stored.{get-set}
use spritexai_pay_core.Checkout.Status.{verify_completed}

abbrev store : Tables
store = record no_rows { charges = charge_of "chg_1" (pos 500) none ∷ [] }

-- Two items whose exact total is 2^64 + 100: the invoice is drafted for 100.
abbrev items : List LineItem
items =
    record { description = "a"; quantity = pos (2 ^ 33); unit_minor = pos (2 ^ 31) }
    ∷ record { description = "b"; quantity = pos 1; unit_minor = pos 100 }
    ∷ []

wrapped_total : total_from (pos 0) items ≡ pos 100
unfolding total_from add64 mul64 wrap64 ◌+ℤ◌ ◌*ℤ◌
wrapped_total = refl

total_from_lem_example : total_from (pos 0) items ≡ wrap64 (exact_total items)
total_from_lem_example = total_from_lem items

abbrev used_up : PaymentLink
used_up = record {
  id = "lnk_1";
  reference = "r";
  product_name = "Tea";
  amount_minor = some (pos 500);
  currency = "BDT";
  quantity = some (pos 0);
  status = LinkStatus.active;
  created_at = 0;
}

abbrev linked : World
linked = at_start (record store { payment_links = used_up ∷ [] })

-- The link that is used up opens.
used_up_opens :
    (open_link quiet toy_float "https://pay.example" "r" none linked).0
    ≡ ok (record {
      sap_id = String.◌++◌ "pay_" (quiet.uuid 1);
      sap_url = pay_url "https://pay.example" (String.◌++◌ "pay_" (quiet.uuid 1));
    })
unfolding open_link load select_link open_active consume create_checkout insert_checkout
    urls_allowed is_allowed insert_charge exec pay_url
used_up_opens = refl

-- The charge of the store, paid, and what `verify` says of it.
abbrev paid_charge : ChargeRow
paid_charge = record (charge_of "chg_1" (pos 500) none) { status = ChargeStatus.paid }

abbrev paid_store : Tables
paid_store = record store { charges = paid_charge ∷ [] }

abbrev report : VerifyResult
report = record {
  sap_id = "chg_1";
  full_name = none;
  email_address = none;
  mobile_number = none;
  gateway = none;
  amount = "500";
  currency = "BDT";
  transaction_id = none;
  sender = none;
  metadata = none;
  status = "completed";
  date = 0;
}

reported : (Checkout.verify quiet toy_crates toy_float "chg_1" (at_start paid_store)).0 ≡ ok report
unfolding Checkout.verify select_by_ref select_settled_trx verify_result latest show_ℕ exec
reported = refl

verify_completed_example :
    (c : ChargeRow) × (first (has_ref "chg_1") paid_store.charges ≡ some c)
    × (c.status ≡ ChargeStatus.paid)
verify_completed_example =
    verify_completed quiet toy_crates toy_float "chg_1" report (at_start paid_store) reported refl

set_done : (set quiet "brand.name" "Shop" (at_start store)).0 ≡ ok tt
unfolding set upsert exec
set_done = refl

get_done :
    (Settings.get quiet "brand.name" (set quiet "brand.name" "Shop" (at_start store)).1).0
    ≡ ok (some "Shop")
unfolding set upsert exec Settings.get select_setting
get_done = refl

abbrev stored : Option String
stored = some "Shop"

get-set_example : stored ≡ some "Shop"
get-set_example = get-set quiet "brand.name" "Shop" (at_start store) stored set_done get_done
