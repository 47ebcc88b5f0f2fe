-- ===== src/Tests/Money.antt =====
-- The theorems on settlement, applied to one charge and one SMS.
use mathlib.Core.List.Permᴰ.{swap}
use Prim.Native.String
use spritexai_pay_core.Prelude.{
  InI64, String, is_ascii_digit, pos, ◌+ℤ◌, -ℤ◌, neg64, add64, wrap64, keep, chars, drop_chars,
  parse_u64, ◌≡◌, refl, ◌⊎◌, true, false, none, some, List, [], ◌∷◌, arith, eqb, ◌≤◌,
}
use spritexai_pay_core.Db.{Tables, ChargeRow, ok, err, exec, select, transaction, Env, transport}
use spritexai_pay_core.Tests.Outside.{
  quiet, toy_crates, toy_float, no_ai, no_rows, charge_of, at_start,
}
use spritexai_pay_core.Gateway.{ParsedTxn, resolve, parse_sms, amount_to_minor, id}
use spritexai_pay_core.Crypto.{sign}
use spritexai_pay_core.Invoice.Settle.{settle_for_charge, set_invoice_paid}
use spritexai_pay_core.Webhook.{enqueue, insert_delivery}
use spritexai_pay_core.Charge.{
  CreateCharge, get, select_charge, set_charge_paid, notify, merchant_receivable, mark_paid,
  ChargeError,
}
use spritexai_pay_core.Charge.Sound.{Sound, settlement}
use spritexai_pay_core.Ledger.{
  Entry, LedgerError, fewer_than_two, insert_transaction, insert_entries, insert_entry, post,
  sum_from, debit, credit,
}
use spritexai_pay_core.Ledger.Atomic.{posted, known}
use spritexai_pay_core.Ledger.Exact.{post_exact}
use spritexai_pay_core.Ledger.Balance.{exact_sum, sum_from_lem, account_total}
use spritexai_pay_core.Sms.{
  normalize_msisdn, parse_or_extract, record_matched, record_event, settle_recorded, settle_matched,
  find_matching_charge, select_candidates, insert_event, Ingested, ingest, record_and_settle,
  choose, candidates_of, claims, IngestError,
}
use spritexai_pay_core.Sms.Match.{Owed, matched-Owed, match_order_irrelevant}
use spritexai_pay_core.Sms.Once.{second_arrival-Refused}
use spritexai_pay_core.Sms.Once.Stranded.{failed_settlement-Refused}
use spritexai_pay_core.Sms.Msisdn.{Digits, normalize_msisdn-append, normalize_msisdn_lem}
use spritexai_pay_core.Charge.Effect.{Settled, mark_paid-Settled}
use spritexai_pay_core.Sms.Replay.{Refused, replay-Refused}

-- One pending charge of five taka, and the SMS that pays it.
abbrev one_charge : Tables
one_charge = record no_rows { charges = charge_of "chg_1" (pos 500) none ∷ [] }

abbrev payment : ParsedTxn
payment = record {
  gateway = "bkash";
  txn_id = "TRX1";
  amount_minor = pos 500;
  sender_msisdn = none;
}

one_charge-Sound : Sound one_charge
unfolding ◌+ℤ◌
one_charge-Sound = record {
  amounts = ((omega arith, (omega arith, omega arith)), tt);
  entries = tt;
  balanced = λ id. refl;
  mirrored = refl;
}

-- The run in question settles the charge: the merchant's account holds the amount.
ingest_run :
    account_total merchant_receivable
      (ingest quiet toy_crates toy_float no_ai "bkash" "SMS"
        (at_start one_charge)).1.db.ledger_entries
    ≡ pos 500
unfolding ingest parse_or_extract resolve parse_sms amount_to_minor keep parse_u64 sign id
    record_and_settle record_matched record_event settle_recorded settle_matched
    find_matching_charge select_candidates choose insert_event mark_paid get select_charge post
    insert_transaction insert_entries insert_entry sum_from debit credit add64 wrap64 ◌+ℤ◌ neg64 -ℤ◌
    exec transaction set_charge_paid settle_for_charge set_invoice_paid notify enqueue
    insert_delivery
ingest_run = refl

abbrev done : Ingested
done = record { sms_event_id = "sms_u"; txn_id = "TRX1"; matched_charge = some "chg_1" }

settled_once :
    (record_and_settle quiet toy_crates "sha" payment "regex" (at_start one_charge)).0 ≡ ok done
unfolding record_and_settle record_matched record_event settle_recorded settle_matched
    find_matching_charge select_candidates choose insert_event mark_paid get select_charge post
    insert_transaction insert_entries insert_entry sum_from debit credit add64 wrap64 ◌+ℤ◌ neg64 -ℤ◌
    exec transaction set_charge_paid settle_for_charge set_invoice_paid notify enqueue
    insert_delivery
settled_once = refl

second_arrival-Refused_example :
    let w = (record_and_settle quiet toy_crates "sha" payment "regex" (at_start one_charge)).1 in
    Refused w (record_and_settle quiet toy_crates "sha2" payment "ai" w)
second_arrival-Refused_example =
    second_arrival-Refused quiet payment toy_crates "sha" "regex" "sha2" "ai" done
      (at_start one_charge) settled_once

-- The events once the payment is on record.
abbrev one_event : Tables
one_event = record one_charge {
  sms_events =
      record {
        id = "sms_0";
        gateway = "bkash";
        txn_id = "TRX1";
        amount_minor = pos 500;
        sender_msisdn = none;
        charge_id = some "chg_1";
        raw_sha256 = "sha";
        matched = true;
        parse_source = "regex";
        received_at = 0;
      }
      ∷ [];
}

replay-Refused_example :
    Refused
      (at_start one_event)
      (record_and_settle quiet toy_crates "sha" payment "regex" (at_start one_event))
replay-Refused_example =
    replay-Refused quiet toy_crates "sha" payment "regex" (at_start one_event) refl

-- Two charges of one amount, told apart by the sender.
abbrev two_charges : List ChargeRow
two_charges =
    charge_of "chg_1" (pos 500) (some "01711111111")
    ∷ charge_of "chg_2" (pos 500) (some "+8801722222222")
    ∷ []

chosen :
    choose (some "01722222222") (candidates_of (select (claims (pos 500)) two_charges))
    ≡ some "chg_2"
unfolding choose normalize_msisdn keep chars drop_chars
chosen = refl

matched-Owed_example : Owed (pos 500) "chg_2" two_charges
matched-Owed_example = matched-Owed (pos 500) (some "01722222222") "chg_2" two_charges chosen

match_order_irrelevant_example :
    choose (some "01722222222") (candidates_of (select (claims (pos 500)) two_charges))
    ≡ choose (some "01722222222") (
        candidates_of (
          select (claims (pos 500)) (
            charge_of "chg_2" (pos 500) (some "+8801722222222")
            ∷ charge_of "chg_1" (pos 500) (some "01711111111")
            ∷ [])))
match_order_irrelevant_example =
    match_order_irrelevant (pos 500) (some "01722222222") two_charges
      (charge_of "chg_2" (pos 500) (some "+8801722222222")
        ∷ charge_of "chg_1" (pos 500) (some "01711111111")
        ∷ [])
      (swap refl refl)

abbrev order : CreateCharge
order = record {
  order_id = "A-1";
  amount_minor = pos 500;
  currency = "BDT";
  customer_name = none;
  customer_msisdn = none;
  callback_url = none;
}

abbrev entries : List Entry
entries = settlement (pos 500) "BDT"

entries_fit : InI64 (exact_sum entries)
unfolding debit credit neg64 wrap64 ◌+ℤ◌ -ℤ◌
entries_fit = (omega arith, omega arith)

post_exact_example :
    (((e : LedgerError) × ((post quiet "ltx_1" "chg_1" "memo" entries (at_start one_charge)).0
          ≡ err e))
      × ((post quiet "ltx_1" "chg_1" "memo" entries (at_start one_charge)).1.db ≡ one_charge))
    ⊎ (((post quiet "ltx_1" "chg_1" "memo" entries (at_start one_charge)).0 ≡ ok tt)
        × ((post quiet "ltx_1" "chg_1" "memo" entries (at_start one_charge)).1.db
            ≡ posted "ltx_1" "chg_1" "memo" entries one_charge)
        × (known "ltx_1" one_charge ≡ false)
        × (fewer_than_two entries ≡ false)
        × (exact_sum entries ≡ pos 0))
post_exact_example =
    post_exact quiet "ltx_1" "chg_1" "memo" entries (at_start one_charge) entries_fit

sum_from_lem_example : sum_from (wrap64 (pos 0)) entries ≡ wrap64 (pos 0 +ℤ exact_sum entries)
sum_from_lem_example = sum_from_lem (pos 0) entries

-- The third statement fails: the event is recorded, and the charge cannot be read.
abbrev third_fails : Env
third_fails = record quiet { fails = λ n. eqb n 2 }

settlement_failed :
    (record_and_settle third_fails toy_crates "sha" payment "regex" (at_start one_charge)).0
    ≡ err (IngestError.charge (ChargeError.db_error transport))
unfolding record_and_settle record_matched record_event settle_recorded settle_matched
    find_matching_charge select_candidates choose insert_event mark_paid get select_charge post
    insert_transaction insert_entries insert_entry sum_from debit credit add64 wrap64 ◌+ℤ◌ neg64 -ℤ◌
    exec transaction set_charge_paid settle_for_charge set_invoice_paid notify enqueue
    insert_delivery
settlement_failed = refl

failed_settlement-Refused_example :
    let w =
      (record_and_settle third_fails toy_crates "sha" payment "regex" (at_start one_charge)).1 in
    Refused w (record_and_settle third_fails toy_crates "sha" payment "regex" w)
failed_settlement-Refused_example =
    failed_settlement-Refused third_fails toy_crates payment "sha" "regex" "sha" "regex"
      (ChargeError.db_error transport) (at_start one_charge) settlement_failed

marked : (mark_paid quiet toy_crates "chg_1" (at_start one_charge)).0 ≡ ok tt
unfolding record_and_settle record_matched record_event settle_recorded settle_matched
    find_matching_charge select_candidates choose insert_event mark_paid get select_charge post
    insert_transaction insert_entries insert_entry sum_from debit credit add64 wrap64 ◌+ℤ◌ neg64 -ℤ◌
    exec transaction set_charge_paid settle_for_charge set_invoice_paid notify enqueue
    insert_delivery
marked = refl

mark_paid-Settled_example :
    Settled "chg_1" one_charge (mark_paid quiet toy_crates "chg_1" (at_start one_charge)).1.db
mark_paid-Settled_example = mark_paid-Settled quiet toy_crates "chg_1" (at_start one_charge) marked

normalize_msisdn_lem_example :
    ((front : String) × (keep is_ascii_digit "+880 1712-345678"
        ≡ String.◌++◌ front (normalize_msisdn "+880 1712-345678"))
      × ((front ≡ "") ⊎ (chars (normalize_msisdn "+880 1712-345678") ≡ 10)))
    × Digits (normalize_msisdn "+880 1712-345678")
    × (chars (normalize_msisdn "+880 1712-345678") ≤ 10)
    × (normalize_msisdn (normalize_msisdn "+880 1712-345678") ≡ normalize_msisdn "+880 1712-345678")
normalize_msisdn_lem_example = normalize_msisdn_lem "+880 1712-345678"

abbrev local_number : String
local_number = "1712-345678"

ten_digits : chars (keep is_ascii_digit local_number) ≡ 10
unfolding chars keep
ten_digits = refl

normalize_msisdn-append_example :
    normalize_msisdn (String.◌++◌ "+880 " local_number) ≡ normalize_msisdn local_number
normalize_msisdn-append_example =
    normalize_msisdn-append "+880 " local_number (omega (arith, ten_digits))
