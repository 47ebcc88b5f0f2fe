-- ===== src/Tests/InFlight.antt =====
-- Ingestions in flight at once, at concrete arrivals.
use spritexai_pay_core.Prelude.{
  pos, ◌+ℤ◌, -ℤ◌, neg64, add64, wrap64, String, Option, none, some, [], ◌∷◌, ◌++◌, ◌≡◌, refl, ◌==◌,
  arith,
}
use spritexai_pay_core.Db.{
  Tables, ChargeRow, Quiet, ok, World, M, map_err, exec, transaction, first,
}
use spritexai_pay_core.Gateway.{ParsedTxn}
use spritexai_pay_core.Ledger.{
  insert_transaction, insert_entries, insert_entry, post, sum_from, debit, credit,
}
use spritexai_pay_core.Ledger.Atomic.{rows_of}
use spritexai_pay_core.Invoice.Settle.{settle_for_charge, set_invoice_paid}
use spritexai_pay_core.Webhook.{enqueue, insert_delivery}
use spritexai_pay_core.Charge.{get, select_charge, set_charge_paid, notify, mark_paid}
use spritexai_pay_core.Charge.Sound.{Sound, settlement}
use spritexai_pay_core.Sms.{
  IngestError, Ingested, db_error, record_matched, record_event, settle_recorded, settle_matched,
  find_matching_charge, select_candidates, insert_event, choose,
}
use spritexai_pay_core.Http.Server.{handle, public_handler, unguarded, health}
use spritexai_pay_core.Http.Public
use spritexai_pay_core.Sms.InFlight.{
  Arrival, settle_task, settle_tasks, record_task, run-record_task,
}
use spritexai_pay_core.Sms.InFlight.Sound.{Served, request, in_flight-Sound}
use spritexai_pay_core.Sms.InFlight.Unique.{AddsEvents, returning_once}
use spritexai_pay_core.Sms.InFlight.Race.{first_outcome, second_outcome, settled_twice}
use spritexai_pay_core.Task.{done}
use spritexai_pay_core.Task.Pool.{Reach, start, other, Reach-took, Reach-ended}
use spritexai_pay_core.Tests.Outside.{
  quiet, toy_crates, toy_outside, toy_state, toy-Saturating, header, no_rows, charge_of, at_start,
}

abbrev pending_charge : Tables
pending_charge = record no_rows { charges = charge_of "chg_1" (pos 500) none ∷ [] }

-- Two customers pay five taka each.
abbrev first_payment : ParsedTxn
first_payment = record {
  gateway = "bkash";
  txn_id = "TRX1";
  amount_minor = pos 500;
  sender_msisdn = none;
}

abbrev second_payment : ParsedTxn
second_payment = record first_payment { txn_id = "TRX2" }

quiet-Quiet : Quiet quiet
quiet-Quiet = λ n. refl

abbrev one : Ingested
one = record { sms_event_id = "sms_u"; txn_id = "TRX1"; matched_charge = some "chg_1" }

first_returns :
    (first_outcome quiet toy_crates first_payment second_payment "a" "regex" "b" "regex" "chg_1"
      (at_start pending_charge)).0
    ≡ ok one
unfolding record_matched record_event settle_recorded settle_matched find_matching_charge
    select_candidates choose insert_event mark_paid get select_charge post insert_transaction
    insert_entries insert_entry sum_from debit credit add64 wrap64 ◌+ℤ◌ neg64 -ℤ◌ exec transaction
    set_charge_paid settle_for_charge set_invoice_paid notify enqueue insert_delivery
first_returns = refl

abbrev two : Ingested
two = record { sms_event_id = "sms_xxxu"; txn_id = "TRX2"; matched_charge = some "chg_1" }

second_returns :
    (second_outcome quiet toy_crates first_payment second_payment "a" "regex" "b" "regex" "chg_1"
      (at_start pending_charge)).0
    ≡ ok two
unfolding record_matched record_event settle_recorded settle_matched find_matching_charge
    select_candidates choose insert_event mark_paid get select_charge post insert_transaction
    insert_entries insert_entry sum_from debit credit add64 wrap64 ◌+ℤ◌ neg64 -ℤ◌ exec transaction
    set_charge_paid settle_for_charge set_invoice_paid notify enqueue insert_delivery
second_returns = refl

picked : choose none (("chg_1", none) ∷ []) ≡ some "chg_1"
unfolding choose
picked = refl

-- The two settle one charge of five taka.
settled_twice_example :
    (v : World) × (c : ChargeRow) × (txn : String) × (txn' : String) × Reach ◌≡◌
      (settle_task quiet toy_crates "a" first_payment "regex"
        ∷ settle_task quiet toy_crates "b" second_payment "regex"
        ∷ [])
      (at_start pending_charge)
      (done (ok one) ∷ done (ok two) ∷ [])
      v
    × (first (λ r. r.id == "chg_1") pending_charge.charges ≡ some c)
    × (v.db.ledger_entries
        ≡ ([] ++ rows_of txn (settlement c.amount_minor c.currency))
          ++ rows_of txn' (settlement c.amount_minor c.currency))
settled_twice_example =
    settled_twice quiet toy_crates first_payment second_payment "a" "regex" "b" "regex" "chg_1"
      (at_start pending_charge) one two quiet-Quiet refl refl picked first_returns second_returns

returning_once_example :
    ¬ Reach AddsEvents
      (settle_task quiet toy_crates "a" first_payment "regex"
        ∷ settle_task quiet toy_crates "b" first_payment "ai"
        ∷ settle_task quiet toy_crates "c" second_payment "regex"
        ∷ [])
      (at_start pending_charge)
      (done (ok one) ∷ done (ok one) ∷ [])
      (at_start pending_charge)
returning_once_example =
    returning_once quiet toy_crates first_payment first_payment "a" "regex" "b" "ai"
      (record { raw_sha256 = "c"; parsed = second_payment; parse_source = "regex" } ∷ [])
      (at_start pending_charge) (at_start pending_charge) [] one one refl refl

abbrev arrival : Arrival
arrival = record { raw_sha256 = "a"; parsed = first_payment; parse_source = "regex" }

abbrev looking : M IngestError (Option String)
looking = map_err db_error (find_matching_charge quiet first_payment)

looked : (looking (at_start pending_charge)).0 ≡ ok (some "chg_1")
unfolding find_matching_charge select_candidates choose exec
looked = refl

pending_charge-Sound : Sound pending_charge
unfolding ◌+ℤ◌
pending_charge-Sound = record {
  amounts = ((omega arith, (omega arith, omega arith)), tt);
  entries = tt;
  balanced = λ id. refl;
  mirrored = refl;
}

abbrev after_health : World
after_health =
    (handle toy_outside quiet toy_state (header "x" "y") 0 (unguarded health)
      (looking (at_start pending_charge)).1).1

abbrev recording : M IngestError Ingested
recording = record_matched quiet toy_crates "a" first_payment "regex" (some "chg_1")

recorded : (recording after_health).0 ≡ ok one
unfolding record_matched record_event settle_recorded settle_matched find_matching_charge
    select_candidates choose insert_event mark_paid get select_charge post insert_transaction
    insert_entries insert_entry sum_from debit credit add64 wrap64 ◌+ℤ◌ neg64 -ℤ◌ exec transaction
    set_charge_paid settle_for_charge set_invoice_paid notify enqueue insert_delivery handle
    public_handler Public.health
recorded = refl

-- The lookup, then a request of someone else, then the rest.
served_between :
    Reach
      (Served toy_outside toy_state "w")
      (settle_tasks quiet toy_crates (arrival ∷ []))
      (at_start pending_charge)
      (done (ok one) ∷ [])
      (recording after_health).1
unfolding settle_task
served_between =
    Reach-ended (record_task quiet toy_crates "a" first_payment "regex" (some "chg_1")) recording []
      after_health one (run-record_task quiet toy_crates "a" first_payment "regex" (some "chg_1"))
      recorded
      (other after_health
        (Reach-took looking (record_task quiet toy_crates "a" first_payment "regex") []
          (at_start pending_charge) (some "chg_1") looked start)
        (request quiet (header "x" "y") 0 (unguarded health) (looking (at_start pending_charge)).1
          tt))

in_flight-Sound_example : Sound (recording after_health).1.db
in_flight-Sound_example =
    in_flight-Sound toy_outside toy_state "w" toy-Saturating quiet (arrival ∷ []) served_between
      pending_charge-Sound
