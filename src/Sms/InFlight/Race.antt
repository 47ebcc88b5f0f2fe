-- ===== src/Sms/InFlight/Race.antt =====
-- Two SMS of different transactions that look for their charge before either has settled it.
use spritexai_pay_core.Prelude.{String, true, some, [], ◌∷◌, ◌++◌, ◌==◌, ◌≡◌, refl, ap, ◌∙◌, sym}
use spritexai_pay_core.Crates.{Crates}
use spritexai_pay_core.Db.{
  Tables, ChargeRow, ChargeStatus, Result, ok, World, Env, Quiet, first, select, map_err,
}
use spritexai_pay_core.Db.Exec.{map_err_ok}
use spritexai_pay_core.Db.Triple.{Triple-ok}
use spritexai_pay_core.Gateway.{ParsedTxn}
use spritexai_pay_core.Ledger.Atomic.{rows_of}
use spritexai_pay_core.Webhook.Worker.Tries.{first-passes, first-update}
use spritexai_pay_core.Charge.Sound.{settlement}
use spritexai_pay_core.Sms.{
  IngestError, Ingested, db_error, find_matching_charge, record_matched, choose, candidates_of,
  claims,
}
use spritexai_pay_core.Sms.Quiet.{find-Returns}
use spritexai_pay_core.Sms.InFlight.{settle_task, record_task, run-record_task}
use spritexai_pay_core.Task.{done}
use spritexai_pay_core.Task.Pool.{
  Reach, start, Reach-took, Reach-took_second, Reach-ended, Reach-ended_second,
}
use spritexai_pay_core.Sms.InFlight.Posted.{record_matched-Settled}

module _ (env : Env) (crates : Crates) (p q : ParsedTxn) (raw source raw' source' id : String)
    (w : World) where
  -- Both have looked for their charge.
  abbrev pub both_looked : World
  both_looked =
      (map_err db_error (find_matching_charge env q)
        (map_err db_error (find_matching_charge env p) w).1).1

  -- Then the first goes on to its end, and after it the second.
  abbrev pub first_outcome : Result IngestError Ingested × World
  first_outcome = record_matched env crates raw p source (some id) both_looked

  abbrev pub second_outcome : Result IngestError Ingested × World
  second_outcome = record_matched env crates raw' q source' (some id) first_outcome.1

module _ (env : Env) (crates : Crates) (quiet : Quiet env) where
  looked :
      (p : ParsedTxn) (id : String) (v : World)
      → choose p.sender_msisdn (candidates_of (select (claims p.amount_minor) v.db.charges))
        ≡ some id
      → ((map_err db_error (find_matching_charge env p) v).0 ≡ ok (some id))
        × ((map_err db_error (find_matching_charge env p) v).1.db ≡ v.db)
  looked p id v chosen =
      let found = find-Returns env quiet crates p v in
      let (is_m, same, drawn) = found.holds in
      let run_of = map_err_ok db_error (find_matching_charge env p) v found.runs in
      (ap (λ x. x.0) run_of ∙ ap ok (is_m ∙ chosen), ap (λ x. x.1.db) run_of ∙ same)

  module _ (p q : ParsedTxn) (raw source raw' source' id : String) (w : World) (one two : Ingested)
      (same_amount : q.amount_minor ≡ p.amount_minor)
      (same_sender : q.sender_msisdn ≡ p.sender_msisdn)
      (chosen : choose p.sender_msisdn (candidates_of (select (claims p.amount_minor) w.db.charges))
        ≡ some id)
      (ends : (first_outcome env crates p q raw source raw' source' id w).0 ≡ ok one)
      (ends' : (second_outcome env crates p q raw source raw' source' id w).0 ≡ ok two) where
    abbrev after_one : World
    after_one = (map_err db_error (find_matching_charge env p) w).1

    -- The second finds the charge pending still.
    chosen_again :
        choose q.sender_msisdn (candidates_of (select (claims q.amount_minor) after_one.db.charges))
        ≡ some id
    chosen_again = rw ((looked p id w chosen).1, same_amount, same_sender) chosen

    at_both_looked : (both_looked env crates p q raw source raw' source' id w).db ≡ w.db
    at_both_looked = (looked q id after_one chosen_again).1 ∙ (looked p id w chosen).1

    reached :
        {Other : Tables → Tables → Type 0}
        → Reach Other
            (settle_task env crates raw p source ∷ settle_task env crates raw' q source' ∷ [])
            w
            (done (ok one) ∷ done (ok two) ∷ [])
            (second_outcome env crates p q raw source raw' source' id w).1
    unfolding settle_task
    reached {Other} =
        let find_p = map_err db_error (find_matching_charge env p) in
        let find_q = map_err db_error (find_matching_charge env q) in
        let one_task = record_task env crates raw p source (some id) in
        let two_task = record_task env crates raw' q source' (some id) in
        let looked_one : Reach Other _ w (one_task ∷ settle_task env crates raw' q source' ∷ [])
            after_one =
          Reach-took find_p (record_task env crates raw p source) _ w (some id)
            (looked p id w chosen).0 start in
        let looked_both : Reach Other _ w (one_task ∷ two_task ∷ [])
            (both_looked env crates p q raw source raw' source' id w) =
          Reach-took_second one_task find_q (record_task env crates raw' q source') [] after_one
            (some id) (looked q id after_one chosen_again).0 looked_one in
        Reach-ended_second (done (ok one)) two_task _ [] _ two
          (run-record_task env crates raw' q source' (some id)) ends'
          (Reach-ended one_task _ (two_task ∷ []) _ one
            (run-record_task env crates raw p source (some id)) ends looked_both)

    -- The first
    posted_twice :
        (c : ChargeRow) × (txn : String) × (txn' : String) × (first (λ r. r.id == id) w.db.charges
          ≡ some c)
        × ((second_outcome env crates p q raw source raw' source' id w).1.db.ledger_entries
            ≡ (w.db.ledger_entries ++ rows_of txn (settlement c.amount_minor c.currency))
              ++ rows_of txn' (settlement c.amount_minor c.currency))
    posted_twice =
        let looked_at = both_looked env crates p q raw source raw' source' id w in
        let (c, txn, t, found, paid, posted) =
          Triple-ok looked_at
            (record_matched-Settled env crates id w.db.charges w.db.ledger_entries raw source p)
            (ap (λ db. db.charges) at_both_looked, ap (λ db. db.ledger_entries) at_both_looked)
            ends in
        let middle = (first_outcome env crates p q raw source raw' source' id w).1 in
        let (c', txn', t', found', paid', posted') =
          Triple-ok middle
            (record_matched-Settled env crates id middle.db.charges middle.db.ledger_entries raw'
              source' q)
            (refl, refl) ends' in
        let passes : (c.id == id) ≡ true =
          first-passes (λ r. r.id == id) (λ r. r.id == id) (λ r. r) (λ r. refl) w.db.charges c
            found in
        let same : some c' ≡ some (record c { status = ChargeStatus.paid; updated_at = t }) =
          sym found'
          ∙ ap (first (λ r. r.id == id)) paid
          ∙ first-update (λ r. r.id == id) (λ r. r.id == id)
              (λ r. record r { status = ChargeStatus.paid; updated_at = t }) (λ r. refl)
              w.db.charges c found passes in
        let at_c : c' ≡ record c { status = ChargeStatus.paid; updated_at = t } = cc same in
        (
          c,
          txn,
          txn',
          found,
          posted'
              ∙ ap (λ es. es ++ rows_of txn' (settlement c'.amount_minor c'.currency)) posted
              ∙ ap
                  (λ d.
                    (w.db.ledger_entries ++ rows_of txn (settlement c.amount_minor c.currency))
                    ++ rows_of txn' (settlement d.amount_minor d.currency))
                  at_c,
        )

-- Where no statement fails, two SMS of one amount and sender, of which the match picks a charge,
-- may both look for their charge before either settles it; if both then return, the two ingestions
-- have reached an end at which the ledger has gained two settlements of that one charge.
pub settled_twice :
    (env : Env) (crates : Crates) (p q : ParsedTxn) (raw source raw' source' id : String)
    (w : World) (one two : Ingested)
    → Quiet env
    → q.amount_minor ≡ p.amount_minor
    → q.sender_msisdn ≡ p.sender_msisdn
    → choose p.sender_msisdn (candidates_of (select (claims p.amount_minor) w.db.charges)) ≡ some id
    → (first_outcome env crates p q raw source raw' source' id w).0 ≡ ok one
    → (second_outcome env crates p q raw source raw' source' id w).0 ≡ ok two
    → (v : World) × (c : ChargeRow) × (txn : String) × (txn' : String) × Reach ◌≡◌
        (settle_task env crates raw p source ∷ settle_task env crates raw' q source' ∷ [])
        w
        (done (ok one) ∷ done (ok two) ∷ [])
        v
      × (first (λ r. r.id == id) w.db.charges ≡ some c)
      × (v.db.ledger_entries
          ≡ (w.db.ledger_entries ++ rows_of txn (settlement c.amount_minor c.currency))
            ++ rows_of txn' (settlement c.amount_minor c.currency))
settled_twice env crates p q raw source raw' source' id w one two quiet same_amount same_sender
      chosen ends ends' =
    let (c, txn, txn', found, posted) =
      posted_twice env crates quiet p q raw source raw' source' id w one two same_amount same_sender
        chosen ends ends' in
    (
      (second_outcome env crates p q raw source raw' source' id w).1,
      c,
      txn,
      txn',
      reached env crates quiet p q raw source raw' source' id w one two same_amount same_sender
          chosen ends ends',
      found,
      posted,
    )
