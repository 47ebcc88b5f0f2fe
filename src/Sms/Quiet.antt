-- ===== src/Sms/Quiet.antt =====
-- src/sms.rs: recording and settling a parsed SMS where no statement fails.
use Prim.Native.String
use spritexai_pay_core.Prelude.{
  ℕ, suc, String, ◌≡◌, refl, ap, ◌∙◌, true, false, ◌&&◌, ◌||◌, some, List, [], ◌∷◌, ◌++◌, ◌==◌,
  arith,
}
use spritexai_pay_core.Crates.{Crates}
use spritexai_pay_core.Db.{
  Tables, ChargeRow, ChargeStatus, ok, Env, World, Quiet, any, first, select,
}
use spritexai_pay_core.Db.Total.{
  Returns, Returns-pure, Returns-bind, Returns-weaken, Returns-map_err, Returns-exec,
  Returns-new_v4,
}
use spritexai_pay_core.Gateway.{ParsedTxn}
use spritexai_pay_core.Ledger.Atomic.{known}
use spritexai_pay_core.Webhook.Worker.Tries.{first-passes, first-update}
use spritexai_pay_core.Charge.{mark_paid}
use spritexai_pay_core.Charge.Sound.{HasAmount}
use spritexai_pay_core.Charge.Effect.{mark_paid-Settled}
use spritexai_pay_core.Charge.Quiet.{mark_paid-Returns}
use spritexai_pay_core.Sms.{
  Ingested, charge, db_error, event_error, candidates_of, claims, choose, select_candidates,
  find_matching_charge, insert_event, settle_matched, record_event, settle_recorded, record_matched,
  record_and_settle,
}

-- The charge of an id is in the table and paid.
abbrev pub IsPaid : String → Tables → Type 0
IsPaid id db =
    (r : ChargeRow) × (first (λ c. c.id == id) db.charges ≡ some r) × (r.status ≡ ChargeStatus.paid)

-- What a settlement asks of the tables, at the next identifiers.
pub record Payable (env : Env) (id : String) (w : World) : Type 0 where
  pub row : ChargeRow
  pub found : first (λ c. c.id == id) w.db.charges ≡ some row
  pub amount : HasAmount row
  pub new_posting : known (String.◌++◌ "ltx_" (env.uuid w.drawn)) w.db ≡ false
  pub new_delivery :
      any (λ d. d.id == String.◌++◌ "whd_" (env.uuid (suc w.drawn))) w.db.webhook_deliveries ≡ false

-- The table of events admits the row of an SMS, at the next identifier.
abbrev pub IsNewEvent : Env → ParsedTxn → World → Type 0
IsNewEvent env p w =
    any
      (λ r.
        r.id == String.◌++◌ "sms_" (env.uuid w.drawn)
        || r.gateway == p.gateway && r.txn_id == p.txn_id)
      w.db.sms_events
    ≡ false

-- The tables with an event that has settled a charge.
abbrev recorded : String → ParsedTxn → String → String → String → ℕ → Tables → Tables
recorded event_id p id raw source t db = record db {
  sms_events =
      db.sms_events
      ++ record {
        id = event_id;
        gateway = p.gateway;
        txn_id = p.txn_id;
        amount_minor = p.amount_minor;
        sender_msisdn = p.sender_msisdn;
        charge_id = some id;
        raw_sha256 = raw;
        matched = true;
        parse_source = source;
        received_at = t;
      }
        ∷ [];
}

module _ (env : Env) (quiet : Quiet env) (crates : Crates) where
  mark_paid-IsPaid :
      (id : String) (w : World)
      → Payable env id w
      → Returns (mark_paid env crates id) w (λ u v. IsPaid id v.db)
  mark_paid-IsPaid id w p =
      let done =
        mark_paid-Returns env quiet crates id p.row w p.found p.amount p.new_posting
          p.new_delivery in
      let (r, txn_id, t, found, charges, entries) =
        mark_paid-Settled env crates id w (ap (λ x. x.0) done.runs) in
      let at_end : (mark_paid env crates id w).1 ≡ done.after = ap (λ x. x.1) done.runs in
      let passes : (r.id == id) ≡ true =
        first-passes (λ c. c.id == id) (λ c. c.id == id) (λ c. c) (λ c. refl) w.db.charges r
          found in
      record {
        value = done.value;
        after = done.after;
        runs = done.runs;
        holds = (
          record r { status = ChargeStatus.paid; updated_at = t },
          rw (← at_end) (
              ap (first (λ c. c.id == id)) charges
              ∙ first-update (λ c. c.id == id) (λ c. c.id == id)
                  (λ c. record c { status = ChargeStatus.paid; updated_at = t }) (λ c. refl)
                  w.db.charges r found passes),
          refl,
        );
      }

  any-found :
      (id : String) (r : ChargeRow) (rs : List ChargeRow)
      → first (λ c. c.id == id) rs ≡ some r
      → any (λ c. c.id == id) rs ≡ true
  any-found id r [] h = absurd (cc h)
  any-found id r (c ∷ cs) h = ground (arith, any-found id r cs)

  record_event-Returns :
      (raw source id : String) (p : ParsedTxn) (w : World)
      → IsNewEvent env p w
      → Payable env id (record w { drawn = suc w.drawn })
      → Returns
          (record_event env crates raw p source (some id))
          w
          (λ event_id v. (event_id ≡ String.◌++◌ "sms_" (env.uuid w.drawn)) × Payable env id v)
  unfolding record_event insert_event
  record_event-Returns raw source id p w fresh payable =
      Returns-bind
        {Q = λ uuid u. (uuid ≡ env.uuid w.drawn) × (u ≡ record w { drawn = suc w.drawn })} w
        (Returns-new_v4 env w (refl, refl))
        λ uuid u (is_next, at_u).
          Returns-bind {Q = λ t v. Payable env id v} u
            (Returns-map_err event_error u (
              Returns-exec env quiet (insert_event (String.◌++◌ "sms_" uuid) p (some id) raw source)
                u tt
                (recorded (String.◌++◌ "sms_" uuid) p id raw source (env.now u.statements) u.db)
                (rw (is_next, at_u)
                  (rw fresh (rw (any-found id payable.row w.db.charges payable.found) refl)))
                (record {
                  row = payable.row;
                  found = rw at_u payable.found;
                  amount = payable.amount;
                  new_posting = rw at_u payable.new_posting;
                  new_delivery = rw at_u payable.new_delivery;
                })))
            (λ t v h. Returns-pure (String.◌++◌ "sms_" uuid) v (rw is_next refl, h))

-- The outcome of an SMS that settles a charge.
abbrev pub settled_by : Env → World → ParsedTxn → String → Ingested
settled_by env w p id = record {
  sms_event_id = String.◌++◌ "sms_" (env.uuid w.drawn);
  txn_id = p.txn_id;
  matched_charge = some id;
}

module _ (env : Env) (quiet : Quiet env) (crates : Crates) where
  settle_recorded-Returns :
      (p : ParsedTxn) (id event_id : String) (v : World)
      → Payable env id v
      → Returns (settle_recorded env crates p (some id) event_id) v (λ r u.
        (r ≡ record { sms_event_id = event_id; txn_id = p.txn_id; matched_charge = some id })
        × IsPaid id u.db)
  unfolding settle_recorded settle_matched
  settle_recorded-Returns p id event_id v payable =
      Returns-bind {Q = λ t u. IsPaid id u.db} v
        (Returns-map_err charge v (mark_paid-IsPaid env quiet crates id v payable))
        λ t u h.
          Returns-pure
            (record { sms_event_id = event_id; txn_id = p.txn_id; matched_charge = some id }) u
            (refl, h)

  pub find-Returns :
      (p : ParsedTxn) (w : World)
      → Returns (find_matching_charge env p) w (λ m v.
        (m ≡ choose p.sender_msisdn (candidates_of (select (claims p.amount_minor) w.db.charges)))
        × (v.db ≡ w.db)
        × (v.drawn ≡ w.drawn))
  unfolding find_matching_charge select_candidates
  find-Returns p w =
      Returns-bind
        {Q = λ cs v.
          (cs ≡ candidates_of (select (claims p.amount_minor) w.db.charges))
          × (v.db ≡ w.db)
          × (v.drawn ≡ w.drawn)}
        w
        (Returns-exec env quiet (select_candidates p.amount_minor) w
          (candidates_of (select (claims p.amount_minor) w.db.charges)) w.db refl
          (refl, refl, refl))
        λ cs v (are, same, drawn).
          Returns-pure (choose p.sender_msisdn cs) v (rw are refl, same, drawn)

  record_and_settle-Returns :
      (raw source id : String) (p : ParsedTxn) (w : World)
      → choose p.sender_msisdn (candidates_of (select (claims p.amount_minor) w.db.charges))
        ≡ some id
      → IsNewEvent env p w
      → Payable env id (record w { drawn = suc w.drawn })
      → Returns
          (record_and_settle env crates raw p source)
          w
          (λ r v. (r ≡ settled_by env w p id) × IsPaid id v.db)
  unfolding record_and_settle record_matched
  record_and_settle-Returns raw source id p w chosen fresh payable =
      Returns-bind {f = record_matched env crates raw p source} w
        (Returns-map_err db_error w (find-Returns p w))
        λ m v (is_m, same, drawn).
          let at_m : m ≡ some id = is_m ∙ chosen in
          rw at_m (
            Returns-bind {f = settle_recorded env crates p (some id)} v
              (record_event-Returns env quiet crates raw source id p v (rw (same, drawn) fresh)
                (record {
                  row = payable.row;
                  found = rw same payable.found;
                  amount = payable.amount;
                  new_posting = rw (same, drawn) payable.new_posting;
                  new_delivery = rw (same, drawn) payable.new_delivery;
                }))
              λ event_id u (is_id, ready).
                Returns-weaken (λ r x h. (rw h.0 (rw is_id (rw drawn refl)), h.1))
                  (settle_recorded-Returns p id event_id u ready))

-- In a run in which no statement fails: where the match picks a charge for a parsed SMS, the
-- transaction is not on record, the charge has a positive amount of 64 bits, and the identifiers
-- that are drawn for the event, the posting and the callback are new, recording and settling the
-- SMS returns the identifier of its event and that charge, and the charge is then paid.
pub record_and_settle-returning :
    (env : Env) (crates : Crates) (raw source id : String) (p : ParsedTxn) (w : World)
    → (quiet : Quiet env)
    → choose p.sender_msisdn (candidates_of (select (claims p.amount_minor) w.db.charges)) ≡ some id
    → IsNewEvent env p w
    → Payable env id (record w { drawn = suc w.drawn })
    → ((record_and_settle env crates raw p source w).0 ≡ ok (settled_by env w p id))
      × IsPaid id (record_and_settle env crates raw p source w).1.db
record_and_settle-returning env crates raw source id p w quiet chosen fresh payable =
    let done = record_and_settle-Returns env quiet crates raw source id p w chosen fresh payable in
    let (result, paid) = done.holds in
    let at_end : (record_and_settle env crates raw p source w).1 ≡ done.after =
      ap (λ x. x.1) done.runs in
    (ap (λ x. x.0) done.runs ∙ rw result refl, rw at_end paid)
