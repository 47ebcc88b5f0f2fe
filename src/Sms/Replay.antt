-- ===== src/Sms/Replay.antt =====
-- src/sms.rs: the unique index on (gateway, txn_id) as the guard of idempotency.
use Prim.Native.String
use spritexai_pay_core.Prelude.{
  suc, ◌≡◌, refl, ◌⊎◌, inl, inr, String, Bool, true, ◌&&◌, ◌||◌, Option, List, [], ◌∷◌, ◌==◌, arith,
}
use spritexai_pay_core.Crates.{Crates}
use spritexai_pay_core.Db.{
  Tables, SmsEvent, Result, ok, err, transport, unique_violation, Env, World, ◌>>=◌, exec, any,
  select, map_err,
}
use spritexai_pay_core.Db.Exec.{exec_cases, counted, bind_ok, bind_err, map_err_ok, map_err_err}
use spritexai_pay_core.Gateway.{ParsedTxn}
use spritexai_pay_core.Sms.{
  IngestError, Ingested, duplicate, db_error, insert_event, find_matching_charge, record_and_settle,
  record_matched, record_event, select_candidates, choose, candidates_of, claims,
}

-- `(gateway, txn_id)` is in `sms_events`.
abbrev pub recorded : ParsedTxn → Tables → Bool
recorded p db = any (λ r. r.gateway == p.gateway && r.txn_id == p.txn_id) db.sms_events

-- A refusal that has changed no table.
abbrev pub Refused : World → Result IngestError Ingested × World → Type 0
Refused w (r, w') = ((r ≡ err duplicate) ⊎ (r ≡ err (db_error transport))) × (w'.db ≡ w.db)

any-or :
    (p q : SmsEvent → Bool) (rows : List SmsEvent)
    → any q rows ≡ true
    → any (λ r. p r || q r) rows ≡ true
any-or p q [] h = cc
any-or p q (r ∷ rs) h = ground (arith, any-or p q rs)

module _ (env : Env) where
  -- The search for a charge changes no table.
  pub find_cases :
      (p : ParsedTxn) (w : World)
      → (find_matching_charge env p w ≡ (err transport, counted w))
        ⊎ (find_matching_charge env p w ≡ (
          ok (choose p.sender_msisdn (candidates_of (select (claims p.amount_minor) w.db.charges))),
          counted w,
        ))
  unfolding find_matching_charge select_candidates
  find_cases p w = elim (exec_cases env (select_candidates p.amount_minor) w) [
    | inl e ↦ inl (rw (e, ◌>>=◌, e))
    | inr e ↦ inr (rw (e, ◌>>=◌, e))
  ]

  -- Recording a transaction again is refused by the unique index.
  pub insert_recorded :
      (id : String) (p : ParsedTxn) (m : Option String) (raw source : String) (w : World)
      → recorded p w.db ≡ true
      → (exec env (insert_event id p m raw source) w ≡ (err transport, counted w))
        ⊎ (exec env (insert_event id p m raw source) w ≡ (err unique_violation, counted w))
  unfolding insert_event
  insert_recorded id p m raw source w h = elim (exec_cases env (insert_event id p m raw source) w) [
    | inl e ↦ inl e
    | inr e ↦ inr (
        rw e (
          rw (
            any-or (λ r. r.id == id) (λ r. r.gateway == p.gateway && r.txn_id == p.txn_id)
              w.db.sms_events h)))
  ]

module _ (env : Env) (crates : Crates) (raw_sha256 : String) (p : ParsedTxn) (source : String) where
  -- The INSERT refuses it, whatever charge was found.
  record-Refused :
      (m : Option String) (w : World)
      → recorded p w.db ≡ true
      → Refused w (record_matched env crates raw_sha256 p source m w)
  unfolding record_matched record_event
  record-Refused m w h =
      let id = String.◌++◌ "sms_" (env.uuid w.drawn) in
      ground
        (arith, insert_recorded env id p m raw_sha256 source (record w { drawn = suc w.drawn }) h)

  -- A transaction whose gateway and id are recorded is refused, as a duplicate or because the
  -- database failed, and no table changes.
  pub replay-Refused :
      (w : World)
      → recorded p w.db ≡ true
      → Refused w (record_and_settle env crates raw_sha256 p source w)
  unfolding record_and_settle
  replay-Refused w h =
      let found = map_err db_error (find_matching_charge env p) in
      let rest = record_matched env crates raw_sha256 p source in
      elim (find_cases env p w) [
        | inl e ↦
            rw (bind_err rest found w (map_err_err db_error (find_matching_charge env p) w e))
              (inr refl, refl)
        | inr e ↦
            rw (bind_ok rest found w (map_err_ok db_error (find_matching_charge env p) w e))
              (record-Refused _ (counted w) h)
      ]
