-- ===== src/Stable/Ingest.antt =====
-- src/sms.rs: `ingest`, for a predicate that the settlement keeps too.
use Prim.Native.String
use spritexai_pay_core.Prelude.{sym, ap, inl, inr, ℤ, String, Option, none, some, arith}
use spritexai_pay_core.Crates.{Crates, Float64}
use spritexai_pay_core.Crypto.{sign}
use spritexai_pay_core.Db.{Tables, Env, ok_or}
use spritexai_pay_core.Db.Exec.{Result-cases}
use spritexai_pay_core.Db.Triple.{Triple-const}
use spritexai_pay_core.Gateway.{ParsedTxn, Gateway, resolve, parse_sms}
use spritexai_pay_core.Gateway
use spritexai_pay_core.Ai.{AiOutside}
use spritexai_pay_core.Ai.Log.{SameButLog, extract-SameButLog}
use spritexai_pay_core.Stable.{
  Stable, SameMoney, Settles, Framed, Keeps, Keeps-pure, Keeps-lift, Keeps-bind, Keeps-map_err,
  Keeps-new_v4, Keeps-exec,
}
use spritexai_pay_core.Sms.{
  charge, db_error, event_error, unknown_gateway, insert_event, find_matching_charge,
  select_candidates, choose, settle_matched, record_event, settle_recorded, record_matched,
  record_and_settle, parse_or_extract, ingest,
}

insert_event-Framed :
    (id : String) (p : ParsedTxn) (m : Option String) (raw source : String)
    → Framed (insert_event id p m raw source)
unfolding insert_event
insert_event-Framed id p m raw source = record { at = λ t a db v e. ground arith }

select_candidates-Framed : (amount : ℤ) → Framed (select_candidates amount)
unfolding select_candidates
select_candidates-Framed amount = record { at = λ t a db v e. ground arith }

SameButLog-SameMoney : {a b : Tables} → SameButLog a b → SameMoney b a
SameButLog-SameMoney e = record {
  charges = sym (ap (λ (d : Tables). d.charges) e);
  transactions = sym (ap (λ (d : Tables). d.ledger_transactions) e);
  entries = sym (ap (λ (d : Tables). d.ledger_entries) e);
}

module _ {P : Tables → Type 0} (S : Stable P) (settles : Settles P) (env : Env) where
  pub find-Keeps : (p : ParsedTxn) → Keeps P (find_matching_charge env p)
  unfolding find_matching_charge
  find-Keeps p =
      Keeps-bind (Keeps-exec S env _ (select_candidates-Framed p.amount_minor))
        (λ cs. Keeps-pure (choose p.sender_msisdn cs))

  module _ (crates : Crates) where
    pub record_event-Keeps :
        (raw : String) (p : ParsedTxn) (source : String) (m : Option String)
        → Keeps P (record_event env crates raw p source m)
    unfolding record_event
    record_event-Keeps raw p source m = Keeps-bind (Keeps-new_v4 env) λ uuid.
        Keeps-bind
          (Keeps-map_err event_error
            (Keeps-exec S env _ (insert_event-Framed (String.◌++◌ "sms_" uuid) p m raw source)))
          (λ u. Keeps-pure (String.◌++◌ "sms_" uuid))

    settle_matched-Keeps : (m : Option String) → Keeps P (settle_matched env crates m)
    unfolding settle_matched
    settle_matched-Keeps none = Keeps-pure tt
    settle_matched-Keeps (some id) = Keeps-map_err charge (settles env crates id)

    settle_recorded-Keeps :
        (p : ParsedTxn) (m : Option String) (id : String)
        → Keeps P (settle_recorded env crates p m id)
    unfolding settle_recorded
    settle_recorded-Keeps p m id =
        Keeps-bind (settle_matched-Keeps m)
          λ u. Keeps-pure (record { sms_event_id = id; txn_id = p.txn_id; matched_charge = m })

    record_and_settle-Keeps :
        (raw : String) (p : ParsedTxn) (source : String)
        → Keeps P (record_and_settle env crates raw p source)
    unfolding record_and_settle record_matched
    record_and_settle-Keeps raw p source =
        Keeps-bind (Keeps-map_err db_error (find-Keeps p))
          λ m. Keeps-bind (record_event-Keeps raw p source m) (λ id. settle_recorded-Keeps p m id)

    module _ (f : Float64) (o : AiOutside f.F) where
      parse_or_extract-Keeps :
          (raw : String) (g : Gateway) (body : String)
          → Keeps P (parse_or_extract env crates f o raw g body)
      unfolding parse_or_extract
      parse_or_extract-Keeps raw g body = Triple-const λ w s.
          elim (Result-cases (parse_sms f crates g body)) [
            | inl (p, e) ↦ rw (e, parse_or_extract) s
            | inr (x, e) ↦
                rw (e, parse_or_extract)
                  (S.frame
                    (SameButLog-SameMoney (extract-SameButLog env f o (Gateway.id g) body raw w)) s)
          ]

      -- Whatever arrives, ingesting it keeps the predicate.
      pub ingest-Keeps : (gw body : String) → Keeps P (ingest env crates f o gw body)
      unfolding ingest
      ingest-Keeps gw body = Keeps-bind (Keeps-lift (ok_or (resolve gw) unknown_gateway)) λ g.
          Keeps-bind (parse_or_extract-Keeps (sign crates "sms-audit" body) g body)
            λ parsed. record_and_settle-Keeps (sign crates "sms-audit" body) parsed.0 parsed.1
