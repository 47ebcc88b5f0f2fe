-- ===== src/Sms/Once/Stranded.antt =====
-- src/sms.rs: settling that fails after the event was recorded.
use Prim.Native.String
use mathlib.Core.Path.{subst}
use spritexai_pay_core.Prelude.{◌≡◌, sym, ap, ◌∙◌, inl, inr, suc, String, Option, arith, Bool-cases}
use spritexai_pay_core.Crates.{Crates}
use spritexai_pay_core.Db.{
  Result, ok, err, DbError, is_unique_violation, Env, World, M, pure, exec, map_err,
}
use spritexai_pay_core.Db.Exec.{bind_cases}
use spritexai_pay_core.Db.Triple.{Triple-ok, Triple-kept}
use spritexai_pay_core.Gateway.{ParsedTxn}
use spritexai_pay_core.Charge.{ChargeError}
use spritexai_pay_core.Sms.{
  IngestError, Ingested, charge, db_error, event_error, find_matching_charge, insert_event,
  record_event, settle_recorded, record_matched, record_and_settle,
}
use spritexai_pay_core.Sms.Replay.{Refused, replay-Refused}
use spritexai_pay_core.Sms.Once.{OnRecord, record_event-OnRecord, settle_recorded-OnRecord}

-- An error that comes through `map_err` is the image of one.
mapped_error :
    {E F A : Type 0} (g : E → F) (m : M E A) (w : World) (e : F)
    → (map_err g m w).0 ≡ err e
    → (x : E) × (e ≡ g x)
mapped_error {E} {F} {A} g m w e h = go (m w) h
  where
    go : (r : Result E A × World) → (map_err g (λ _. r) w).0 ≡ err e → (x : E) × (e ≡ g x)
    go (ok a, w') h = absurd (cc h)
    go (err x, w') h = (x, ground arith)

same_error : (A : Type 0) {E : Type 0} (a b : E) → Path (Result E A) (err b) (err a) → b ≡ a
same_error A a b h = ground arith

not_err : {A E : Type 0} (a : A) (x : E) → Path (Result E A) (ok a) (err x) → ⊥
not_err a x h = cc

-- The INSERT of an event fails with a database error or as a duplicate, never as a charge.
event_error-charge : (d : DbError) (x : ChargeError) → event_error d ≡ charge x → ⊥
event_error-charge d x h = elim (Bool-cases (is_unique_violation d)) [
  | inl u ↦ absurd (cc (rw u at h))
  | inr n ↦ absurd (cc (rw n at h))
]

module _ (env : Env) (crates : Crates) (p : ParsedTxn) where
  record_event_error :
      (raw source : String) (m : Option String) (w : World) (x : ChargeError)
      → (record_event env crates raw p source m w).0 ≡ err (charge x)
      → ⊥
  unfolding record_event
  record_event_error raw source m w x h =
      let id = String.◌++◌ "sms_" (env.uuid w.drawn) in
      let insert = exec env (insert_event id p m raw source) in
      let w' = record w { drawn = suc w.drawn } in
      elim (bind_cases (λ (u : Unit {0}). pure {E = IngestError} id) (map_err event_error insert)
        w') [
          | inr (u, q, e) ↦ absurd (not_err id (charge x) (ap (λ r. r.0) (sym e) ∙ h))
          | inl (x', q, e) ↦
              let same = same_error String (charge x) x' (ap (λ r. r.0) (sym e) ∙ h) in
              let (d, image) = mapped_error event_error insert w' x' q in
              event_error-charge d x (sym image ∙ same)
        ]

  record_matched-OnRecord :
      (raw source : String) (m : Option String) (w : World) (x : ChargeError)
      → (record_matched env crates raw p source m w).0 ≡ err (charge x)
      → OnRecord env p (record_matched env crates raw p source m w).1.db
  unfolding record_matched
  record_matched-OnRecord raw source m w x h =
      elim (bind_cases (settle_recorded env crates p m) (record_event env crates raw p source m)
        w) [
          | inl (x', q, e) ↦
              let same = same_error Ingested (charge x) x' (ap (λ r. r.0) (sym e) ∙ h) in
              absurd (record_event_error raw source m w x (q ∙ ap (λ y. err y) same))
          | inr (id, q, e) ↦
              let w' = (record_event env crates raw p source m w).1 in
              let here = Triple-ok w (record_event-OnRecord env p crates raw source m) tt q in
              subst (λ r. OnRecord env p r.1.db) (sym e)
                (Triple-kept w' (settle_recorded-OnRecord env p crates m id) here)
        ]

  record_and_settle-stranded :
      (raw source : String) (w : World) (x : ChargeError)
      → (record_and_settle env crates raw p source w).0 ≡ err (charge x)
      → OnRecord env p (record_and_settle env crates raw p source w).1.db
  unfolding record_and_settle
  record_and_settle-stranded raw source w x h =
      let find = map_err db_error (find_matching_charge env p) in
      elim (bind_cases (record_matched env crates raw p source) find w) [
        | inl (x', q, e) ↦
            let same = same_error Ingested (charge x) x' (ap (λ r. r.0) (sym e) ∙ h) in
            let (d, image) = mapped_error db_error (find_matching_charge env p) w x' q in
            absurd (cc (image, same))
        | inr (m, q, e) ↦
            subst (λ r. OnRecord env p r.1.db) (sym e)
              (record_matched-OnRecord raw source m (find w).1 x (ap (λ r. r.0) (sym e) ∙ h))
      ]

  -- When settling the matched charge fails, the transaction is on record all the same, so a retry
  -- right after it is refused, as a duplicate or because the database failed, and changes no
  -- table.
  pub failed_settlement-Refused :
      (raw source raw' source' : String) (x : ChargeError) (w : World)
      → (record_and_settle env crates raw p source w).0 ≡ err (charge x)
      → let w' = (record_and_settle env crates raw p source w).1 in
        Refused w' (record_and_settle env crates raw' p source' w')
  failed_settlement-Refused raw source raw' source' x w h =
      replay-Refused env crates raw' p source' (record_and_settle env crates raw p source w).1
        (record_and_settle-stranded raw source w x h)
