-- ===== src/Http/Exchange.antt =====
-- src/http.rs: the exchange of a pairing token for the secret of the phones.
use spritexai_pay_core.Prelude.{
  String, Bool, Bool-cases, true, ◌&&◌, ◌≡◌, inl, inr, Option, none, some, List, [], ◌∷◌, ◌==◌,
  eq_refl, arith,
}
use spritexai_pay_core.Crates.{Crates}
use spritexai_pay_core.Crypto.{sign}
use spritexai_pay_core.Db.{
  Device, ok, is_active, Env, World, M, DbError, pure, any, first, map_err, ◌>>◌, exec,
}
use spritexai_pay_core.Db.Exec.{bind_cases, map_err_inv, exec_ok}
use spritexai_pay_core.Device.{select_active_device, id_of, stamp}
use spritexai_pay_core.Device
use spritexai_pay_core.Http.{AppState, Body, reply, then_answer, db_error}
use spritexai_pay_core.Http.Public.{exchange_token, exchange_reply}

-- An active device of an id, whose token has a digest.
abbrev pub is_paired : String → String → Device → Bool
is_paired digest id d = d.token_sha256 == digest && is_active d.status && d.id == id

paired-row :
    (digest id : String) (ds : List Device)
    → id_of (first (λ d. d.token_sha256 == digest && is_active d.status) ds) ≡ some id
    → any (is_paired digest id) ds ≡ true
paired-row digest id [] h = absurd (cc h)
paired-row digest id (d ∷ ds) h =
    elim (Bool-cases (d.token_sha256 == digest && is_active d.status)) [
      | inl e ↦ let same : d.id ≡ id = ground arith in ground (arith, eq_refl id)
      | inr e ↦ ground (arith, paired-row digest id ds)
    ]

-- What `stamp` gives is what it was given.
module _ (crates : Crates) (env : Env) (token : String) where
  abbrev digest : String
  digest = sign crates "device-token" token

  stamped : Option String → M DbError (Option String)
  stamped id = do stamp env id; pure id

  stamped-same :
      (found : Option String) (id : String) (w : World)
      → (stamped found w).0 ≡ ok (some id)
      → found ≡ some id
  unfolding stamped
  stamped-same found id w h = elim (bind_cases (λ u. pure found) (stamp env found) w) [
    | inl (e, q, p) ↦ absurd (cc (rw p at h))
    | inr (u, q, p) ↦ let same : ok found ≡ ok (some id) = rw p at h in ground arith
  ]

  exchanged-row :
      (id : String) (w : World)
      → (Device.exchange_token env crates token w).0 ≡ ok (some id)
      → any (is_paired digest id) w.db.devices ≡ true
  unfolding Device.exchange_token select_active_device stamped
  exchanged-row id w h = elim (bind_cases stamped (exec env (select_active_device digest)) w) [
    | inl (e, q, p) ↦ absurd (cc (rw p at h))
    | inr (found, q, p) ↦
        let same = stamped-same found id _ (rw p at h) in
        let read = exec_ok env (select_active_device digest) w q in
        paired-row digest id w.db.devices (ground arith)
  ]

reply-some :
    (secret gateway_secret id : String) (found : Option String)
    → exchange_reply gateway_secret found ≡ ok (reply 200 (Body.exchanged id secret))
    → (found ≡ some id) × (secret ≡ gateway_secret)
reply-some secret gateway_secret id none h = absurd (cc h)
reply-some secret gateway_secret id (some d) h = (cc h, cc h)

-- The secret of the phones is sent only to a request whose token has the digest of an active
-- device in the table, with the id of that device.
pub exchange_token-paired :
    (crates : Crates) (env : Env) (state : AppState) (token id secret : String) (w : World)
    → (exchange_token env crates state token w).0 ≡ ok (reply 200 (Body.exchanged id secret))
    → (any (is_paired (sign crates "device-token" token) id) w.db.devices ≡ true)
      × (secret ≡ state.sms_hmac_secret)
unfolding exchange_token then_answer
exchange_token-paired crates env state token id secret w h =
    let exchange = Device.exchange_token env crates token in
    elim (bind_cases (λ found v. (exchange_reply state.sms_hmac_secret found, v))
      (map_err db_error exchange) w) [
        | inl (e, q, p) ↦ absurd (cc (rw p at h))
        | inr (found, q, p) ↦
            let (same, sent) = reply-some secret state.sms_hmac_secret id found (rw p at h) in
            (
              exchanged-row crates env token id w
                  (ground (arith, map_err_inv db_error exchange w q)),
              sent,
            )
      ]
