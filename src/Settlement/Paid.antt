-- ===== src/Settlement/Paid.antt =====
-- Which requests to the server of src/http.rs make a charge paid.
use spritexai_pay_core.Prelude.{
  ℕ, String, Bool, Bool-cases, false, ◌≡◌, refl, inl, inr, ◌⊎◌, Option-cases, some, List, [], ◌∷◌,
  ◌++◌,
}
use spritexai_pay_core.Crates.{DigestEquality}
use spritexai_pay_core.Crypto.{verify}
use spritexai_pay_core.Crypto.Signed.{verify_iff}
use spritexai_pay_core.Db.{Tables, ChargeRow, Env, World, update}
use spritexai_pay_core.Db.Triple.{Triple-kept}
use spritexai_pay_core.Stable.{Stable, SameTerms}
use spritexai_pay_core.Stable.Checkouts.{Saturating}
use spritexai_pay_core.Stable.Routes.{InRangeCall, SmsKeptCall, handle-Keeps}
use spritexai_pay_core.Http.{AppState, Headers}
use spritexai_pay_core.Http.Public.{sms_webhook}
use spritexai_pay_core.Http.Server.{Outside, Call, PublicCall, handle, public_handler}
use spritexai_pay_core.Settlement.{is_paid, paid_ids}
use spritexai_pay_core.Settlement.Abstract.{is_paid-pending}

paid_ids-append :
    (rs : List ChargeRow) (r : ChargeRow)
    → is_paid r.status ≡ false
    → paid_ids (rs ++ r ∷ []) ≡ paid_ids rs
paid_ids-append [] r h = rw h refl
paid_ids-append (s ∷ ss) r h = rw (paid_ids-append ss r h) refl

paid_ids-noted :
    (p : ChargeRow → Bool) (g : ChargeRow → ChargeRow) (rs : List ChargeRow)
    → ((r : ChargeRow) → SameTerms (g r) r)
    → paid_ids (update p g rs) ≡ paid_ids rs
paid_ids-noted p g [] same = refl
paid_ids-noted p g (r ∷ rs) same = elim (Bool-cases (p r)) [
  | inl e ↦ rw (e, (same r).status, (same r).id, paid_ids-noted p g rs same) refl
  | inr e ↦ rw (e, paid_ids-noted p g rs same) refl
]

abbrev PaidAre : List String → Tables → Type 0
PaidAre ids db = paid_ids db.charges ≡ ids

PaidAre-Stable : (ids : List String) → Stable (PaidAre ids)
PaidAre-Stable ids = record {
  frame = λ m e. rw (← m.charges) e;
  inserted =
      λ row db n e. rw (paid_ids-append db.charges row (is_paid-pending row.status n.pending)) e;
  noted = λ p g db same e. rw (paid_ids-noted p g db.charges same) e;
}

-- A request that carries the HMAC of its body under the secret of the phones.
abbrev pub IsAuthentic : (x : Outside) → AppState → Headers → Call x.float.F → Type 0
IsAuthentic x state headers (Call.unguarded (PublicCall.sms_webhook raw)) =
    (sig : String) × (headers "x-signature" ≡ some sig)
    × (x.crates.hex_decode sig ≡ some (x.crates.hmac state.sms_hmac_secret raw))
IsAuthentic x state headers _ = ⊥

module _ (x : Outside) (digests : DigestEquality x.crates) (env : Env) (state : AppState)
    (headers : Headers) (w : World) where
  -- An SMS request is authentic, or changes no table.
  sms_webhook-cases :
      (raw : String)
      → IsAuthentic x state headers (Call.unguarded (PublicCall.sms_webhook raw))
        ⊎ ((sms_webhook env x.crates x.float x.ai x.payload_of state headers raw w).1.db ≡ w.db)
  unfolding sms_webhook
  sms_webhook-cases raw = elim (Option-cases (headers "x-signature")) [
    | inl e ↦ inr (rw (e, sms_webhook) refl)
    | inr (sig, e) ↦ elim (Bool-cases (verify x.crates state.sms_hmac_secret raw sig)) [
      | inl good ↦ inl (sig, e, (verify_iff x.crates digests state.sms_hmac_secret raw sig).0 good)
      | inr bad ↦ inr (rw (e, sms_webhook) (rw bad refl))
    ]
  ]

  module _ (saturating : Saturating x.float) (now : ℕ) where
    others :
        (call : Call x.float.F)
        → InRangeCall call
        → SmsKeptCall
            (PaidAre-Stable (paid_ids w.db.charges))
            x
            saturating
            env
            state
            headers
            now
            call
        → PaidAre (paid_ids w.db.charges) (handle x env state headers now call w).1.db
    others call range sms =
        Triple-kept w
          (handle-Keeps (PaidAre-Stable (paid_ids w.db.charges)) x saturating env state headers now
            call range sms)
          refl

    by_call :
        (call : Call x.float.F)
        → InRangeCall call
        → IsAuthentic x state headers call
          ⊎ (paid_ids (handle x env state headers now call w).1.db.charges ≡ paid_ids w.db.charges)
    unfolding handle public_handler
    by_call (Call.console call) range = inr (others (Call.console call) range tt)
    by_call (Call.merchant call) range = inr (others (Call.merchant call) range tt)
    by_call (Call.unguarded (PublicCall.sms_webhook raw)) range = elim (sms_webhook-cases raw) [
      | inl a ↦ inl a
      | inr same ↦ inr (rw same refl)
    ]
    by_call (Call.unguarded call) range = inr (others (Call.unguarded call) range tt)

-- Under the documented behaviour of the HMAC crate, a request either is an SMS that carries, in
-- its header, the HMAC of its exact body under the secret of the paired phones, or leaves the set
-- of paid charges as it was: no call of the console, of a merchant or of a customer settles a
-- charge. It is assumed that the cast of a float to an i64 saturates, and that the amounts of the
-- requests for charges are i64s.
pub handle-paid_ids :
    (x : Outside) (env : Env) (state : AppState) (headers : Headers) (now : ℕ)
    (call : Call x.float.F) (w : World)
    → DigestEquality x.crates
    → Saturating x.float
    → InRangeCall call
    → IsAuthentic x state headers call
      ⊎ (paid_ids (handle x env state headers now call w).1.db.charges ≡ paid_ids w.db.charges)
handle-paid_ids x env state headers now call w digests saturating range =
    by_call x digests env state headers w saturating now call range
