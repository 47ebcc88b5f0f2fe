-- ===== src/Settlement/Abstract.antt =====
-- The server of src/http.rs and the worker of src/webhook.rs as runs of the abstract machine.
use spritexai_pay_core.Prelude.{
  ℕ, String, Bool-cases, true, false, ◌≡◌, refl, inl, inr, some, List, [], ◌∷◌, ◌++◌, ◌==◌, arith,
}
use spritexai_pay_core.Db.{ChargeRow, ChargeStatus, is_pending, Env, World, any, update, first}
use spritexai_pay_core.Db.Lists.{map-update}
use spritexai_pay_core.Db.Triple.{Triple-kept}
use spritexai_pay_core.Stable.{Stable, SameTerms, Settles}
use spritexai_pay_core.Stable.Checkouts.{Saturating}
use spritexai_pay_core.Stable.Routes.{InRangeCall, handle-Keeps_all}
use spritexai_pay_core.Http.{AppState, Headers}
use spritexai_pay_core.Http.Server.{Outside, Call, handle}
use spritexai_pay_core.Settlement.{
  Bill, bill_of, bills, is_paid, settle, Step, Run, opens, settles, stay, move,
}
use spritexai_pay_core.Settlement.Bills.{paid_at, mark_paid-Settles}

-- A run from some bills to those of the charges.
abbrev pub RunTo : List Bill → List ChargeRow → Type 0
RunTo start rs = Run start (bills rs)

pub is_paid-pending : (s : ChargeStatus) → is_pending s ≡ true → is_paid s ≡ false
is_paid-pending ChargeStatus.pending h = refl
is_paid-pending ChargeStatus.paid h = absurd (cc h)
is_paid-pending ChargeStatus.failed h = absurd (cc h)
is_paid-pending ChargeStatus.expired h = absurd (cc h)

any-bills :
    (id : String) (rs : List ChargeRow)
    → any (λ b. b.id == id) (bills rs) ≡ any (λ r. r.id == id) rs
any-bills id [] = refl
any-bills id (r ∷ rs) = ground (arith, any-bills id rs)

bills-paid :
    (id : String) (t : ℕ) (rs : List ChargeRow)
    → bills (update (λ r. r.id == id) (paid_at t) rs) ≡ update (λ b. b.id == id) settle (bills rs)
bills-paid id t [] = refl
bills-paid id t (r ∷ rs) = elim (Bool-cases (r.id == id)) [
  | inl e ↦ rw (e, bills-paid id t rs) refl
  | inr e ↦ rw (e, bills-paid id t rs) refl
]

bills-append :
    (r : ChargeRow) (rs : List ChargeRow) → bills (rs ++ r ∷ []) ≡ bills rs ++ bill_of r ∷ []
bills-append r [] = refl
bills-append r (s ∷ ss) = rw (bills-append r ss) refl

bill_of-SameTerms : {r s : ChargeRow} → SameTerms r s → bill_of r ≡ bill_of s
bill_of-SameTerms h = ground (arith, h.id, h.amount, h.currency, h.status)

pub RunTo-Stable : (start : List Bill) → Stable (λ db. RunTo start db.charges)
RunTo-Stable start = record {
  frame = λ m run. rw (← m.charges) run;
  inserted = λ row db n run. rw (bills-append row db.charges) (
      move run (
        opens (bill_of row) (bills db.charges) (is_paid-pending row.status n.pending)
          (let p = n.positive in ground arith) (rw (any-bills row.id db.charges) n.fresh)));
  noted = λ p g db same run.
      rw (map-update bill_of p g db.charges (λ r. bill_of-SameTerms (same r))) run;
}

pub RunTo-Settles : (start : List Bill) → Settles (λ db. RunTo start db.charges)
RunTo-Settles start =
    mark_paid-Settles (RunTo start) (RunTo-Stable start)
      λ id t rs run. rw (bills-paid id t rs) (move run (settles id (bills rs)))

-- Every request to the server, whoever sends it and whichever statement fails, is a run of the
-- abstract machine on the bills that the charges are: it opens unsettled bills of positive amounts
-- under new ids and settles bills, and does nothing else to them. It is assumed that the cast of a
-- float to an i64 saturates, and that the amounts of the requests for charges are i64s.
pub handle-Run :
    (x : Outside) (env : Env) (state : AppState) (headers : Headers) (now : ℕ)
    (call : Call x.float.F) (w : World)
    → Saturating x.float
    → InRangeCall call
    → Run (bills w.db.charges) (bills (handle x env state headers now call w).1.db.charges)
handle-Run x env state headers now call w saturating range =
    let start = bills w.db.charges in
    Triple-kept w
      (handle-Keeps_all (RunTo-Stable start) x saturating env state headers (RunTo-Settles start)
        now call range)
      stay

-- What becomes of a bill: the same terms, and still settled if it was.
abbrev pub Later : Bill → Bill → Type 0
Later b c =
    (c.id ≡ b.id)
    × (c.amount_minor ≡ b.amount_minor)
    × (c.currency ≡ b.currency)
    × (b.settled ≡ true → c.settled ≡ true)

-- The bill of an id has a later form among others.
abbrev pub Survives : String → Bill → List Bill → Type 0
Survives id b bs = (c : Bill) × (first (λ d. d.id == id) bs ≡ some c) × Later b c

first-append_some :
    (id : String) (bs cs : List Bill) (b : Bill)
    → first (λ d. d.id == id) bs ≡ some b
    → first (λ d. d.id == id) (bs ++ cs) ≡ some b
first-append_some id [] cs b h = absurd (cc h)
first-append_some id (d ∷ ds) cs b h = ground (arith, first-append_some id ds cs b)

first-settle :
    (id i : String) (bs : List Bill) (b : Bill)
    → first (λ d. d.id == id) bs ≡ some b
    → Survives id b (update (λ d. d.id == i) settle bs)
first-settle id i [] b h = absurd (cc h)
first-settle id i (d ∷ ds) b h = elim (Bool-cases (d.id == id)) [
  | inr other ↦ elim (Bool-cases (d.id == i)) [
    | inl e ↦ rw (e, other) (first-settle id i ds b (rw other at h))
    | inr e ↦ rw (e, other) (first-settle id i ds b (rw other at h))
  ]
  | inl here ↦
      let same : d ≡ b = ground arith in
      elim (Bool-cases (d.id == i)) [
        | inl e ↦ rw (e, here) (settle d, refl, rw (← same) (refl, refl, refl, λ p. refl))
        | inr e ↦ rw (e, here) (d, refl, rw (← same) (refl, refl, refl, λ p. p))
      ]
]

step-Survives :
    (id : String) (b : Bill) {bs cs : List Bill} → Survives id b bs → Step bs cs → Survives id b cs
step-Survives id b (c, found, later) (opens d bs u p n) =
    (c, first-append_some id bs (d ∷ []) c found, later)
step-Survives id b (c, found, (same, amount, currency, kept)) (settles i bs) =
    let (d, found', (same', amount', currency', kept')) = first-settle id i bs c found in
    (d, found', (cc, cc, cc, λ p. kept' (kept p)))

-- Along a run of the machine, a bill stays, with its amount and its currency, and once it is settled
-- it is settled for good.
pub Run-Survives :
    (id : String) (b : Bill) {bs cs : List Bill}
    → Run bs cs
    → first (λ d. d.id == id) bs ≡ some b
    → Survives id b cs
Run-Survives id b stay found = (b, found, (refl, refl, refl, λ p. p))
Run-Survives id b (move run step) found = step-Survives id b (Run-Survives id b run found) step

-- Whatever a request to the server does, a charge stays in the table with its amount and its
-- currency, and a paid charge stays paid. It is assumed that the cast of a float to an i64
-- saturates, and that the amounts of the requests for charges are i64s.
pub handle-Survives :
    (x : Outside) (env : Env) (state : AppState) (headers : Headers) (now : ℕ)
    (call : Call x.float.F) (w : World) (id : String) (b : Bill)
    → Saturating x.float
    → InRangeCall call
    → first (λ d. d.id == id) (bills w.db.charges) ≡ some b
    → Survives id b (bills (handle x env state headers now call w).1.db.charges)
handle-Survives x env state headers now call w id b saturating range found =
    Run-Survives id b (handle-Run x env state headers now call w saturating range) found
