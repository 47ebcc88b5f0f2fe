-- ===== src/Fraud/Outliers.antt =====
-- The amount rule of src/fraud.rs.
use native.Mathlib.Nat.{mul-le-mul_right}
use spritexai_pay_core.Prelude.{
  pos, ltb_ℤ, ltb, ℕ, suc, ◌+◌, ◌*◌, ◌^◌, ◌<◌, ◌≤◌, ◌≡◌, refl, inl, inr, false, ◌&&◌, Bool-cases,
  List, [], ◌∷◌, arith, map, ap, ◌∙◌, if◌then◌else◌,
}
use spritexai_pay_core.Crates.{Float64}
use spritexai_pay_core.Db.{SmsEvent, ok, Env, World, Quiet, select, count, exec, pure, M, DbError}
use spritexai_pay_core.Db.Exec.{exec-Quiet, bind_ok}
use spritexai_pay_core.Fraud.{
  settled_amounts, select_norm, select_above, outliers_above, amount_outliers,
  min_sample_for_amount, outlier_anomalies, Anomaly,
}

abbrev pub total : List ℕ → ℕ
total [] = 0
total (n ∷ ns) = n + total ns

abbrev pub size : List ℕ → ℕ
size [] = 0
size (n ∷ ns) = suc (size ns)

-- SQLite and IEEE 754: for amounts from zero up whose sum is at most 2^40, ten times the mean is
-- rounded to within one.
abbrev pub CloseMean : Float64 → Type 0
CloseMean f =
    (ns : List ℕ)
    → total ns ≤ 2 ^ 40
    → 0 < size ns
    → (threshold : ℕ) × (f.round_i64 (f.times_ten (f.average (map pos ns))) ≡ pos threshold)
      × (10 * total ns < size ns * suc threshold)

-- With ten amounts or fewer, none of them is above the threshold.
none_above : (n total threshold : ℕ) → n ≤ 10 → 10 * total < n * suc threshold → total ≤ threshold
none_above n total threshold few close = omega (arith, mul-le-mul_right (suc threshold) few)

-- The settled events have these amounts.
abbrev pub Amounts : List SmsEvent → List ℕ → Type 0
Amounts es ns = settled_amounts es ≡ map pos ns

Amounts-count :
    (es : List SmsEvent) (ns : List ℕ) → Amounts es ns → count (λ e. e.matched) es ≡ size ns
Amounts-count [] [] h = refl
Amounts-count [] (n ∷ ns) h = absurd (cc h)
Amounts-count (e ∷ es) [] h = elim (Bool-cases e.matched) [
  | inl m ↦ absurd (cc (rw m at h))
  | inr m ↦ rw m (omega (arith, Amounts-count es [] (rw m at h)))
]
Amounts-count (e ∷ es) (n ∷ ns) h = elim (Bool-cases e.matched) [
  | inl m ↦
      let at_tail : Amounts es ns = cc (rw m at h) in
      rw m (omega (arith, Amounts-count es ns at_tail))
  | inr m ↦ rw m (omega (arith, Amounts-count es (n ∷ ns) (rw m at h)))
]

no_outliers :
    (threshold : ℕ) (es : List SmsEvent) (ns : List ℕ)
    → Amounts es ns
    → total ns ≤ threshold
    → select (λ e. e.matched && ltb_ℤ (pos threshold) e.amount_minor) es ≡ []
no_outliers t [] ns h b = refl
no_outliers t (e ∷ es) [] h b = elim (Bool-cases e.matched) [
  | inl m ↦ absurd (cc (rw m at h))
  | inr m ↦ rw m (no_outliers t es [] (rw m at h) b)
]
no_outliers t (e ∷ es) (n ∷ ns) h b = elim (Bool-cases e.matched) [
  | inl m ↦
      let at_head : e.amount_minor ≡ pos n = cc (rw m at h) in
      let at_tail : Amounts es ns = cc (rw m at h) in
      let low : ltb_ℤ (pos t) (pos n) ≡ false = ground arith in
      rw (m, at_head) (rw low (no_outliers t es ns at_tail (omega arith)))
  | inr m ↦ rw m (no_outliers t es (n ∷ ns) (rw m at h) b)
]

module _ (f : Float64) (env : Env) (quiet : Quiet env) (ns : List ℕ) (threshold : ℕ) where
  above-none :
      (avg : f.F) (w : World)
      → f.round_i64 (f.times_ten avg) ≡ pos threshold
      → Amounts w.db.sms_events ns
      → total ns ≤ threshold
      → (outliers_above f env avg w).0 ≡ ok []
  unfolding outliers_above select_above
  above-none avg w rounded are low =
      let s = select_above (f.round_i64 (f.times_ten avg)) in
      ap (λ r. r.0)
        (bind_ok (λ rows. pure (outlier_anomalies f avg rows)) (exec env s) w
          (exec-Quiet env quiet s w))
      ∙ rw rounded (rw (no_outliers threshold w.db.sms_events ns are low) refl)

module _ (f : Float64) (env : Env) (quiet : Quiet env) where
  -- The rest of the rule, on the norm that was read.
  abbrev judge : ℕ × f.F → M DbError (List Anomaly)
  judge norm = if ltb norm.0 min_sample_for_amount then pure [] else outliers_above f env norm.1

  judged :
      (ns : List ℕ) (w : World)
      → CloseMean f
      → Amounts w.db.sms_events ns
      → total ns ≤ 2 ^ 40
      → size ns ≤ 10
      → (judge (size ns, f.average (map pos ns)) w).0 ≡ ok []
  judged ns w close are bound few = elim (Bool-cases (ltb (size ns) min_sample_for_amount)) [
    | inl none_yet ↦ rw none_yet refl
    | inr enough ↦
        let (threshold, rounded, near) = close ns bound (ground arith) in
        rw enough (
          above-none f env quiet ns threshold (f.average (map pos ns)) w rounded are
            (none_above (size ns) (total ns) threshold few near))
  ]

-- Where the mean is computed to within one, and the amounts of the settled events are from zero up
-- with a sum of at most 2^40: with ten settled events or fewer, in a run in which no statement
-- fails, the amount rule returns and flags nothing.
pub amount_outliers-few :
    (f : Float64) (env : Env) (ns : List ℕ) (w : World)
    → CloseMean f
    → Quiet env
    → Amounts w.db.sms_events ns
    → total ns ≤ 2 ^ 40
    → size ns ≤ 10
    → (amount_outliers f env w).0 ≡ ok []
unfolding amount_outliers select_norm
amount_outliers-few f env ns w close quiet are bound few =
    ap (λ r. r.0)
      (bind_ok (judge f env quiet) (exec env (select_norm f)) w
        (exec-Quiet env quiet (select_norm f) w))
    ∙ rw (Amounts-count w.db.sms_events ns are, are)
        (judged f env quiet ns (record w { statements = suc w.statements }) close are bound few)
