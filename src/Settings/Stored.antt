-- ===== src/Settings/Stored.antt =====
-- src/settings.rs: `get` after `set`.
use spritexai_pay_core.Prelude.{
  ◌≡◌, refl, sym, ap, ◌∙◌, inl, inr, ℕ, String, true, false, Option, some, List, [], ◌∷◌, ◌++◌,
  ◌==◌, eq_refl, arith, Bool-cases, if◌then◌else◌,
}
use spritexai_pay_core.Db.{SettingRow, Result, DbError, ok, Env, World, any, first, update}
use spritexai_pay_core.Db.Exec.{exec_cases}
use spritexai_pay_core.Settings.{value_of, select_setting, upsert, get, set}

abbrev written : String → String → ℕ → List SettingRow → List SettingRow
written key value t rows =
    if any (λ r. r.key == key) rows
    then update (λ r. r.key == key) (λ r. record r { value = some value; updated_at = t }) rows
    else rows ++ record { key = key; value = some value; updated_at = t } ∷ []

read-update :
    (key value : String) (t : ℕ) (rows : List SettingRow)
    → any (λ r. r.key == key) rows ≡ true
    → value_of (
        first
          (λ r. r.key == key)
          (update (λ r. r.key == key) (λ r. record r { value = some value; updated_at = t }) rows))
      ≡ some value
read-update key value t [] h = cc
read-update key value t (r ∷ rs) h = elim (Bool-cases (r.key == key)) [
  | inl here ↦ rw here (rw here refl)
  | inr other ↦ rw other (rw other (read-update key value t rs (rw other at h)))
]

read-append :
    (key value : String) (t : ℕ) (rows : List SettingRow)
    → any (λ r. r.key == key) rows ≡ false
    → value_of (
        first
          (λ r. r.key == key)
          (rows ++ record { key = key; value = some value; updated_at = t } ∷ []))
      ≡ some value
read-append key value t [] h = rw (eq_refl key) refl
read-append key value t (r ∷ rs) h = elim (Bool-cases (r.key == key)) [
  | inl here ↦ absurd (cc (rw here at h))
  | inr other ↦ rw other (read-append key value t rs (rw other at h))
]

read-written :
    (key value : String) (t : ℕ) (rows : List SettingRow)
    → value_of (first (λ r. r.key == key) (written key value t rows)) ≡ some value
read-written key value t rows = elim (Bool-cases (any (λ r. r.key == key) rows)) [
  | inl here ↦ rw here (read-update key value t rows here)
  | inr gone ↦ rw gone (read-append key value t rows gone)
]

-- A read of a key that returns right after a write of that key has returned gives the value that
-- was written.
pub get-set :
    (env : Env) (key value : String) (w : World) (v : Option String)
    → (set env key value w).0 ≡ ok tt
    → (get env key (set env key value w).1).0 ≡ ok v
    → v ≡ some value
unfolding get set select_setting upsert
get-set env key value w v done read =
    let w' = (set env key value w).1 in
    elim (exec_cases env (upsert key value) w) [
      | inl e ↦ absurd (cc (rw e at done))
      | inr e ↦ elim (exec_cases env (select_setting key) w') [
        | inl x ↦ absurd (cc (rw x at read))
        | inr x ↦
            let stored : w'.db.settings ≡ written key value (env.now w.statements) w.db.settings =
              ap (λ r. r.1.db.settings) e in
            let now : value_of (first (λ r. r.key == key) w'.db.settings) ≡ some value =
              ap (λ l. value_of (first (λ r. r.key == key) l)) stored
              ∙ read-written key value (env.now w.statements) w.db.settings in
            let given : Path (Result DbError (Option String))
                (ok (value_of (first (λ r. r.key == key) w'.db.settings))) (ok v) =
              sym (ap (λ r. r.0) x) ∙ read in
            let same : value_of (first (λ r. r.key == key) w'.db.settings) ≡ v = ground arith in
            sym same ∙ now
      ]
    ]
