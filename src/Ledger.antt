-- ===== src/Ledger.antt =====
-- src/ledger.rs: double-entry postings. The parent declares the operations; the children prove.
pub mod Atomic
pub mod Balance
pub mod Exact
pub mod Quiet
use spritexai_pay_core.Prelude.{
  ℤ, pos, add64, neg64, eqb_ℤ, ◌+ℤ◌, ◌<◌, ◌≤◌, ◌^◌, String, Bool, true, not, ◌≡◌, List, [], ◌∷◌,
  ◌++◌, pos_part, neg_part, ◌==◌, Option, none, some, ltb, leb, ◌&&◌, if◌then◌else◌,
}
use spritexai_pay_core.Db.{
  Tables, LedgerTransaction, LedgerEntry, Result, ok, err, DbError, unique_violation,
  foreign_key_violation, integer_overflow, Env, World, M, pure, throw, ◌>>=◌, ◌>>◌, Stmt, exec,
  transaction, map_err, any, select,
}

-- `ledger::Entry`
pub record Entry : Type 0 where
  pub account : String
  pub amount_minor : ℤ
  pub currency : String

unfoldable pub debit : String → ℤ → String → Entry
debit account amount_minor currency = record {
  account = account;
  amount_minor = amount_minor;
  currency = currency;
}

unfoldable pub credit : String → ℤ → String → Entry
credit account amount_minor currency = record {
  account = account;
  amount_minor = neg64 amount_minor;
  currency = currency;
}

pub data LedgerError : Type 0 where
  unbalanced : ℤ → LedgerError
  too_few_entries : LedgerError
  db_error : DbError → LedgerError

-- `entries.iter().map(|e| e.amount_minor).sum()`, which adds from the left and wraps.
unfoldable pub sum_from : ℤ → List Entry → ℤ
sum_from acc [] = acc
sum_from acc (e ∷ es) = sum_from (add64 acc e.amount_minor) es

-- `entries.len() < 2`
abbrev pub fewer_than_two : List Entry → Bool
fewer_than_two [] = true
fewer_than_two (e ∷ []) = true
fewer_than_two _ = not true

unfoldable pub insert_transaction : String → String → String → Stmt Unit
insert_transaction txn_id reference memo t db =
    if any (λ r. r.id == txn_id) db.ledger_transactions
    then err unique_violation
    else ok (
      tt,
      record db {
        ledger_transactions =
            db.ledger_transactions
            ++ record { id = txn_id; reference = reference; memo = memo } ∷ [];
      },
    )

unfoldable pub insert_entry : String → Entry → Stmt Unit
insert_entry txn_id e t db =
    if any (λ r. r.id == txn_id) db.ledger_transactions
    then ok (
      tt,
      record db {
        ledger_entries =
            db.ledger_entries
            ++ record {
              txn_id = txn_id;
              account = e.account;
              amount_minor = e.amount_minor;
              currency = e.currency;
            }
              ∷ [];
      },
    )
    else err foreign_key_violation

module _ (env : Env) where
  -- `for e in entries { INSERT INTO ledger_entries … }`
  unfoldable pub insert_entries : String → List Entry → M DbError Unit
  insert_entries txn_id [] = pure tt
  insert_entries txn_id (e ∷ es) = exec env (insert_entry txn_id e) >> insert_entries txn_id es

  unfoldable pub post : String → String → String → List Entry → M LedgerError Unit
  post txn_id reference memo entries w =
      if fewer_than_two entries
      then (err too_few_entries, w)
      else let sum = sum_from (pos 0) entries in
        if eqb_ℤ sum (pos 0)
        then map_err db_error
            (transaction env (
              exec env (insert_transaction txn_id reference memo) >> insert_entries txn_id entries))
            w
        else (err (unbalanced sum), w)

-- `SUM(amount_minor)`: SQLite adds the column row by row and fails on an overflow.
unfoldable pub sum_column : ℤ → List LedgerEntry → Option ℤ
sum_column acc [] = some acc
sum_column acc (e ∷ es) =
    let s = acc +ℤ e.amount_minor in
    let rest = sum_column s es in
    if ltb (pos_part s) (2 ^ 63) && leb (neg_part s) (2 ^ 63) then rest else none

unfoldable pub select_balance : String → Stmt ℤ
select_balance account t db =
    elim (sum_column (pos 0) (select (λ e. e.account == account) db.ledger_entries)) [
      | none ↦ err integer_overflow
      | some s ↦ ok (s, db)
    ]

unfoldable pub account_balance : Env → String → M DbError ℤ
account_balance env account = exec env (select_balance account)
