-- ===== src/Ledger/Atomic.antt =====
-- src/ledger.rs: `post` as one change of the tables.
use mathlib.Core.List.{append-nil, append_assoc}
use spritexai_pay_core.Prelude.{
  pos, eqb_ℤ, eqb_ℤ_iff, ◌≡◌, ◌⊎◌, inl, inr, String, Bool, true, false, List, [], ◌∷◌, ◌++◌, ◌==◌,
  eq_refl, arith, Bool-cases,
}
use spritexai_pay_core.Db.{
  Tables, LedgerTransaction, LedgerEntry, ok, err, DbError, Env, World, M, ◌>>◌, exec, transaction,
  any,
}
use spritexai_pay_core.Db.Exec.{
  exec_ok, Result-cases, bind_cases, transaction_err, transaction_ok, begun,
}
use spritexai_pay_core.Ledger.{
  Entry, LedgerError, too_few_entries, unbalanced, db_error, insert_transaction, insert_entry,
  insert_entries, post, sum_from, fewer_than_two,
}

-- The rows that a list of entries becomes.
abbrev pub rows_of : String → List Entry → List LedgerEntry
rows_of txn_id [] = []
rows_of txn_id (e ∷ es) =
    record {
      txn_id = txn_id;
      account = e.account;
      amount_minor = e.amount_minor;
      currency = e.currency;
    }
    ∷ rows_of txn_id es

-- The tables with a posting in them.
abbrev pub posted : String → String → String → List Entry → Tables → Tables
posted txn_id reference memo es db = record db {
  ledger_transactions =
      db.ledger_transactions ++ record { id = txn_id; reference = reference; memo = memo } ∷ [];
  ledger_entries = db.ledger_entries ++ rows_of txn_id es;
}

abbrev pub known : String → Tables → Bool
known txn_id db = any (λ r. r.id == txn_id) db.ledger_transactions

any-append_self :
    (txn_id reference memo : String) (ts : List LedgerTransaction)
    → any
        (λ r. r.id == txn_id)
        (ts ++ record { id = txn_id; reference = reference; memo = memo } ∷ [])
      ≡ true
any-append_self txn_id reference memo [] = ground (arith, eq_refl txn_id)
any-append_self txn_id reference memo (t ∷ ts) =
    ground (arith, any-append_self txn_id reference memo ts)

module _ (env : Env) (txn_id : String) where
  insert_entry_ok :
      (e : Entry) (w : World)
      → (exec env (insert_entry txn_id e) w).0 ≡ ok tt
      → (exec env (insert_entry txn_id e) w).1.db
        ≡ record w.db { ledger_entries = w.db.ledger_entries ++ rows_of txn_id (e ∷ []) }
  unfolding insert_entry
  insert_entry_ok e w h = ground (arith, exec_ok env (insert_entry txn_id e) w h)

  insert_entries_ok :
      (es : List Entry) (w : World)
      → (insert_entries env txn_id es w).0 ≡ ok tt
      → (insert_entries env txn_id es w).1.db
        ≡ record w.db { ledger_entries = w.db.ledger_entries ++ rows_of txn_id es }
  unfolding insert_entries
  insert_entries_ok [] w h = rw append-nil
  insert_entries_ok (e ∷ es) w h =
      elim (bind_cases (λ _. insert_entries env txn_id es) (exec env (insert_entry txn_id e)) w) [
        | inl (x, _, p) ↦ absurd (cc (p, h))
        | inr (u, q, p) ↦ rw p (
            rw (insert_entries_ok es (exec env (insert_entry txn_id e) w).1 (rw p at h))
              (rw (insert_entry_ok e w q) (rw append_assoc)))
      ]

module _ (env : Env) (txn_id reference memo : String) (es : List Entry) where
  -- The body of the database transaction in `post`.
  abbrev inserts : M DbError Unit
  inserts = exec env (insert_transaction txn_id reference memo) >> insert_entries env txn_id es

  insert_transaction_ok :
      (w : World)
      → (exec env (insert_transaction txn_id reference memo) w).0 ≡ ok tt
      → ((exec env (insert_transaction txn_id reference memo) w).1.db
          ≡ posted txn_id reference memo [] w.db)
        × (known txn_id w.db ≡ false)
  unfolding insert_transaction
  insert_transaction_ok w h =
      rw append-nil (ground (arith, exec_ok env (insert_transaction txn_id reference memo) w h))

  inserts_ok :
      (w : World)
      → (inserts w).0 ≡ ok tt
      → ((inserts w).1.db ≡ posted txn_id reference memo es w.db) × (known txn_id w.db ≡ false)
  inserts_ok w h =
      elim (bind_cases (λ _. insert_entries env txn_id es)
        (exec env (insert_transaction txn_id reference memo)) w) [
          | inl (x, _, p) ↦ absurd (cc (p, h))
          | inr (u, q, p) ↦
              let (made, fresh) = insert_transaction_ok w q in
              (
                rw p (
                    rw
                      (insert_entries_ok env txn_id es
                        (exec env (insert_transaction txn_id reference memo) w).1 (rw p at h))
                      (rw made (rw append-nil))),
                fresh,
              )
        ]

  module _ (w : World) where
    -- A posting either fails and leaves the tables as they were, or it has two entries or more
    -- that sum to zero and a fresh id, and the tables are the old ones with exactly its rows
    -- added.
    pub post_atomic :
        (((e : LedgerError) × ((post env txn_id reference memo es w).0 ≡ err e))
          × ((post env txn_id reference memo es w).1.db ≡ w.db))
        ⊎ (((post env txn_id reference memo es w).0 ≡ ok tt)
            × ((post env txn_id reference memo es w).1.db ≡ posted txn_id reference memo es w.db)
            × (known txn_id w.db ≡ false)
            × (fewer_than_two es ≡ false)
            × (sum_from (pos 0) es ≡ pos 0))
    unfolding post
    post_atomic = elim (Bool-cases (fewer_than_two es)) [
      | inl few ↦ inl ((too_few_entries, ground arith), ground arith)
      | inr enough ↦ elim (Bool-cases (eqb_ℤ (sum_from (pos 0) es) (pos 0))) [
        | inr off ↦ inl ((unbalanced (sum_from (pos 0) es), ground arith), ground arith)
        | inl zero ↦ elim (Result-cases (transaction env inserts w).0) [
          | inr (e, q) ↦
              inl ((db_error e, ground arith), ground (arith, transaction_err env inserts w q))
          | inl (u, q) ↦
              let (ran, same, start) = transaction_ok env inserts w q in
              let (made, fresh) = inserts_ok (begun env inserts w) ran in
              inr (ground arith, ground arith, ground arith, enough, (eqb_ℤ_iff _ _).0 zero)
        ]
      ]
    ]
