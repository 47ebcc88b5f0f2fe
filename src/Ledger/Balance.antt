-- ===== src/Ledger/Balance.antt =====
-- src/ledger.rs: the sums over the entries, as integers with no bound.
use spritexai_pay_core.Prelude.{
  ℤ, pos, ◌+ℤ◌, int_laws, +ℤ_assoc, +ℤ-zero, ◌≡◌, refl, String, Bool, Bool-cases, inl, inr, true,
  false, List, [], ◌∷◌, ◌++◌, ◌==◌, eq_iff, arith, add64, wrap64, wrap64-add, if◌then◌else◌,
}
use spritexai_pay_core.Db.{LedgerEntry, LedgerTransaction, All, any}
use spritexai_pay_core.Ledger.{Entry, sum_from}
use spritexai_pay_core.Ledger.Atomic.{rows_of}

-- The sum of the entries that a test selects.
abbrev pub total_of : (LedgerEntry → Bool) → List LedgerEntry → ℤ
total_of p [] = pos 0
total_of p (e ∷ es) = (if p e then e.amount_minor else pos 0) +ℤ total_of p es

-- The sum of one transaction, and the balance of one account.
abbrev pub txn_total : String → List LedgerEntry → ℤ
txn_total id = total_of (λ e. e.txn_id == id)

abbrev pub account_total : String → List LedgerEntry → ℤ
account_total account = total_of (λ e. e.account == account)

-- The exact sum of a posting.
abbrev pub exact_sum : List Entry → ℤ
exact_sum [] = pos 0
exact_sum (e ∷ es) = e.amount_minor +ℤ exact_sum es

pub total_of-append :
    (p : LedgerEntry → Bool) (xs ys : List LedgerEntry)
    → total_of p (xs ++ ys) ≡ total_of p xs +ℤ total_of p ys
total_of-append p [] ys = omega int_laws
total_of-append p (x ∷ xs) ys = rw (total_of-append p xs ys) (omega int_laws)

-- The rows of a posting count in full for its own id, and not at all for another.
pub txn_total-rows_of :
    (id j : String) (es : List Entry)
    → txn_total j (rows_of id es) ≡ (if id == j then exact_sum es else pos 0)
txn_total-rows_of id j [] = ground arith
txn_total-rows_of id j (e ∷ es) = rw (txn_total-rows_of id j es) (grind int_laws)

-- No entry belongs to an id that no transaction has.
abbrev pub HasTransaction : List LedgerTransaction → LedgerEntry → Type 0
HasTransaction ts e = any (λ r. r.id == e.txn_id) ts ≡ true

pub txn_total_unknown :
    (id : String) (ts : List LedgerTransaction) (es : List LedgerEntry)
    → All (HasTransaction ts) es
    → any (λ r. r.id == id) ts ≡ false
    → txn_total id es ≡ pos 0
txn_total_unknown id ts [] h fresh = refl
txn_total_unknown id ts (e ∷ es) h fresh =
    rw (txn_total_unknown id ts es h.1 fresh) (elim (Bool-cases (e.txn_id == id)) [
      | inl same ↦ absurd (cc (rw ((eq_iff e.txn_id id).0 same) at h.0, fresh))
      | inr other ↦ rw other (omega int_laws)
    ])

-- The running sum that a posting is checked by is the exact sum of its entries, wrapped to 64 bits
-- once.
pub sum_from_lem :
    (acc : ℤ) (es : List Entry) → sum_from (wrap64 acc) es ≡ wrap64 (acc +ℤ exact_sum es)
unfolding sum_from add64
sum_from_lem acc [] = rw +ℤ-zero
sum_from_lem acc (e ∷ es) =
    rw wrap64-add (rw (sum_from_lem (acc +ℤ e.amount_minor) es) (rw +ℤ_assoc))
