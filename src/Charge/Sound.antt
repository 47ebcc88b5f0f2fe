-- ===== src/Charge/Sound.antt =====
-- The money invariant over the charges of src/charge.rs and the entries of src/ledger.rs.
use spritexai_pay_core.Prelude.{
  ℤ, pos, ◌+ℤ◌, -ℤ◌, int_laws, ◌≡◌, ◌∙◌, inl, inr, String, true, false, List, [], ◌∷◌, ◌++◌, ◌==◌,
  eq_refl, arith, InI64, neg64, Bool-cases, neg64-pos, negsuc, ◌≤ℤ◌,
}
use spritexai_pay_core.Db.{Tables, ChargeRow, LedgerEntry, LedgerTransaction, All, any}
use spritexai_pay_core.Db.Lists.{All-append, any-append}
use spritexai_pay_core.Ledger.{Entry, debit, credit}
use spritexai_pay_core.Ledger.Atomic.{rows_of, posted, known}
use spritexai_pay_core.Ledger.Balance.{
  txn_total, account_total, exact_sum, total_of-append, txn_total-rows_of, HasTransaction,
}
use spritexai_pay_core.Charge.{merchant_receivable, customer_clearing}

-- A positive amount of 64 bits.
abbrev pub IsAmount : ℤ → Type 0
IsAmount a = (pos 1 ≤ℤ a) × InI64 a

abbrev pub HasAmount : ChargeRow → Type 0
HasAmount r = IsAmount r.amount_minor

-- Every charge has a positive amount, every ledger entry has its transaction, every transaction
-- sums to zero, and the two accounts of the settlements mirror each other.
pub record Sound (db : Tables) : Type 0 where
  pub amounts : All HasAmount db.charges
  pub entries : All (HasTransaction db.ledger_transactions) db.ledger_entries
  pub balanced : (id : String) → txn_total id db.ledger_entries ≡ pos 0
  pub mirrored :
      account_total merchant_receivable db.ledger_entries
        +ℤ account_total customer_clearing db.ledger_entries
      ≡ pos 0

-- The two entries of a settlement.
abbrev pub settlement : ℤ → String → List Entry
settlement amount currency =
    debit merchant_receivable amount currency ∷ credit customer_clearing amount currency ∷ []

pub neg64-amount : (a : ℤ) → IsAmount a → neg64 a ≡ -ℤ◌ a
neg64-amount (pos n) h = neg64-pos n h.1.0
neg64-amount (negsuc n) h = absurd (omega arith)

pub exact_sum-settlement :
    (a : ℤ) (currency : String) → IsAmount a → exact_sum (settlement a currency) ≡ pos 0
unfolding debit credit
exact_sum-settlement a currency h = rw (neg64-amount a h) (omega int_laws)

HasTransaction-append :
    (ts us : List LedgerTransaction) (es : List LedgerEntry)
    → All (HasTransaction ts) es
    → All (HasTransaction (ts ++ us)) es
HasTransaction-append ts us [] h = tt
HasTransaction-append ts us (e ∷ es) h =
    (rw any-append (rw h.0), HasTransaction-append ts us es h.1)

any_last :
    (id reference memo : String) (ts : List LedgerTransaction)
    → any (λ r. r.id == id) (ts ++ record { id = id; reference = reference; memo = memo } ∷ [])
      ≡ true
any_last id reference memo [] = ground (arith, eq_refl id)
any_last id reference memo (t ∷ ts) = ground (arith, any_last id reference memo ts)

-- What a settlement adds to the two accounts.
pub account_total-settlement :
    (id : String) (a : ℤ) (currency : String)
    → IsAmount a
    → (account_total merchant_receivable (rows_of id (settlement a currency)) ≡ a)
      × (account_total customer_clearing (rows_of id (settlement a currency)) ≡ -ℤ◌ a)
unfolding debit credit
account_total-settlement id a currency h = rw (neg64-amount a h) (omega int_laws)

cancel : (r a c : ℤ) → r +ℤ a +ℤ (c +ℤ -ℤ◌ a) ≡ r +ℤ c
cancel r a c = omega int_laws

pub posted-Sound :
    {db : Tables} (id reference memo currency : String) (a : ℤ)
    → IsAmount a
    → known id db ≡ false
    → Sound db
    → Sound (posted id reference memo (settlement a currency) db)
posted-Sound {db} id reference memo currency a h fresh s = record {
  amounts = s.amounts;
  entries =
      All-append (HasTransaction _) db.ledger_entries (rows_of id (settlement a currency))
        (HasTransaction-append db.ledger_transactions _ db.ledger_entries s.entries)
        (
          any_last id reference memo db.ledger_transactions,
          (any_last id reference memo db.ledger_transactions, tt),
        );
  balanced = λ j. rw total_of-append (
      rw (s.balanced j, txn_total-rows_of id j (settlement a currency))
        (elim (Bool-cases (id == j)) [
          | inl same ↦ rw same (rw (exact_sum-settlement a currency h) (omega int_laws))
          | inr other ↦ rw other (omega int_laws)
        ]));
  mirrored =
      let (r, c) = account_total-settlement id a currency h in
      rw (total_of-append) (rw total_of-append (rw (r, c) (cancel _ a _ ∙ s.mirrored)));
}

-- The invariant reads three tables only.
pub Sound-of :
    {db db' : Tables}
    → All HasAmount db'.charges
    → db.ledger_transactions ≡ db'.ledger_transactions
    → db.ledger_entries ≡ db'.ledger_entries
    → Sound db
    → Sound db'
Sound-of amounts p q s = record {
  amounts = amounts;
  entries = rw (← p) (rw (← q) s.entries);
  balanced = λ j. rw (← q) (s.balanced j);
  mirrored = rw (← q) s.mirrored;
}
