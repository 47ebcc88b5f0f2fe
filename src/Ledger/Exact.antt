-- ===== src/Ledger/Exact.antt =====
-- src/ledger.rs: what `post` writes, by the exact sum of its entries.
use spritexai_pay_core.Prelude.{
  pos, InI64, wrap64, wrap64_id, int_laws, ◌+ℤ◌, ◌≡◌, ◌⊎◌, inl, inr, String, false, List,
}
use spritexai_pay_core.Db.{ok, err, Env, World}
use spritexai_pay_core.Ledger.{Entry, LedgerError, post, sum_from, fewer_than_two}
use spritexai_pay_core.Ledger.Atomic.{posted, known, post_atomic}
use spritexai_pay_core.Ledger.Balance.{exact_sum, sum_from_lem}

-- A wrapped sum of zero is an exact sum of zero, where the exact sum fits.
exact_zero :
    (es : List Entry) → InI64 (exact_sum es) → sum_from (pos 0) es ≡ pos 0 → exact_sum es ≡ pos 0
unfolding wrap64
exact_zero es fits zero =
    let whole : pos 0 +ℤ exact_sum es ≡ exact_sum es = omega int_laws in
    let kept : wrap64 (exact_sum es) ≡ exact_sum es = wrap64_id (exact_sum es) fits in
    let once : sum_from (pos 0) es ≡ wrap64 (pos 0 +ℤ exact_sum es) = sum_from_lem (pos 0) es in
    cc (zero, once, rw whole at once, kept)

module _ (env : Env) (txn_id reference memo : String) (es : List Entry) (w : World) where
  -- Where the exact sum of the entries fits 64 bits: a posting either fails and leaves the tables
  -- as they were, or it has two entries or more whose exact sum is zero, and a fresh id, and the
  -- tables are the old ones with exactly its rows added.
  pub post_exact :
      InI64 (exact_sum es)
      → (((e : LedgerError) × ((post env txn_id reference memo es w).0 ≡ err e))
          × ((post env txn_id reference memo es w).1.db ≡ w.db))
        ⊎ (((post env txn_id reference memo es w).0 ≡ ok tt)
            × ((post env txn_id reference memo es w).1.db ≡ posted txn_id reference memo es w.db)
            × (known txn_id w.db ≡ false)
            × (fewer_than_two es ≡ false)
            × (exact_sum es ≡ pos 0))
  post_exact fits = elim (post_atomic env txn_id reference memo es w) [
    | inl failed ↦ inl failed
    | inr (done, made, fresh, enough, zero) ↦
        inr (done, made, fresh, enough, exact_zero es fits zero)
  ]
