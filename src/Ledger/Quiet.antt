-- ===== src/Ledger/Quiet.antt =====
-- src/ledger.rs: `post` where no statement fails.
use spritexai_pay_core.Prelude.{
  pos, eqb_ℤ, String, ◌≡◌, refl, ◌∙◌, true, false, List, [], ◌∷◌, ◌++◌, eq_refl, arith,
}
use spritexai_pay_core.Db.{Env, World, Quiet, exec, no_op, pure, ◌>>=◌, ◌>>◌}
use spritexai_pay_core.Db.Lists.{any-append}
use spritexai_pay_core.Db.Total.{
  Returns, Returns-pure, Returns-bind, Returns-weaken, Returns-map_err, Returns-exec,
  Returns-transaction,
}
use spritexai_pay_core.Ledger.{
  Entry, LedgerError, insert_transaction, insert_entry, insert_entries, post, sum_from,
  fewer_than_two,
}
use spritexai_pay_core.Ledger.Atomic.{known}

module _ (env : Env) (quiet : Quiet env) where
  -- The world has kept the charges and the deliveries of another, and the counter of its ids.
  pub record Kept (w v : World) : Type 0 where
    pub charges : v.db.charges ≡ w.db.charges
    pub deliveries : v.db.webhook_deliveries ≡ w.db.webhook_deliveries
    pub drawn : v.drawn ≡ w.drawn

  Kept-trans : {u v w : World} → Kept u v → Kept v w → Kept u w
  Kept-trans h k = record {
    charges = k.charges ∙ h.charges;
    deliveries = k.deliveries ∙ h.deliveries;
    drawn = k.drawn ∙ h.drawn;
  }

  module _ (txn_id : String) where
    entry-Returns :
        (e : Entry) (w : World)
        → known txn_id w.db ≡ true
        → Returns
            (exec env (insert_entry txn_id e))
            w
            (λ u v. Kept w v × (known txn_id v.db ≡ true))
    unfolding insert_entry
    entry-Returns e w h =
        Returns-exec env quiet (insert_entry txn_id e) w tt
          (record w.db {
            ledger_entries =
                w.db.ledger_entries
                ++ record {
                  txn_id = txn_id;
                  account = e.account;
                  amount_minor = e.amount_minor;
                  currency = e.currency;
                }
                  ∷ [];
          })
          (rw h refl) (record { charges = refl; deliveries = refl; drawn = refl }, h)

    entries-Returns :
        (es : List Entry) (w : World)
        → known txn_id w.db ≡ true
        → Returns (insert_entries env txn_id es) w (λ u v. Kept w v)
    unfolding insert_entries
    entries-Returns [] w h =
        Returns-pure tt w (record { charges = refl; deliveries = refl; drawn = refl })
    entries-Returns (e ∷ es) w h =
        Returns-bind w (entry-Returns e w h)
          λ u v k. Returns-weaken (λ u' v' k'. Kept-trans k.0 k') (entries-Returns es v k.1)

    no_op-Returns :
        (w : World) → Returns (exec env no_op) w (λ u v. (v.db ≡ w.db) × (v.drawn ≡ w.drawn))
    no_op-Returns w = Returns-exec env quiet no_op w tt w.db refl (refl, refl)

    transaction_row-Returns :
        (reference memo : String) (w : World)
        → known txn_id w.db ≡ false
        → Returns
            (exec env (insert_transaction txn_id reference memo))
            w
            (λ u v. Kept w v × (known txn_id v.db ≡ true))
    unfolding insert_transaction
    transaction_row-Returns reference memo w h =
        Returns-exec env quiet (insert_transaction txn_id reference memo) w tt
          (record w.db {
            ledger_transactions =
                w.db.ledger_transactions
                ++ record { id = txn_id; reference = reference; memo = memo } ∷ [];
          })
          (rw h refl)
          (
            record { charges = refl; deliveries = refl; drawn = refl },
            rw any-append (ground (arith, eq_refl txn_id)),
          )

    inserts-Returns :
        (reference memo : String) (es : List Entry) (w : World)
        → known txn_id w.db ≡ false
        → Returns
            (do
              exec env no_op
              a ←
                  (exec env (insert_transaction txn_id reference memo)
                    >> insert_entries env txn_id es)
              exec env no_op
              pure a)
            w
            (λ u v. Kept w v)
    inserts-Returns reference memo es w h = Returns-bind w (no_op-Returns w) λ u0 v0 (same, drawn).
        Returns-bind v0
          (Returns-bind v0 (transaction_row-Returns reference memo v0 (rw same h)) λ u1 v1 k1.
            Returns-weaken (λ u2 v2 k2. Kept-trans k1.0 k2) (entries-Returns es v1 k1.1))
          λ u2 v2 k2. Returns-bind v2 (no_op-Returns v2) λ u3 v3 (same', drawn').
            Returns-pure u2 v3 (record {
              charges = rw same' (k2.charges ∙ rw same refl);
              deliveries = rw same' (k2.deliveries ∙ rw same refl);
              drawn = drawn' ∙ k2.drawn ∙ drawn;
            })

    pub post-Returns :
        (reference memo : String) (es : List Entry) (w : World)
        → fewer_than_two es ≡ false
        → eqb_ℤ (sum_from (pos 0) es) (pos 0) ≡ true
        → known txn_id w.db ≡ false
        → Returns (post env txn_id reference memo es) w (λ u v. Kept w v)
    unfolding post
    post-Returns reference memo es w enough balanced h =
        let done = Returns-map_err LedgerError.db_error w (
          Returns-transaction env
            (exec env (insert_transaction txn_id reference memo) >> insert_entries env txn_id es) w
            (inserts-Returns reference memo es w h)) in
        record {
          value = done.value;
          after = done.after;
          runs = rw (post, enough) (rw balanced done.runs);
          holds = done.holds;
        }
