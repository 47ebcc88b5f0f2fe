-- ===== src/PaymentLink/Exhausted.antt =====
-- The limit on the uses of a link in src/payment_link.rs.
use spritexai_pay_core.Prelude.{
  ℤ, pos, ◌≤ℤ◌, ◌≡◌, ◌⊎◌, String, true, Option, none, some, List, ◌==◌, if◌then◌else◌,
}
use spritexai_pay_core.Crates.{Float64}
use spritexai_pay_core.Db.{
  Tables, PaymentLink, Result, ok, err, Env, World, M, first, update, lift, ok_or, throw, ◌>>=◌,
}
use spritexai_pay_core.Checkout.{CheckoutCreated}
use spritexai_pay_core.Checkout.Guarded.{Created}
use spritexai_pay_core.PaymentLink.{
  LinkError, not_found, inactive, one_less, is_active_link, amount_of, link_checkout, open_active,
}

-- The tables with other links.
abbrev pub with_links : List PaymentLink → Tables → Tables
with_links links db = record db { payment_links = links }

-- The links before and after a use of one: a positive quantity is one less, and a quantity of zero
-- or less, or none at all, is no limit.
abbrev pub Used : String → Option ℤ → List PaymentLink → List PaymentLink → Type 0
Used reference none before after = after ≡ before
Used reference (some q) before after =
    ((pos 1 ≤ℤ q)
      × (after
          ≡ update (λ r. r.reference == reference)
              (λ r. record r { quantity = one_less r.quantity }) before))
    ⊎ ((q ≤ℤ pos 0) × (after ≡ before))

-- What an opening leaves.
abbrev pub Opened :
    Env
    → (f : Float64) → String
    → Option ℤ
    → Tables
    → Result LinkError CheckoutCreated × World
    → Type 0
Opened env f reference over db (ok c, w) =
    (link : PaymentLink) × (amount : ℤ) × (links : List PaymentLink) × (first
        (λ r. r.reference == reference) db.payment_links
      ≡ some link)
    × (is_active_link link.status ≡ true)
    × (amount_of link.amount_minor over ≡ ok amount)
    × Used reference link.quantity db.payment_links links
    × Created f (link_checkout env f link.currency amount) (with_links links db) (ok c, w)
Opened env f reference over db (err e, w) =
    (w.db ≡ db)
    ⊎ ((link : PaymentLink) × (links : List PaymentLink) × (first (λ r. r.reference == reference)
            db.payment_links
          ≡ some link)
        × (is_active_link link.status ≡ true)
        × Used reference link.quantity db.payment_links links
        × (w.db ≡ with_links links db))

module _ (env : Env) where
  module _ (f : Float64) (base_url reference : String) (over : Option ℤ) where
    -- What `open_link` does with the row that it has read.
    after_row : Option PaymentLink → M LinkError CheckoutCreated
    after_row row = do
      link ← lift (ok_or row not_found)
      if is_active_link link.status
          then open_active env f base_url link reference over
          else throw inactive
