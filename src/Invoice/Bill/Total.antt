-- ===== src/Invoice/Bill/Total.antt =====
-- The total of an invoice in src/invoice.rs.
use spritexai_pay_core.Prelude.{
  ℤ, pos, ◌+ℤ◌, ◌*ℤ◌, +ℤ_assoc, +ℤ_comm, zero-+ℤ, +ℤ-zero, wrap64, wrap64-add, add64, mul64, ◌≡◌,
  refl, ◌∙◌, sym, ap, List, [], ◌∷◌,
}
use spritexai_pay_core.Invoice.Bill.{LineItem, total_from}

-- The sum of the items, with no bound.
abbrev pub exact_total : List LineItem → ℤ
exact_total [] = pos 0
exact_total (i ∷ is) = i.quantity *ℤ i.unit_minor +ℤ exact_total is

-- Wrapping the second part first makes no difference either.
add-wrap64 : (a b : ℤ) → wrap64 (a +ℤ wrap64 b) ≡ wrap64 (a +ℤ b)
add-wrap64 a b = ap wrap64 (+ℤ_comm a (wrap64 b)) ∙ wrap64-add b a ∙ ap wrap64 (+ℤ_comm b a)

total_from-wrap64 :
    (acc : ℤ) (is : List LineItem) → total_from (wrap64 acc) is ≡ wrap64 (acc +ℤ exact_total is)
unfolding total_from add64 mul64
total_from-wrap64 acc [] = rw +ℤ-zero refl
total_from-wrap64 acc (i ∷ is) = rw wrap64-add (
    rw add-wrap64
      (rw (total_from-wrap64 (acc +ℤ i.quantity *ℤ i.unit_minor) is) (rw +ℤ_assoc refl)))

zero_wraps : wrap64 (pos 0) ≡ pos 0
unfolding wrap64
zero_wraps = refl

-- The total that an invoice is drafted for is the exact total of its items, wrapped to 64 bits
-- once.
pub total_from_lem : (items : List LineItem) → total_from (pos 0) items ≡ wrap64 (exact_total items)
total_from_lem items =
    ap (λ a. total_from a items) (sym zero_wraps)
    ∙ total_from-wrap64 (pos 0) items
    ∙ ap wrap64 (zero-+ℤ (exact_total items))
