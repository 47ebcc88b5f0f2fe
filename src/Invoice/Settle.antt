-- ===== src/Invoice/Settle.antt =====
-- `settle_for_charge` of src/invoice.rs: what a settled charge does to the invoice that it collects.
use spritexai_pay_core.Prelude.{String, ◌==◌, Bool, false, Option, none, some, ◌&&◌}
use spritexai_pay_core.Db.{InvoiceStatus, is_unpaid, ok, DbError, Env, M, Stmt, exec, update}

-- `column = ?` on a nullable column: NULL equals nothing.
abbrev pub holds : Option String → String → Bool
holds none s = false
holds (some t) s = t == s

unfoldable pub set_invoice_paid : String → Stmt Unit
set_invoice_paid charge_id t db = ok (
  tt,
  record db {
    invoices =
        update (λ r. holds r.charge_id charge_id && is_unpaid r.status)
          (λ r. record r { status = InvoiceStatus.paid; updated_at = t }) db.invoices;
  },
)

unfoldable pub settle_for_charge : Env → String → M DbError Unit
settle_for_charge env charge_id = exec env (set_invoice_paid charge_id)
