-- ===== src/Invoice.antt =====
-- src/invoice.rs.
pub mod Settle
pub mod Bill
