-- ===== src/Tests.antt =====
-- Concrete runs: the parameters instantiated, and the theorems applied.
mod Outside
mod Money
mod Edges
mod Bills
mod Server
mod Page
mod InFlight
mod Fraud
mod Group
