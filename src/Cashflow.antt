-- ===== src/Cashflow.antt =====
-- The three-pot cashflow service, aae/cashflow.
pub mod Floors
pub mod Split
pub mod Ledger
pub mod Reconcile
pub mod Balances
pub mod Writes
pub mod Requests
pub mod Pots
pub mod Solvency
pub mod Reserve
pub mod Emergency
pub mod Inflow
pub mod Authorship
mod Tests
