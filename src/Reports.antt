-- ===== src/Reports.antt =====
-- The statements that the use cases compute from the balances (usecase_generate_*.go).
pub mod BalanceSheet
pub mod Statements
pub mod Queries
pub mod Totals
pub mod Grouping
pub mod Balanced
