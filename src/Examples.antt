-- ===== src/Examples.antt =====
-- Concrete books, runs of the operations on them, and the theorems at these runs.
mod Books
mod Audits
mod PeriodRuns
mod Postings
mod Settings
mod Sheets
mod Closing
mod Reconciling
mod Events
mod Retries
