-- ===== src/Repository.antt =====
-- PostgresRepository (internal/features/accounting/internal/): the tables, and the transactions that
-- read and write them. A transaction is a function from the tables to an error or to the new
-- tables: what fails before Commit is rolled back by the deferred Rollback, so an error carries no
-- tables. Locks make the transactions of a run follow one another.
pub mod Tables
pub mod Rows
pub mod Audit
pub mod Drafts
pub mod Posting
pub mod Reversal
pub mod Posted
pub mod Extends
pub mod Keys
pub mod Balances
pub mod YearClose
pub mod Reconciliation
pub mod Invariant
pub mod Steps
