-- ===== src/Masters.antt =====
-- Accounts, journals, event mappings and the configuration: the repository's operations
-- (internal/features/accounting/internal/repository.go) and the use cases.
pub mod Accounts
pub mod Journals
pub mod UseCases
