-- ===== src/Infrastructure.antt =====
-- The database infrastructure (internal/infrastructure/postgres).
pub mod Retry
