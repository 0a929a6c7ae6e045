-- ===== src/Moves.antt =====
-- The use cases of journal entries (internal/features/accounting: dto.go and usecase_*.go).
pub mod Requests
pub mod Drafting
pub mod Posting
pub mod Reversing
pub mod Ingest
