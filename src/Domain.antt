-- ===== src/Domain.antt =====
-- The entities of internal/features/accounting/entity.go, and the checks that an entity makes of
-- itself. A uuid.UUID is a number with 0 for uuid.Nil; a nilable pointer is an Option; a date is
-- its count of days and an instant its count of nanoseconds, with 0 for the zero time.Time; an
-- amount is a whole number of the smallest unit in use, with the exact sums of decimal.Decimal.
mod Types
mod Errors
pub mod Balance
pub use Types.*
pub use Errors.*
