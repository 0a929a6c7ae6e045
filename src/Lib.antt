-- ===== src/Lib.antt =====
-- The double-entry accounting core of cashflow_backend: internal/features/accounting, with the currency
-- table of internal/platform/money and the retries of internal/infrastructure/postgres.
--
-- The program. An HTTP handler decodes a request, calls the use case of the operation
-- (internal/features/accounting/usecase_*.go), and the use case checks the request and the entities and
-- calls the repository (internal/features/accounting/internal/*.go), whose methods are each one
-- PostgreSQL transaction. A journal entry (AccountMove) is drafted, posted under the next number of its
-- journal and a hash that chains it to the entry before, and reversed by an entry of its own; every such
-- step writes an entry of the financial audit log, which is a hash chain as well. Events of subledgers
-- become posted entries, once per key. Debits and credits of an account are reconciled with each other,
-- which may post an entry for the exchange difference. Fiscal periods open and close the dates of entries,
-- and the close of a year posts a closing and an opening entry; the statements are computed from the
-- balances of the accounts.
--
-- The modules.
--   Base: the names that all share, tests, lists as tables, fallible results, integers (Base.Int).
--   Domain: entity.go. Types has the entities, Errors the errors, Balance the checks of an entity.
--   Repository: the tables (Tables) and the transactions on them, internal/repository.go,
--     internal/audit_chain.go, internal/year_close.go and internal/reconciliation.go. Rows has the
--     statements that transactions share, Audit insertAuditLog and VerifyAuditIntegrity, Drafts
--     SaveDraftMove and DeleteDraftMove, Posting postMoveAtomic with PostMoveAtomic and
--     PostNewMoveWithEventAtomic, Reversal ReverseMoveAtomic, YearClose CloseFiscalYear,
--     Reconciliation ReconcileMoveLines and UnreconcileMoveLines; Posted inserts the posted entries
--     of the last two. Invariant and Keys say what the transactions keep, Extends how tables grow,
--     Balances what the accounts sum to, and Steps composes the transactions in any order; the modules
--     below each transaction take it apart step by step.
--   Periods: UpdatePeriodState and ChangePeriodState; Calendar: the creation of a fiscal year.
--   Masters: accounts, journals, event mappings and the configuration; UseCases: their use cases and the
--     validation of their requests (dto.go).
--   Moves: the use cases of journal entries: Requests (dto.go), Drafting, Posting (with governance.go),
--     Reversing, Ingest (usecase_ingest_subledger_event.go).
--   Reports: the balance sheet, the income statement and the trial balance over the rows of queries;
--     Queries: these queries (internal/queries.go), and the statements over the tables.
--   Infrastructure: Retry is WithRetry of internal/infrastructure/postgres/retry.go.
--   Examples: a small set of books, and the theorems at runs on it.
--
-- How the code is translated. A transaction is a function from the tables (Db) to a result: the new
-- tables and what the Go code leaves to its caller, or the error, in which case the transaction is rolled
-- back and the tables are those before it. Statements become functions on the lists of rows; the
-- constraints of migrations/ that a statement can break are tests in it. A UUID is a number with 0 for
-- uuid.Nil, a nilable pointer an Option, a date its count of days, an instant its count of nanoseconds
-- with 0 for the zero time, a text the list of its bytes. An amount is a whole number of the smallest unit
-- in use, since decimal.Decimal adds exactly. Repository.Tables.Env has what the program calls and does not
-- implement: the value that a NUMERIC(28, 4) column keeps, Round(4) of an amount, of a product and of a
-- proportional part, the texts of ids and times, JSON and JSONB, SHA-256, the supply of uuid.New (0 for a
-- move, from 1 for its lines), and what Scan makes of a NULL for a Go string. Moves.Requests.Strings has
-- packages strings, utf8 and time as requests use them, Moves.Ingest.Rates the provider of exchange rates,
-- Periods.Calendar the dates of package time, Infrastructure.Retry.Runtime the operation, the context, the
-- clock and the random source of a retry. What is assumed of them stands in IsNumeric, IsFixedPoint,
-- IsRounding, IsProduct, IsHashing, IsGregorian, IsDecimal and IsCounter.
-- An ingestion takes two tables: those that it starts from, and those that it reads again after a failure.
--
-- Bounds and fuel. Repository.Rows.digits has fuel for as many digits as the number itself, and
-- Masters.Accounts.is_below one step per account, which is enough in a hierarchy without a cycle. The
-- loop of WithRetry recurs on the number of retries that are left. All other loops run over lists.
--
-- Not modelled: faults of the connection and of the driver, the bounds of int64 and of NUMERIC, the
-- lengths of VARCHAR columns, the checks of RowsAffected that the keys imply, pages of reads, logging, and
-- the publication of events, which changes no outcome. One clock reading stands for all of a transaction.
-- FX revaluation, the cash-flow statement, the general ledger, the account tree and the list of
-- unreconciled lines are not modelled, and neither are the handlers, the server and the other platform
-- packages.
pub mod Base
pub mod Domain
pub mod Examples
pub mod Infrastructure
pub mod Masters
pub mod Moves
pub mod Periods
pub mod Reports
pub mod Repository
