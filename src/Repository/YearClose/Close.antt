-- ===== src/Repository/YearClose/Close.antt =====
-- The writing part of CloseFiscalYear, with validateClosingSetup, and the use case CloseFiscalYear
-- with its request (year_close.go, usecase_close_fiscal_year.go, dto.go).
use cashflow_backend.Base.{
  ◌+◌, Bool, true, false, ◌&&◌, ◌||◌, Option, none, some, [], ◌∷◌, Text, ◌==◌, length,
  if◌then◌else◌, find, select, update_where, ok, ◌>>=◌, ◌>>◌, guard, fail_if, or_err,
}
use cashflow_backend.Domain.{
  Uuid, uuid_nil, Time, FiscalYear, is_open_year, closed_year, Journal, Account,
  AccountingConfiguration, Fallible, fiscal_year_not_closable, accounting_configuration_missing,
  journal_not_found, journal_inactive, account_not_found, retained_account_unfit, required,
  accounting_actor_required,
}
use cashflow_backend.Repository.Tables.{Env, json_id, json_maybe_id, Db}
use cashflow_backend.Repository.Audit.{insert_audit_log}
use cashflow_backend.Repository.YearClose.Lines.{
  fiscal_closing_lines, fiscal_opening_lines, is_equity,
}
use cashflow_backend.Repository.YearClose.{
  audit_entry, entity_year_text, close_action, closing_ref, opening_ref, fiscal_year_id_key,
  successor_year_id_key, closing_move_id_key, opening_move_id_key, Closable, check_closable,
  insert_if_any,
}

pub record YearCloseResult : Type 0 where
  pub successor_year_id : Uuid
  pub closing_move_id : Option Uuid
  pub opening_move_id : Option Uuid

-- validateClosingSetup
unfoldable pub validate_closing_setup : Uuid → Uuid → Db → Fallible (Unit {0})
validate_closing_setup journal_id retained_id db = do
  j ← or_err (find (λ (j : Journal). j.id == journal_id) db.journals) journal_not_found
  guard j.is_active journal_inactive
  a ← or_err (find (λ (a : Account). a.id == retained_id) db.accounts) account_not_found
  guard (a.is_active && is_equity a.account_type) retained_account_unfit

abbrev pub configuration : Db → Fallible AccountingConfiguration
configuration db =
    or_err (find (λ (c : AccountingConfiguration). true) db.configurations)
      accounting_configuration_missing

-- The account that the caller names, or the one of the configuration.
unfoldable pub retained_account : Uuid → Db → Fallible Uuid
retained_account id db =
    if id == uuid_nil then (configuration db >>= λ c. ok c.retained_earnings_account_id) else ok id

-- The audit entry of the close, and the year's new state.
unfoldable pub mark_closed :
    Env → Time → Uuid → Uuid → YearCloseResult → Db → Fallible (YearCloseResult × Db)
mark_closed env now id actor result db = do
  let payload = env.marshal (
      (fiscal_year_id_key, json_id id)
      ∷ (successor_year_id_key, json_id result.successor_year_id)
      ∷ (closing_move_id_key, json_maybe_id result.closing_move_id)
      ∷ (opening_move_id_key, json_maybe_id result.opening_move_id)
      ∷ [])
  let db1 =
      insert_audit_log env now
        (some (audit_entry entity_year_text id close_action actor payload now)) db
  guard (length (select (λ (y : FiscalYear). y.id == id && is_open_year y.state) db1.years) == 1)
      fiscal_year_not_closable
  ok (
    result,
    record db1 {
      years =
          update_where (λ y. y.id == id && is_open_year y.state)
            (λ y. record y { state = closed_year }) db1.years;
    },
  )

-- The two entries and the change of state.
unfoldable pub write_close :
    Env → Time → Uuid → Uuid → Uuid → Text → Uuid → Closable → Db → Fallible (YearCloseResult × Db)
unfolding mark_closed
write_close env now id journal_id retained currency actor c db = do
  let closing = fiscal_closing_lines env now c.year.end_date retained currency db
  let n = length closing
  (closing_id, db1) ←
      insert_if_any env now (env.new_uuid n) journal_id c.closing_period.id c.year.end_date actor
        closing_ref closing db
  let k = if n == 0 then 0 else n + 1
  opening ← fiscal_opening_lines env now c.year.end_date currency k db1
  (opening_id, db2) ←
      insert_if_any env now (env.new_uuid (k + length opening)) journal_id c.opening_period.id
        c.successor.start_date actor opening_ref opening db1
  mark_closed env now id actor
      (record {
        successor_year_id = c.successor.id;
        closing_move_id = closing_id;
        opening_move_id = opening_id;
      })
      db2

-- PostgresRepository.CloseFiscalYear
unfoldable pub close_year :
    Env → Time → Uuid → Uuid → Uuid → Uuid → Db → Fallible (YearCloseResult × Db)
unfolding retained_account write_close
close_year env now id journal_id retained_id actor db = do
  fail_if (id == uuid_nil || journal_id == uuid_nil || actor == uuid_nil) required
  c ← check_closable id db
  retained ← retained_account retained_id db
  validate_closing_setup journal_id retained db
  configured ← configuration db
  write_close env now id journal_id retained configured.functional_currency actor c db

pub record CloseFiscalYearRequest : Type 0 where
  pub journal_id : Uuid
  pub retained_earnings_account_id : Option Uuid

abbrev pub given_nil : Option Uuid → Bool
given_nil none = false
given_nil (some id) = id == uuid_nil

abbrev pub or_nil : Option Uuid → Uuid
or_nil none = uuid_nil
or_nil (some id) = id

-- CloseFiscalYearRequest.Validate
abbrev pub validate_close_request : CloseFiscalYearRequest → Fallible (Unit {0})
validate_close_request r =
    fail_if (r.journal_id == uuid_nil) required
    >> fail_if (given_nil r.retained_earnings_account_id) required

-- CloseFiscalYearUseCase.Execute
unfoldable pub close_fiscal_year :
    Env → Time → Uuid → Uuid → CloseFiscalYearRequest → Db → Fallible (YearCloseResult × Db)
unfolding close_year
close_fiscal_year env now id actor request db = do
  fail_if (id == uuid_nil) required
  fail_if (actor == uuid_nil) accounting_actor_required
  validate_close_request request
  close_year env now id request.journal_id (or_nil request.retained_earnings_account_id) actor db
