-- ===== src/Periods.antt =====
-- Fiscal years and periods: CreateFiscalYear, UpdatePeriodState and the two reads
-- (internal/features/accounting/internal/repository.go), and the use cases CreateFiscalYear and
-- ChangePeriodState with validPeriodTransition.
pub mod Laws
pub mod Calendar
pub mod Ledger
use cashflow_backend.Base.{
  ℕ, ◌+◌, Bool, true, false, not, ◌&&◌, ◌||◌, Option, none, some, List, [], ◌∷◌, ◌++◌, Text, ltb,
  leb, ◌==◌, if◌then◌else◌, find, exists, update_where, ok, err, ◌>>=◌, ◌>>◌, guard, fail_if,
  or_err, is_empty,
}
use cashflow_backend.Domain.{
  Uuid, uuid_nil, Date, Time, FiscalYear, FiscalPeriod, PeriodState, open_period, soft_closed,
  hard_closed, is_open, is_open_year, FinancialAuditLog, Fallible, period_not_found, period_closed,
  invalid_period_transition, constraint_violation, accounting_actor_required, bad_choice, required,
}
use cashflow_backend.Repository.Tables.{Env, Db}

-- GetPeriodByID
abbrev pub get_period_by_id : Uuid → Db → Fallible FiscalPeriod
get_period_by_id id db = or_err (find (λ p. p.id == id) db.periods) period_not_found

abbrev pub same_state : PeriodState → PeriodState → Bool
same_state open_period open_period = true
same_state soft_closed soft_closed = true
same_state hard_closed hard_closed = true
same_state _ _ = false

-- The `switch periodState` of UpdatePeriodState.
abbrev pub check_transition : PeriodState → PeriodState → Fallible (Unit {0})
check_transition open_period to =
    fail_if (not (same_state to soft_closed) && not (same_state to hard_closed))
      invalid_period_transition
check_transition soft_closed to =
    fail_if (not (same_state to open_period) && not (same_state to hard_closed))
      invalid_period_transition
check_transition hard_closed to = err invalid_period_transition

-- UPDATE fiscal_periods SET state, closed_at, closed_by
abbrev pub set_state : Time → PeriodState → Uuid → FiscalPeriod → FiscalPeriod
set_state now to actor p = record p {
  state = to;
  closed_at = if is_open to then none else some now;
  closed_by = if is_open to then none else some actor;
}

-- The rest of UpdatePeriodState, once the two rows are locked.
unfoldable pub move_period : Time → FiscalPeriod → PeriodState → Uuid → Db → Fallible Db
move_period now p to actor db =
    if same_state p.state to
    then ok db
    else check_transition p.state to
      >> ok (record db {
        periods = update_where (λ q. q.id == p.id) (set_state now to actor) db.periods;
      })

-- UpdatePeriodState
unfoldable pub update_period_state : Time → Uuid → PeriodState → Uuid → Db → Fallible Db
unfolding move_period
update_period_state now id to actor db = do
  p ← or_err (find (λ (p : FiscalPeriod). p.id == id) db.periods) period_not_found
  y ← or_err (find (λ (y : FiscalYear). y.id == p.fiscal_year_id) db.years) period_not_found
  guard (is_open_year y.state) period_closed
  move_period now p to actor db

-- validPeriodTransition
abbrev pub valid_period_transition : PeriodState → PeriodState → Bool
valid_period_transition open_period to = same_state to soft_closed || same_state to hard_closed
valid_period_transition soft_closed to = same_state to open_period || same_state to hard_closed
valid_period_transition hard_closed to = false

-- The part of ChangePeriodStateUseCase.Execute behind its two tests, with the period it gives back.
unfoldable pub apply_state :
    Time → Uuid → FiscalPeriod → PeriodState → Db → Fallible (FiscalPeriod × Db)
unfolding update_period_state
apply_state now actor p to db =
    if same_state p.state to
    then ok (p, db)
    else update_period_state now p.id to actor db >>= λ db'. ok (set_state now to actor p, db')

-- ChangePeriodStateUseCase.Execute
unfoldable pub change_period_state :
    Time → Uuid → Uuid → PeriodState → Db → Fallible (FiscalPeriod × Db)
unfolding apply_state
change_period_state now id actor to db = do
  p ← get_period_by_id id db
  fail_if (not (same_state p.state to) && not (valid_period_transition p.state to))
      invalid_period_transition
  apply_state now actor p to db
