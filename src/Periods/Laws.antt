-- ===== src/Periods/Laws.antt =====
-- The state machine of a fiscal period.
use cashflow_backend.Base.{
  ◌≡◌, refl, false, some, if◌then◌else◌, arith, ◌==◌, find, Option, ok, err,
}
use cashflow_backend.Domain.{
  Uuid, Time, FiscalYear, FiscalPeriod, PeriodState, open_period, soft_closed, hard_closed,
  is_open_year, invalid_period_transition, period_closed,
}
use cashflow_backend.Repository.Tables.{Db}
use cashflow_backend.Periods.{
  same_state, check_transition, update_period_state, valid_period_transition,
}

-- The use case and the repository agree on the transitions: the `switch` under the row lock lets a
-- change of state pass exactly when validPeriodTransition does.
pub check_transition_iff :
    (from to : PeriodState)
    → same_state from to ≡ false
    → (if valid_period_transition from to then ok tt else err invalid_period_transition)
      ≡ check_transition from to
check_transition_iff open_period open_period h = ground arith
check_transition_iff open_period soft_closed h = refl
check_transition_iff open_period hard_closed h = refl
check_transition_iff soft_closed open_period h = refl
check_transition_iff soft_closed soft_closed h = ground arith
check_transition_iff soft_closed hard_closed h = refl
check_transition_iff hard_closed open_period h = refl
check_transition_iff hard_closed soft_closed h = refl
check_transition_iff hard_closed hard_closed h = ground arith

abbrev pub find_period : Uuid → Db → Option FiscalPeriod
find_period id db = find (λ p. p.id == id) db.periods

-- No period of a closed fiscal year changes its state.
pub update_period_state-closed_year :
    (now : Time) (id : Uuid) (to : PeriodState) (actor : Uuid) (db : Db)
    → (p : FiscalPeriod) (y : FiscalYear) → find_period id db ≡ some p
    → find (λ z. z.id == p.fiscal_year_id) db.years ≡ some y
    → is_open_year y.state ≡ false
    → update_period_state now id to actor db ≡ err period_closed
unfolding update_period_state
update_period_state-closed_year now id to actor db p y f g c = rw (f, g, c)
