-- ===== src/Examples/PeriodRuns.antt =====
-- Runs on fiscal periods and years.
use cashflow_backend.Base.{
  ℕ, ◌+◌, ◌*◌, ◌-◌, ◌%◌, ◌≡◌, refl, ap, some, List, [], ◌∷◌, length, exists, if◌then◌else◌, ok, err,
  arith,
}
use cashflow_backend.Base.Int.{ℤ, pos, negsuc}
use cashflow_backend.Domain.{
  FiscalPeriod, FiscalYear, open_year, open_period, soft_closed, hard_closed, Fallible,
  invalid_period_transition,
}
use cashflow_backend.Repository.Tables.{Db}
use cashflow_backend.Periods.{check_transition, valid_period_transition}
use cashflow_backend.Periods.Laws.{check_transition_iff}
use cashflow_backend.Periods.Calendar.{
  Calendar, CreateFiscalYearRequest, create_fiscal_year, IsGregorian, Tiles,
  create_fiscal_year-Tiles,
}
use cashflow_backend.Examples.Books.{example_env, empty_books, example_period}

check_transition_iff_example :
    (if valid_period_transition open_period soft_closed
      then ok tt
      else err invalid_period_transition)
    ≡ check_transition open_period soft_closed
check_transition_iff_example = check_transition_iff open_period soft_closed refl

-- Two periods, of which one is hard-closed.
abbrev closed_period : FiscalPeriod
closed_period = record example_period { id = 2; period_number = 2; state = hard_closed }

abbrev two_periods : Db
two_periods = record empty_books { periods = example_period ∷ closed_period ∷ [] }

abbrev soft_books : Db
soft_books = record two_periods {
  periods =
      record example_period { state = soft_closed; closed_at = some 5; closed_by = some 4 }
      ∷ closed_period
      ∷ [];
}

-- Months of thirty days, the first day of each of which is a multiple of thirty and one.
abbrev move_days : ℕ → ℤ → ℕ
move_days n (pos d) = n + d
move_days n (negsuc d) = n - d - 1

abbrev example_calendar : Calendar
example_calendar = record {
  year_of = λ s. 2024;
  day_of = λ s. s % 30;
  add_date = λ s y m d. move_days (s + 360 * y + 30 * m) d;
  month_name = λ s. [];
}

example-IsGregorian : IsGregorian example_calendar
example-IsGregorian = record {
  nothing = λ s. omega arith;
  day_before = λ s y m e. omega arith;
  whole_year = λ s d e. ap (λ n. move_days n d) (omega arith);
  first_days = λ s m e. omega arith;
  next_month = λ s m e. omega arith;
  later = λ s e. omega arith;
}

abbrev year_request : CreateFiscalYearRequest
year_request = record { year = 2024; start_date = 31; end_date = 390 }

abbrev years_only : Db
years_only = record empty_books { years = []; periods = [] }

abbrev year_run : Fallible ((FiscalYear × List FiscalPeriod) × Db)
year_run = create_fiscal_year example_env example_calendar 5 year_request years_only

abbrev year_of_run :
    Fallible ((FiscalYear × List FiscalPeriod) × Db) → FiscalYear × List FiscalPeriod
year_of_run (ok r) = r.0
year_of_run (err e) = (
  record { id = 0; year = 0; start_date = 0; end_date = 0; state = open_year; created_at = 0 },
  [],
)

abbrev books_of_run : Fallible ((FiscalYear × List FiscalPeriod) × Db) → Db
books_of_run (ok r) = r.1
books_of_run (err e) = years_only

year_made :
    create_fiscal_year example_env example_calendar 5 year_request years_only
    ≡ ok (year_of_run year_run, books_of_run year_run)
unfolding create_fiscal_year exists
year_made = refl

create_fiscal_year-Tiles_example :
    (length ((year_of_run year_run).1) ≡ 12)
    × Tiles
        ((year_of_run year_run).0.start_date)
        ((year_of_run year_run).1)
        ((year_of_run year_run).0.end_date + 1)
create_fiscal_year-Tiles_example =
    create_fiscal_year-Tiles example_env example_calendar 5 year_request years_only
      example-IsGregorian year_made
