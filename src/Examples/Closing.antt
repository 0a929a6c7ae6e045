-- ===== src/Examples/Closing.antt =====
-- The close of a year and the statements on a small set of books.
use cashflow_backend.Base.{
  ◌≡◌, refl, subst, sym, true, none, some, [], ◌∷◌, ok, err, find, exists, order_by, select,
  update_where, delete_where, text_eq, All, arith, ◌==◌,
}
use cashflow_backend.Base.Int.{pos, ◌+ℤ◌, ◌-ℤ◌, abs}
use cashflow_backend.Domain.{
  FiscalYear, closed_year, Uuid, Account, equity, credit_balance, FiscalYear, open_year,
  FiscalPeriod, hard_closed, AccountMoveLine, posted, Fallible,
}
use cashflow_backend.Domain.Balance.{IsBalanced, validate_balance, IsBalanced-of_validate_balance}
use cashflow_backend.Repository.Tables.{MoveRow, Db}
use cashflow_backend.Repository.Rows.{
  find_move, lines_of, line_row, line_accepted, move_accepted, name_free, insert_move_lines,
  next_sequence, sequence_name,
}
use cashflow_backend.Repository.Audit.{insert_audit_log, verify_from, verify_audit_integrity}
use cashflow_backend.Repository.Invariant.{IsSound, KeepsPosted}
use cashflow_backend.Repository.Keys.{count, HasKeys}
use cashflow_backend.Repository.Posted.{insert_posted}
use cashflow_backend.Repository.YearClose.{check_closable, insert_if_any}
use cashflow_backend.Repository.YearClose.Lines.{
  net_of, foreign_of, fiscal_closing_lines, fiscal_opening_lines,
}
use cashflow_backend.Repository.YearClose.Final.{find_year, close_year-IsSound, close_year-once}
use cashflow_backend.Repository.YearClose.Nominal.{balance, close_year-balance}
use cashflow_backend.Repository.YearClose.Close.{
  YearCloseResult, close_year, validate_closing_setup,
}
use cashflow_backend.Reports.BalanceSheet.{BalanceSheet}
use cashflow_backend.Reports.Statements.{TrialBalance}
use cashflow_backend.Reports.Totals.{HasOwnDates}
use cashflow_backend.Reports.Queries.{generate_balance_sheet, generate_trial_balance}
use cashflow_backend.Reports.Balanced.{
  HasAccounts, generate_balance_sheet-balanced, generate_trial_balance-balanced,
}
use cashflow_backend.Examples.Books.{
  example_env, cash, sales, example_period, example_header, debit_line, credit_line, empty_books,
  example-IsFixedPoint,
}

abbrev retained : Account
retained = record cash {
  id = 3;
  code = b'3' ∷ [];
  account_type = equity;
  normal_balance = credit_balance;
}

abbrev closed_period : Uuid → FiscalPeriod
closed_period n = record example_period { id = n; period_number = n; state = hard_closed }

abbrev example_year : FiscalYear
example_year = record {
  id = 1;
  year = 2024;
  start_date = 10;
  end_date = 20;
  state = open_year;
  created_at = 1;
}

-- A posted entry in a year whose twelve periods are closed, and the year that follows.
abbrev year_books : Db
year_books = record empty_books {
  accounts = cash ∷ sales ∷ retained ∷ [];
  years =
      example_year
      ∷ record example_year { id = 2; year = 2025; start_date = 21; end_date = 30 }
      ∷ [];
  periods =
      closed_period 1
      ∷ closed_period 2
      ∷ closed_period 3
      ∷ closed_period 4
      ∷ closed_period 5
      ∷ closed_period 6
      ∷ closed_period 7
      ∷ closed_period 8
      ∷ closed_period 9
      ∷ closed_period 10
      ∷ closed_period 11
      ∷ closed_period 12
      ∷ record example_period { id = 13; fiscal_year_id = 2; start_date = 21; end_date = 30 }
      ∷ [];
  moves =
      record {
        header = record example_header { state = posted; name = b'A' ∷ [] };
        has_hash = true;
      }
      ∷ [];
  lines =
      record { line = debit_line; reconciled_amount = pos 0 }
      ∷ record { line = credit_line; reconciled_amount = pos 0 }
      ∷ [];
  configurations =
      record {
        retained_earnings_account_id = 3;
        fx_gain_account_id = 2;
        fx_loss_account_id = 2;
        fx_reconciliation_journal_id = 1;
        functional_currency = [];
      }
      ∷ [];
}

other_id : (id : Uuid) (row : MoveRow) → find_move id year_books ≡ some row → (id == 7) ≡ true
unfolding find
other_id id row f = ground arith

valid : validate_balance (debit_line ∷ credit_line ∷ []) ≡ ok tt
unfolding validate_balance ◌+ℤ◌
valid = refl

two_lines : IsBalanced (lines_of 7 year_books.lines)
unfolding lines_of
two_lines = IsBalanced-of_validate_balance (debit_line ∷ credit_line ∷ []) valid

no_lines : (id : Uuid) → find_move id year_books ≡ none → lines_of id year_books.lines ≡ []
unfolding find lines_of
no_lines id e = ground arith

chain : verify_audit_integrity example_env year_books ≡ ok tt
unfolding verify_audit_integrity verify_from
chain = refl

year_books-IsSound : IsSound example_env year_books
year_books-IsSound = record {
  balance = λ id row f nd.
      let same : id ≡ 7 = ground (arith, other_id id row f) in
      subst (λ i. IsBalanced (lines_of i year_books.lines)) (sym same) two_lines;
  linked = no_lines;
  amounts = (record { debit = refl; credit = refl }, (record { debit = refl; credit = refl }, tt));
  chain = chain;
}

keys : HasKeys year_books.accounts
unfolding count
keys j = ground arith

abbrev after : Fallible (YearCloseResult × Db) → Db
after (ok r) = r.1
after (err e) = year_books

abbrev result : Fallible (YearCloseResult × Db) → YearCloseResult
result (ok r) = r.0
result (err e) = record { successor_year_id = 0; closing_move_id = none; opening_move_id = none }

abbrev closed_run : Fallible (YearCloseResult × Db)
closed_run = close_year example_env 1000 1 1 3 4 year_books

closed_once :
    close_year example_env 1000 1 1 3 4 year_books ≡ ok (result closed_run, after closed_run)
unfolding close_year check_closable find exists select order_by update_where delete_where
    fiscal_closing_lines fiscal_opening_lines net_of ◌+ℤ◌ ◌-ℤ◌ abs validate_balance next_sequence
    insert_posted move_accepted name_free insert_move_lines line_accepted line_row insert_audit_log
    validate_closing_setup text_eq sequence_name foreign_of insert_if_any
closed_once = refl

close_year-IsSound_example :
    IsSound example_env (after closed_run) × KeepsPosted year_books (after closed_run)
close_year-IsSound_example =
    close_year-IsSound example_env 1000 1 1 3 4 year_books example-IsFixedPoint year_books-IsSound
      closed_once

close_year-once_example :
    ((y : FiscalYear) × (find_year 1 (after closed_run) ≡ some y) × (y.state ≡ closed_year))
    × ¬ (
        close_year example_env 2000 1 1 3 4 (after closed_run)
        ≡ ok (result closed_run, after closed_run))
close_year-once_example =
    close_year-once example_env 1000 2000 1 1 3 4 1 3 4 year_books example-IsFixedPoint
      year_books-IsSound closed_once

found_year : find (λ (y : FiscalYear). y.id == 1) year_books.years ≡ some example_year
unfolding find
found_year = refl

found_sales : find (λ (a : Account). a.id == 2) year_books.accounts ≡ some sales
unfolding find
found_sales = refl

close_year-balance_example : balance 20 2 (after closed_run) ≡ pos 0
close_year-balance_example =
    close_year-balance example_env 1000 1 1 3 4 year_books example_year 2 example-IsFixedPoint
      year_books-IsSound keys found_year found_sales refl closed_once

own_dates : HasOwnDates year_books
unfolding find lines_of
own_dates id row f nd =
    let same : id ≡ 7 = ground (arith, other_id id row f) in
    subst (λ i. All (λ (l : AccountMoveLine). l.date ≡ row.date) (lines_of i year_books.lines))
      (sym same) (ground (arith, f), (ground (arith, f), tt))

accounts_there : HasAccounts year_books
unfolding count
accounts_there = (refl, (refl, tt))

generate_balance_sheet-balanced_example :
    (b : BalanceSheet) × (generate_balance_sheet 15 year_books ≡ ok b) × (b.is_balanced ≡ true)
generate_balance_sheet-balanced_example =
    generate_balance_sheet-balanced year_books 15 year_books-IsSound own_dates accounts_there
      (refl, (refl, (refl, tt)))

generate_trial_balance-balanced_example :
    (t : TrialBalance) × (generate_trial_balance 11 15 year_books ≡ ok t) × (t.is_balanced ≡ true)
generate_trial_balance-balanced_example =
    generate_trial_balance-balanced year_books 11 15 year_books-IsSound own_dates accounts_there
      refl refl
