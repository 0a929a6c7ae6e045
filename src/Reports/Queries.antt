-- ===== src/Reports/Queries.antt =====
-- The queries behind the statements: GetTrialBalanceData and GetAccountBalancesAsOf
-- (internal/queries.go), and the statements on the tables.
use cashflow_backend.Base.{
  Bool, false, ◌&&◌, ◌||◌, none, some, List, [], ◌∷◌, map, ◌==◌, ltb, leb, select, order_by, ok,
  ◌>>=◌, ◌>>◌, fail_if,
}
use cashflow_backend.Base.Int.{pos, ◌+ℤ◌}
use cashflow_backend.Domain.{
  Uuid, Date, Decimal, Account, TrialBalanceRow, is_posted, Fallible, bad_date,
}
use cashflow_backend.Repository.Tables.{LineRow, Db}
use cashflow_backend.Repository.Rows.{find_move, text_leb}
use cashflow_backend.Reports.BalanceSheet.{BalanceSheet, balance_sheet}
use cashflow_backend.Reports.Statements.{
  TrialBalance, trial_balance, IncomeStatement, income_statement,
}

-- SUM(l.debit) and SUM(l.credit)
unfoldable pub debit_of : List LineRow → Decimal
debit_of [] = pos 0
debit_of (r ∷ rs) = r.debit +ℤ debit_of rs

unfoldable pub credit_of : List LineRow → Decimal
credit_of [] = pos 0
credit_of (r ∷ rs) = r.credit +ℤ credit_of rs

-- `m.state = 'posted'` of the move that the line joins
abbrev pub in_posted : Db → LineRow → Bool
in_posted db r = elim (find_move r.move_id db) [ none ↦ false | some m ↦ is_posted m.state ]

-- The lines of an account in posted entries, by a condition on their date.
unfoldable pub dated_rows : (Date → Bool) → Uuid → Db → List LineRow
dated_rows during account db =
    select (λ (r : LineRow). r.account_id == account && (in_posted db r && during r.date)) db.lines

abbrev pub by_code : Account → Account → Bool
by_code a b = text_leb a.code b.code

abbrev pub period_dates : Date → Date → Date → Bool
period_dates from to d = leb from d && leb d to

abbrev pub initial_dates : Date → Date → Bool
initial_dates from d = ltb d from

abbrev pub trial_row : Date → Date → Db → Account → TrialBalanceRow
trial_row from to db a =
    let initial = dated_rows (initial_dates from) a.id db in
    let period = dated_rows (period_dates from to) a.id db in
    record {
      account_id = a.id;
      account_code = a.code;
      account_name = a.name;
      initial_debit = debit_of initial;
      initial_credit = credit_of initial;
      period_debit = debit_of period;
      period_credit = credit_of period;
      ending_debit = debit_of initial +ℤ debit_of period;
      ending_credit = credit_of initial +ℤ credit_of period;
    }

-- GetTrialBalanceData
unfoldable pub get_trial_balance_data : Date → Date → Db → Fallible (List TrialBalanceRow)
unfolding dated_rows debit_of credit_of
get_trial_balance_data from to db =
    fail_if (ltb to from) bad_date >> ok (map (trial_row from to db) (order_by by_code db.accounts))

abbrev pub as_of_row : Account → List LineRow → TrialBalanceRow
as_of_row a rows = record {
  account_id = a.id;
  account_code = a.code;
  account_name = a.name;
  initial_debit = pos 0;
  initial_credit = pos 0;
  period_debit = pos 0;
  period_credit = pos 0;
  ending_debit = debit_of rows;
  ending_credit = credit_of rows;
}

abbrev pub up_to : Date → Date → Bool
up_to as_of d = leb d as_of

-- The lines that the first LEFT JOIN finds.
unfoldable pub joined_rows : Date → Uuid → Db → List LineRow
joined_rows as_of account db =
    select (λ (r : LineRow). r.account_id == account && leb r.date as_of) db.lines

-- `WHERE l.id IS NULL OR m.id IS NOT NULL`: an account with lines and none of them posted is left out.
abbrev pub as_of_rows :
    Account → List LineRow → List LineRow → List TrialBalanceRow → List TrialBalanceRow
as_of_rows a (l ∷ ls) [] rest = rest
as_of_rows a [] posted rest = as_of_row a posted ∷ rest
as_of_rows a (l ∷ ls) (r ∷ rs) rest = as_of_row a (r ∷ rs) ∷ rest

unfoldable pub balances_loop : Date → Db → List Account → List TrialBalanceRow
unfolding dated_rows joined_rows debit_of credit_of
balances_loop as_of db [] = []
balances_loop as_of db (a ∷ accounts) =
    as_of_rows a (joined_rows as_of a.id db) (dated_rows (up_to as_of) a.id db)
      (balances_loop as_of db accounts)

-- GetAccountBalancesAsOf
abbrev pub get_account_balances : Date → Db → List TrialBalanceRow
get_account_balances as_of db = balances_loop as_of db (order_by by_code db.accounts)

-- GenerateTrialBalanceUseCase.Execute over the tables
unfoldable pub generate_trial_balance : Date → Date → Db → Fallible TrialBalance
unfolding get_trial_balance_data
generate_trial_balance from to db = do
  fail_if (from == 0 || to == 0) bad_date
  fail_if (ltb to from) bad_date
  rows ← get_trial_balance_data from to db
  trial_balance from to rows

-- GenerateBalanceSheetUseCase.Execute over the tables
unfoldable pub generate_balance_sheet : Date → Db → Fallible BalanceSheet
unfolding balances_loop
generate_balance_sheet as_of db =
    balance_sheet (get_account_balances as_of db) (order_by by_code db.accounts)

-- GenerateIncomeStatementUseCase.Execute over the tables
unfoldable pub generate_income_statement : Date → Date → Db → Fallible IncomeStatement
unfolding get_trial_balance_data
generate_income_statement from to db = do
  fail_if (ltb to from) bad_date
  rows ← get_trial_balance_data from to db
  income_statement from to rows (order_by by_code db.accounts)
