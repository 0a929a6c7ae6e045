-- ===== src/Reports/Statements.antt =====
-- GenerateIncomeStatementUseCase and GenerateTrialBalanceUseCase. The balances are those that the
-- repository's queries return.
use cashflow_backend.Base.{
  ◌≡◌, sym, ap, ◌∙◌, Bool, List, [], ◌∷◌, ◌++◌, ltb, ◌==◌, ok, ◌>>=◌, ◌>>◌, fail_if, All, arith,
  ok-injective, fail_if-eq-ok, ◌||◌,
}
use cashflow_backend.Base.Int.{pos, ◌+ℤ◌, ◌-ℤ◌, eqb_ℤ, int_laws, zero-+ℤ}
use cashflow_backend.Domain.{
  Date, Decimal, Account, AccountType, income, expense, TrialBalanceRow, Fallible, bad_date,
}
use cashflow_backend.Domain.Balance.{is_zero}
use cashflow_backend.Reports.BalanceSheet.{
  StatementAccountLine, statement_line, account_of, HasNaturalSide, net, no_difference,
  BalanceSheet, balance_sheet, balance_sheet-difference,
}

pub record IncomeStatement : Type 0 where
  pub revenue : List StatementAccountLine
  pub expenses : List StatementAccountLine
  pub total_revenue : Decimal
  pub total_expenses : Decimal
  pub net_income : Decimal

abbrev pub empty_statement : IncomeStatement
empty_statement = record {
  revenue = [];
  expenses = [];
  total_revenue = pos 0;
  total_expenses = pos 0;
  net_income = pos 0;
}

-- The `switch account.Type` of the income statement.
unfoldable pub add_to_statement :
    Account → AccountType → Decimal → Decimal → IncomeStatement → IncomeStatement
add_to_statement a income d c s =
    let amount = c -ℤ d in
    record s {
      revenue = s.revenue ++ statement_line a amount ∷ [];
      total_revenue = s.total_revenue +ℤ amount;
    }
add_to_statement a expense d c s =
    let amount = d -ℤ c in
    record s {
      expenses = s.expenses ++ statement_line a amount ∷ [];
      total_expenses = s.total_expenses +ℤ amount;
    }
add_to_statement a _ d c s = s

-- The loop over the rows.
unfoldable pub statement_rows :
    List Account → List TrialBalanceRow → IncomeStatement → Fallible IncomeStatement
unfolding add_to_statement
statement_rows accounts [] s = ok s
statement_rows accounts (r ∷ rs) s = do
  a ← account_of accounts r
  statement_rows accounts rs (add_to_statement a a.account_type r.period_debit r.period_credit s)

-- GenerateIncomeStatementUseCase.Execute, from the balances and the accounts that it reads
unfoldable pub income_statement :
    Date → Date → List TrialBalanceRow → List Account → Fallible IncomeStatement
unfolding statement_rows
income_statement from to rows accounts = do
  fail_if (ltb to from) bad_date
  s ← statement_rows accounts rows empty_statement
  ok (record s { net_income = s.total_revenue -ℤ s.total_expenses })

-- The loop of GenerateTrialBalanceUseCase, with the two totals.
unfoldable pub trial_totals : Decimal → Decimal → List TrialBalanceRow → Decimal × Decimal
trial_totals d c [] = (d, c)
trial_totals d c (r ∷ rs) = trial_totals (d +ℤ r.ending_debit) (c +ℤ r.ending_credit) rs

pub record TrialBalance : Type 0 where
  pub total_debit : Decimal
  pub total_credit : Decimal
  pub is_balanced : Bool
  pub rows : List TrialBalanceRow

-- GenerateTrialBalanceUseCase.Execute with ToTrialBalanceResponse, from the balances that it reads
unfoldable pub trial_balance : Date → Date → List TrialBalanceRow → Fallible TrialBalance
unfolding trial_totals
trial_balance from to rows = do
  fail_if (from == 0 || to == 0) bad_date
  fail_if (ltb to from) bad_date
  let (d, c) = trial_totals (pos 0) (pos 0) rows
  ok (record { total_debit = d; total_credit = c; is_balanced = eqb_ℤ d c; rows = rows })

trial_totals-net :
    (d c : Decimal) (rs : List TrialBalanceRow)
    → (trial_totals d c rs).0 -ℤ (trial_totals d c rs).1 ≡ (d -ℤ c) +ℤ net rs
unfolding trial_totals net
trial_totals-net d c [] = omega int_laws
trial_totals-net d c (r ∷ rs) =
    trial_totals-net (d +ℤ r.ending_debit) (c +ℤ r.ending_credit) rs ∙ omega int_laws

is_zero_difference : (d c : Decimal) → is_zero (d -ℤ c) ≡ eqb_ℤ d c
unfolding ◌-ℤ◌
is_zero_difference d c = ground arith

pub trial_balance-verdict :
    (rows : List TrialBalanceRow)
    → eqb_ℤ ((trial_totals (pos 0) (pos 0) rows).0) ((trial_totals (pos 0) (pos 0) rows).1)
      ≡ is_zero (net rows)
trial_balance-verdict rows =
    let totals = trial_totals (pos 0) (pos 0) rows in
    sym (is_zero_difference (totals.0) (totals.1))
    ∙ ap is_zero (
        trial_totals-net (pos 0) (pos 0) rows
        ∙ ap (λ x. x +ℤ net rows) no_difference
        ∙ zero-+ℤ (net rows))

-- The trial balance and the balance sheet have the same verdict on the same balances, if no account
-- is a contra account.
pub trial_balance-balance_sheet :
    (from as_of : Date) (rows : List TrialBalanceRow) (accounts : List Account)
    → {t : TrialBalance} {b : BalanceSheet} → All HasNaturalSide accounts
    → trial_balance from as_of rows ≡ ok t
    → balance_sheet rows accounts ≡ ok b
    → t.is_balanced ≡ b.is_balanced
unfolding trial_balance
trial_balance-balance_sheet from as_of rows accounts h e f =
    let (_, e1) = fail_if-eq-ok (from == 0 || as_of == 0) _ _ e in
    let (_, e2) = fail_if-eq-ok (ltb as_of from) _ _ e1 in
    let (_, verdict) = balance_sheet-difference rows accounts h f in
    ap (λ (t : TrialBalance). t.is_balanced) (sym (ok-injective e2))
    ∙ trial_balance-verdict rows
    ∙ sym verdict
