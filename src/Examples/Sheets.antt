-- ===== src/Examples/Sheets.antt =====
-- A balance sheet and a trial balance.
use cashflow_backend.Base.{◌≡◌, refl, true, List, [], ◌∷◌, find, ok, err}
use cashflow_backend.Base.Int.{pos, ◌+ℤ◌}
use cashflow_backend.Domain.{TrialBalanceRow, Fallible}
use cashflow_backend.Domain.Balance.{is_zero}
use cashflow_backend.Reports.BalanceSheet.{
  BalanceSheet, balance_sheet, empty_sheet, net, balance_sheet-difference,
}
use cashflow_backend.Reports.Statements.{TrialBalance, trial_balance, trial_balance-balance_sheet}
use cashflow_backend.Examples.Books.{cash, sales}

abbrev balance_row : TrialBalanceRow
balance_row = record {
  account_id = 1;
  account_code = [];
  account_name = [];
  initial_debit = pos 0;
  initial_credit = pos 0;
  period_debit = pos 5;
  period_credit = pos 0;
  ending_debit = pos 5;
  ending_credit = pos 0;
}

abbrev balance_rows : List TrialBalanceRow
balance_rows =
    balance_row
    ∷ record balance_row {
      account_id = 2;
      period_debit = pos 0;
      period_credit = pos 5;
      ending_debit = pos 0;
      ending_credit = pos 5;
    }
    ∷ []

abbrev sheet_of : Fallible BalanceSheet → BalanceSheet
sheet_of (ok b) = b
sheet_of (err e) = empty_sheet

abbrev example_sheet : BalanceSheet
example_sheet = sheet_of (balance_sheet balance_rows (cash ∷ sales ∷ []))

sheet_made : balance_sheet balance_rows (cash ∷ sales ∷ []) ≡ ok example_sheet
unfolding balance_sheet find
sheet_made = refl

balance_sheet-difference_example :
    (example_sheet.balance_difference ≡ net balance_rows)
    × (example_sheet.is_balanced ≡ is_zero (net balance_rows))
balance_sheet-difference_example =
    balance_sheet-difference balance_rows (cash ∷ sales ∷ []) (refl, (refl, tt)) sheet_made

abbrev example_trial : TrialBalance
example_trial = record {
  total_debit = pos 5;
  total_credit = pos 5;
  is_balanced = true;
  rows = balance_rows;
}

trial_made : trial_balance 10 12 balance_rows ≡ ok example_trial
unfolding trial_balance ◌+ℤ◌
trial_made = refl

trial_balance-balance_sheet_example : example_trial.is_balanced ≡ example_sheet.is_balanced
trial_balance-balance_sheet_example =
    trial_balance-balance_sheet 10 12 balance_rows (cash ∷ sales ∷ []) (refl, (refl, tt)) trial_made
      sheet_made
