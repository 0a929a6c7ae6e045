-- ===== src/Domain/Errors.antt =====
-- The errors that the accounting feature returns: the sentinel errors of entity.go, then those made
-- in place by errors.New and fmt.Errorf, and last the constraints of the schema (migrations/).
-- Wrapping by `%w` keeps the sentinel, so a wrapped error is its sentinel here.
use cashflow_backend.Base.{Result}

pub data Error : Type 0 where
  account_not_found : Error
  duplicate_account_code : Error
  period_closed : Error
  period_not_found : Error
  invalid_period_transition : Error
  journal_not_found : Error
  move_not_found : Error
  move_changed : Error
  move_already_reversed : Error
  move_requires_at_least_two_lines : Error
  negative_amounts_not_allowed : Error
  zero_amount_line : Error
  unbalanced_move : Error
  move_already_posted : Error
  cannot_reverse_unposted_move : Error
  maker_checker_creator_required : Error
  maker_checker_violation : Error
  maker_checker_actor_required : Error
  subledger_mapping_not_found : Error
  exchange_rate_missing : Error
  accounting_configuration_missing : Error
  account_not_reconcilable : Error
  reconciliation_not_found : Error
  fiscal_year_not_found : Error
  fiscal_year_not_closable : Error
  account_has_posted_moves : Error
  accounting_actor_required : Error
  duplicate_journal_code : Error
  -- a required value is missing or malformed
  required : Error
  bad_date : Error
  bad_currency : Error
  too_long : Error
  bad_rate : Error
  bad_choice : Error
  both_debit_and_credit : Error
  journal_inactive : Error
  account_inactive : Error
  bad_sequence_number : Error
  duplicate_allocation : Error
  date_precedes_line : Error
  mixed_allocations : Error
  allocation_exceeds_residual : Error
  unequal_allocations : Error
  line_not_found : Error
  inconsistent_residual : Error
  nil_row : Error
  unknown_account : Error
  mixed_activities : Error
  tampered_link : Error
  tampered_payload : Error
  retained_account_unfit : Error
  fx_accounts_unfit : Error
  adjustment_rounds_to_zero : Error
  missing_foreign_amount : Error
  -- a constraint of the schema refused the statement
  constraint_violation : Error

-- What a function that returns `(value, error)` gives.
abbrev pub Fallible {ℓ} : Type ℓ → Type ℓ
Fallible A = Result Error A
