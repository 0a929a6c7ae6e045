-- ===== src/Domain/Types.antt =====
-- The types of entity.go, with the source's fields.
use cashflow_backend.Base.{ℕ, Bool, true, false, Option, List, Text}
use cashflow_backend.Base.Int.{ℤ}

abbrev pub Uuid : Type 0
Uuid = ℕ

abbrev pub uuid_nil : Uuid
uuid_nil = 0

abbrev pub Date : Type 0
Date = ℕ

abbrev pub Time : Type 0
Time = ℕ

abbrev pub Decimal : Type 0
Decimal = ℤ

pub data AccountType : Type 0 where
  asset liability equity income expense : AccountType

pub data NormalBalance : Type 0 where
  debit_balance credit_balance : NormalBalance

pub data PeriodState : Type 0 where
  open_period soft_closed hard_closed : PeriodState

pub data MoveState : Type 0 where
  draft posted reversed : MoveState

-- FiscalYear.State is the string "open" or "closed".
pub data YearState : Type 0 where
  open_year closed_year : YearState

abbrev pub is_open : PeriodState → Bool
is_open open_period = true
is_open _ = false

abbrev pub is_draft : MoveState → Bool
is_draft draft = true
is_draft _ = false

abbrev pub is_posted : MoveState → Bool
is_posted posted = true
is_posted _ = false

abbrev pub is_open_year : YearState → Bool
is_open_year open_year = true
is_open_year _ = false

pub record Account : Type 0 where
  pub id : Uuid
  pub code : Text
  pub name : Text
  pub account_type : AccountType
  pub normal_balance : NormalBalance
  pub currency_id : Text
  pub parent_id : Option Uuid
  pub is_reconcilable : Bool
  pub is_active : Bool
  pub is_cash_equivalent : Bool
  pub is_non_cash_adjustment : Bool
  pub cash_flow_activity : Text
  pub created_at : Time
  pub updated_at : Time

pub record FiscalYear : Type 0 where
  pub id : Uuid
  pub year : ℕ
  pub start_date : Date
  pub end_date : Date
  pub state : YearState
  pub created_at : Time

pub record FiscalPeriod : Type 0 where
  pub id : Uuid
  pub fiscal_year_id : Uuid
  pub period_number : ℕ
  pub name : Text
  pub start_date : Date
  pub end_date : Date
  pub state : PeriodState
  pub closed_at : Option Time
  pub closed_by : Option Uuid
  pub created_at : Time

pub record Journal : Type 0 where
  pub id : Uuid
  pub code : Text
  pub name : Text
  pub journal_type : Text
  pub sequence_prefix : Text
  pub next_number : ℕ
  pub is_active : Bool
  pub created_at : Time

pub record SubledgerEventMapping : Type 0 where
  pub event_type : Text
  pub journal_id : Uuid
  pub debit_account_id : Uuid
  pub credit_account_id : Uuid
  pub description : Text
  pub is_active : Bool

pub record AccountingConfiguration : Type 0 where
  pub retained_earnings_account_id : Uuid
  pub fx_gain_account_id : Uuid
  pub fx_loss_account_id : Uuid
  pub fx_reconciliation_journal_id : Uuid
  pub functional_currency : Text

pub record AccountMoveLine : Type 0 where
  pub id : Uuid
  pub move_id : Uuid
  pub account_id : Uuid
  pub partner_id : Option Uuid
  pub debit : Decimal
  pub credit : Decimal
  pub amount_currency : Decimal
  pub currency_id : Text
  pub cost_center_id : Option Uuid
  pub matching_number : Text
  pub date : Date
  pub created_at : Time

-- The columns of a journal entry, as the table account_moves holds them.
pub record MoveHeader : Type 0 where
  pub id : Uuid
  pub name : Text
  pub journal_id : Uuid
  pub period_id : Uuid
  pub date : Date
  pub state : MoveState
  pub ref : Text
  pub reversed_move_id : Option Uuid
  pub hash_signature : Text
  pub posted_at : Option Time
  pub posted_by : Option Uuid
  pub created_by : Option Uuid
  pub created_at : Time
  pub updated_at : Time

-- The aggregate root: the header's fields and the lines.
pub record AccountMove : Type 0 where
  pub header : MoveHeader
  pub open header use *
  pub lines : List AccountMoveLine

pub record FinancialAuditLog : Type 0 where
  pub entity_type : Text
  pub entity_id : Uuid
  pub action : Text
  pub actor_id : Uuid
  pub payload_before : Text
  pub payload_after : Text
  pub ip_address : Text
  pub previous_log_hash : Text
  pub current_log_hash : Text
  pub timestamp : Time

pub record TrialBalanceRow : Type 0 where
  pub account_id : Uuid
  pub account_code : Text
  pub account_name : Text
  pub initial_debit : Decimal
  pub initial_credit : Decimal
  pub period_debit : Decimal
  pub period_credit : Decimal
  pub ending_debit : Decimal
  pub ending_credit : Decimal
