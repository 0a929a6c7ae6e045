-- ===== src/Repository/Tables.antt =====
-- The tables of migrations/ as the repository uses them, and what the program has from outside it.
use cashflow_backend.Base.{ℕ, Bool, Option, List, Text}
use cashflow_backend.Domain.{
  Uuid, Date, Time, Decimal, Account, FiscalYear, FiscalPeriod, Journal, SubledgerEventMapping,
  AccountingConfiguration, AccountMoveLine, MoveHeader, FinancialAuditLog, Fallible,
}

-- One line's fields as hashMove hands them to json.Marshal.
pub record LineEntry : Type 0 where
  pub id : Uuid
  pub move_id : Uuid
  pub account_id : Uuid
  pub debit : Decimal
  pub credit : Decimal
  pub amount_currency : Decimal
  pub currency_id : Text
  pub matching_number : Text
  pub date : Date
  pub partner_id : Option Uuid
  pub cost_center_id : Option Uuid

-- The document that hashMove hashes.
pub record MovePayload : Type 0 where
  pub id : Uuid
  pub name : Text
  pub date : Date
  pub journal_id : Uuid
  pub lines : List LineEntry
  pub previous_hash : Text

-- A member of the map that a transaction marshals for the audit log.
pub data JsonValue : Type 0 where
  json_id : Uuid → JsonValue
  json_maybe_id : Option Uuid → JsonValue
  json_text : Text → JsonValue

-- What the program calls and does not implement.
pub record Env : Type 0 where
  -- the value that a NUMERIC(28, 4) column keeps
  pub numeric : Decimal → Decimal
  -- decimal.Decimal: Round(4), Mul and Round(4), and Mul, Div and Round(4) for `a * b / c`
  pub round4 : Decimal → Decimal
  pub product4 : Decimal → Decimal → Decimal
  pub prorated : Decimal → Decimal → Decimal → Decimal
  -- uuid.New, by the count of calls so far
  pub new_uuid : ℕ → Uuid
  -- UUID.String, and UnixNano in decimal
  pub uuid_text : Uuid → Text
  -- Format(time.RFC3339Nano)
  pub rfc3339_nano : Time → Text
  pub unix_nano_text : Time → Text
  -- the text of a JSONB value
  pub jsonb_text : Text → Text
  -- sha256 in hexadecimal, of a text and of the JSON of a move
  pub sha256_hex : Text → Text
  pub hash_payload : MovePayload → Text
  -- json.Marshal of a map
  pub marshal : List (Text × JsonValue) → Text
  -- the order of the JSON texts of two lines
  pub json_before : LineEntry → LineEntry → Bool
  -- what Scan makes of a NULL for a Go string
  pub scan_null : Fallible Text

-- A row of account_moves. While `has_hash` is false the column hash_signature is NULL.
pub record MoveRow : Type 0 where
  pub header : MoveHeader
  pub open header use *
  pub has_hash : Bool

pub record LineRow : Type 0 where
  pub line : AccountMoveLine
  pub open line use *
  pub reconciled_amount : Decimal

pub record ProcessedEvent : Type 0 where
  pub idempotency_key : Text
  pub event_type : Text
  pub move_id : Uuid

pub record Reconciliation : Type 0 where
  pub id : Uuid
  pub date : Date
  pub account_id : Uuid
  pub currency_id : Text
  pub realized_fx_move_id : Option Uuid
  pub created_by : Uuid

pub record ReconciliationItem : Type 0 where
  pub reconciliation_id : Uuid
  pub move_line_id : Uuid
  pub allocated_amount : Decimal
  pub currency_id : Text

-- The rows of each table, in the order of insertion; of `audit`, in the order of the serial id.
pub record Db : Type 0 where
  pub accounts : List Account
  pub years : List FiscalYear
  pub periods : List FiscalPeriod
  pub journals : List Journal
  pub moves : List MoveRow
  pub lines : List LineRow
  pub audit : List FinancialAuditLog
  pub events : List ProcessedEvent
  pub mappings : List SubledgerEventMapping
  pub configurations : List AccountingConfiguration
  pub reconciliations : List Reconciliation
  pub items : List ReconciliationItem
