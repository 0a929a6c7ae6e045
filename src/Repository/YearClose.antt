-- ===== src/Repository/YearClose.antt =====
-- CloseFiscalYear with insertSystemMove (year_close.go), and the use case CloseFiscalYear.
pub mod Lines
pub mod Close
pub mod Balance
pub mod Exact
pub mod Sound
pub mod Final
pub mod Nominal
pub mod Zero
use cashflow_backend.Base.{
  ℕ, zero, suc, ◌+◌, Bool, true, false, not, ◌&&◌, Option, none, some, List, [], ◌∷◌, map, Text,
  ◌==◌, ltb, leb, length, if◌then◌else◌, find, select, exists, update_where, order_by, ok, err,
  ◌>>=◌, ◌>>◌, guard, fail_if, or_err,
}
use cashflow_backend.Domain.{
  Uuid, uuid_nil, Date, Time, FiscalYear, FiscalPeriod, PeriodState, hard_closed, is_open,
  is_open_year, closed_year, Journal, Account, equity, AccountingConfiguration, AccountMoveLine,
  MoveHeader, posted, is_draft, FinancialAuditLog, Fallible, fiscal_year_not_found,
  fiscal_year_not_closable, accounting_configuration_missing, journal_not_found, journal_inactive,
  account_not_found, retained_account_unfit, required, accounting_actor_required,
}
use cashflow_backend.Domain.Balance.{validate_balance}
use cashflow_backend.Repository.Tables.{
  Env, JsonValue, json_id, json_maybe_id, json_text, MoveRow, Db,
}
use cashflow_backend.Repository.Rows.{next_sequence, previous_posted_move_hash, hash_move}
use cashflow_backend.Repository.Audit.{insert_audit_log}
use cashflow_backend.Repository.Posted.{insert_posted}
use cashflow_backend.Repository.YearClose.Lines.{
  fiscal_closing_lines, fiscal_opening_lines, is_equity,
}

-- "account_move"
abbrev pub entity_move_text : Text
entity_move_text =
    b'a' ∷ b'c' ∷ b'c' ∷ b'o' ∷ b'u' ∷ b'n' ∷ b't' ∷ b'_' ∷ b'm' ∷ b'o' ∷ b'v' ∷ b'e' ∷ []

-- "fiscal_year"
abbrev pub entity_year_text : Text
entity_year_text = b'f' ∷ b'i' ∷ b's' ∷ b'c' ∷ b'a' ∷ b'l' ∷ b'_' ∷ b'y' ∷ b'e' ∷ b'a' ∷ b'r' ∷ []

-- "POST"
abbrev pub post_action : Text
post_action = b'P' ∷ b'O' ∷ b'S' ∷ b'T' ∷ []

-- "CLOSE"
abbrev pub close_action : Text
close_action = b'C' ∷ b'L' ∷ b'O' ∷ b'S' ∷ b'E' ∷ []

-- "Year-end profit and loss close"
abbrev pub closing_ref : Text
closing_ref =
    b'Y' ∷ b'e' ∷ b'a' ∷ b'r' ∷ b'-' ∷ b'e' ∷ b'n' ∷ b'd' ∷ b' ' ∷ b'p' ∷ b'r' ∷ b'o' ∷ b'f' ∷ b'i'
    ∷ b't' ∷ b' ' ∷ b'a' ∷ b'n' ∷ b'd' ∷ b' ' ∷ b'l' ∷ b'o' ∷ b's' ∷ b's' ∷ b' ' ∷ b'c' ∷ b'l'
    ∷ b'o' ∷ b's' ∷ b'e' ∷ []

-- "Fiscal year opening balances"
abbrev pub opening_ref : Text
opening_ref =
    b'F' ∷ b'i' ∷ b's' ∷ b'c' ∷ b'a' ∷ b'l' ∷ b' ' ∷ b'y' ∷ b'e' ∷ b'a' ∷ b'r' ∷ b' ' ∷ b'o' ∷ b'p'
    ∷ b'e' ∷ b'n' ∷ b'i' ∷ b'n' ∷ b'g' ∷ b' ' ∷ b'b' ∷ b'a' ∷ b'l' ∷ b'a' ∷ b'n' ∷ b'c' ∷ b'e'
    ∷ b's' ∷ []

abbrev pub move_id_key : Text
move_id_key = b'm' ∷ b'o' ∷ b'v' ∷ b'e' ∷ b'_' ∷ b'i' ∷ b'd' ∷ []

abbrev pub name_key : Text
name_key = b'n' ∷ b'a' ∷ b'm' ∷ b'e' ∷ []

abbrev pub ref_key : Text
ref_key = b'r' ∷ b'e' ∷ b'f' ∷ []

abbrev pub fiscal_year_id_key : Text
fiscal_year_id_key =
    b'f' ∷ b'i' ∷ b's' ∷ b'c' ∷ b'a' ∷ b'l' ∷ b'_' ∷ b'y' ∷ b'e' ∷ b'a' ∷ b'r' ∷ b'_' ∷ b'i' ∷ b'd'
    ∷ []

abbrev pub successor_year_id_key : Text
successor_year_id_key =
    b's' ∷ b'u' ∷ b'c' ∷ b'c' ∷ b'e' ∷ b's' ∷ b's' ∷ b'o' ∷ b'r' ∷ b'_' ∷ b'y' ∷ b'e' ∷ b'a' ∷ b'r'
    ∷ b'_' ∷ b'i' ∷ b'd' ∷ []

abbrev pub closing_move_id_key : Text
closing_move_id_key =
    b'c' ∷ b'l' ∷ b'o' ∷ b's' ∷ b'i' ∷ b'n' ∷ b'g' ∷ b'_' ∷ b'm' ∷ b'o' ∷ b'v' ∷ b'e' ∷ b'_' ∷ b'i'
    ∷ b'd' ∷ []

abbrev pub opening_move_id_key : Text
opening_move_id_key =
    b'o' ∷ b'p' ∷ b'e' ∷ b'n' ∷ b'i' ∷ b'n' ∷ b'g' ∷ b'_' ∷ b'm' ∷ b'o' ∷ b'v' ∷ b'e' ∷ b'_' ∷ b'i'
    ∷ b'd' ∷ []

-- An entry of the audit log as a transaction makes it.
abbrev pub audit_entry : Text → Uuid → Text → Uuid → Text → Time → FinancialAuditLog
audit_entry entity_type entity_id action actor payload now = record {
  entity_type = entity_type;
  entity_id = entity_id;
  action = action;
  actor_id = actor;
  payload_before = [];
  payload_after = payload;
  ip_address = [];
  previous_log_hash = [];
  current_log_hash = [];
  timestamp = now;
}

-- The first loop of insertSystemMove.
abbrev pub assigned : Uuid → Date → Time → AccountMoveLine → AccountMoveLine
assigned id date now l = record l {
  move_id = id;
  date = if l.date == 0 then date else l.date;
  created_at = if l.created_at == 0 then now else l.created_at;
}

abbrev pub system_header : Uuid → Uuid → Uuid → Date → Time → Uuid → Text → Text → Text → MoveHeader
system_header id journal_id period_id date now actor ref name hash = record {
  id = id;
  name = name;
  journal_id = journal_id;
  period_id = period_id;
  date = date;
  state = posted;
  ref = ref;
  reversed_move_id = none;
  hash_signature = hash;
  posted_at = some now;
  posted_by = some actor;
  created_by = some actor;
  created_at = now;
  updated_at = now;
}

abbrev pub system_audit : Env → Uuid → Uuid → Text → Text → Time → FinancialAuditLog
system_audit env id actor ref name now =
    audit_entry entity_move_text id post_action actor
      (env.marshal
        ((move_id_key, json_id id) ∷ (name_key, json_text name) ∷ (ref_key, json_text ref) ∷ []))
      now

-- insertSystemMove; `id` is what uuid.New gives it
unfoldable pub insert_system_move :
    Env → Time → Uuid → Uuid → Uuid → Date → Uuid → Text → List AccountMoveLine → Db → Fallible Db
insert_system_move env now id journal_id period_id date actor ref ls db = do
  let lines = map (assigned id date now) ls
  validate_balance lines
  (name, db1) ← next_sequence journal_id db
  let hash = hash_move env id name date journal_id lines (previous_posted_move_hash journal_id db1)
  insert_posted env now (system_header id journal_id period_id date now actor ref name hash) lines
      (system_audit env id actor ref name now) db1

-- `if len(lines) > 0`
unfoldable pub insert_if_any :
    Env
    → Time
    → Uuid
    → Uuid
    → Uuid
    → Date
    → Uuid
    → Text
    → List AccountMoveLine
    → Db
    → Fallible (Option Uuid × Db)
unfolding insert_system_move
insert_if_any env now id journal_id period_id date actor ref [] db = ok (none, db)
insert_if_any env now id journal_id period_id date actor ref (l ∷ ls) db =
    insert_system_move env now id journal_id period_id date actor ref (l ∷ ls) db >>= λ db'.
    ok (some id, db')

-- What CloseFiscalYear has locked when it begins to write.
pub record Closable : Type 0 where
  pub year : FiscalYear
  pub closing_period : FiscalPeriod
  pub successor : FiscalYear
  pub opening_period : FiscalPeriod

abbrev pub is_hard_closed : PeriodState → Bool
is_hard_closed hard_closed = true
is_hard_closed _ = false

-- fiscalYearPeriods
unfoldable pub fiscal_year_periods : Uuid → Db → List FiscalPeriod
fiscal_year_periods id db =
    order_by (λ p q. leb p.period_number q.period_number)
      (select (λ p. p.fiscal_year_id == id) db.periods)

-- The loop over the periods, `i` of which are behind it.
unfoldable pub check_sequence : ℕ → List FiscalPeriod → Fallible (Unit {0})
check_sequence i [] = ok tt
check_sequence i (p ∷ ps) = do
  guard (p.period_number == (i + 1) && is_hard_closed p.state) fiscal_year_not_closable
  check_sequence (i + 1) ps

abbrev pub has_draft_moves : FiscalYear → Db → Bool
has_draft_moves y db =
    exists (λ (m : MoveRow). leb y.start_date m.date && leb m.date y.end_date && is_draft m.state)
      db.moves

-- The year that follows, with its open first period.
unfoldable pub find_successor : FiscalYear → FiscalPeriod → Db → Fallible Closable
find_successor y p db = do
  next ←
      or_err (find (λ (n : FiscalYear). n.year == (y.year + 1) && is_open_year n.state) db.years)
        fiscal_year_not_closable
  guard (ltb y.end_date next.start_date && next.start_date == (y.end_date + 1))
      fiscal_year_not_closable
  first ←
      or_err
        (find
          (λ (q : FiscalPeriod).
            q.fiscal_year_id == next.id
            && q.period_number == 1
            && leb q.start_date next.start_date
            && leb next.start_date q.end_date
            && is_open q.state)
          db.periods)
        fiscal_year_not_closable
  ok (record { year = y; closing_period = p; successor = next; opening_period = first })

-- CloseFiscalYear up to the successor's opening period.
unfoldable pub check_closable : Uuid → Db → Fallible Closable
unfolding fiscal_year_periods check_sequence find_successor
check_closable id db = do
  year ← or_err (find (λ (y : FiscalYear). y.id == id) db.years) fiscal_year_not_found
  guard (is_open_year year.state) fiscal_year_not_closable
  let periods = fiscal_year_periods id db
  guard (length periods == 12) fiscal_year_not_closable
  check_sequence 0 periods
  last ←
      or_err (find (λ (p : FiscalPeriod). p.period_number == 12) periods) fiscal_year_not_closable
  guard (last.end_date == year.end_date) fiscal_year_not_closable
  fail_if (has_draft_moves year db) fiscal_year_not_closable
  find_successor year last db
