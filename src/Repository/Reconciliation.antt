-- ===== src/Repository/Reconciliation.antt =====
-- ReconcileMoveLines and UnreconcileMoveLines with their use cases (reconciliation.go,
-- usecase_reconcile_move_lines.go, usecase_unreconcile_move_lines.go, dto.go).
pub mod Realized
pub mod Commit
pub mod Sound
pub mod Undo
pub mod Bounds
pub mod Within
use cashflow_backend.Base.{
  ℕ, ◌+◌, Bool, true, false, not, ◌&&◌, ◌||◌, Option, none, some, List, [], ◌∷◌, ◌++◌, map, Text,
  ◌==◌, ltb, leb, length, text_eq, is_empty, if◌then◌else◌, find, select, exists, update_where,
  delete_where, order_by, ok, err, ◌>>=◌, ◌>>◌, guard, fail_if, or_err,
}
use cashflow_backend.Base.Int.{pos, ◌+ℤ◌, ◌-ℤ◌, abs, eqb_ℤ, ltb_ℤ}
use cashflow_backend.Domain.{
  Uuid, uuid_nil, Date, Time, Decimal, Account, AccountingConfiguration, is_posted, Fallible,
  required, duplicate_allocation, line_not_found, account_not_reconcilable, date_precedes_line,
  mixed_allocations, allocation_exceeds_residual, unequal_allocations, inconsistent_residual,
  reconciliation_not_found, accounting_configuration_missing, constraint_violation,
  accounting_actor_required,
}
use cashflow_backend.Domain.Balance.{is_zero, is_positive, is_negative}
use cashflow_backend.Repository.Tables.{
  Env, json_id, json_maybe_id, json_text, MoveRow, LineRow, Reconciliation, ReconciliationItem, Db,
}
use cashflow_backend.Repository.Rows.{find_move}
use cashflow_backend.Repository.Audit.{insert_audit_log}
use cashflow_backend.Repository.YearClose.{audit_entry}
use cashflow_backend.Repository.Reconciliation.Realized.{post_realized_move, reverse_posted_move}

abbrev pub id_key : Text
id_key = b'i' ∷ b'd' ∷ []

abbrev pub account_id_key : Text
account_id_key = b'a' ∷ b'c' ∷ b'c' ∷ b'o' ∷ b'u' ∷ b'n' ∷ b't' ∷ b'_' ∷ b'i' ∷ b'd' ∷ []

abbrev pub currency_id_key : Text
currency_id_key = b'c' ∷ b'u' ∷ b'r' ∷ b'r' ∷ b'e' ∷ b'n' ∷ b'c' ∷ b'y' ∷ b'_' ∷ b'i' ∷ b'd' ∷ []

abbrev pub realized_key : Text
realized_key =
    b'r' ∷ b'e' ∷ b'a' ∷ b'l' ∷ b'i' ∷ b'z' ∷ b'e' ∷ b'd' ∷ b'_' ∷ b'f' ∷ b'x' ∷ b'_' ∷ b'm' ∷ b'o'
    ∷ b'v' ∷ b'e' ∷ b'_' ∷ b'i' ∷ b'd' ∷ []

abbrev pub action_key : Text
action_key = b'a' ∷ b'c' ∷ b't' ∷ b'i' ∷ b'o' ∷ b'n' ∷ []

abbrev pub reconciliation_text : Text
reconciliation_text =
    b'a' ∷ b'c' ∷ b'c' ∷ b'o' ∷ b'u' ∷ b'n' ∷ b't' ∷ b'_' ∷ b'r' ∷ b'e' ∷ b'c' ∷ b'o' ∷ b'n' ∷ b'c'
    ∷ b'i' ∷ b'l' ∷ b'i' ∷ b'a' ∷ b't' ∷ b'i' ∷ b'o' ∷ b'n' ∷ []

abbrev pub reconcile_action : Text
reconcile_action = b'R' ∷ b'E' ∷ b'C' ∷ b'O' ∷ b'N' ∷ b'C' ∷ b'I' ∷ b'L' ∷ b'E' ∷ []

abbrev pub unreconcile_action : Text
unreconcile_action = b'U' ∷ b'N' ∷ b'R' ∷ b'E' ∷ b'C' ∷ b'O' ∷ b'N' ∷ b'C' ∷ b'I' ∷ b'L' ∷ b'E' ∷ []

pub record Allocation : Type 0 where
  pub move_line_id : Uuid
  pub amount : Decimal

-- The functional amount of a line, and its amount in the currency of the line.
abbrev pub functional_net : LineRow → Decimal
functional_net r = r.debit -ℤ r.credit

abbrev pub currency_net : LineRow → Decimal
currency_net r = if is_zero r.amount_currency then functional_net r else r.amount_currency

-- `capacity`
abbrev pub capacity : LineRow → Decimal
capacity r = if is_zero (abs (currency_net r)) then abs (functional_net r) else abs (currency_net r)

-- lockReconciliationLine: the line with its account and its entry
unfoldable pub lock_line : Uuid → Db → Fallible (LineRow × (Account × MoveRow))
lock_line id db = do
  r ← or_err (find (λ (r : LineRow). r.id == id) db.lines) line_not_found
  a ← or_err (find (λ (a : Account). a.id == r.account_id) db.accounts) line_not_found
  m ← or_err (find_move r.move_id db) line_not_found
  ok (r, (a, m))

-- The first of the lines, if there is one, has the account and the currency.
abbrev pub differs : Option LineRow → LineRow → Bool
differs none r = false
differs (some f) r = not (f.account_id == r.account_id) || not (text_eq f.currency_id r.currency_id)

-- The tests of the loop on one allocation.
unfoldable pub check_allocation :
    Date → Uuid → Text → Option LineRow → List Uuid → Allocation → Db → Fallible LineRow
unfolding lock_line
check_allocation date account currency first seen al db = do
  guard (not (al.move_line_id == uuid_nil) && is_positive al.amount) required
  fail_if (exists (λ id. id == al.move_line_id) seen) duplicate_allocation
  (r, (a, m)) ← lock_line al.move_line_id db
  guard (is_posted m.state && a.is_active && a.is_reconcilable) account_not_reconcilable
  fail_if (ltb date r.date) date_precedes_line
  fail_if (not (account == uuid_nil) && not (account == r.account_id)) mixed_allocations
  fail_if (not (is_empty currency) && not (text_eq currency r.currency_id)) mixed_allocations
  fail_if (differs first r) mixed_allocations
  fail_if (ltb_ℤ (capacity r -ℤ r.reconciled_amount) al.amount) allocation_exceeds_residual
  ok r

pub record Totals : Type 0 where
  pub debit_foreign : Decimal
  pub credit_foreign : Decimal
  pub debit_functional : Decimal
  pub credit_functional : Decimal

-- `functionalAllocation`
abbrev pub functional_allocation : Env → Decimal → LineRow → Decimal
functional_allocation env amount r =
    if eqb_ℤ amount (capacity r)
    then abs (functional_net r)
    else env.prorated (abs (functional_net r)) amount (capacity r)

abbrev pub add_allocation : Env → Decimal → LineRow → Totals → Totals
add_allocation env amount r t =
    if ltb_ℤ r.credit r.debit
    then record t {
      debit_foreign = t.debit_foreign +ℤ amount;
      debit_functional = t.debit_functional +ℤ functional_allocation env amount r;
    }
    else record t {
      credit_foreign = t.credit_foreign +ℤ amount;
      credit_functional = t.credit_functional +ℤ functional_allocation env amount r;
    }

abbrev pub or_first : Option LineRow → LineRow → LineRow
or_first none r = r
or_first (some f) r = f

-- The loop over the allocations, with the first line and the totals.
unfoldable pub check_allocations :
    Env
    → Date
    → Uuid
    → Text
    → Option LineRow
    → List Uuid
    → Totals
    → List Allocation
    → Db
    → Fallible (Option LineRow × Totals)
unfolding check_allocation
check_allocations env date account currency first seen t [] db = ok (first, t)
check_allocations env date account currency first seen t (al ∷ als) db = do
  r ← check_allocation date account currency first seen al db
  check_allocations env date account currency (some (or_first first r)) (al.move_line_id ∷ seen)
      (add_allocation env al.amount r t) als db

-- UPDATE account_move_lines SET reconciled_amount = reconciled_amount + $2
abbrev pub raise : Env → Decimal → LineRow → LineRow
raise env amount r = record r { reconciled_amount = env.numeric (r.reconciled_amount +ℤ amount) }

abbrev pub item_of : Env → Uuid → Text → Allocation → ReconciliationItem
item_of env id currency al = record {
  reconciliation_id = id;
  move_line_id = al.move_line_id;
  allocated_amount = env.numeric al.amount;
  currency_id = currency;
}

-- The second loop: an item and the amount of the line, for each allocation.
unfoldable pub allocate : Env → Uuid → Text → List Allocation → Db → Fallible Db
allocate env id currency [] db = ok db
allocate env id currency (al ∷ als) db = do
  guard (is_positive (env.numeric al.amount)) constraint_violation
  fail_if
      (exists
        (λ (i : ReconciliationItem). i.reconciliation_id == id && i.move_line_id == al.move_line_id)
        db.items)
      constraint_violation
  allocate env id currency als (record db {
    items = db.items ++ item_of env id currency al ∷ [];
    lines = update_where (λ r. r.id == al.move_line_id) (raise env al.amount) db.lines;
  })
