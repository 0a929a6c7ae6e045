-- ===== src/Repository/Reconciliation/Commit.antt =====
-- The transactions ReconcileMoveLines and UnreconcileMoveLines, and their use cases.
use cashflow_backend.Base.{
  Bool, true, ◌&&◌, ◌||◌, Option, none, some, List, [], ◌∷◌, ◌++◌, Text, ◌==◌, ltb, leb, length,
  exists, if◌then◌else◌, find, select, update_where, delete_where, order_by, ok, ◌>>=◌, ◌>>◌, guard,
  fail_if, or_err,
}
use cashflow_backend.Base.Int.{pos, ◌-ℤ◌, eqb_ℤ, leb_ℤ}
use cashflow_backend.Domain.{
  Uuid, uuid_nil, Date, Time, Decimal, AccountingConfiguration, Fallible, required, line_not_found,
  unequal_allocations, inconsistent_residual, reconciliation_not_found,
  accounting_configuration_missing, accounting_actor_required, duplicate_allocation,
}
use cashflow_backend.Domain.Balance.{is_zero, is_positive}
use cashflow_backend.Moves.Requests.{Strings, parse_date}
use cashflow_backend.Repository.Tables.{
  Env, json_id, json_maybe_id, json_text, LineRow, Reconciliation, ReconciliationItem, Db,
}
use cashflow_backend.Repository.Audit.{insert_audit_log}
use cashflow_backend.Repository.YearClose.{audit_entry}
use cashflow_backend.Repository.Reconciliation.Realized.{post_realized_move, reverse_posted_move}
use cashflow_backend.Repository.Reconciliation.{
  Allocation, Totals, check_allocations, allocate, id_key, account_id_key, currency_id_key,
  realized_key, action_key, reconciliation_text, reconcile_action, unreconcile_action,
}

abbrev pub no_totals : Totals
no_totals = record {
  debit_foreign = pos 0;
  credit_foreign = pos 0;
  debit_functional = pos 0;
  credit_functional = pos 0;
}

-- INSERT INTO account_reconciliations
abbrev pub with_reconciliation : Uuid → Date → LineRow → Uuid → Db → Db
with_reconciliation id date first actor db = record db {
  reconciliations =
      db.reconciliations
      ++ record {
        id = id;
        date = date;
        account_id = first.account_id;
        currency_id = first.currency_id;
        realized_fx_move_id = none;
        created_by = actor;
      }
        ∷ [];
}

-- UPDATE account_reconciliations SET realized_fx_move_id
abbrev pub link_move : Uuid → Uuid → Db → Db
link_move id move_id db = record db {
  reconciliations =
      update_where (λ (r : Reconciliation). r.id == id)
        (λ r. record r { realized_fx_move_id = some move_id }) db.reconciliations;
}

-- The realized difference, if there is one.
unfoldable pub settle :
    Env → Time → LineRow → Decimal → Date → Uuid → Uuid → Db → Fallible (Option Uuid × Db)
settle env now first realized date actor id db =
    if is_zero realized
    then ok (none, db)
    else (or_err (find (λ (c : AccountingConfiguration). true) db.configurations)
          accounting_configuration_missing
        >>= λ c. post_realized_move env now first.account_id realized date actor id c db >>= λ r.
            ok (some (r.0), link_move id (r.0) (r.1)))

abbrev pub reconciled_payload : Env → Uuid → LineRow → Option Uuid → Text
reconciled_payload env id first move_id = env.marshal (
    (id_key, json_id id)
    ∷ (account_id_key, json_id first.account_id)
    ∷ (currency_id_key, json_text first.currency_id)
    ∷ (realized_key, json_maybe_id move_id)
    ∷ [])

-- The statements behind the checks.
unfoldable pub write_reconciliation :
    Env → Time → Date → Uuid → LineRow → Totals → List Allocation → Db → Fallible (Uuid × Db)
unfolding settle
write_reconciliation env now date actor first t als db = do
  let id = env.new_uuid 0
  db1 ← allocate env id first.currency_id als (with_reconciliation id date first actor db)
  (move_id, db2) ←
      settle env now first (t.debit_functional -ℤ t.credit_functional) date actor id db1
  let payload = reconciled_payload env id first move_id
  ok (
    id,
    insert_audit_log env now
        (some (audit_entry reconciliation_text id reconcile_action actor payload now)) db2,
  )

-- PostgresRepository.ReconcileMoveLines
unfoldable pub reconcile_move_lines :
    Env → Time → Date → Uuid → Uuid → Text → List Allocation → Db → Fallible (Uuid × Db)
unfolding write_reconciliation
reconcile_move_lines env now date actor account currency als db = do
  fail_if (actor == uuid_nil || ltb (length als) 2) required
  (first, t) ← check_allocations env date account currency none [] no_totals als db
  guard (eqb_ℤ t.debit_foreign t.credit_foreign) unequal_allocations
  fail_if (is_zero t.debit_foreign) required
  line ← or_err first line_not_found
  write_reconciliation env now date actor line t als db

-- UPDATE ... SET reconciled_amount = reconciled_amount - $2 WHERE id = $1 AND reconciled_amount >= $2
abbrev pub covers : ReconciliationItem → LineRow → Bool
covers i r = r.id == i.move_line_id && leb_ℤ i.allocated_amount r.reconciled_amount

abbrev pub lower : Env → Decimal → LineRow → LineRow
lower env amount r = record r { reconciled_amount = env.numeric (r.reconciled_amount -ℤ amount) }

unfoldable pub restore : Env → List ReconciliationItem → Db → Fallible Db
restore env [] db = ok db
restore env (i ∷ is) db = do
  guard (length (select (covers i) db.lines) == 1) inconsistent_residual
  restore env is
      (record db { lines = update_where (covers i) (lower env i.allocated_amount) db.lines })

abbrev pub by_line : ReconciliationItem → ReconciliationItem → Bool
by_line i j = leb i.move_line_id j.move_line_id

abbrev pub items_of : Uuid → Db → List ReconciliationItem
items_of id db =
    order_by by_line (select (λ (i : ReconciliationItem). i.reconciliation_id == id) db.items)

-- `if realizedMove.Valid`
unfoldable pub undo_realized : Env → Time → Option Uuid → Date → Uuid → Db → Fallible Db
undo_realized env now none date actor db = ok db
undo_realized env now (some move_id) date actor db =
    reverse_posted_move env now move_id date actor db

-- DELETE FROM account_reconciliations, whose items go with it
abbrev pub drop_reconciliation : Uuid → Db → Db
drop_reconciliation id db = record db {
  reconciliations = delete_where (λ (r : Reconciliation). r.id == id) db.reconciliations;
  items = delete_where (λ (i : ReconciliationItem). i.reconciliation_id == id) db.items;
}

-- PostgresRepository.UnreconcileMoveLines
unfoldable pub unreconcile_move_lines : Env → Time → Uuid → Date → Uuid → Db → Fallible Db
unfolding restore undo_realized
unreconcile_move_lines env now id date actor db = do
  fail_if (id == uuid_nil || actor == uuid_nil) required
  r ← or_err (find (λ (r : Reconciliation). r.id == id) db.reconciliations) reconciliation_not_found
  db1 ← restore env (items_of id db) db
  db2 ← undo_realized env now r.realized_fx_move_id date actor db1
  let payload = env.marshal (
      (id_key, json_id id)
      ∷ (account_id_key, json_id r.account_id)
      ∷ (action_key, json_text unreconcile_action)
      ∷ [])
  ok (
      drop_reconciliation id (
        insert_audit_log env now
          (some (audit_entry reconciliation_text id unreconcile_action actor payload now)) db2))

-- ReconcileMoveLinesRequest
pub record ReconcileMoveLinesRequest : Type 0 where
  pub date : Text
  pub allocations : List Allocation

unfoldable pub validate_allocations : List Uuid → List Allocation → Fallible (Unit {0})
validate_allocations seen [] = ok tt
validate_allocations seen (al ∷ als) = do
  fail_if (al.move_line_id == uuid_nil) required
  guard (is_positive al.amount) required
  fail_if (exists (λ id. id == al.move_line_id) seen) duplicate_allocation
  validate_allocations (al.move_line_id ∷ seen) als

-- ReconcileMoveLinesRequest.Validate, with the date
unfoldable pub validate_reconcile : Strings → ReconcileMoveLinesRequest → Fallible Date
unfolding validate_allocations
validate_reconcile s r = do
  date ← parse_date s r.date
  fail_if (ltb (length r.allocations) 2) required
  validate_allocations [] r.allocations
  ok date

-- ReconcileMoveLinesUseCase.Execute
unfoldable pub reconcile :
    Env → Strings → Time → Uuid → ReconcileMoveLinesRequest → Db → Fallible (Uuid × Db)
unfolding reconcile_move_lines validate_reconcile
reconcile env s now actor r db = do
  fail_if (actor == uuid_nil) accounting_actor_required
  date ← validate_reconcile s r
  reconcile_move_lines env now date actor uuid_nil [] r.allocations db
