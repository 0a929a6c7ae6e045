-- ===== src/Repository/Reconciliation/Realized.antt =====
-- The entries that reconciliation posts: postRealizedFXMove and reversePostedMoveInTransaction, with
-- periodInTransaction (reconciliation.go).
use cashflow_backend.Base.{
  Bool, true, false, ◌&&◌, none, some, List, [], ◌∷◌, ◌++◌, map, Text, ◌==◌, ltb, length, find, ok,
  ◌>>=◌, ◌>>◌, guard, fail_if, or_err,
}
use cashflow_backend.Base.Int.{abs}
use cashflow_backend.Domain.{
  Uuid, Date, Time, Decimal, Account, AccountType, income, expense, Journal,
  AccountingConfiguration, AccountMoveLine, MoveHeader, is_posted, Fallible, journal_not_found,
  journal_inactive, account_not_found, fx_accounts_unfit, adjustment_rounds_to_zero, move_not_found,
  cannot_reverse_unposted_move, move_already_reversed, move_requires_at_least_two_lines,
}
use cashflow_backend.Domain.Balance.{is_zero, is_positive}
use cashflow_backend.Repository.Tables.{Env, json_id, Db}
use cashflow_backend.Repository.Rows.{
  lock_open_period, get_period_by_date, next_sequence, previous_posted_move_hash, hash_move,
  find_move, load_move_lines,
}
use cashflow_backend.Repository.Reversal.{has_reversal, mirror_lines}
use cashflow_backend.Repository.Posted.{insert_posted}
use cashflow_backend.Repository.YearClose.Lines.{blank_line}
use cashflow_backend.Repository.YearClose.{
  audit_entry, entity_move_text, post_action, move_id_key, system_header,
}

abbrev pub reconciliation_id_key : Text
reconciliation_id_key =
    b'r' ∷ b'e' ∷ b'c' ∷ b'o' ∷ b'n' ∷ b'c' ∷ b'i' ∷ b'l' ∷ b'i' ∷ b'a' ∷ b't' ∷ b'i' ∷ b'o' ∷ b'n'
    ∷ b'_' ∷ b'i' ∷ b'd' ∷ []

abbrev pub reversed_move_id_key : Text
reversed_move_id_key =
    b'r' ∷ b'e' ∷ b'v' ∷ b'e' ∷ b'r' ∷ b's' ∷ b'e' ∷ b'd' ∷ b'_' ∷ b'm' ∷ b'o' ∷ b'v' ∷ b'e' ∷ b'_'
    ∷ b'i' ∷ b'd' ∷ []

abbrev pub reverse_action : Text
reverse_action = b'R' ∷ b'E' ∷ b'V' ∷ b'E' ∷ b'R' ∷ b'S' ∷ b'E' ∷ []

abbrev pub realized_ref : Text
realized_ref =
    b'R' ∷ b'e' ∷ b'a' ∷ b'l' ∷ b'i' ∷ b'z' ∷ b'e' ∷ b'd' ∷ b' ' ∷ b'F' ∷ b'X' ∷ b' ' ∷ b'r' ∷ b'e'
    ∷ b'c' ∷ b'o' ∷ b'n' ∷ b'c' ∷ b'i' ∷ b'l' ∷ b'i' ∷ b'a' ∷ b't' ∷ b'i' ∷ b'o' ∷ b'n' ∷ b' ' ∷ []

abbrev pub reversal_ref : Text
reversal_ref =
    b'R' ∷ b'e' ∷ b'v' ∷ b'e' ∷ b'r' ∷ b's' ∷ b'a' ∷ b'l' ∷ b' ' ∷ b'o' ∷ b'f' ∷ b' ' ∷ []

-- periodInTransaction
unfoldable pub period_in_transaction : Date → Db → Fallible Uuid
period_in_transaction date db = get_period_by_date date db >>= λ p. ok p.id

abbrev pub is_income : AccountType → Bool
is_income income = true
is_income _ = false

abbrev pub is_expense : AccountType → Bool
is_expense expense = true
is_expense _ = false

abbrev pub active_account : Uuid → Db → Fallible Account
active_account id db =
    or_err (find (λ (a : Account). a.id == id && a.is_active) db.accounts) account_not_found

-- The checks of postRealizedFXMove, and the period.
unfoldable pub check_realized : Date → AccountingConfiguration → Db → Fallible Uuid
unfolding period_in_transaction
check_realized date c db = do
  period ← period_in_transaction date db
  lock_open_period period date db
  j ←
      or_err (find (λ (j : Journal). j.id == c.fx_reconciliation_journal_id) db.journals)
        journal_not_found
  guard j.is_active journal_inactive
  gain ← active_account c.fx_gain_account_id db
  loss ← active_account c.fx_loss_account_id db
  guard (is_income gain.account_type && is_expense loss.account_type) fx_accounts_unfit
  ok period

-- The two lines: what is left on the account goes to the loss, or comes from the gain.
abbrev pub realized_lines :
    Env
    → Time
    → Uuid
    → Date
    → Uuid
    → AccountingConfiguration
    → Bool
    → Decimal
    → List AccountMoveLine
realized_lines env now move_id date account c true amount =
    record (blank_line (env.new_uuid 2) account c.functional_currency date now) {
      move_id = move_id;
      credit = amount;
    }
    ∷ record (blank_line (env.new_uuid 3) c.fx_loss_account_id c.functional_currency date now) {
      move_id = move_id;
      debit = amount;
    }
    ∷ []
realized_lines env now move_id date account c false amount =
    record (blank_line (env.new_uuid 2) account c.functional_currency date now) {
      move_id = move_id;
      debit = amount;
    }
    ∷ record (blank_line (env.new_uuid 3) c.fx_gain_account_id c.functional_currency date now) {
      move_id = move_id;
      credit = amount;
    }
    ∷ []

-- postRealizedFXMove; uuid.New gave the reconciliation its id before
unfoldable pub post_realized_move :
    Env
    → Time
    → Uuid
    → Decimal
    → Date
    → Uuid
    → Uuid
    → AccountingConfiguration
    → Db
    → Fallible (Uuid × Db)
unfolding check_realized
post_realized_move env now account realized date actor reconciliation_id c db = do
  period ← check_realized date c db
  let amount = env.round4 (abs realized)
  fail_if (is_zero amount) adjustment_rounds_to_zero
  (name, db1) ← next_sequence c.fx_reconciliation_journal_id db
  let id = env.new_uuid 1
  let lines = realized_lines env now id date account c (is_positive realized) amount
  let journal = c.fx_reconciliation_journal_id
  let hash = hash_move env id name date journal lines (previous_posted_move_hash journal db1)
  let payload =
      env.marshal
        ((move_id_key, json_id id) ∷ (reconciliation_id_key, json_id reconciliation_id) ∷ [])
  db2 ←
      insert_posted env now
        (system_header id journal period date now actor
          (realized_ref ++ env.uuid_text reconciliation_id) name hash)
        lines (audit_entry entity_move_text id post_action actor payload now) db1
  ok (id, db2)

abbrev pub unmatched : AccountMoveLine → AccountMoveLine
unmatched l = record l { matching_number = [] }

-- The lines of a reversal here have no matching number.
unfoldable pub reversal_lines :
    Env → Time → Uuid → Date → List AccountMoveLine → List AccountMoveLine
reversal_lines env now id date ls =
    map (λ (l : AccountMoveLine). unmatched l) (mirror_lines env now id date 1 [] ls)

abbrev pub realized_reversal_header : MoveHeader → Uuid → MoveHeader
realized_reversal_header h original = record h {
  reversed_move_id = some original;
  created_by = none;
}

-- reversePostedMoveInTransaction
unfoldable pub reverse_posted_move : Env → Time → Uuid → Date → Uuid → Db → Fallible Db
unfolding period_in_transaction reversal_lines
reverse_posted_move env now original date actor db = do
  m ← or_err (find_move original db) move_not_found
  guard (is_posted m.state) cannot_reverse_unposted_move
  fail_if (has_reversal original db) move_already_reversed
  period ← period_in_transaction date db
  lock_open_period period date db
  (name, db1) ← next_sequence m.journal_id db
  let originals = load_move_lines original db1
  fail_if (ltb (length originals) 2) move_requires_at_least_two_lines
  let id = env.new_uuid 0
  let lines = reversal_lines env now id date originals
  let hash =
      hash_move env id name date m.journal_id lines (previous_posted_move_hash m.journal_id db1)
  let payload =
      env.marshal ((move_id_key, json_id id) ∷ (reversed_move_id_key, json_id original) ∷ [])
  insert_posted env now
      (realized_reversal_header
        (system_header id m.journal_id period date now actor
          (reversal_ref ++ env.uuid_text original) name hash)
        original)
      lines (audit_entry entity_move_text id reverse_action actor payload now) db1
