-- ===== src/Repository/Posting.antt =====
-- postMoveAtomic, with its two callers PostMoveAtomic and PostNewMoveWithEventAtomic (repository.go).
pub mod Laws
pub mod Keeps
pub mod Numbers
use cashflow_backend.Base.{
  Bool, true, false, not, ◌&&◌, ◌||◌, Option, none, some, List, [], ◌∷◌, ◌++◌, Text, ◌==◌, text_eq,
  is_empty, if◌then◌else◌, exists, update_where, ok, err, ◌>>=◌, ◌>>◌, guard, fail_if, or_err,
}
use cashflow_backend.Domain.{
  Uuid, uuid_nil, Time, MoveHeader, AccountMove, AccountMoveLine, FinancialAuditLog, Fallible,
  MoveState, draft, posted, is_draft, move_already_posted, move_not_found, move_changed,
  constraint_violation, required,
}
use cashflow_backend.Domain.Balance.{validate_balance}
use cashflow_backend.Repository.Tables.{Env, MoveRow, ProcessedEvent, Db}
use cashflow_backend.Repository.Rows.{
  lock_open_period, next_sequence, previous_posted_move_hash, hash_move, insert_move_lines,
  find_move, move_accepted, name_free, clear_lines, created_or,
}
use cashflow_backend.Repository.Audit.{insert_audit_log}

-- The key and the type of a processedEvent.
pub record EventKey : Type 0 where
  pub idempotency_key : Text
  pub event_type : Text

-- The identity and the creation time that `createMove` fills in.
abbrev pub prepared : Env → Time → Bool → MoveHeader → MoveHeader
prepared env now create h =
    if create
    then record h {
      id = if h.id == uuid_nil then env.new_uuid 0 else h.id;
      created_at = created_or now h.created_at;
    }
    else h

-- The row of the INSERT under `createMove`.
abbrev pub new_draft_row : MoveHeader → MoveRow
new_draft_row h = record {
  header = record h {
    name = [];
    state = draft;
    reversed_move_id = none;
    hash_signature = [];
    posted_at = none;
    posted_by = none;
    created_by = none;
    updated_at = h.created_at;
  };
  has_hash = false;
}

unfoldable pub insert_new_draft : Bool → MoveHeader → Db → Fallible Db
insert_new_draft create h db =
    if create
    then guard (move_accepted db h) constraint_violation
      >> ok (record db { moves = db.moves ++ new_draft_row h ∷ [] })
    else ok db

-- UPDATE account_moves SET name, state = 'posted', hash_signature, posted_at, posted_by, updated_at
abbrev pub mark_posted : Time → Option Uuid → Text → Text → MoveRow → MoveRow
mark_posted now posted_by name hash r = record r {
  header = record r.header {
    name = name;
    state = posted;
    hash_signature = hash;
    posted_at = some now;
    posted_by = posted_by;
    updated_at = now;
  };
  has_hash = true;
}

-- INSERT INTO subledger_processed_events, whose key is unique
unfoldable pub insert_event : Option EventKey → Uuid → Db → Fallible Db
insert_event none move_id db = ok db
insert_event (some e) move_id db = do
  guard
      (not (exists (λ (p : ProcessedEvent). text_eq p.idempotency_key e.idempotency_key) db.events))
      constraint_violation
  ok (record db {
    events =
        db.events
        ++ record {
          idempotency_key = e.idempotency_key;
          event_type = e.event_type;
          move_id = move_id;
        }
          ∷ [];
  })

-- The draft is locked, and is the one that the caller holds.
unfoldable pub claim_draft : Bool → MoveHeader → Db → Fallible (Unit {0})
claim_draft create h db = do
  row ← or_err (find_move h.id db) move_not_found
  guard (is_draft row.state) move_already_posted
  guard (row.journal_id == h.journal_id && row.period_id == h.period_id && row.date == h.date)
      move_changed
  guard (create || h.updated_at == 0 || h.updated_at == row.updated_at) move_changed

-- The header that the caller gets back.
abbrev pub posted_header : Time → Text → Text → MoveHeader → MoveHeader
posted_header now name hash h =
    (mark_posted now h.posted_by name hash (record { header = h; has_hash = true })).header

abbrev pub mark_rows : Time → MoveHeader → Text → Text → Db → Db
mark_rows now h name hash db = record db {
  moves =
      update_where (λ r. r.id == h.id && is_draft r.state) (mark_posted now h.posted_by name hash)
        db.moves;
}

-- The number, the hash, the change of state and the log entries.
unfoldable pub write_posting :
    Env
    → Time
    → MoveHeader
    → List AccountMoveLine
    → Option FinancialAuditLog
    → Option EventKey
    → Db
    → Fallible (AccountMove × Db)
unfolding insert_event
write_posting env now h lines audit event db = do
  (name, db3) ← next_sequence h.journal_id db
  let hash =
      hash_move env h.id name h.date h.journal_id lines (previous_posted_move_hash h.journal_id db3)
  guard (name_free db3 name) constraint_violation
  db5 ← insert_event event h.id (insert_audit_log env now audit (mark_rows now h name hash db3))
  ok (record { header = posted_header now name hash h; lines = lines }, db5)

unfoldable pub post_atomic :
    Env
    → Time
    → AccountMove
    → Option FinancialAuditLog
    → Option EventKey
    → Bool
    → Db
    → Fallible (AccountMove × Db)
unfolding insert_new_draft claim_draft write_posting
post_atomic env now m audit event create db = do
  guard (is_draft m.state) move_already_posted
  validate_balance m.lines
  let h = prepared env now create m.header
  lock_open_period h.period_id h.date db
  db1 ← insert_new_draft create h db
  claim_draft create h db1
  (lines, db2) ← insert_move_lines env now h.id h.date m.lines (clear_lines h.id db1)
  write_posting env now h lines audit event db2

-- PostMoveAtomic
abbrev pub post_move_atomic :
    Env → Time → AccountMove → FinancialAuditLog → Db → Fallible (AccountMove × Db)
post_move_atomic env now m audit db = post_atomic env now m (some audit) none false db

-- PostNewMoveWithEventAtomic
unfoldable pub post_new_move_with_event :
    Env → Time → AccountMove → FinancialAuditLog → EventKey → Db → Fallible (AccountMove × Db)
post_new_move_with_event env now m audit event db = do
  fail_if (is_empty event.idempotency_key || is_empty event.event_type) required
  post_atomic env now m (some audit) (some event) true db
