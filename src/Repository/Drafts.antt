-- ===== src/Repository/Drafts.antt =====
-- SaveDraftMove and DeleteDraftMove (repository.go).
pub mod Laws
pub mod Sound
use cashflow_backend.Base.{
  ◌*◌, ◌/◌, Bool, true, false, ◌&&◌, ◌||◌, Option, none, some, List, [], ◌∷◌, ◌++◌, Text, ◌==◌,
  if◌then◌else◌, not, exists, find, update_where, delete_where, ok, err, ◌>>=◌, ◌>>◌, guard,
  fail_if, or_err,
}
use cashflow_backend.Domain.{
  Uuid, uuid_nil, Time, MoveHeader, AccountMove, Fallible, MoveState, draft, is_draft,
  move_already_posted, move_not_found, constraint_violation,
}
use cashflow_backend.Domain.Balance.{validate_balance}
use cashflow_backend.Repository.Tables.{Env, MoveRow, Db}
use cashflow_backend.Repository.Rows.{
  insert_move_lines, find_move, move_accepted, references_exist, clear_lines, created_or,
}

-- COALESCE
abbrev pub coalesce : Option Uuid → Option Uuid → Option Uuid
coalesce (some a) b = some a
coalesce none b = b

-- The move's own fields as SaveDraftMove sets them before it begins.
abbrev pub draft_header : Env → Time → MoveHeader → MoveHeader
draft_header env now h = record h {
  id = if h.id == uuid_nil then env.new_uuid 0 else h.id;
  created_at = created_or now h.created_at;
  updated_at = now / 1000 * 1000;
}

-- The row that the INSERT makes.
abbrev pub draft_row : MoveHeader → MoveRow
draft_row h = record {
  header = record h {
    state = draft;
    reversed_move_id = none;
    hash_signature = [];
    posted_at = none;
    posted_by = none;
  };
  has_hash = false;
}

-- DO UPDATE SET ...
abbrev pub overwrite_draft : MoveHeader → MoveRow → MoveRow
overwrite_draft h old = record old {
  header = record old.header {
    name = h.name;
    journal_id = h.journal_id;
    period_id = h.period_id;
    date = h.date;
    ref = h.ref;
    created_by = coalesce old.created_by h.created_by;
    updated_at = h.updated_at;
  };
}

-- INSERT ... ON CONFLICT (id) DO UPDATE ... WHERE account_moves.state = 'draft', with the check
-- that a row was affected; the row of the same id is given
unfoldable pub written_by : MoveHeader → Db → Option MoveRow → Fallible Db
written_by h db none = do
  guard (move_accepted db h) constraint_violation
  ok (record db { moves = db.moves ++ draft_row h ∷ [] })
written_by h db (some old) = do
  guard (is_draft old.state) move_already_posted
  guard (references_exist db h) constraint_violation
  ok (record db { moves = update_where (λ r. r.id == h.id) (overwrite_draft h) db.moves })

unfoldable pub upsert_draft : MoveHeader → Db → Fallible Db
unfolding written_by
upsert_draft h db = written_by h db (find_move h.id db)

-- SaveDraftMove, with the move that it leaves to the caller
unfoldable pub save_draft_move : Env → Time → AccountMove → Db → Fallible (AccountMove × Db)
unfolding upsert_draft
save_draft_move env now m db = do
  guard (is_draft m.state) move_already_posted
  validate_balance m.lines
  let h = draft_header env now m.header
  db1 ← upsert_draft h db
  (lines, db2) ← insert_move_lines env now h.id h.date m.lines (clear_lines h.id db1)
  ok (record { header = h; lines = lines }, db2)

-- DeleteDraftMove. The lines go with the row (ON DELETE CASCADE); a draft that a move names as the
-- one it reverses, or that an event names, is kept by its foreign key.
unfoldable pub delete_draft_move : Uuid → Db → Fallible Db
delete_draft_move id db = do
  row ← or_err (find_move id db) move_not_found
  guard (is_draft row.state) move_already_posted
  fail_if
      (exists (λ m. elim m.reversed_move_id [ none ↦ false | some r ↦ r == id ]) db.moves
        || exists (λ e. e.move_id == id) db.events)
      constraint_violation
  let kept = delete_where (λ r. r.id == id && is_draft r.state) db.moves
  ok (record (clear_lines id db) { moves = kept })
