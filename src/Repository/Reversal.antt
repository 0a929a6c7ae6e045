-- ===== src/Repository/Reversal.antt =====
-- ReverseMoveAtomic (repository.go).
pub mod Laws
pub mod Mirror
pub mod Sound
pub mod Takeback
use cashflow_backend.Base.{
  ℕ, suc, Bool, true, false, not, ◌&&◌, Option, none, some, List, [], ◌∷◌, ◌++◌, Text, ◌==◌, ltb,
  length, ◌+◌, if◌then◌else◌, exists, ok, err, ◌>>=◌, ◌>>◌, guard, fail_if, or_err,
}
use cashflow_backend.Base.Int.{neg}
use cashflow_backend.Domain.{
  Uuid, uuid_nil, Date, Time, MoveHeader, AccountMove, AccountMoveLine, FinancialAuditLog, Fallible,
  MoveState, posted, is_draft, is_posted, move_already_posted, move_already_reversed,
  move_not_found, cannot_reverse_unposted_move, move_requires_at_least_two_lines,
  constraint_violation,
}
use cashflow_backend.Repository.Tables.{Env, MoveRow, Db}
use cashflow_backend.Repository.Rows.{
  lock_open_period, next_sequence, previous_posted_move_hash, hash_move, insert_move_lines,
  find_move, load_move_lines, move_accepted, name_free, created_or,
}
use cashflow_backend.Repository.Audit.{insert_audit_log}

-- A move in the table names `id` as the one that it reverses.
unfoldable pub has_reversal : Uuid → Db → Bool
has_reversal id db =
    exists (λ m. elim m.reversed_move_id [ none ↦ false | some r ↦ r == id ]) db.moves

-- The ids that the caller gave to the lines of its reversal, as far as they go.
abbrev pub given_id : List AccountMoveLine → Uuid
given_id [] = uuid_nil
given_id (l ∷ ls) = l.id

abbrev pub rest_lines : List AccountMoveLine → List AccountMoveLine
rest_lines [] = []
rest_lines (l ∷ ls) = ls

-- Debit and credit change places, and the foreign amount its sign.
abbrev pub mirrored : Uuid → Uuid → Date → Time → AccountMoveLine → AccountMoveLine
mirrored id move_id date now l = record l {
  id = id;
  move_id = move_id;
  debit = l.credit;
  credit = l.debit;
  amount_currency = neg l.amount_currency;
  date = date;
  created_at = now;
}

-- The lines of the reversal; `k` counts the calls of uuid.New.
unfoldable pub mirror_lines :
    Env
    → Time
    → Uuid
    → Date
    → ℕ
    → List AccountMoveLine
    → List AccountMoveLine
    → List AccountMoveLine
mirror_lines env now move_id date k given [] = []
mirror_lines env now move_id date k given (l ∷ ls) =
    let id = if given_id given == uuid_nil then env.new_uuid k else given_id given in
    mirrored id move_id date now l ∷ mirror_lines env now move_id date (k + 1) (rest_lines given) ls

-- The header of the reversal, as it is inserted and as the caller gets it back.
abbrev pub reversal_header :
    Time → Uuid → Uuid → Option Uuid → Text → Text → MoveHeader → MoveHeader
reversal_header now id original posted_by name hash h = record h {
  id = id;
  name = name;
  state = posted;
  reversed_move_id = some original;
  hash_signature = hash;
  posted_at = some now;
  posted_by = posted_by;
  created_at = created_or now h.created_at;
  updated_at = now;
}

-- The statements behind the number: the row of the reversal, its lines and the audit entry.
unfoldable pub write_reversal :
    Env
    → Time
    → Uuid
    → AccountMove
    → FinancialAuditLog
    → List AccountMoveLine
    → Text
    → Db
    → Fallible (AccountMove × Db)
unfolding mirror_lines
write_reversal env now original_id m audit original_lines name db = do
  let id = if m.id == uuid_nil then env.new_uuid 0 else m.id
  let lines = mirror_lines env now id m.date 1 m.lines original_lines
  let hash =
      hash_move env id name m.date m.journal_id lines (previous_posted_move_hash m.journal_id db)
  let h = reversal_header now id original_id (some audit.actor_id) name hash m.header
  guard (move_accepted db h && name_free db name) constraint_violation
  -- the INSERT names no created_by
  let row : MoveRow = record { header = record h { created_by = none }; has_hash = true }
  (stored, db2) ←
      insert_move_lines env now id m.date lines (record db { moves = db.moves ++ row ∷ [] })
  ok (record { header = h; lines = stored }, insert_audit_log env now (some audit) db2)

-- ReverseMoveAtomic
unfoldable pub reverse_move_atomic :
    Env → Time → Uuid → AccountMove → FinancialAuditLog → Db → Fallible (AccountMove × Db)
unfolding has_reversal write_reversal
reverse_move_atomic env now original_id m audit db = do
  guard (is_draft m.state) move_already_posted
  original ← or_err (find_move original_id db) move_not_found
  guard (is_posted original.state) cannot_reverse_unposted_move
  fail_if (has_reversal original_id db) move_already_reversed
  lock_open_period m.period_id m.date db
  (name, db1) ← next_sequence m.journal_id db
  let original_lines = load_move_lines original_id db1
  fail_if (ltb (length original_lines) 2) move_requires_at_least_two_lines
  write_reversal env now original_id m audit original_lines name db1
