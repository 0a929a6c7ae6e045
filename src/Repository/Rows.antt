-- ===== src/Repository/Rows.antt =====
-- The statements that several transactions share: lockOpenPeriod, GetNextSequenceWithLock,
-- previousPostedMoveHash, hashMove, insertMoveLines, loadMoveLines and getMoveByID (repository.go).
pub mod Find
pub mod Lines
pub mod Sequence
use cashflow_backend.Base.{
  ℕ, zero, suc, ◌+◌, ◌-◌, ◌/◌, ◌%◌, Bool, true, false, not, ◌&&◌, ◌||◌, Option, none, some, List,
  [], ◌∷◌, ◌++◌, map, Text, ltb, leb, ◌==◌, if◌then◌else◌, find, select, exists, update_where,
  delete_where, text_eq, order_by, ok, ◌>>=◌, ◌>>◌, guard, fail_if, or_err, length,
}
use cashflow_backend.Base.Int.{pos}
use cashflow_backend.Domain.{
  Uuid, uuid_nil, Date, Time, AccountMoveLine, MoveHeader, AccountMove, Account, FiscalPeriod,
  Journal, is_posted, Fallible, is_draft, is_open, period_not_found, period_closed,
  journal_not_found, bad_sequence_number, constraint_violation, move_not_found,
}
use cashflow_backend.Domain.Balance.{is_negative, is_positive}
use cashflow_backend.Repository.Tables.{LineEntry, Env, MoveRow, LineRow, Db}

-- lockOpenPeriod
unfoldable pub lock_open_period : Uuid → Date → Db → Fallible (Unit {0})
lock_open_period period_id date db = do
  p ←
      or_err
        (find (λ p. p.id == period_id && leb p.start_date date && leb date p.end_date) db.periods)
        period_not_found
  guard (is_open p.state) period_closed

-- GetPeriodByDate: of the periods that hold the date, the one that starts last
unfoldable pub get_period_by_date : Date → Db → Fallible FiscalPeriod
get_period_by_date date db =
    or_err
      (find (λ p. leb p.start_date date && leb date p.end_date)
        (order_by (λ p q. leb q.start_date p.start_date) db.periods))
      period_not_found

-- The decimal digits of a number, with fuel for one more digit than there can be.
digits : ℕ → ℕ → Text → Text
digits zero n acc = acc
digits (suc fuel) n acc =
    let rest = digits fuel (n / 10) ((48 + n % 10) ∷ acc) in
    if n / 10 == 0 then (48 + n % 10) ∷ acc else rest

zeros : ℕ → Text
zeros zero = []
zeros (suc n) = b'0' ∷ zeros n

-- fmt.Sprintf("%s%05d", prefix, n)
unfoldable pub sequence_name : Text → ℕ → Text
unfolding digits zeros
sequence_name prefix n = let d = digits (suc n) n [] in prefix ++ (zeros (5 - length d) ++ d)

-- GetNextSequenceWithLock, and nextSequence of reconciliation.go, which is the same
unfoldable pub next_sequence : Uuid → Db → Fallible (Text × Db)
next_sequence journal_id db = do
  j ← or_err (find (λ j. j.id == journal_id) db.journals) journal_not_found
  fail_if (ltb j.next_number 1) bad_sequence_number
  let bumped =
      update_where (λ k. k.id == journal_id) (λ k. record k { next_number = k.next_number + 1 })
        db.journals
  ok (sequence_name j.sequence_prefix j.next_number, record db { journals = bumped })

-- The order of two texts by their bytes.
unfoldable pub text_leb : Text → Text → Bool
text_leb [] t = true
text_leb (a ∷ s) [] = false
text_leb (a ∷ s) (b ∷ t) = if a == b then text_leb s t else ltb a b

-- previousPostedMoveHash: the hash of the posted move whose name is the last by the order of texts
unfoldable pub previous_posted_move_hash : Uuid → Db → Text
unfolding text_leb
previous_posted_move_hash journal_id db =
    elim (find (λ m. true)
      (order_by (λ m n. text_leb n.name m.name)
        (select (λ m. m.journal_id == journal_id && not (is_draft m.state)) db.moves))) [
          | none ↦ []
          | some m ↦ m.hash_signature
        ]

abbrev pub line_entry : AccountMoveLine → LineEntry
line_entry l = record {
  id = l.id;
  move_id = l.move_id;
  account_id = l.account_id;
  debit = l.debit;
  credit = l.credit;
  amount_currency = l.amount_currency;
  currency_id = l.currency_id;
  matching_number = l.matching_number;
  date = l.date;
  partner_id = l.partner_id;
  cost_center_id = l.cost_center_id;
}

-- hashMove
unfoldable pub hash_move : Env → Uuid → Text → Date → Uuid → List AccountMoveLine → Text → Text
hash_move env id name date journal_id lines previous_hash = env.hash_payload (record {
  id = id;
  name = name;
  date = date;
  journal_id = journal_id;
  lines = order_by env.json_before (map line_entry lines);
  previous_hash = previous_hash;
})

-- What insertMoveLines fills in on a line; `k` counts the calls of uuid.New.
abbrev pub complete_line : Env → Time → Uuid → Date → ℕ → AccountMoveLine → AccountMoveLine
complete_line env now move_id move_date k l = record l {
  id = if l.id == uuid_nil then env.new_uuid k else l.id;
  move_id = move_id;
  date = if l.date == 0 then move_date else l.date;
  created_at = if l.created_at == 0 then now else l.created_at;
}

unfoldable pub complete_lines :
    Env → Time → Uuid → Date → ℕ → List AccountMoveLine → List AccountMoveLine
complete_lines env now move_id move_date k [] = []
complete_lines env now move_id move_date k (l ∷ ls) =
    complete_line env now move_id move_date k l
    ∷ complete_lines env now move_id move_date (k + 1) ls

-- The row that the columns keep of a line.
unfoldable pub line_row : Env → AccountMoveLine → LineRow
line_row env l = record {
  line = record l {
    debit = env.numeric l.debit;
    credit = env.numeric l.credit;
    amount_currency = env.numeric l.amount_currency;
  };
  reconciled_amount = pos 0;
}

-- The primary key, the foreign key to accounts and the CHECK constraints of account_move_lines.
unfoldable pub line_accepted : Db → LineRow → Bool
line_accepted db r =
    not (exists (λ (s : LineRow). s.id == r.id) db.lines)
    && exists (λ (a : Account). a.id == r.account_id) db.accounts
    && not (is_negative r.debit)
    && not (is_negative r.credit)
    && (is_positive r.debit || is_positive r.credit)

unfoldable pub insert_rows : Env → List AccountMoveLine → Db → Fallible Db
insert_rows env [] db = ok db
insert_rows env (l ∷ ls) db = do
  guard (line_accepted db (line_row env l)) constraint_violation
  insert_rows env ls (record db { lines = db.lines ++ line_row env l ∷ [] })

-- insertMoveLines, which also completes the lines that the caller holds
unfoldable pub insert_move_lines :
    Env → Time → Uuid → Date → List AccountMoveLine → Db → Fallible (List AccountMoveLine × Db)
unfolding complete_lines insert_rows
insert_move_lines env now move_id move_date ls db = do
  let ls' = complete_lines env now move_id move_date 1 ls
  db' ← insert_rows env ls' db
  ok (ls', db')

-- The lines of one move, in the order of the table.
unfoldable pub lines_of : Uuid → List LineRow → List AccountMoveLine
lines_of id [] = []
lines_of id (r ∷ rs) = if r.move_id == id then r.line ∷ lines_of id rs else lines_of id rs

-- `ORDER BY created_at, id`, and the same behind `date`
abbrev pub by_creation : AccountMoveLine → AccountMoveLine → Bool
by_creation l m = ltb l.created_at m.created_at || (l.created_at == m.created_at && leb l.id m.id)

abbrev pub by_date : AccountMoveLine → AccountMoveLine → Bool
by_date l m = ltb l.date m.date || (l.date == m.date && by_creation l m)

-- loadMoveLines
unfoldable pub load_move_lines : Uuid → Db → List AccountMoveLine
unfolding lines_of
load_move_lines id db = order_by by_creation (lines_of id db.lines)

abbrev pub find_move : Uuid → Db → Option MoveRow
find_move id db = find (λ m. m.id == id) db.moves

-- scanMove
unfoldable pub scan_move : Env → MoveRow → Fallible MoveHeader
scan_move env r =
    if r.has_hash
    then ok r.header
    else env.scan_null >>= λ text. ok (record r.header { hash_signature = text })

-- GetMoveByID, with getMoveByID
unfoldable pub get_move_by_id : Env → Uuid → Db → Fallible AccountMove
unfolding scan_move lines_of
get_move_by_id env id db = do
  row ← or_err (find_move id db) move_not_found
  header ← scan_move env row
  ok (record { header = header; lines = order_by by_date (lines_of id db.lines) })

-- The foreign keys of account_moves to the journal and the period.
abbrev pub references_exist : Db → MoveHeader → Bool
references_exist db h =
    exists (λ (j : Journal). j.id == h.journal_id) db.journals
    && exists (λ (p : FiscalPeriod). p.id == h.period_id) db.periods

-- The primary key and the foreign keys of account_moves.
unfoldable pub move_accepted : Db → MoveHeader → Bool
move_accepted db h = not (exists (λ (m : MoveRow). m.id == h.id) db.moves) && references_exist db h

-- The unique index uq_posted_move_name.
unfoldable pub name_free : Db → Text → Bool
name_free db name =
    not (exists (λ (m : MoveRow). is_posted m.state && text_eq m.name name) db.moves)

-- `DELETE FROM account_move_lines WHERE move_id = $1`
abbrev pub clear_lines : Uuid → Db → Db
clear_lines id db = record db { lines = delete_where (λ r. r.move_id == id) db.lines }

abbrev pub created_or : Time → Time → Time
created_or now t = if t == 0 then now else t
