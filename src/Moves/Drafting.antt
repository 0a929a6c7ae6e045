-- ===== src/Moves/Drafting.antt =====
-- CreateDraftMoveUseCase.ExecuteAs, UpdateDraftMoveUseCase and DeleteDraftMoveUseCase
-- (usecase_create_draft_move.go, usecase_update_draft_move.go, usecase_delete_draft_move.go). The cache
-- of accounts in ExecuteAs repeats no read of another transaction's, so each line reads its account.
use cashflow_backend.Base.{
  ℕ, ◌+◌, none, some, List, [], ◌∷◌, Text, ◌==◌, ok, ◌>>=◌, ◌>>◌, guard, fail_if,
}
use cashflow_backend.Domain.{
  Uuid, uuid_nil, Date, Time, MoveHeader, AccountMove, AccountMoveLine, draft, Fallible, required,
  journal_inactive, account_inactive,
}
use cashflow_backend.Domain.Balance.{validate_can_modify, can_post}
use cashflow_backend.Repository.Tables.{Env, Db}
use cashflow_backend.Repository.Rows.{get_move_by_id, get_period_by_date}
use cashflow_backend.Repository.Drafts.{save_draft_move, delete_draft_move}
use cashflow_backend.Masters.Accounts.{get_account_by_id}
use cashflow_backend.Masters.Journals.{get_journal_by_id}
use cashflow_backend.Moves.Requests.{
  Strings, MoveLineRequest, CreateMoveRequest, validate_move_request, parse_date,
}

-- The line of a move that a line of a request asks for.
abbrev pub requested_line : Uuid → Uuid → Date → Time → MoveLineRequest → AccountMoveLine
requested_line id move_id date created_at l = record {
  id = id;
  move_id = move_id;
  account_id = l.account_id;
  partner_id = l.partner_id;
  debit = l.debit;
  credit = l.credit;
  amount_currency = l.amount_currency;
  currency_id = l.currency_id;
  cost_center_id = l.cost_center_id;
  matching_number = l.matching_number;
  date = date;
  created_at = created_at;
}

-- The loop over the lines; `k` counts the calls of uuid.New.
unfoldable pub build_lines :
    Env → Uuid → Date → Time → ℕ → List MoveLineRequest → Db → Fallible (List AccountMoveLine)
build_lines env move_id date created_at k [] db = ok []
build_lines env move_id date created_at k (l ∷ ls) db = do
  account ← get_account_by_id l.account_id db
  guard account.is_active account_inactive
  rest ← build_lines env move_id date created_at (k + 1) ls db
  ok (requested_line (env.new_uuid k) move_id date created_at l ∷ rest)

-- The journal and the open period that a request names, by their ids.
abbrev pub check_target : Uuid → Date → Db → Fallible (Uuid × Uuid)
check_target journal_id date db = do
  journal ← get_journal_by_id journal_id db
  guard journal.is_active journal_inactive
  period ← get_period_by_date date db
  can_post period
  ok (journal.id, period.id)

abbrev pub new_draft : Env → Time → Uuid → Uuid → Uuid → Date → Text → MoveHeader
new_draft env now actor journal_id period_id date ref = record {
  id = env.new_uuid 0;
  name = [];
  journal_id = journal_id;
  period_id = period_id;
  date = date;
  state = draft;
  ref = ref;
  reversed_move_id = none;
  hash_signature = [];
  posted_at = none;
  posted_by = none;
  created_by = some actor;
  created_at = now;
  updated_at = 0;
}

-- CreateDraftMoveUseCase.ExecuteAs
unfoldable pub create_draft_move :
    Env → Strings → Time → Uuid → CreateMoveRequest → Db → Fallible (AccountMove × Db)
unfolding build_lines
create_draft_move env s now actor q db = do
  r ← validate_move_request s q
  date ← parse_date s r.date
  (journal_id, period_id) ← check_target r.journal_id date db
  lines ← build_lines env (env.new_uuid 0) date now 1 r.lines db
  save_draft_move env now
      (record { header = new_draft env now actor journal_id period_id date r.ref; lines = lines })
      db

-- The draft with the request's contents.
abbrev pub redrafted :
    Time → Uuid → Uuid → Date → Text → List AccountMoveLine → AccountMove → AccountMove
redrafted now journal_id period_id date ref lines m = record {
  header = record m.header {
    journal_id = journal_id;
    period_id = period_id;
    date = date;
    ref = ref;
    updated_at = now;
  };
  lines = lines;
}

-- UpdateDraftMoveUseCase.Execute
unfoldable pub update_draft_move :
    Env → Strings → Time → Uuid → CreateMoveRequest → Db → Fallible (AccountMove × Db)
unfolding build_lines
update_draft_move env s now move_id q db = do
  fail_if (move_id == uuid_nil) required
  r ← validate_move_request s q
  m ← get_move_by_id env move_id db
  validate_can_modify m
  date ← parse_date s r.date
  (journal_id, period_id) ← check_target r.journal_id date db
  lines ← build_lines env m.id date 0 0 r.lines db
  save_draft_move env now (redrafted now journal_id period_id date r.ref lines m) db

-- DeleteDraftMoveUseCase.Execute
unfoldable pub delete_draft : Uuid → Db → Fallible Db
delete_draft move_id db = fail_if (move_id == uuid_nil) required >> delete_draft_move move_id db
