-- ===== src/Examples/Books.antt =====
-- A small set of books: two accounts, one open period, one journal and a balanced draft.
use cashflow_backend.Base.{
  ◌+◌, ◌≡◌, refl, true, false, none, some, [], ◌∷◌, ◌++◌, map, leb, ok, err, find, order_by, exists,
  delete_where, All, update_where, text_eq,
}
use cashflow_backend.Base.Int.{pos, ◌+ℤ◌}
use cashflow_backend.Domain.{
  Uuid, Account, asset, income, debit_balance, credit_balance, open_year, FiscalPeriod, open_period,
  Journal, AccountMoveLine, MoveHeader, AccountMove, draft, Fallible, FinancialAuditLog,
  constraint_violation,
}
use cashflow_backend.Repository.Tables.{Env, MoveRow, Db}
use cashflow_backend.Domain.Balance.{validate_balance}
use cashflow_backend.Repository.Rows.{
  find_move, lines_of, line_row, line_accepted, lock_open_period, insert_move_lines, next_sequence,
  name_free, load_move_lines, move_accepted, sequence_name,
}
use cashflow_backend.Repository.Rows.Lines.{IsExact}
use cashflow_backend.Repository.Audit.{insert_audit_log, verify_from, verify_audit_integrity}
use cashflow_backend.Repository.Invariant.{IsNumeric, IsSound}
use cashflow_backend.Repository.YearClose.Exact.{IsFixedPoint}
use cashflow_backend.Repository.Reconciliation.Sound.{IsRounding}
use cashflow_backend.Repository.Drafts.{save_draft_move}
use cashflow_backend.Repository.Drafts.Sound.{save_draft_move-IsSound}
use cashflow_backend.Repository.Posting.Keeps.{post_atomic-IsSound}
use cashflow_backend.Repository.Posting.{EventKey, post_atomic, post_new_move_with_event}
use cashflow_backend.Repository.Reversal.{reverse_move_atomic}
use cashflow_backend.Moves.Posting.{
  MakerCheckerSettings, new_financial_audit, account_move_text, post_text, reverse_text,
}

-- One byte per id and instant, a hash that shifts each byte, and columns that keep each amount.
abbrev pub example_env : Env
example_env = record {
  numeric = λ a. a;
  round4 = λ a. a;
  product4 = λ a b. a;
  prorated = λ a b c. a;
  new_uuid = λ k. 100 + k;
  uuid_text = λ u. (u + 125) ∷ [];
  rfc3339_nano = λ t. (t + 125) ∷ [];
  unix_nano_text = λ t. (t + 125) ∷ [];
  jsonb_text = λ t. t;
  sha256_hex = λ t. map (λ c. c + 125) t;
  hash_payload = λ p. p.name ++ p.previous_hash;
  marshal = λ members. b'{' ∷ [];
  json_before = λ a b. leb a.id b.id;
  scan_null = err constraint_violation;
}

abbrev pub cash : Account
cash = record {
  id = 1;
  code = b'1' ∷ [];
  name = b'C' ∷ [];
  account_type = asset;
  normal_balance = debit_balance;
  currency_id = [];
  parent_id = none;
  is_reconcilable = false;
  is_active = true;
  is_cash_equivalent = true;
  is_non_cash_adjustment = false;
  cash_flow_activity = [];
  created_at = 1;
  updated_at = 1;
}

abbrev pub sales : Account
sales = record cash {
  id = 2;
  code = b'2' ∷ [];
  account_type = income;
  normal_balance = credit_balance;
}

abbrev pub example_period : FiscalPeriod
example_period = record {
  id = 1;
  fiscal_year_id = 1;
  period_number = 1;
  name = [];
  start_date = 10;
  end_date = 20;
  state = open_period;
  closed_at = none;
  closed_by = none;
  created_at = 1;
}

abbrev pub example_journal : Journal
example_journal = record {
  id = 1;
  code = b'G' ∷ [];
  name = [];
  journal_type = [];
  sequence_prefix = b'G' ∷ [];
  next_number = 1;
  is_active = true;
  created_at = 1;
}

abbrev pub example_header : MoveHeader
example_header = record {
  id = 7;
  name = [];
  journal_id = 1;
  period_id = 1;
  date = 12;
  state = draft;
  ref = [];
  reversed_move_id = none;
  hash_signature = [];
  posted_at = none;
  posted_by = none;
  created_by = some 3;
  created_at = 1;
  updated_at = 0;
}

abbrev pub debit_line : AccountMoveLine
debit_line = record {
  id = 11;
  move_id = 7;
  account_id = 1;
  partner_id = none;
  debit = pos 5;
  credit = pos 0;
  amount_currency = pos 0;
  currency_id = [];
  cost_center_id = none;
  matching_number = [];
  date = 12;
  created_at = 1;
}

abbrev pub credit_line : AccountMoveLine
credit_line = record debit_line { id = 12; account_id = 2; debit = pos 0; credit = pos 5 }

abbrev pub example_move : AccountMove
example_move = record { header = example_header; lines = debit_line ∷ credit_line ∷ [] }

abbrev pub empty_books : Db
empty_books = record {
  accounts = cash ∷ sales ∷ [];
  years =
      record {
        id = 1;
        year = 2024;
        start_date = 10;
        end_date = 20;
        state = open_year;
        created_at = 1;
      }
      ∷ [];
  periods = example_period ∷ [];
  journals = example_journal ∷ [];
  moves = [];
  lines = [];
  audit = [];
  events = [];
  mappings = [];
  configurations = [];
  reconciliations = [];
  items = [];
}

abbrev pub example_settings : MakerCheckerSettings
example_settings = record { threshold = pos 1; functional_currency = [] }

abbrev pub books_after : Db → Fallible (AccountMove × Db) → Db
books_after db (ok r) = r.1
books_after db (err e) = db

abbrev pub move_after : AccountMove → Fallible (AccountMove × Db) → AccountMove
move_after m (ok r) = r.0
move_after m (err e) = m

-- The books after SaveDraftMove has inserted the draft.
abbrev pub first_save : Fallible (AccountMove × Db)
first_save = save_draft_move example_env 1500 example_move empty_books

abbrev pub draft_books : Db
draft_books = books_after empty_books first_save

pub first_saved :
    save_draft_move example_env 1500 example_move empty_books
    ≡ ok (move_after example_move first_save, draft_books)
unfolding save_draft_move validate_balance ◌+ℤ◌ find move_accepted exists insert_move_lines
    line_accepted delete_where line_row
first_saved = refl

-- The books after an event has posted the entry.
abbrev pub example_key : EventKey
example_key = record { idempotency_key = b'k' ∷ []; event_type = b't' ∷ [] }

abbrev pub event_audit : FinancialAuditLog
event_audit = new_financial_audit example_env account_move_text 7 post_text 4 1000

abbrev pub event_run : Fallible (AccountMove × Db)
event_run =
    post_new_move_with_event example_env 1000 example_move event_audit example_key empty_books

abbrev pub posted_books : Db
posted_books = books_after empty_books event_run

abbrev pub posted_move : AccountMove
posted_move = move_after example_move event_run

pub posted_once :
    post_new_move_with_event example_env 1000 example_move event_audit example_key empty_books
    ≡ ok (posted_move, posted_books)
unfolding post_new_move_with_event post_atomic validate_balance ◌+ℤ◌ lock_open_period find
    move_accepted exists insert_move_lines line_accepted delete_where line_row next_sequence
    name_free insert_audit_log
posted_once = refl

posted_atomic :
    post_atomic example_env 1000 example_move (some event_audit) (some example_key) true empty_books
    ≡ ok (posted_move, posted_books)
unfolding post_new_move_with_event
posted_atomic = posted_once

abbrev pub reversal : AccountMove
reversal = record { header = record example_header { id = 9; date = 13 }; lines = [] }

abbrev pub reversal_audit : FinancialAuditLog
reversal_audit = new_financial_audit example_env account_move_text 7 reverse_text 4 2000

abbrev pub reversed_books : Db
reversed_books =
    books_after posted_books
      (reverse_move_atomic example_env 2000 7 reversal reversal_audit posted_books)

abbrev pub reversal_move : AccountMove
reversal_move =
    move_after reversal
      (reverse_move_atomic example_env 2000 7 reversal reversal_audit posted_books)

pub reversed_once :
    reverse_move_atomic example_env 2000 7 reversal reversal_audit posted_books
    ≡ ok (reversal_move, reversed_books)
unfolding post_new_move_with_event find validate_balance order_by ◌+ℤ◌ post_atomic lock_open_period
    insert_move_lines line_accepted exists delete_where line_row next_sequence name_free
    reverse_move_atomic insert_audit_log update_where load_move_lines move_accepted text_eq
    sequence_name
reversed_once = refl

pub example-IsNumeric : IsNumeric example_env
example-IsNumeric = record { idempotent = λ a. refl }

pub example-IsFixedPoint : IsFixedPoint example_env
example-IsFixedPoint = record {
  numeric = example-IsNumeric;
  zero_kept = refl;
  sum_kept = λ a b e f. refl;
  difference_kept = λ a b e f. refl;
  abs_kept = λ a e. refl;
}

pub example-IsRounding : IsRounding example_env
example-IsRounding = record {
  fixed = example-IsFixedPoint;
  round_kept = λ a. refl;
  round_nonneg = λ a h. h;
}

pub example-IsExact : All (IsExact example_env) example_move.lines
example-IsExact =
    (record { debit = refl; credit = refl }, (record { debit = refl; credit = refl }, tt))

no_row : (id : Uuid) (row : MoveRow) → find_move id empty_books ≡ some row → ⊥
unfolding find
no_row id row e = cc

no_lines : (id : Uuid) → lines_of id empty_books.lines ≡ []
unfolding lines_of
no_lines id = refl

empty_chain : verify_audit_integrity example_env empty_books ≡ ok tt
unfolding verify_audit_integrity verify_from
empty_chain = refl

pub empty_books-IsSound : IsSound example_env empty_books
empty_books-IsSound = record {
  balance = λ id row f nd. absurd (no_row id row f);
  linked = λ id f. no_lines id;
  amounts = tt;
  chain = empty_chain;
}

pub draft_books-IsSound : IsSound example_env draft_books
draft_books-IsSound =
    save_draft_move-IsSound example_env 1500 example_move empty_books example-IsNumeric first_saved
      empty_books-IsSound

pub posted_books-IsSound : IsSound example_env posted_books
posted_books-IsSound =
    post_atomic-IsSound example_env 1000 example_move (some event_audit) (some example_key) true
      empty_books example-IsNumeric posted_atomic example-IsExact empty_books-IsSound
