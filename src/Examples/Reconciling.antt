-- ===== src/Examples/Reconciling.antt =====
-- A reconciliation with a realized exchange difference, and its reversal.
use cashflow_backend.Base.{
  ◌≡◌, refl, subst, sym, ◌∙◌, true, none, some, [], ◌∷◌, ok, err, find, exists, order_by, select,
  update_where, delete_where, text_eq, All, List, arith, ◌==◌,
}
use cashflow_backend.Base.Int.{pos, negsuc, ◌+ℤ◌, ◌-ℤ◌, abs, neg}
use cashflow_backend.Domain.{Uuid, expense, AccountMoveLine, posted, Fallible}
use cashflow_backend.Domain.Balance.{IsBalanced, validate_balance, IsBalanced-of_validate_balance}
use cashflow_backend.Repository.Tables.{MoveRow, LineRow, Db}
use cashflow_backend.Repository.Rows.{
  find_move, lines_of, line_row, line_accepted, move_accepted, name_free, insert_move_lines,
  next_sequence, sequence_name, lock_open_period, get_period_by_date, load_move_lines,
}
use cashflow_backend.Repository.Audit.{insert_audit_log, verify_from, verify_audit_integrity}
use cashflow_backend.Repository.Invariant.{IsSound, KeepsPosted}
use cashflow_backend.Repository.Posted.{insert_posted}
use cashflow_backend.Repository.Reversal.{has_reversal, mirror_lines}
use cashflow_backend.Repository.Reconciliation.{Allocation, check_allocations, allocate}
use cashflow_backend.Repository.Reconciliation.Realized.{post_realized_move, reverse_posted_move}
use cashflow_backend.Repository.Reconciliation.Commit.{reconcile_move_lines, unreconcile_move_lines}
use cashflow_backend.Repository.Reconciliation.Sound.{reconcile_move_lines-IsSound}
use cashflow_backend.Repository.Reconciliation.Undo.{unreconcile_move_lines-IsSound}
use cashflow_backend.Repository.Reconciliation.Bounds.{IsWithin}
use cashflow_backend.Repository.Reconciliation.Within.{reconcile_move_lines-IsWithin}
use cashflow_backend.Examples.Books.{
  example_env, cash, sales, example_header, debit_line, credit_line, empty_books, example-IsNumeric,
  example-IsFixedPoint, example-IsRounding,
}

-- Seven for five of a foreign currency, and five for the same five.
abbrev invoice_line : AccountMoveLine
invoice_line = record debit_line { debit = pos 7; amount_currency = pos 5 }

abbrev payment_line : AccountMoveLine
payment_line = record credit_line { account_id = 1; amount_currency = negsuc 4 }

abbrev rest_line : AccountMoveLine
rest_line = record credit_line { id = 13; credit = pos 2 }

abbrev foreign_books : Db
foreign_books = record empty_books {
  accounts =
      record cash { is_reconcilable = true }
      ∷ sales
      ∷ record sales { id = 4; account_type = expense }
      ∷ [];
  moves =
      record {
        header = record example_header { state = posted; name = b'A' ∷ [] };
        has_hash = true;
      }
      ∷ [];
  lines =
      record { line = invoice_line; reconciled_amount = pos 0 }
      ∷ record { line = payment_line; reconciled_amount = pos 0 }
      ∷ record { line = rest_line; reconciled_amount = pos 0 }
      ∷ [];
  configurations =
      record {
        retained_earnings_account_id = 2;
        fx_gain_account_id = 2;
        fx_loss_account_id = 4;
        fx_reconciliation_journal_id = 1;
        functional_currency = [];
      }
      ∷ [];
}

other_id : (id : Uuid) (row : MoveRow) → find_move id foreign_books ≡ some row → (id == 7) ≡ true
unfolding find
other_id id row f = ground arith

valid : validate_balance (invoice_line ∷ payment_line ∷ rest_line ∷ []) ≡ ok tt
unfolding validate_balance ◌+ℤ◌
valid = refl

three_lines : IsBalanced (lines_of 7 foreign_books.lines)
unfolding lines_of
three_lines = IsBalanced-of_validate_balance (invoice_line ∷ payment_line ∷ rest_line ∷ []) valid

no_lines : (id : Uuid) → find_move id foreign_books ≡ none → lines_of id foreign_books.lines ≡ []
unfolding find lines_of
no_lines id e = ground arith

chain : verify_audit_integrity example_env foreign_books ≡ ok tt
unfolding verify_audit_integrity verify_from
chain = refl

foreign_books-IsSound : IsSound example_env foreign_books
foreign_books-IsSound = record {
  balance = λ id row f nd.
      let same : id ≡ 7 = ground (arith, other_id id row f) in
      subst (λ i. IsBalanced (lines_of i foreign_books.lines)) (sym same) three_lines;
  linked = no_lines;
  amounts = (
    record { debit = refl; credit = refl },
    (record { debit = refl; credit = refl }, (record { debit = refl; credit = refl }, tt)),
  );
  chain = chain;
}

abbrev allocations : List Allocation
allocations =
    record { move_line_id = 11; amount = pos 5 } ∷ record { move_line_id = 12; amount = pos 5 } ∷ []

abbrev id_after : Fallible (Uuid × Db) → Uuid
id_after (ok r) = r.0
id_after (err e) = 0

abbrev books_after : Fallible (Uuid × Db) → Db
books_after (ok r) = r.1
books_after (err e) = foreign_books

abbrev run : Fallible (Uuid × Db)
run = reconcile_move_lines example_env 1000 20 4 0 [] allocations foreign_books

reconciled_once :
    reconcile_move_lines example_env 1000 20 4 0 [] allocations foreign_books
    ≡ ok (id_after run, books_after run)
unfolding reconcile_move_lines check_allocations find exists ◌+ℤ◌ ◌-ℤ◌ abs allocate update_where
    post_realized_move get_period_by_date order_by lock_open_period next_sequence insert_posted
    move_accepted name_free insert_move_lines line_accepted line_row insert_audit_log text_eq
    sequence_name
reconciled_once = refl

reconcile_move_lines-IsSound_example :
    IsSound example_env (books_after run) × KeepsPosted foreign_books (books_after run)
reconcile_move_lines-IsSound_example =
    reconcile_move_lines-IsSound example_env 1000 20 4 0 [] allocations foreign_books
      example-IsRounding foreign_books-IsSound reconciled_once

within : All (IsWithin example_env) foreign_books.lines
unfolding abs ◌-ℤ◌
within = (
  record { nonneg = omega arith; bounded = omega arith; kept = refl },
  (
    record { nonneg = omega arith; bounded = omega arith; kept = refl },
    (record { nonneg = omega arith; bounded = omega arith; kept = refl }, tt),
  ),
)

line_keys :
    All
      (λ (r : LineRow). find (λ (x : LineRow). x.id == r.id) foreign_books.lines ≡ some r)
      foreign_books.lines
unfolding find
line_keys = (refl, (refl, (refl, tt)))

reconcile_move_lines-IsWithin_example : All (IsWithin example_env) (books_after run).lines
reconcile_move_lines-IsWithin_example =
    reconcile_move_lines-IsWithin example_env 1000 20 4 0 [] allocations foreign_books
      example-IsFixedPoint line_keys (refl, (refl, tt)) within reconciled_once

-- The two lines reconciled, with an entry to reverse.
abbrev undo_books : Db
undo_books = record foreign_books {
  lines =
      record { line = invoice_line; reconciled_amount = pos 5 }
      ∷ record { line = payment_line; reconciled_amount = pos 5 }
      ∷ record { line = rest_line; reconciled_amount = pos 0 }
      ∷ [];
  reconciliations =
      record {
        id = 50;
        date = 14;
        account_id = 1;
        currency_id = [];
        realized_fx_move_id = some 7;
        created_by = 4;
      }
      ∷ [];
  items =
      record {
        reconciliation_id = 50;
        move_line_id = 11;
        allocated_amount = pos 5;
        currency_id = [];
      }
      ∷ record {
        reconciliation_id = 50;
        move_line_id = 12;
        allocated_amount = pos 5;
        currency_id = [];
      }
      ∷ [];
}

undo_lines : (id : Uuid) → lines_of id undo_books.lines ≡ lines_of id foreign_books.lines
unfolding lines_of
undo_lines id = refl

undo_chain : verify_audit_integrity example_env undo_books ≡ ok tt
unfolding verify_audit_integrity verify_from
undo_chain = refl

undo_books-IsSound : IsSound example_env undo_books
undo_books-IsSound = record {
  balance = λ id row f nd.
      subst IsBalanced (sym (undo_lines id)) (foreign_books-IsSound.balance id row f nd);
  linked = λ id f. undo_lines id ∙ no_lines id f;
  amounts = (
    record { debit = refl; credit = refl },
    (record { debit = refl; credit = refl }, (record { debit = refl; credit = refl }, tt)),
  );
  chain = undo_chain;
}

abbrev or_same : Fallible Db → Db
or_same (ok db) = db
or_same (err e) = foreign_books

abbrev undone : Fallible Db
undone = unreconcile_move_lines example_env 2000 50 20 4 undo_books

undone_once : unreconcile_move_lines example_env 2000 50 20 4 undo_books ≡ ok (or_same undone)
unfolding unreconcile_move_lines reverse_posted_move has_reversal load_move_lines select
    delete_where find exists ◌+ℤ◌ ◌-ℤ◌ neg update_where get_period_by_date order_by lock_open_period
    next_sequence insert_posted move_accepted name_free insert_move_lines line_accepted line_row
    insert_audit_log text_eq sequence_name mirror_lines
undone_once = refl

unreconcile_move_lines-IsSound_example :
    IsSound example_env (or_same undone) × KeepsPosted undo_books (or_same undone)
unreconcile_move_lines-IsSound_example =
    unreconcile_move_lines-IsSound example_env 2000 50 20 4 undo_books example-IsNumeric
      undo_books-IsSound undone_once
