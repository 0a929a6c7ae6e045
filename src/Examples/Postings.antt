-- ===== src/Examples/Postings.antt =====
-- Runs of the transactions on moves.
use cashflow_backend.Repository.Steps.{Reach, stays, then_step, posts, reverses, Reach-IsSound}
use cashflow_backend.Repository.Drafts.Sound.{save_draft_move-IsSound}
use cashflow_backend.Base.{order_by, update_where, text_eq}
use cashflow_backend.Repository.Rows.{load_move_lines, sequence_name}
use cashflow_backend.Base.{
  ◌≡◌, refl, ◌↔◌, ◌⊎◌, true, false, none, some, [], find, exists, delete_where, ok, err,
}
use cashflow_backend.Base.Int.{pos, ◌+ℤ◌, ◌≤ℤ◌}
use cashflow_backend.Domain.{Uuid, AccountMove, Fallible, constraint_violation, posted}
use cashflow_backend.Domain.Balance.{validate_balance, validate_balance_iff, IsBalanced, debits}
use cashflow_backend.Repository.Tables.{MoveRow, Db}
use cashflow_backend.Repository.Rows.{
  move_accepted, find_move, lines_of, line_row, line_accepted, lock_open_period, insert_move_lines,
  next_sequence, name_free,
}
use cashflow_backend.Repository.Invariant.{IsSound, KeepsPosted}
use cashflow_backend.Repository.Posting.{post_atomic}
use cashflow_backend.Repository.Posting.Keeps.{post_atomic-IsSound, post_atomic-KeepsPosted}
use cashflow_backend.Repository.Drafts.{save_draft_move, delete_draft_move}
use cashflow_backend.Repository.Drafts.Laws.{
  save_draft_move-KeepsPosted, delete_draft_move-KeepsPosted,
}
use cashflow_backend.Repository.Reversal.{has_reversal, reverse_move_atomic}
use cashflow_backend.Repository.Reversal.Mirror.{
  reverse_move_atomic-once, reverse_move_atomic-posted,
}
use cashflow_backend.Repository.Audit.{insert_audit_log}
use cashflow_backend.Repository.Reversal.Sound.{reverse_move_atomic-IsSound}
use cashflow_backend.Repository.Posting.{post_new_move_with_event}
use cashflow_backend.Repository.Posting.Numbers.{
  IsNumbered, post_atomic-IsNumbered, post_new_move_with_event-once,
}
use cashflow_backend.Moves.Posting.Unscanned.{save_draft_move-post_move}
use cashflow_backend.Moves.Posting.{check_governance, post_move}
use cashflow_backend.Moves.Posting.Governance.{HasOtherMaker, check_governance_iff}
use cashflow_backend.Repository.Reversal.Takeback.{Mirrors, reverse_move_atomic-Mirrors}
use cashflow_backend.Repository.Balances.{lines_net}
use cashflow_backend.Examples.Books.{
  example_env, example_settings, example_move, empty_books, draft_books, first_saved, posted_books,
  posted_once, posted_books-IsSound, event_audit, example_key, reversal, reversal_audit,
  reversed_books, reversal_move, reversed_once, books_after, move_after, example-IsNumeric,
  example-IsRounding, example-IsExact, draft_books-IsSound,
}

validate_balance_iff_example :
    (validate_balance example_move.lines ≡ ok tt) ↔ IsBalanced example_move.lines
validate_balance_iff_example = validate_balance_iff example_move.lines

-- The transaction alone, without an entry in the audit log.
abbrev atomic_run : Fallible (AccountMove × Db)
atomic_run = post_atomic example_env 1000 example_move none none false draft_books

atomic_once :
    post_atomic example_env 1000 example_move none none false draft_books
    ≡ ok (move_after example_move atomic_run, books_after draft_books atomic_run)
unfolding post_atomic find validate_balance ◌+ℤ◌ lock_open_period insert_move_lines line_accepted
    exists delete_where line_row next_sequence name_free save_draft_move move_accepted
atomic_once = refl

post_atomic-IsSound_example : IsSound example_env (books_after draft_books atomic_run)
post_atomic-IsSound_example =
    post_atomic-IsSound example_env 1000 example_move none none false draft_books example-IsNumeric
      atomic_once example-IsExact draft_books-IsSound

post_atomic-KeepsPosted_example : KeepsPosted draft_books (books_after draft_books atomic_run)
post_atomic-KeepsPosted_example =
    post_atomic-KeepsPosted example_env 1000 example_move none none false draft_books atomic_once

reverse_move_atomic-Mirrors_example :
    Mirrors example_env
      (load_move_lines 7 posted_books)
      (lines_of reversal_move.id reversed_books.lines)
    × ((j : Uuid)
        → lines_net j (lines_of reversal_move.id reversed_books.lines)
            +ℤ lines_net j (load_move_lines 7 posted_books)
          ≡ pos 0)
    × (has_reversal 7 reversed_books ≡ true)
reverse_move_atomic-Mirrors_example =
    reverse_move_atomic-Mirrors example_env 2000 7 reversal reversal_audit posted_books
      posted_books-IsSound reversed_once

reverse_move_atomic-posted_example :
    (row : MoveRow) × (find_move 7 posted_books ≡ some row)
    × (find_move 7 reversed_books ≡ some row)
    × (row.state ≡ posted)
reverse_move_atomic-posted_example =
    reverse_move_atomic-posted example_env 2000 7 reversal reversal_audit posted_books reversed_once

check_governance_iff_example :
    (check_governance example_settings 4 example_move ≡ ok tt)
    ↔ ((pos 1 ≤ℤ pos 0) ⊎ ((debits example_move.lines ≤ℤ pos 1) ⊎ HasOtherMaker 4 (some 3)))
check_governance_iff_example = check_governance_iff example_settings 4 example_move

reverse_move_atomic-once_example : ¬ (
    reverse_move_atomic example_env 3000 7 reversal reversal_audit reversed_books
    ≡ ok (reversal_move, posted_books))
reverse_move_atomic-once_example =
    reverse_move_atomic-once example_env 2000 3000 7 reversal reversal reversal_audit reversal_audit
      posted_books reversed_once

-- An update of the draft.
abbrev saved_run : Fallible (AccountMove × Db)
saved_run = save_draft_move example_env 1500 example_move draft_books

saved_once :
    save_draft_move example_env 1500 example_move draft_books
    ≡ ok (move_after example_move saved_run, books_after draft_books saved_run)
unfolding save_draft_move validate_balance ◌+ℤ◌ find insert_move_lines line_accepted exists
    delete_where line_row move_accepted
saved_once = refl

save_draft_move-KeepsPosted_example : KeepsPosted draft_books (books_after draft_books saved_run)
save_draft_move-KeepsPosted_example =
    save_draft_move-KeepsPosted example_env 1500 example_move draft_books saved_once

deleted_once : delete_draft_move 7 draft_books ≡ ok (record draft_books { moves = []; lines = [] })
unfolding delete_draft_move find exists delete_where save_draft_move validate_balance ◌+ℤ◌
    move_accepted insert_move_lines line_accepted line_row
deleted_once = refl

delete_draft_move-KeepsPosted_example :
    KeepsPosted draft_books (record draft_books { moves = []; lines = [] })
delete_draft_move-KeepsPosted_example = delete_draft_move-KeepsPosted 7 draft_books deleted_once

reverse_move_atomic-IsSound_example : IsSound example_env reversed_books
reverse_move_atomic-IsSound_example =
    reverse_move_atomic-IsSound example_env 2000 7 reversal reversal_audit posted_books
      example-IsNumeric reversed_once posted_books-IsSound

post_atomic-IsNumbered_example :
    IsNumbered draft_books (move_after example_move atomic_run) (books_after draft_books atomic_run)
post_atomic-IsNumbered_example =
    post_atomic-IsNumbered example_env 1000 example_move none none false draft_books atomic_once

post_new_move_with_event-once_example : ¬ (
    post_new_move_with_event example_env 3000 example_move event_audit example_key posted_books
    ≡ ok (example_move, empty_books))
post_new_move_with_event-once_example =
    post_new_move_with_event-once example_env 1000 3000 example_move example_move event_audit
      event_audit example_key example_key empty_books refl posted_once

absent : find_move 7 empty_books ≡ none
unfolding find
absent = refl

save_draft_move-post_move_example :
    post_move example_env example_settings 2000 7 4 draft_books ≡ err constraint_violation
save_draft_move-post_move_example =
    save_draft_move-post_move example_env example_settings 1500 2000 4 example_move empty_books
      constraint_violation refl first_saved absent

save_draft_move-IsSound_example : IsSound example_env (books_after draft_books saved_run)
save_draft_move-IsSound_example =
    save_draft_move-IsSound example_env 1500 example_move draft_books example-IsNumeric saved_once
      draft_books-IsSound

-- The draft is posted and reversed.
abbrev atomic_books : Db
atomic_books = books_after draft_books atomic_run

abbrev second_run : Fallible (AccountMove × Db)
second_run = reverse_move_atomic example_env 2000 7 reversal reversal_audit atomic_books

second_once :
    reverse_move_atomic example_env 2000 7 reversal reversal_audit atomic_books
    ≡ ok (move_after reversal second_run, books_after atomic_books second_run)
unfolding post_atomic find validate_balance ◌+ℤ◌ lock_open_period insert_move_lines line_accepted
    exists delete_where line_row next_sequence name_free order_by reverse_move_atomic
    insert_audit_log update_where load_move_lines move_accepted text_eq sequence_name
    save_draft_move
second_once = refl

example_path : Reach example_env draft_books (books_after atomic_books second_run)
example_path =
    then_step
      (then_step stays (posts 1000 example_move none none false example-IsExact atomic_once))
      (reverses 2000 7 reversal reversal_audit second_once)

Reach-IsSound_example :
    IsSound example_env (books_after atomic_books second_run)
    × KeepsPosted draft_books (books_after atomic_books second_run)
Reach-IsSound_example = Reach-IsSound example-IsRounding example_path draft_books-IsSound
