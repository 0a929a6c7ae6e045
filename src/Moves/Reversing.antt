-- ===== src/Moves/Reversing.antt =====
-- ReverseMoveUseCase (usecase_reverse_move.go). As in a posting, the publisher changes no outcome.
use cashflow_backend.Base.{
  ℕ, ◌+◌, none, some, List, [], ◌∷◌, ◌++◌, Text, ◌==◌, ltb, length, ◌>>=◌, ◌>>◌, fail_if,
}
use cashflow_backend.Domain.{
  Uuid, Date, Time, AccountMove, AccountMoveLine, draft, Fallible, required,
  move_requires_at_least_two_lines,
}
use cashflow_backend.Domain.Balance.{validate_can_reverse, can_post}
use cashflow_backend.Repository.Tables.{Env, Db}
use cashflow_backend.Repository.Rows.{get_move_by_id, get_period_by_date}
use cashflow_backend.Repository.Reversal.{mirrored, reverse_move_atomic}
use cashflow_backend.Moves.Requests.{Strings}
use cashflow_backend.Moves.Posting.{new_financial_audit, account_move_text, reverse_text}

-- The loop over the lines of the original; `k` counts the calls of uuid.New.
unfoldable pub reversed_lines :
    Env → Time → Uuid → Date → ℕ → List AccountMoveLine → List AccountMoveLine
reversed_lines env now move_id date k [] = []
reversed_lines env now move_id date k (l ∷ ls) =
    mirrored (env.new_uuid k) move_id date now l ∷ reversed_lines env now move_id date (k + 1) ls

abbrev reversal_of_text : Text
reversal_of_text =
    b'R' ∷ b'e' ∷ b'v' ∷ b'e' ∷ b'r' ∷ b's' ∷ b'a' ∷ b'l' ∷ b' ' ∷ b'o' ∷ b'f' ∷ b' ' ∷ []

abbrev dash_text : Text
dash_text = b' ' ∷ b'-' ∷ b' ' ∷ []

-- fmt.Sprintf("Reversal of %s - %s", ...)
abbrev pub reversal_ref : Strings → Text → Text → Text
reversal_ref s name reason = reversal_of_text ++ (name ++ (dash_text ++ s.trim_space reason))

-- The move as it is handed to ReverseMoveAtomic.
unfoldable pub reversal_of :
    Env → Strings → Time → Uuid → Uuid → Date → Text → AccountMove → AccountMove
unfolding reversed_lines
reversal_of env s now original_id period_id date reason m = record {
  header = record {
    id = env.new_uuid 0;
    name = [];
    journal_id = m.journal_id;
    period_id = period_id;
    date = date;
    state = draft;
    ref = reversal_ref s m.name reason;
    reversed_move_id = some original_id;
    hash_signature = [];
    posted_at = none;
    posted_by = none;
    created_by = none;
    created_at = now;
    updated_at = 0;
  };
  lines = reversed_lines env now (env.new_uuid 0) date 1 m.lines;
}

-- ReverseMoveUseCase.Execute
unfoldable pub reverse_move :
    Env → Strings → Time → Uuid → Uuid → Date → Text → Db → Fallible (AccountMove × Db)
reverse_move env s now original_id actor date reason db = do
  m ← get_move_by_id env original_id db
  validate_can_reverse m
  fail_if (ltb (length m.lines) 2) move_requires_at_least_two_lines
  fail_if (date == 0) required
  period ← get_period_by_date date db
  can_post period
  reverse_move_atomic env now original_id
      (reversal_of env s now original_id period.id date reason m)
      (new_financial_audit env account_move_text original_id reverse_text actor now) db
