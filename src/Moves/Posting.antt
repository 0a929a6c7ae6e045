-- ===== src/Moves/Posting.antt =====
-- PostMoveUseCase and BulkPostMovesUseCase (usecase_post_move.go, usecase_bulk_post_moves.go), with
-- MakerCheckerSettings (governance.go). An event that the publisher does not take is only logged, so
-- the publisher changes no outcome and is left out.
pub mod Governance
pub mod Unscanned
use cashflow_backend.Base.{
  ◌≡◌, Bool, true, false, ◌&&◌, Option, none, some, List, [], ◌∷◌, ◌++◌, Text, ◌==◌, if◌then◌else◌,
  length, ok, err, ◌>>=◌, ◌>>◌, guard, fail_if,
}
use cashflow_backend.Base.Int.{pos, ◌+ℤ◌, ltb_ℤ}
use cashflow_backend.Domain.{
  Uuid, uuid_nil, Time, Decimal, AccountMove, AccountMoveLine, FinancialAuditLog, Fallible,
  accounting_actor_required, maker_checker_actor_required, maker_checker_creator_required,
  maker_checker_violation, required, bad_choice,
}
use cashflow_backend.Domain.Balance.{
  is_negative, is_positive, validate_can_modify, validate_balance, can_post,
}
use cashflow_backend.Repository.Tables.{Env, Db}
use cashflow_backend.Repository.Rows.{get_move_by_id, get_period_by_date}
use cashflow_backend.Repository.Posting.{post_move_atomic}
use cashflow_backend.Moves.Requests.{Strings, normalize_currency, sar}

pub record MakerCheckerSettings : Type 0 where
  pub threshold : Decimal
  pub functional_currency : Text

-- MakerCheckerSettings.Validate
abbrev pub validate_settings : Strings → MakerCheckerSettings → Fallible MakerCheckerSettings
validate_settings s g = do
  fail_if (is_negative g.threshold) bad_choice
  currency ← normalize_currency s g.functional_currency sar
  ok (record g { functional_currency = currency })

-- MakerCheckerSettings.enabled
abbrev pub is_enabled : MakerCheckerSettings → Bool
is_enabled g = is_positive g.threshold

abbrev pub account_move_text : Text
account_move_text =
    b'a' ∷ b'c' ∷ b'c' ∷ b'o' ∷ b'u' ∷ b'n' ∷ b't' ∷ b'_' ∷ b'm' ∷ b'o' ∷ b'v' ∷ b'e' ∷ []

abbrev pub post_text : Text
post_text = b'P' ∷ b'O' ∷ b'S' ∷ b'T' ∷ []

abbrev pub reverse_text : Text
reverse_text = b'R' ∷ b'E' ∷ b'V' ∷ b'E' ∷ b'R' ∷ b'S' ∷ b'E' ∷ []

-- hashFinancialAudit
unfoldable pub hash_financial_audit : Env → Text → Uuid → Text → Uuid → Time → Text
hash_financial_audit env entity_type entity_id action actor_id timestamp = env.sha256_hex (
    entity_type
    ++ (b'|'
        ∷ (env.uuid_text entity_id
            ++ (b'|'
                ∷ (action
                    ++ (b'|' ∷ (env.uuid_text actor_id ++ (b'|' ∷ env.rfc3339_nano timestamp))))))))

-- newFinancialAudit
abbrev pub new_financial_audit : Env → Text → Uuid → Text → Uuid → Time → FinancialAuditLog
new_financial_audit env entity_type entity_id action actor_id timestamp = record {
  entity_type = entity_type;
  entity_id = entity_id;
  action = action;
  actor_id = actor_id;
  payload_before = [];
  payload_after = [];
  ip_address = [];
  previous_log_hash = [];
  current_log_hash = hash_financial_audit env entity_type entity_id action actor_id timestamp;
  timestamp = timestamp;
}

-- The loop over the lines that adds up the debits.
unfoldable pub total_debit : Decimal → List AccountMoveLine → Decimal
total_debit acc [] = acc
total_debit acc (l ∷ ls) = total_debit (acc +ℤ l.debit) ls

-- The creator is known, and is another one than the actor.
unfoldable pub check_creator : Uuid → Option Uuid → Fallible (Unit {0})
check_creator actor none = err maker_checker_creator_required
check_creator actor (some creator) = do
  fail_if (creator == uuid_nil) maker_checker_creator_required
  fail_if (actor == creator) maker_checker_violation

-- The segregation of duties in PostMoveUseCase.Execute.
unfoldable pub check_governance : MakerCheckerSettings → Uuid → AccountMove → Fallible (Unit {0})
unfolding total_debit check_creator
check_governance g actor m =
    if is_enabled g && ltb_ℤ g.threshold (total_debit (pos 0) m.lines)
    then fail_if (actor == uuid_nil) maker_checker_actor_required
      >> check_creator actor m.created_by
    else ok tt

-- The move as it is handed to PostMoveAtomic.
abbrev pub to_post : Uuid → Uuid → AccountMove → AccountMove
to_post period_id actor m = record m {
  header = record m.header { period_id = period_id; posted_by = some actor };
}

-- PostMoveUseCase.Execute
unfoldable pub post_move :
    Env → MakerCheckerSettings → Time → Uuid → Uuid → Db → Fallible (AccountMove × Db)
unfolding check_governance
post_move env g now move_id actor db = do
  m ← get_move_by_id env move_id db
  validate_can_modify m
  validate_balance m.lines
  fail_if (actor == uuid_nil) accounting_actor_required
  check_governance g actor m
  p ← get_period_by_date m.date db
  can_post p
  post_move_atomic env now (to_post p.id actor m)
      (new_financial_audit env account_move_text m.id post_text actor now) db

-- BulkPostMovesRequest.Validate
unfoldable pub validate_bulk : List Uuid → Fallible (Unit {0})
validate_bulk [] = err required
validate_bulk (id ∷ []) = fail_if (id == uuid_nil) bad_choice
validate_bulk (id ∷ ids) = fail_if (id == uuid_nil) bad_choice >> validate_bulk ids

-- The loop of BulkPostMovesUseCase.Execute. A posting commits by itself, so those in front of one that
-- fails stay: the tables are given back next to the outcome.
abbrev pub after_posting :
    Db
    → Fallible (AccountMove × Db)
    → (Db → Fallible (List AccountMove) × Db)
    → Fallible (List AccountMove) × Db
after_posting db (err e) rest = (err e, db)
after_posting db (ok r) rest =
    let others = rest r.1 in ((others.0 >>= λ ms. ok (r.0 ∷ ms)), others.1)

unfoldable pub post_all :
    Env → MakerCheckerSettings → Time → Uuid → List Uuid → Db → Fallible (List AccountMove) × Db
post_all env g now actor [] db = (ok [], db)
post_all env g now actor (id ∷ ids) db =
    after_posting db (post_move env g now id actor db) (λ d. post_all env g now actor ids d)

-- BulkPostMovesUseCase.Execute
unfoldable pub bulk_post_moves :
    Env → MakerCheckerSettings → Time → Uuid → List Uuid → Db → Fallible (List AccountMove) × Db
unfolding post_all
bulk_post_moves env g now actor ids db =
    if actor == uuid_nil
    then (err accounting_actor_required, db)
    else post_all env g now actor ids db
