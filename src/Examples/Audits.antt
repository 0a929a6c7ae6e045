-- ===== src/Examples/Audits.antt =====
-- Runs of the audit chain.
use cashflow_backend.Base.{
  ◌+◌, ◌≡◌, refl, some, [], ◌∷◌, Text, map, length, text_eq, ok, All, arith,
}
use cashflow_backend.Domain.{Uuid, FinancialAuditLog}
use cashflow_backend.Repository.Tables.{Db}
use cashflow_backend.Repository.Audit.{
  raw_record, compute_hash, chained, insert_audit_log, last_hash, verify_from,
  verify_audit_integrity,
}
use cashflow_backend.Repository.Audit.Encoding.{IsBarFree}
use cashflow_backend.Repository.Audit.Chain.{insert_audit_log-verify}
use cashflow_backend.Repository.Audit.Tamper.{
  IsHashing, Agree, HasPlainAction, reattribute, verified_tables-Agree, verify-reattribute,
}
use cashflow_backend.Examples.Books.{example_env, empty_books, reversal_audit}

empty_verified : verify_audit_integrity example_env empty_books ≡ ok tt
unfolding verify_audit_integrity verify_from
empty_verified = refl

insert_audit_log-verify_example :
    verify_audit_integrity example_env
      (insert_audit_log example_env 2000 (some reversal_audit) empty_books)
    ≡ ok tt
insert_audit_log-verify_example =
    insert_audit_log-verify example_env 2000 (some reversal_audit) empty_books empty_verified

-- Two entries.
abbrev logged_books : Db
logged_books =
    insert_audit_log example_env 3000 (some reversal_audit)
      (insert_audit_log example_env 2000 (some reversal_audit) empty_books)

abbrev other_actor : FinancialAuditLog → Uuid
other_actor r = 9

abbrev same_kind : FinancialAuditLog → Text
same_kind r = r.entity_type

abbrev edited_books : Db
edited_books = record logged_books {
  audit = map (reattribute other_actor same_kind) logged_books.audit;
}

logged_verified : verify_audit_integrity example_env logged_books ≡ ok tt
unfolding verify_audit_integrity insert_audit_log verify_from text_eq chained compute_hash
    raw_record
logged_verified = refl

edited_verified : verify_audit_integrity example_env edited_books ≡ ok tt
unfolding verify_audit_integrity insert_audit_log verify_from text_eq chained compute_hash
    raw_record
edited_verified = refl

shift_injective : (s t : Text) → map (λ c. c + 125) s ≡ map (λ c. c + 125) t → s ≡ t
shift_injective [] [] e = refl
shift_injective [] (d ∷ t) e = absurd (ground arith)
shift_injective (c ∷ s) [] e = absurd (ground arith)
shift_injective (c ∷ s) (d ∷ t) e = ground (arith, shift_injective s t)

shift-IsBarFree : (s : Text) → IsBarFree (map (λ c. c + 125) s)
shift-IsBarFree [] = tt
shift-IsBarFree (c ∷ s) = ((λ e. omega arith), shift-IsBarFree s)

example-IsHashing : IsHashing example_env
example-IsHashing = record {
  no_collision = shift_injective;
  hex = shift-IsBarFree;
  uuid_bar_free = λ u. ((λ e. omega arith), tt);
  uuid_injective = λ u v e. ground arith;
  time_bar_free = λ u. ((λ e. omega arith), tt);
  time_injective = λ u v e. ground arith;
}

reverse_plain : HasPlainAction reversal_audit
reverse_plain = ground arith

plain_logged : All HasPlainAction logged_books.audit
unfolding insert_audit_log chained
plain_logged = (reverse_plain, (reverse_plain, tt))

plain_edited : All HasPlainAction edited_books.audit
unfolding insert_audit_log chained
plain_edited = (reverse_plain, (reverse_plain, tt))

same_length : length logged_books.audit ≡ length edited_books.audit
unfolding insert_audit_log
same_length = refl

same_last : last_hash [] logged_books.audit ≡ last_hash [] edited_books.audit
unfolding insert_audit_log last_hash
same_last = refl

verified_tables-Agree_example : Agree logged_books.audit edited_books.audit
verified_tables-Agree_example =
    verified_tables-Agree example_env example-IsHashing logged_books edited_books plain_logged
      plain_edited same_length same_last logged_verified edited_verified

verify-reattribute_example :
    verify_audit_integrity example_env edited_books
    ≡ verify_audit_integrity example_env logged_books
verify-reattribute_example = verify-reattribute example_env other_actor same_kind logged_books
