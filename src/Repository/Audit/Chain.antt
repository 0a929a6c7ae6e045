-- ===== src/Repository/Audit/Chain.antt =====
-- insertAuditLog and VerifyAuditIntegrity, row by row.
use cashflow_backend.Base.{
  ◌≡◌, refl, Option, none, some, List, [], ◌∷◌, ◌++◌, Text, text_eq, text_eq_refl, text_eq→eq, ◌∙◌,
  ok, guard-eq-ok, ap, ◌*◌, ◌/◌, ◌==◌, if◌then◌else◌, arith,
}
use cashflow_backend.Domain.{Time, FinancialAuditLog, tampered_link, tampered_payload}
use cashflow_backend.Repository.Tables.{Env, Db}
use cashflow_backend.Repository.Audit.{
  timestamptz, compute_hash, last_hash, chained, insert_audit_log, verify_from,
  verify_audit_integrity,
}

-- What VerifyAuditIntegrity asks of one row.
pub record IsLinked (env : Env) (h : Text) (r : FinancialAuditLog) : Type 0 where
  pub link : r.previous_log_hash ≡ h
  pub own :
      compute_hash env r.previous_log_hash r.entity_id r.action r.payload_after r.timestamp
      ≡ r.current_log_hash

pub verify_from_step :
    (env : Env) (h : Text) (r : FinancialAuditLog) (rs : List FinancialAuditLog)
    → IsLinked env h r
    → verify_from env h (r ∷ rs) ≡ verify_from env r.current_log_hash rs
unfolding verify_from
verify_from_step env h r rs k = rw (k.own, k.link, text_eq_refl h, text_eq_refl r.current_log_hash)

pub verify_from_inv :
    (env : Env) (h : Text) (r : FinancialAuditLog) (rs : List FinancialAuditLog)
    → verify_from env h (r ∷ rs) ≡ ok tt
    → IsLinked env h r × (verify_from env r.current_log_hash rs ≡ ok tt)
unfolding verify_from
verify_from_inv env h r rs v =
    let (p, v') = guard-eq-ok (text_eq r.previous_log_hash h) tampered_link _ v in
    let (q, v'') =
      guard-eq-ok
        (text_eq
          (compute_hash env r.previous_log_hash r.entity_id r.action r.payload_after r.timestamp)
          r.current_log_hash)
        tampered_payload (verify_from env r.current_log_hash rs) v' in
    (record { link = text_eq→eq _ _ p; own = text_eq→eq _ _ q }, v'')

verify_from_nil : (env : Env) (h : Text) → verify_from env h [] ≡ ok tt
unfolding verify_from
verify_from_nil env h = refl

-- A row that links to the last hash and carries its own hash extends an accepted chain.
verify_from-append :
    (env : Env) (h : Text) (rs : List FinancialAuditLog) (r : FinancialAuditLog)
    → verify_from env h rs ≡ ok tt
    → IsLinked env (last_hash h rs) r
    → verify_from env h (rs ++ r ∷ []) ≡ ok tt
unfolding last_hash
verify_from-append env h [] r v k =
    verify_from_step env h r [] k ∙ verify_from_nil env r.current_log_hash
verify_from-append env h (s ∷ rs) r v k =
    let (l, v') = verify_from_inv env h s rs v in
    verify_from_step env h s (rs ++ r ∷ []) l ∙ verify_from-append env s.current_log_hash rs r v' k

-- The column loses nothing of an instant that was truncated before it was hashed.
whole_microseconds : (t : Time) → timestamptz (t / 1000 * 1000) ≡ t / 1000 * 1000
whole_microseconds t = omega arith

-- Writing an audit entry keeps the chain intact: if VerifyAuditIntegrity accepts the table before
-- insertAuditLog, it accepts it afterwards, whatever the entry and the clock.
pub insert_audit_log-verify :
    (env : Env) (now : Time) (a : Option FinancialAuditLog) (db : Db)
    → verify_audit_integrity env db ≡ ok tt
    → verify_audit_integrity env (insert_audit_log env now a db) ≡ ok tt
unfolding verify_audit_integrity insert_audit_log chained
insert_audit_log-verify env now none db v = v
insert_audit_log-verify env now (some a) db v =
    verify_from-append env [] db.audit (chained env now a db.audit) v (record {
      link = refl;
      own =
          ap
            (compute_hash env (last_hash [] db.audit) a.entity_id a.action
              (env.jsonb_text a.payload_after))
            (whole_microseconds (if a.timestamp == 0 then now else a.timestamp));
    })

-- The verdict reads the audit table only.
pub verify_of_same :
    (env : Env) (db db' : Db)
    → db'.audit ≡ db.audit
    → verify_audit_integrity env db ≡ ok tt
    → verify_audit_integrity env db' ≡ ok tt
unfolding verify_audit_integrity
verify_of_same env db db' e v = rw e v
