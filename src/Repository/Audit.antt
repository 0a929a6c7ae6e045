-- ===== src/Repository/Audit.antt =====
-- The financial audit log: AuditHasher.ComputeHash and VerifyAuditIntegrity (audit_chain.go), and
-- insertAuditLog (repository.go). The serial id of a row is its place in the table.
pub mod Encoding
pub mod Chain
pub mod Tamper
use cashflow_backend.Base.{
  ℕ, ◌*◌, ◌/◌, Option, none, some, List, [], ◌∷◌, ◌++◌, Text, ◌==◌, text_eq, if◌then◌else◌, ok,
  ◌>>=◌, ◌>>◌, guard,
}
use cashflow_backend.Domain.{
  Uuid, Time, FinancialAuditLog, Fallible, tampered_link, tampered_payload,
}
use cashflow_backend.Repository.Tables.{Env, Db}

-- fmt.Sprintf("%s|%s|%s|%s|%d", ...)
unfoldable pub raw_record : Env → Text → Uuid → Text → Text → Time → Text
raw_record env prev_hash entity_id action payload timestamp =
    prev_hash
    ++ (b'|'
        ∷ (env.uuid_text entity_id
            ++ (b'|' ∷ (action ++ (b'|' ∷ (payload ++ (b'|' ∷ env.unix_nano_text timestamp)))))))

-- AuditHasher.ComputeHash
unfoldable pub compute_hash : Env → Text → Uuid → Text → Text → Time → Text
compute_hash env prev_hash entity_id action payload timestamp =
    env.sha256_hex (raw_record env prev_hash entity_id action payload timestamp)

-- `SELECT current_log_hash ... ORDER BY id DESC LIMIT 1`, or "" of an empty table
unfoldable pub last_hash : Text → List FinancialAuditLog → Text
last_hash h [] = h
last_hash h (r ∷ rs) = last_hash r.current_log_hash rs

-- UTC().Truncate(time.Microsecond) of the timestamp, or of the clock if there is none
abbrev pub audit_time : Time → Time → Time
audit_time now t = (if t == 0 then now else t) / 1000 * 1000

-- What a TIMESTAMPTZ column keeps of an instant: its microseconds.
abbrev pub timestamptz : Time → Time
timestamptz t = t / 1000 * 1000

-- The row that insertAuditLog writes behind the rows of the table.
unfoldable pub chained : Env → Time → FinancialAuditLog → List FinancialAuditLog → FinancialAuditLog
unfolding last_hash
chained env now a rows =
    let previous = last_hash [] rows in
    let payload = env.jsonb_text a.payload_after in
    record a {
      payload_after = payload;
      previous_log_hash = previous;
      current_log_hash =
          compute_hash env previous a.entity_id a.action payload (audit_time now a.timestamp);
      timestamp = timestamptz (audit_time now a.timestamp);
    }

-- insertAuditLog; a nil log is no entry
unfoldable pub insert_audit_log : Env → Time → Option FinancialAuditLog → Db → Db
insert_audit_log env now none db = db
insert_audit_log env now (some a) db = record db {
  audit = db.audit ++ chained env now a db.audit ∷ [];
}

-- The loop of VerifyAuditIntegrity, with the hash that the next row has to link to.
unfoldable pub verify_from : Env → Text → List FinancialAuditLog → Fallible (Unit {0})
verify_from env expected [] = ok tt
verify_from env expected (r ∷ rs) = do
  guard (text_eq r.previous_log_hash expected) tampered_link
  guard
      (text_eq
        (compute_hash env r.previous_log_hash r.entity_id r.action r.payload_after r.timestamp)
        r.current_log_hash)
      tampered_payload
  verify_from env r.current_log_hash rs

-- VerifyAuditIntegrity; `ok` stands for `true, nil`
unfoldable pub verify_audit_integrity : Env → Db → Fallible (Unit {0})
verify_audit_integrity env db = verify_from env [] db.audit
