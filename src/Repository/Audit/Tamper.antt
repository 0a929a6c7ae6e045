-- ===== src/Repository/Audit/Tamper.antt =====
-- What VerifyAuditIntegrity can tell of a table that was edited, and what it cannot.
use cashflow_backend.Base.{
  ◌≡◌, refl, ◌∙◌, sym, List, [], ◌∷◌, map, Text, ok, length, All, arith, subst,
}
use cashflow_backend.Domain.{Uuid, Time, FinancialAuditLog}
use cashflow_backend.Repository.Tables.{Env, Db}
use cashflow_backend.Repository.Audit.{
  raw_record, compute_hash, last_hash, verify_from, verify_audit_integrity,
}
use cashflow_backend.Repository.Audit.Encoding.{IsBarFree, first_bar, last_bar}
use cashflow_backend.Repository.Audit.Chain.{IsLinked, verify_from_inv}

-- What is assumed of the texts outside the program: SHA-256 has no collision and is written in
-- hexadecimal, and the texts of UUIDs and of numbers are distinct and hold no bar.
pub record IsHashing (env : Env) : Type 0 where
  pub no_collision : (s t : Text) → env.sha256_hex s ≡ env.sha256_hex t → s ≡ t
  pub hex : (s : Text) → IsBarFree (env.sha256_hex s)
  pub uuid_bar_free : (u : Uuid) → IsBarFree (env.uuid_text u)
  pub uuid_injective : (u v : Uuid) → env.uuid_text u ≡ env.uuid_text v → u ≡ v
  pub time_bar_free : (t : Time) → IsBarFree (env.unix_nano_text t)
  pub time_injective : (t u : Time) → env.unix_nano_text t ≡ env.unix_nano_text u → t ≡ u

-- What a row's hash binds.
pub record AgreesWith (r s : FinancialAuditLog) : Type 0 where
  pub entity_id : r.entity_id ≡ s.entity_id
  pub action : r.action ≡ s.action
  pub payload : r.payload_after ≡ s.payload_after
  pub timestamp : r.timestamp ≡ s.timestamp
  pub previous : r.previous_log_hash ≡ s.previous_log_hash
  pub current : r.current_log_hash ≡ s.current_log_hash

abbrev pub Agree : List FinancialAuditLog → List FinancialAuditLog → Type 0
Agree [] [] = Unit
Agree (r ∷ rs) (s ∷ ss) = AgreesWith r s × Agree rs ss
Agree _ _ = ⊥

abbrev pub HasPlainAction : FinancialAuditLog → Type 0
HasPlainAction r = IsBarFree r.action

module _ (env : Env) (w : IsHashing env) where
  row_agrees :
      (r s : FinancialAuditLog)
      → HasPlainAction r
      → HasPlainAction s
      → IsBarFree r.previous_log_hash
      → IsBarFree s.previous_log_hash
      → compute_hash env r.previous_log_hash r.entity_id r.action r.payload_after r.timestamp
        ≡ compute_hash env s.previous_log_hash s.entity_id s.action s.payload_after s.timestamp
      → r.current_log_hash ≡ s.current_log_hash
      → AgreesWith r s
  unfolding compute_hash raw_record
  row_agrees r s ra sa rp sp e c =
      let (p, e1) = first_bar _ _ _ _ rp sp (w.no_collision _ _ e) in
      let (u, e2) = first_bar _ _ _ _ (w.uuid_bar_free _) (w.uuid_bar_free _) e1 in
      let (a, e3) = first_bar _ _ _ _ ra sa e2 in
      let (b, t) = last_bar _ _ _ _ (w.time_bar_free _) (w.time_bar_free _) e3 in
      record {
        entity_id = w.uuid_injective _ _ u;
        action = a;
        payload = b;
        timestamp = w.time_injective _ _ t;
        previous = p;
        current = c;
      }

  hash-IsBarFree :
      (h : Text) (r : FinancialAuditLog) → IsLinked env h r → IsBarFree r.current_log_hash
  unfolding compute_hash
  hash-IsBarFree h r k = subst IsBarFree k.own (w.hex _)

  chains-Agree :
      (h k : Text) (rs ss : List FinancialAuditLog)
      → IsBarFree h
      → IsBarFree k
      → All HasPlainAction rs
      → All HasPlainAction ss
      → length rs ≡ length ss
      → last_hash h rs ≡ last_hash k ss
      → verify_from env h rs ≡ ok tt
      → verify_from env k ss ≡ ok tt
      → (h ≡ k) × Agree rs ss
  unfolding last_hash
  chains-Agree h k [] [] fh fk ar az n e v u = (e, tt)
  chains-Agree h k [] (s ∷ ss) fh fk ar az n e v u = absurd (omega arith)
  chains-Agree h k (r ∷ rs) [] fh fk ar az n e v u = absurd (omega arith)
  chains-Agree h k (r ∷ rs) (s ∷ ss) fh fk ar az n e v u =
      let (lr, v') = verify_from_inv env h r rs v in
      let (ls, u') = verify_from_inv env k s ss u in
      let (c, rest) =
        chains-Agree r.current_log_hash s.current_log_hash rs ss (hash-IsBarFree h r lr)
          (hash-IsBarFree k s ls) ar.1 az.1 (omega arith) e v' u' in
      let row =
        row_agrees r s ar.0 az.0 (subst IsBarFree (sym lr.link) fh)
          (subst IsBarFree (sym ls.link) fk) (lr.own ∙ c ∙ sym ls.own) c in
      (sym lr.link ∙ row.previous ∙ ls.link, (row, rest))

  -- An edit is noticed: of two tables that VerifyAuditIntegrity accepts, with the same number of rows
  -- and the same hash on the last row, each pair of rows has the same entity id, action, payload,
  -- time and hashes, provided that no action holds a `|` and that the hash has no collision.
  pub verified_tables-Agree :
      (db db' : Db)
      → All HasPlainAction db.audit
      → All HasPlainAction db'.audit
      → length db.audit ≡ length db'.audit
      → last_hash [] db.audit ≡ last_hash [] db'.audit
      → verify_audit_integrity env db ≡ ok tt
      → verify_audit_integrity env db' ≡ ok tt
      → Agree db.audit db'.audit
  unfolding verify_audit_integrity
  verified_tables-Agree db db' p q n e v u =
      (chains-Agree [] [] db.audit db'.audit tt tt p q n e v u).1

-- An edit of the columns that no hash binds.
abbrev pub reattribute :
    (FinancialAuditLog → Uuid) → (FinancialAuditLog → Text) → FinancialAuditLog → FinancialAuditLog
reattribute actor kind r = record r { actor_id = actor r; entity_type = kind r }

verify_from-reattribute :
    (env : Env) (actor : FinancialAuditLog → Uuid) (kind : FinancialAuditLog → Text)
    → (h : Text) (rs : List FinancialAuditLog)
    → verify_from env h (map (reattribute actor kind) rs) ≡ verify_from env h rs
unfolding verify_from
verify_from-reattribute env actor kind h [] = refl
verify_from-reattribute env actor kind h (r ∷ rs) =
    rw (verify_from-reattribute env actor kind r.current_log_hash rs)

-- The actor of an entry is bound by no hash: whatever actors and entity types are written over those
-- of the rows, VerifyAuditIntegrity gives the same verdict.
pub verify-reattribute :
    (env : Env) (actor : FinancialAuditLog → Uuid) (kind : FinancialAuditLog → Text) (db : Db)
    → verify_audit_integrity env (record db { audit = map (reattribute actor kind) db.audit })
      ≡ verify_audit_integrity env db
unfolding verify_audit_integrity
verify-reattribute env actor kind db = verify_from-reattribute env actor kind [] db.audit
