-- ===== src/Repository/Posting/Laws.antt =====
-- What a posting that succeeds has done, step by step.
use cashflow_backend.Base.{
  ◌≡◌, refl, sym, ap, subst₂, ◌∙◌, Bool, true, ◌||◌, Option, none, some, List, Text, ◌==◌, arith,
  ok, guard-eq-ok, guard_inv, or_err-eq-ok, >>=-eq-ok, ok-eq_0, ok-eq_1,
}
use cashflow_backend.Domain.{
  Uuid, Time, AccountMove, AccountMoveLine, MoveHeader, FinancialAuditLog, is_draft,
}
use cashflow_backend.Domain.Balance.{validate_balance, IsBalanced, IsBalanced-of_validate_balance}
use cashflow_backend.Repository.Tables.{Env, MoveRow, Db}
use cashflow_backend.Repository.Rows.{
  lock_open_period, next_sequence, previous_posted_move_hash, hash_move, insert_move_lines,
  find_move, name_free, clear_lines, complete_lines,
}
use cashflow_backend.Repository.Rows.Lines.{insert_move_lines_inv, replaced}
use cashflow_backend.Repository.Rows.Sequence.{
  HasOpenPeriod, lock_open_period_inv, TakesNumber, next_sequence_inv,
}
use cashflow_backend.Repository.Audit.{insert_audit_log}
use cashflow_backend.Repository.Posting.{
  EventKey, prepared, insert_new_draft, insert_event, post_atomic, claim_draft, write_posting,
  posted_header, mark_rows,
}

-- The tables but `events` and `audit` are those of `db`, and the audit log is the given one.
pub record ChangesOnlyLogs (db db' : Db) : Type 0 where
  pub moves : db'.moves ≡ db.moves
  pub lines : db'.lines ≡ db.lines
  pub journals : db'.journals ≡ db.journals
  pub periods : db'.periods ≡ db.periods
  pub accounts : db'.accounts ≡ db.accounts

pub insert_event_frame :
    (event : Option EventKey) (id : Uuid) (db : Db) {db' : Db}
    → insert_event event id db ≡ ok db'
    → ChangesOnlyLogs db db' × (db'.audit ≡ db.audit)
unfolding insert_event
insert_event_frame none id db e = ground arith
insert_event_frame (some k) id db e = ground arith

pub insert_audit_log_frame :
    (env : Env) (now : Time) (a : Option FinancialAuditLog) (db : Db)
    → ChangesOnlyLogs db (insert_audit_log env now a db)
      × ((insert_audit_log env now a db).events ≡ db.events)
unfolding insert_audit_log
insert_audit_log_frame env now none db = ground arith
insert_audit_log_frame env now (some a) db = ground arith

-- What claim_draft found.
pub record Claimed (create : Bool) (h : MoveHeader) (db : Db) : Type 0 where
  pub row : MoveRow
  pub found : find_move h.id db ≡ some row
  pub row_draft : is_draft row.state ≡ true
  pub same_journal : row.journal_id ≡ h.journal_id
  pub same_period : row.period_id ≡ h.period_id
  pub same_date : row.date ≡ h.date
  pub fresh : (create || h.updated_at == 0 || h.updated_at == row.updated_at) ≡ true

pub claim_draft_inv :
    (create : Bool) (h : MoveHeader) (db : Db)
    → claim_draft create h db ≡ ok tt
    → Claimed create h db
unfolding claim_draft
claim_draft_inv create h db e =
    let (row, f, e5) = or_err-eq-ok (find_move h.id db) _ _ e in
    let (row_draft, e6) = guard-eq-ok _ _ _ e5 in
    let (same, e7) = guard-eq-ok _ _ _ e6 in
    record {
      row = row;
      found = f;
      row_draft = row_draft;
      same_journal = ground arith;
      same_period = ground arith;
      same_date = ground arith;
      fresh = guard_inv _ _ e7;
    }

-- What write_posting did.
pub record Written (env : Env) (now : Time) (h : MoveHeader) (lines : List AccountMoveLine)
    (audit : Option FinancialAuditLog) (event : Option EventKey) (db : Db) (m' : AccountMove)
    (db' : Db) : Type 0 where
  pub name : Text
  pub db3 : Db
  pub numbered : TakesNumber h.journal_id db name db3
  pub unique_name : name_free db3 name ≡ true
  pub hash : Text
  pub hashed :
      hash
      ≡ hash_move env h.id name h.date h.journal_id lines
          (previous_posted_move_hash h.journal_id db3)
  pub logged :
      insert_event event h.id (insert_audit_log env now audit (mark_rows now h name hash db3))
      ≡ ok db'
  pub result : m' ≡ record { header = posted_header now name hash h; lines = lines }

pub write_posting_inv :
    (env : Env) (now : Time) (h : MoveHeader) (lines : List AccountMoveLine)
    → (audit : Option FinancialAuditLog) (event : Option EventKey) (db : Db) {r : AccountMove × Db}
    → write_posting env now h lines audit event db ≡ ok r
    → Written env now h lines audit event db r.0 r.1
unfolding write_posting
write_posting_inv env now h lines audit event db e =
    let (seq, n, e1) = >>=-eq-ok (next_sequence h.journal_id db) _ e in
    let (u, e2) = guard-eq-ok _ _ _ e1 in
    let (db5, l, e3) = >>=-eq-ok _ _ e2 in
    record {
      name = seq.0;
      db3 = seq.1;
      numbered = next_sequence_inv h.journal_id db n;
      unique_name = u;
      hash =
          hash_move env h.id seq.0 h.date h.journal_id lines
            (previous_posted_move_hash h.journal_id seq.1);
      hashed = refl;
      logged = l ∙ sym (ap (λ d. ok d) (ok-eq_1 e3));
      result = ok-eq_0 e3;
    }

-- The facts about a posting of `m` that took `db` to `db'` and gave `m'`.
pub record Posted (env : Env) (now : Time) (m : AccountMove) (audit : Option FinancialAuditLog)
    (event : Option EventKey) (create : Bool) (db : Db) (m' : AccountMove) (db' : Db) : Type 0 where
  pub draft : is_draft m.state ≡ true
  pub balanced : IsBalanced m.lines
  pub header : MoveHeader
  pub header_eq : header ≡ prepared env now create m.header
  pub open_period : HasOpenPeriod header.period_id header.date db
  pub db1 : Db
  pub created : insert_new_draft create header db ≡ ok db1
  pub claimed : Claimed create header db1
  pub written :
      Written env now header
        (complete_lines env now header.id header.date 1 m.lines)
        audit
        event
        (record db1 { lines = replaced env now header.id header.date m.lines db1.lines })
        m'
        db'

pub post_atomic_inv :
    (env : Env) (now : Time) (m : AccountMove) (audit : Option FinancialAuditLog)
    → (event : Option EventKey) (create : Bool) (db : Db) {r : AccountMove × Db}
    → post_atomic env now m audit event create db ≡ ok r
    → Posted env now m audit event create db r.0 r.1
unfolding post_atomic
post_atomic_inv env now m audit event create db {r} e =
    let h : MoveHeader = prepared env now create m.header in
    let (draft, e1) = guard-eq-ok _ _ _ e in
    let (_, v, e2) = >>=-eq-ok (validate_balance m.lines) _ e1 in
    let (_, p, e3) = >>=-eq-ok (lock_open_period h.period_id h.date db) _ e2 in
    let (db1, c, e4) = >>=-eq-ok (insert_new_draft create h db) _ e3 in
    let (_, cl, e5) = >>=-eq-ok (claim_draft create h db1) _ e4 in
    let (ins, i, e6) =
      >>=-eq-ok (insert_move_lines env now h.id h.date m.lines (clear_lines h.id db1)) _ e5 in
    let (completed, inserted) =
      insert_move_lines_inv env now h.id h.date m.lines (clear_lines h.id db1) i in
    record {
      draft = draft;
      balanced = IsBalanced-of_validate_balance m.lines v;
      header = h;
      header_eq = refl;
      open_period = lock_open_period_inv h.period_id h.date db p;
      db1 = db1;
      created = c;
      claimed = claim_draft_inv create h db1 cl;
      written =
          subst₂ (λ ls d. Written env now h ls audit event d r.0 r.1) completed inserted
            (write_posting_inv env now h ins.0 audit event ins.1 e6);
    }
