-- ===== src/Repository/Reversal/Laws.antt =====
-- What a reversal that succeeds has done.
use cashflow_backend.Base.{
  ◌≡◌, refl, ap, ◌∙◌, true, false, ◌&&◌, none, some, List, [], ◌∷◌, ◌++◌, Text, map, arith, ◌==◌,
  ltb, length, if◌then◌else◌, ok, guard-eq-ok, fail_if-eq-ok, or_err-eq-ok, >>=-eq-ok, ok-eq_0,
  ok-eq_1,
}
use cashflow_backend.Domain.{
  Uuid, uuid_nil, Time, MoveHeader, AccountMove, AccountMoveLine, FinancialAuditLog, is_draft,
  is_posted,
}
use cashflow_backend.Repository.Tables.{Env, MoveRow, Db}
use cashflow_backend.Repository.Rows.{
  lock_open_period, next_sequence, previous_posted_move_hash, hash_move, insert_move_lines,
  find_move, load_move_lines, move_accepted, name_free, line_row, complete_lines,
}
use cashflow_backend.Repository.Rows.Lines.{insert_move_lines_inv}
use cashflow_backend.Repository.Rows.Sequence.{
  TakesNumber, next_sequence_inv, HasOpenPeriod, lock_open_period_inv,
}
use cashflow_backend.Repository.Audit.{insert_audit_log}
use cashflow_backend.Repository.Posting.Laws.{insert_audit_log_frame}
use cashflow_backend.Repository.Reversal.{
  has_reversal, mirror_lines, reversal_header, write_reversal, reverse_move_atomic,
}

-- What write_reversal did.
pub record WrittenReversal (env : Env) (now : Time) (original_id : Uuid) (m : AccountMove)
    (audit : FinancialAuditLog) (original_lines : List AccountMoveLine) (name : Text) (db : Db)
    (r : AccountMove × Db) : Type 0 where
  pub header : MoveHeader
  pub reverses : header.reversed_move_id ≡ some original_id
  pub returned : r.0.header ≡ header
  pub row : MoveRow
  pub row_reverses : row.reversed_move_id ≡ some original_id
  pub row_id : row.id ≡ header.id
  pub accepted : move_accepted db header ≡ true
  pub moves : r.1.moves ≡ db.moves ++ row ∷ []
  pub lines :
      r.1.lines
      ≡ db.lines
        ++ map (line_row env) (
            complete_lines env now header.id m.date 1
              (mirror_lines env now header.id m.date 1 m.lines original_lines))
  pub final : Db
  pub final_audit : final.audit ≡ db.audit
  pub logged : r.1 ≡ insert_audit_log env now (some audit) final
  pub result :
      r.0.lines
      ≡ complete_lines env now header.id m.date 1
          (mirror_lines env now header.id m.date 1 m.lines original_lines)

write_reversal_inv :
    (env : Env) (now : Time) (original_id : Uuid) (m : AccountMove) (audit : FinancialAuditLog)
    → (original_lines : List AccountMoveLine) (name : Text) (db : Db) {r : AccountMove × Db}
    → write_reversal env now original_id m audit original_lines name db ≡ ok r
    → WrittenReversal env now original_id m audit original_lines name db r
unfolding write_reversal
write_reversal_inv env now original_id m audit original_lines name db {r} e =
    let id = if m.id == uuid_nil then env.new_uuid 0 else m.id in
    let lines = mirror_lines env now id m.date 1 m.lines original_lines in
    let hash =
      hash_move env id name m.date m.journal_id lines (previous_posted_move_hash m.journal_id db) in
    let h = reversal_header now id original_id (some audit.actor_id) name hash m.header in
    let row : MoveRow = record { header = record h { created_by = none }; has_hash = true } in
    let start : Db = record db { moves = db.moves ++ row ∷ [] } in
    let (accepted, e1) = guard-eq-ok (move_accepted db h && name_free db name) _ _ e in
    let (ins, i, e2) = >>=-eq-ok (insert_move_lines env now id m.date lines start) _ e1 in
    let (stored, inserted) = insert_move_lines_inv env now id m.date lines start i in
    let (f, _) = insert_audit_log_frame env now (some audit) ins.1 in
    let k = ok-eq_1 e2 in
    record {
      header = h;
      reverses = refl;
      returned = ap (λ (x : AccountMove). x.header) (ok-eq_0 e2);
      row = row;
      row_reverses = refl;
      row_id = refl;
      accepted = ground arith;
      moves = ap (λ (d : Db). d.moves) k ∙ f.moves ∙ ap (λ (d : Db). d.moves) inserted;
      lines = ap (λ (d : Db). d.lines) k ∙ f.lines ∙ ap (λ (d : Db). d.lines) inserted;
      final = ins.1;
      final_audit = ap (λ (d : Db). d.audit) inserted;
      logged = k;
      result = ap (λ (x : AccountMove). x.lines) (ok-eq_0 e2) ∙ stored;
    }

-- The facts about a reversal that succeeded.
pub record Reversed (env : Env) (now : Time) (original_id : Uuid) (m : AccountMove)
    (audit : FinancialAuditLog) (db : Db) (r : AccountMove × Db) : Type 0 where
  pub original : MoveRow
  pub found : find_move original_id db ≡ some original
  pub was_posted : is_posted original.state ≡ true
  pub first : has_reversal original_id db ≡ false
  pub open_period : HasOpenPeriod m.period_id m.date db
  pub name : Text
  pub db1 : Db
  pub numbered : TakesNumber m.journal_id db name db1
  pub enough : ltb (length (load_move_lines original_id db1)) 2 ≡ false
  pub written :
      WrittenReversal env now original_id m audit (load_move_lines original_id db1) name db1 r

pub reverse_move_atomic_inv :
    (env : Env) (now : Time) (original_id : Uuid) (m : AccountMove) (audit : FinancialAuditLog)
    → (db : Db) {r : AccountMove × Db} → reverse_move_atomic env now original_id m audit db ≡ ok r
    → Reversed env now original_id m audit db r
unfolding reverse_move_atomic
reverse_move_atomic_inv env now original_id m audit db e =
    let (_, e1) = guard-eq-ok (is_draft m.state) _ _ e in
    let (original, f, e2) = or_err-eq-ok (find_move original_id db) _ _ e1 in
    let (p, e3) = guard-eq-ok (is_posted original.state) _ _ e2 in
    let (first, e4) = fail_if-eq-ok (has_reversal original_id db) _ _ e3 in
    let (_, l, e5) = >>=-eq-ok (lock_open_period m.period_id m.date db) _ e4 in
    let (seq, n, e6) = >>=-eq-ok (next_sequence m.journal_id db) _ e5 in
    let (enough, e7) = fail_if-eq-ok (ltb (length (load_move_lines original_id seq.1)) 2) _ _ e6 in
    record {
      original = original;
      found = f;
      was_posted = p;
      first = first;
      open_period = lock_open_period_inv m.period_id m.date db l;
      name = seq.0;
      db1 = seq.1;
      numbered = next_sequence_inv m.journal_id db n;
      enough = enough;
      written = write_reversal_inv env now original_id m audit _ seq.0 seq.1 e7;
    }
