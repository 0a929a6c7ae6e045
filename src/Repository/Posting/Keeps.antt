-- ===== src/Repository/Posting/Keeps.antt =====
-- postMoveAtomic under the invariant of the books.
use cashflow_backend.Base.{
  not_none, ℕ, map, ◌≡◌, ◌≢◌, refl, sym, ap, ◌∙◌, subst, Bool, true, false, ◌&&◌, Option, none,
  some, List, [], ◌∷◌, if_true, ◌==◌, arith, Text, find, ok, guard-eq-ok, ok-injective, All,
}
use cashflow_backend.Domain.{
  Uuid, Time, AccountMove, AccountMoveLine, MoveHeader, FinancialAuditLog, is_draft,
}
use cashflow_backend.Domain.Balance.{IsBalanced}
use cashflow_backend.Repository.Tables.{Env, MoveRow, LineRow, Db}
use cashflow_backend.Repository.Rows.{find_move, lines_of, complete_lines}
use cashflow_backend.Repository.Rows.Find.{
  find_sound, find-append_some, find-append_spare, find-update_where, find-update_spare,
}
use cashflow_backend.Repository.Rows.Lines.{
  replaced, stored_line, IsExact, stored-IsBalanced, lines_of-replaced_self, lines_of-replaced_ne,
}
use cashflow_backend.Repository.Audit.{insert_audit_log}
use cashflow_backend.Repository.Invariant.{
  TouchesOnly, KeepsPosted, IsSound, IsNumeric, TouchesOnly-KeepsPosted, TouchesOnly-PostedBalance,
  TouchesOnly-NoOrphans, replaced-IsExact,
}
use cashflow_backend.Repository.Audit.Chain.{insert_audit_log-verify, verify_of_same}
use cashflow_backend.Repository.Posting.{
  EventKey, mark_posted, insert_new_draft, new_draft_row, mark_rows, post_atomic,
}
use cashflow_backend.Repository.Posting.Laws.{
  Posted, Written, post_atomic_inv, insert_event_frame, insert_audit_log_frame,
}

-- The tables after write_posting.
pub record WrittenTables (env : Env) (now : Time) (h : MoveHeader)
    (audit : Option FinancialAuditLog) (name hash : Text) (db db' : Db) : Type 0 where
  pub moves : db'.moves ≡ (mark_rows now h name hash db).moves
  pub lines : db'.lines ≡ db.lines
  pub audit_log : db'.audit ≡ (insert_audit_log env now audit db).audit

audit_of_same :
    (env : Env) (now : Time) (a : Option FinancialAuditLog) (db db' : Db)
    → db.audit ≡ db'.audit
    → (insert_audit_log env now a db).audit ≡ (insert_audit_log env now a db').audit
unfolding insert_audit_log
audit_of_same env now none db db' e = e
audit_of_same env now (some a) db db' e = rw e

module _ {env : Env} {now : Time} {h : MoveHeader} {ls : List AccountMoveLine}
    {audit : Option FinancialAuditLog} {event : Option EventKey} {db : Db} {m' : AccountMove}
    {db' : Db} (w : Written env now h ls audit event db m' db') where
  pub written_tables : WrittenTables env now h audit w.name w.hash db db'
  written_tables =
      let (f, fa) = insert_event_frame event h.id _ w.logged in
      let (g, ge) = insert_audit_log_frame env now audit (mark_rows now h w.name w.hash w.db3) in
      let k = w.numbered.bumped in
      record {
        moves = f.moves ∙ g.moves ∙ ap (λ (d : Db). (mark_rows now h w.name w.hash d).moves) k;
        lines = f.lines ∙ g.lines ∙ ap (λ (d : Db). d.lines) k;
        audit_log =
            fa
            ∙ audit_of_same env now audit (mark_rows now h w.name w.hash w.db3) db
                (ap (λ (d : Db). d.audit) k);
      }

not-==_of_ne' : (a b : ℕ) → b ≢ a → (a == b) ≡ false
not-==_of_ne' a b h = ground arith

-- The tables after insert_new_draft.
created_tables :
    (create : Bool) (h : MoveHeader) (db : Db) {db1 : Db}
    → insert_new_draft create h db ≡ ok db1
    → ((j : Uuid) → j ≢ h.id → find_move j db1 ≡ find_move j db)
      × ((row : MoveRow) → find_move h.id db ≡ some row → find_move h.id db1 ≡ some row)
      × (db1.lines ≡ db.lines)
      × (db1.audit ≡ db.audit)
unfolding insert_new_draft
created_tables true h db {db1} e =
    let (_, e') = guard-eq-ok _ _ _ e in
    let k = sym (ok-injective e') in
    (
      λ j ne.
          ap (find_move j) k
          ∙ find-append_spare _ db.moves (new_draft_row h) (not-==_of_ne' h.id j ne),
      λ row f. ap (find_move h.id) k ∙ find-append_some _ db.moves (new_draft_row h ∷ []) f,
      ap (λ (d : Db). d.lines) k,
      ap (λ (d : Db). d.audit) k,
    )
created_tables false h db e =
    let k = sym (ok-injective e) in
    (
      λ j ne. ap (find_move j) k,
      λ row f. ap (find_move h.id) k ∙ f,
      ap (λ (d : Db). d.lines) k,
      ap (λ (d : Db). d.audit) k,
    )

marked :
    (h : MoveHeader) (y : MoveRow)
    → (y.id == h.id) ≡ true
    → is_draft y.state ≡ true
    → (y.id == h.id && is_draft y.state) ≡ true
marked h y e d = ground arith

spare :
    (h : MoveHeader) (j : Uuid) (y : MoveRow)
    → j ≢ h.id
    → (y.id == j) ≡ true
    → (y.id == h.id && is_draft y.state) ≡ false
spare h j y ne e = ground arith

-- The lines of the move that was posted, in the table.
pub posted_lines : Env → Time → MoveHeader → List AccountMoveLine → List AccountMoveLine
posted_lines env now h ls = map (stored_line env) (complete_lines env now h.id h.date 1 ls)

module _ {env : Env} {now : Time} {m : AccountMove} {audit : Option FinancialAuditLog}
    {event : Option EventKey} {create : Bool} {db : Db} {m' : AccountMove} {db' : Db}
    (p : Posted env now m audit event create db m' db') where
  -- A posting writes no move but its own.
  pub posted_touches : TouchesOnly p.header.id db db'
  posted_touches =
      let t = written_tables p.written in
      let (moves, kept, same_lines, _) = created_tables create p.header db p.created in
      record {
        other_moves = λ j ne.
            ap (find (λ m. m.id == j)) t.moves
            ∙ find-update_spare (λ m. m.id == j) _ _ p.db1.moves (λ y. refl)
                (λ y. spare p.header j y ne)
            ∙ moves j ne;
        other_lines = λ j ne.
            ap (lines_of j) t.lines
            ∙ lines_of-replaced_ne env now p.header.id p.header.date m.lines j p.db1.lines ne
            ∙ ap (lines_of j) same_lines;
        unposted = λ row f. ground (arith, kept row f, p.claimed.found, p.claimed.row_draft);
      }

  pub posted_lines_lem : lines_of p.header.id db'.lines ≡ posted_lines env now p.header m.lines
  unfolding posted_lines
  posted_lines_lem =
      ap (lines_of p.header.id) (written_tables p.written).lines
      ∙ lines_of-replaced_self env now p.header.id p.header.date m.lines p.db1.lines

  pub posted_found :
      find_move p.header.id db'
      ≡ some (mark_posted now p.header.posted_by p.written.name p.written.hash p.claimed.row)
  posted_found =
      ap (find (λ m. m.id == p.header.id)) (written_tables p.written).moves
      ∙ find-update_where (λ m. m.id == p.header.id) _ _ p.db1.moves (λ y. refl) p.claimed.found
      ∙ ap some (
          if_true _ _ (
            marked p.header p.claimed.row (find_sound _ p.db1.moves p.claimed.found)
              p.claimed.row_draft))

-- A posting changes no move that was posted before: its columns and its lines stay as they were.
pub post_atomic-KeepsPosted :
    (env : Env) (now : Time) (m : AccountMove) (audit : Option FinancialAuditLog)
    → (event : Option EventKey) (create : Bool) (db : Db) {r : AccountMove × Db}
    → post_atomic env now m audit event create db ≡ ok r
    → KeepsPosted db r.1
post_atomic-KeepsPosted env now m audit event create db e =
    TouchesOnly-KeepsPosted (posted_touches (post_atomic_inv env now m audit event create db e))

-- A posting keeps sound books sound, if the columns keep a value that they hold and the amounts of the
-- move are such values: the new move and every
-- earlier one are balanced, no line is without its move, and the audit chain is intact.
pub post_atomic-IsSound :
    (env : Env) (now : Time) (m : AccountMove) (audit : Option FinancialAuditLog)
    → (event : Option EventKey) (create : Bool) (db : Db) {r : AccountMove × Db} → IsNumeric env
    → post_atomic env now m audit event create db ≡ ok r
    → All (IsExact env) m.lines
    → IsSound env db
    → IsSound env r.1
unfolding posted_lines
post_atomic-IsSound env now m audit event create db {r} w e exact s =
    let p = post_atomic_inv env now m audit event create db e in
    let t = posted_touches p in
    let tables = written_tables p.written in
    let (_, _, same_lines, same_audit) = created_tables create p.header db p.created in
    record {
      balance =
          TouchesOnly-PostedBalance t
            (λ row f nd.
              subst IsBalanced (sym (posted_lines_lem p))
                (stored-IsBalanced env now p.header.id p.header.date 1 m.lines exact p.balanced))
            s.balance;
      linked =
          TouchesOnly-NoOrphans t (λ missing. absurd (not_none (posted_found p) missing)) s.linked;
      amounts = subst (All (λ (l : LineRow). IsExact env l.line)) (sym tables.lines) (
          replaced-IsExact env w _ p.db1.lines
            (complete_lines env now p.header.id p.header.date 1 m.lines)
            (subst (All (λ (l : LineRow). IsExact env l.line)) (sym same_lines) s.amounts));
      chain = verify_of_same env _ r.1 (tables.audit_log) (
          insert_audit_log-verify env now audit _ (
            verify_of_same env db
              (record p.db1 {
                lines = replaced env now p.header.id p.header.date m.lines p.db1.lines;
              })
              same_audit s.chain));
    }
