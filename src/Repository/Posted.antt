-- ===== src/Repository/Posted.antt =====
-- Entries that a transaction inserts as posted: the INSERT INTO account_moves with state 'posted', its
-- lines and its audit entry, as insertSystemMove (year_close.go), postRealizedFXMove and
-- reversePostedMoveInTransaction (reconciliation.go) write them.
use mathlib.Core.List.{append-nil}
use cashflow_backend.Base.{
  not_none, ◌≡◌, ◌≢◌, refl, sym, ap, subst, ◌∙◌, Bool, true, false, ◌&&◌, none, some, List, [], ◌∷◌,
  ◌++◌, map, arith, ◌==◌, All, find, ok, ◌>>=◌, ◌>>◌, guard, guard-eq-ok, >>=-eq-ok, ok-injective,
}
use cashflow_backend.Domain.{
  Uuid, Time, MoveHeader, AccountMoveLine, FinancialAuditLog, Fallible, constraint_violation,
}
use cashflow_backend.Domain.Balance.{IsBalanced}
use cashflow_backend.Repository.Tables.{Env, MoveRow, LineRow, Db}
use cashflow_backend.Repository.Rows.{
  insert_move_lines, move_accepted, name_free, find_move, lines_of, line_row, complete_lines,
}
use cashflow_backend.Repository.Rows.Find.{find-append_spare, find-append_none}
use cashflow_backend.Repository.Rows.Lines.{
  IsExact, stored_line, lines_of-append, lines_of-rows_self, lines_of-rows_ne, stored-IsBalanced,
  insert_move_lines_inv,
}
use cashflow_backend.Repository.Audit.{insert_audit_log, verify_audit_integrity}
use cashflow_backend.Repository.Audit.Chain.{insert_audit_log-verify, verify_of_same}
use cashflow_backend.Repository.Invariant.{
  IsSound, IsNumeric, KeepsPosted, TouchesOnly, TouchesOnly-KeepsPosted, TouchesOnly-PostedBalance,
  TouchesOnly-NoOrphans, appended-IsExact,
}
use cashflow_backend.Repository.Reversal.Mirror.{no_row, not_present}

abbrev pub with_row : MoveHeader → Db → Db
with_row h db = record db { moves = db.moves ++ record { header = h; has_hash = true } ∷ [] }

unfoldable pub insert_posted :
    Env → Time → MoveHeader → List AccountMoveLine → FinancialAuditLog → Db → Fallible Db
insert_posted env now h lines audit db = do
  guard (move_accepted db h && name_free db h.name) constraint_violation
  (stored, db2) ← insert_move_lines env now h.id h.date lines (with_row h db)
  ok (insert_audit_log env now (some audit) db2)

-- What the tables are afterwards.
pub record Inserted (env : Env) (now : Time) (h : MoveHeader) (lines : List AccountMoveLine)
    (audit : FinancialAuditLog) (db db' : Db) : Type 0 where
  pub accepted : move_accepted db h ≡ true
  pub moves : db'.moves ≡ db.moves ++ record { header = h; has_hash = true } ∷ []
  pub rows : db'.lines ≡ db.lines ++ map (line_row env) (complete_lines env now h.id h.date 1 lines)
  pub years : db'.years ≡ db.years
  pub periods : db'.periods ≡ db.periods
  pub accounts : db'.accounts ≡ db.accounts
  pub reconciliations : db'.reconciliations ≡ db.reconciliations
  pub items : db'.items ≡ db.items
  pub before_audit : Db
  pub before_rows : before_audit.audit ≡ db.audit
  pub logged : db' ≡ insert_audit_log env now (some audit) before_audit

both_left : (a b : Bool) → (a && b) ≡ true → a ≡ true
both_left a b e = ground arith

pub insert_posted_inv :
    (env : Env) (now : Time) (h : MoveHeader) (lines : List AccountMoveLine)
    (audit : FinancialAuditLog) (db : Db) {db' : Db}
    → insert_posted env now h lines audit db ≡ ok db'
    → Inserted env now h lines audit db db'
unfolding insert_posted insert_audit_log
insert_posted_inv env now h lines audit db e =
    let (g, e1) =
      guard-eq-ok (move_accepted db h && name_free db h.name) constraint_violation _ e in
    let ((stored, db2), f, e2) =
      >>=-eq-ok (insert_move_lines env now h.id h.date lines (with_row h db)) _ e1 in
    let (_, k) = insert_move_lines_inv env now h.id h.date lines (with_row h db) f in
    let r = sym (ok-injective e2) in
    record {
      accepted = both_left _ _ g;
      moves = ap (λ (d : Db). d.moves) r ∙ ap (λ (d : Db). d.moves) k;
      rows = ap (λ (d : Db). d.lines) r ∙ ap (λ (d : Db). d.lines) k;
      years = ap (λ (d : Db). d.years) r ∙ ap (λ (d : Db). d.years) k;
      periods = ap (λ (d : Db). d.periods) r ∙ ap (λ (d : Db). d.periods) k;
      accounts = ap (λ (d : Db). d.accounts) r ∙ ap (λ (d : Db). d.accounts) k;
      reconciliations = ap (λ (d : Db). d.reconciliations) r ∙ ap (λ (d : Db). d.reconciliations) k;
      items = ap (λ (d : Db). d.items) r ∙ ap (λ (d : Db). d.items) k;
      before_audit = db2;
      before_rows = ap (λ (d : Db). d.audit) k;
      logged = r;
    }

other_row : (j : Uuid) (h : MoveHeader) → j ≢ h.id → (h.id == j) ≡ false
other_row j h ne = ground arith

found_single :
    (row : MoveRow) (id : Uuid)
    → row.id ≡ id
    → find (λ (m : MoveRow). m.id == id) (row ∷ []) ≡ some row
unfolding find
found_single row id e = ground arith

module _ {env : Env} {now : Time} {h : MoveHeader} {lines : List AccountMoveLine}
    {audit : FinancialAuditLog} {db db' : Db} (p : Inserted env now h lines audit db db') where
  pub fresh : find_move h.id db ≡ none
  fresh = no_row h.id db.moves (not_present db h p.accepted)

  pub insertion_touches : TouchesOnly h.id db db'
  insertion_touches = record {
    other_moves = λ j ne.
        ap (find (λ x. x.id == j)) p.moves
        ∙ find-append_spare (λ x. x.id == j) db.moves _ (other_row j h ne);
    other_lines = λ j ne.
        ap (lines_of j) p.rows
        ∙ lines_of-append j db.lines _
        ∙ ap (λ t. lines_of j db.lines ++ t) (lines_of-rows_ne env now h.id h.date j 1 lines ne)
        ∙ append-nil _;
    unposted = λ row f. absurd (not_none f fresh);
  }

  pub insertion-KeepsPosted : KeepsPosted db db'
  insertion-KeepsPosted = TouchesOnly-KeepsPosted insertion_touches

  pub found_there : find_move h.id db' ≡ some (record { header = h; has_hash = true })
  found_there =
      ap (find (λ x. x.id == h.id)) p.moves
      ∙ find-append_none (λ x. x.id == h.id) db.moves _ fresh
      ∙ found_single _ h.id refl

  inserted_lines :
      lines_of h.id db.lines ≡ []
      → lines_of h.id db'.lines ≡ map (stored_line env) (complete_lines env now h.id h.date 1 lines)
  inserted_lines none_before =
      ap (lines_of h.id) p.rows
      ∙ lines_of-append h.id db.lines _
      ∙ ap
          (λ t.
            t ++ lines_of h.id (map (line_row env) (complete_lines env now h.id h.date 1 lines)))
          none_before
      ∙ lines_of-rows_self env now h.id h.date 1 lines

  -- Balanced lines of amounts that the columns hold keep sound books sound.
  pub insertion-IsSound :
      IsNumeric env → All (IsExact env) lines → IsBalanced lines → IsSound env db → IsSound env db'
  insertion-IsSound w x b s =
      let own =
        subst IsBalanced (sym (inserted_lines (s.linked h.id fresh)))
          (stored-IsBalanced env now h.id h.date 1 lines x b) in
      record {
        balance = TouchesOnly-PostedBalance insertion_touches (λ row f nd. own) s.balance;
        linked =
            TouchesOnly-NoOrphans insertion_touches
              (λ missing. absurd (not_none found_there missing)) s.linked;
        amounts =
            subst (All (λ (l : LineRow). IsExact env l.line)) (sym p.rows)
              (appended-IsExact env w db.lines _ s.amounts);
        chain =
            subst (λ d. verify_audit_integrity env d ≡ ok tt) (sym p.logged)
              (insert_audit_log-verify env now (some audit) p.before_audit
                (verify_of_same env db p.before_audit p.before_rows s.chain));
      }
