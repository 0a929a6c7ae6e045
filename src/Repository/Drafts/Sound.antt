-- ===== src/Repository/Drafts/Sound.antt =====
-- SaveDraftMove under the invariant of the books.
use cashflow_backend.Base.{
  not_none, ◌≡◌, refl, sym, ap, subst, ◌∙◌, true, false, Option, none, some, [], ◌∷◌, ◌==◌, arith,
  find, All, ok, if_true, guard-eq-ok, >>=-eq-ok, ok-injective, ok-eq_1, ==_refl,
}
use cashflow_backend.Domain.{Time, AccountMove, MoveHeader, is_draft}
use cashflow_backend.Domain.Balance.{validate_balance}
use cashflow_backend.Repository.Tables.{Env, MoveRow, LineRow, Db}
use cashflow_backend.Repository.Rows.{find_move, insert_move_lines, clear_lines, complete_lines}
use cashflow_backend.Repository.Rows.Find.{find_sound, find-append_none, find-update_where}
use cashflow_backend.Repository.Rows.Lines.{IsExact, insert_move_lines_inv}
use cashflow_backend.Repository.Audit.Chain.{verify_of_same}
use cashflow_backend.Repository.Invariant.{
  IsSound, IsNumeric, TouchesOnly-PostedBalance, TouchesOnly-NoOrphans, replaced-IsExact,
}
use cashflow_backend.Repository.Drafts.{
  draft_header, draft_row, overwrite_draft, written_by, upsert_draft, save_draft_move,
}
use cashflow_backend.Repository.Drafts.Laws.{save_draft_move_touches}

-- After the upsert, the row of the id is a draft, and the other tables are as before.
record Upserted (h : MoveHeader) (db db' : Db) : Type 0 where
  row : MoveRow
  found : find_move h.id db' ≡ some row
  row_draft : is_draft row.state ≡ true
  lines : db'.lines ≡ db.lines
  audit : db'.audit ≡ db.audit

pub find_last :
    (h : MoveHeader) → find (λ (m : MoveRow). m.id == h.id) (draft_row h ∷ []) ≡ some (draft_row h)
unfolding find
find_last h = ground (arith, ==_refl h.id)

written_by_inv :
    (h : MoveHeader) (db : Db) {db' : Db} (o : Option MoveRow)
    → find_move h.id db ≡ o
    → written_by h db o ≡ ok db'
    → Upserted h db db'
unfolding written_by
written_by_inv h db none f e =
    let (_, e1) = guard-eq-ok _ _ _ e in
    let k = sym (ok-injective e1) in
    record {
      row = draft_row h;
      found =
          ap (find_move h.id) k
          ∙ find-append_none (λ (m : MoveRow). m.id == h.id) db.moves (draft_row h ∷ []) f
          ∙ find_last h;
      row_draft = refl;
      lines = ap (λ (d : Db). d.lines) k;
      audit = ap (λ (d : Db). d.audit) k;
    }
written_by_inv h db (some old) f e =
    let (old_draft, e1) = guard-eq-ok (is_draft old.state) _ _ e in
    let (_, e2) = guard-eq-ok _ _ _ e1 in
    let k = sym (ok-injective e2) in
    record {
      row = overwrite_draft h old;
      found =
          ap (find_move h.id) k
          ∙ find-update_where (λ (m : MoveRow). m.id == h.id) (λ (m : MoveRow). m.id == h.id)
              (overwrite_draft h) db.moves (λ y. refl) f
          ∙ ap some (if_true _ _ (find_sound (λ (m : MoveRow). m.id == h.id) db.moves f));
      row_draft = old_draft;
      lines = ap (λ (d : Db). d.lines) k;
      audit = ap (λ (d : Db). d.audit) k;
    }

draft_posted :
    {o : Option MoveRow} {r s : MoveRow}
    → o ≡ some r
    → o ≡ some s
    → is_draft r.state ≡ true
    → is_draft s.state ≡ false
    → ⊥
draft_posted e f d n = cc

-- Saving a draft keeps sound books sound, if the columns keep a value that they hold: posted moves are balanced, no line is without its move, the
-- amounts are such as the columns hold, whatever amounts the draft has, and the audit chain is intact.
pub save_draft_move-IsSound :
    (env : Env) (now : Time) (m : AccountMove) (db : Db) {r : AccountMove × Db}
    → IsNumeric env
    → save_draft_move env now m db ≡ ok r
    → IsSound env db
    → IsSound env r.1
unfolding save_draft_move upsert_draft
save_draft_move-IsSound env now m db {r} w e s =
    let h = draft_header env now m.header in
    let (_, e1) = guard-eq-ok _ _ _ e in
    let (_, v, e2) = >>=-eq-ok (validate_balance m.lines) _ e1 in
    let (db1, u, e3) = >>=-eq-ok (written_by h db (find_move h.id db)) _ e2 in
    let (ins, i, e4) =
      >>=-eq-ok (insert_move_lines env now h.id h.date m.lines (clear_lines h.id db1)) _ e3 in
    let (_, inserted) =
      insert_move_lines_inv env now h.id h.date m.lines (clear_lines h.id db1) i in
    let k = ok-eq_1 e4 ∙ inserted in
    let p = written_by_inv h db (find_move h.id db) refl u in
    let t = save_draft_move_touches env now m db e in
    let found : find_move h.id r.1 ≡ some p.row = ap (find_move h.id) k ∙ p.found in
    record {
      balance =
          TouchesOnly-PostedBalance t (λ row f nd. absurd (draft_posted found f p.row_draft nd))
            s.balance;
      linked = TouchesOnly-NoOrphans t (λ missing. absurd (not_none found missing)) s.linked;
      amounts =
          subst (All (λ (l : LineRow). IsExact env l.line)) (sym (ap (λ (d : Db). d.lines) k)) (
            replaced-IsExact env w _ db1.lines (complete_lines env now h.id h.date 1 m.lines)
              (subst (All (λ (l : LineRow). IsExact env l.line)) (sym p.lines) s.amounts));
      chain = verify_of_same env db r.1 (ap (λ (d : Db). d.audit) k ∙ p.audit) s.chain;
    }
