-- ===== src/Repository/Drafts/Laws.antt =====
-- What SaveDraftMove and DeleteDraftMove leave alone.
use cashflow_backend.Base.{
  not_none, ◌≡◌, ◌≢◌, refl, sym, ap, ◌∙◌, true, false, ◌&&◌, none, some, ◌==◌, arith, ok, Option,
  guard-eq-ok, or_err-eq-ok, fail_if-eq-ok, >>=-eq-ok, ok-injective, ok-eq_1,
}
use cashflow_backend.Domain.{Uuid, Time, AccountMove, MoveHeader, is_draft}
use cashflow_backend.Domain.Balance.{validate_balance}
use cashflow_backend.Repository.Tables.{Env, MoveRow, Db}
use cashflow_backend.Repository.Rows.{find_move, lines_of, insert_move_lines, clear_lines}
use cashflow_backend.Repository.Rows.Find.{find-append_spare, find-update_spare, find-delete_where}
use cashflow_backend.Repository.Rows.Lines.{
  lines_of-replaced_ne, lines_of-delete_ne, insert_move_lines_inv,
}
use cashflow_backend.Repository.Invariant.{TouchesOnly, KeepsPosted, TouchesOnly-KeepsPosted}
use cashflow_backend.Repository.Drafts.{
  draft_header, draft_row, written_by, upsert_draft, save_draft_move, delete_draft_move,
}

other_id :
    (h : MoveHeader) (j : Uuid) (y : MoveRow)
    → j ≢ h.id
    → (y.id == j) ≡ true
    → (y.id == h.id) ≡ false
other_id h j y ne e = ground arith

same_draft :
    {o : Option MoveRow} {r s : MoveRow}
    → o ≡ some r
    → o ≡ some s
    → is_draft r.state ≡ true
    → is_draft s.state ≡ true
same_draft e f d = cc

other_key : (id j : Uuid) → j ≢ id → (id == j) ≡ false
other_key id j ne = ground arith

-- The two branches of upsert_draft.
upsert_draft_inv :
    (h : MoveHeader) (db db' : Db) (o : Option MoveRow)
    → find_move h.id db ≡ o
    → written_by h db o ≡ ok db'
    → TouchesOnly h.id db db' × (db'.lines ≡ db.lines)
unfolding written_by
upsert_draft_inv h db db' none missing e =
    let (_, e') = guard-eq-ok _ _ _ e in
    let k = sym (ok-injective e') in
    (
      record {
        other_moves = λ j ne.
            ap (find_move j) k ∙ find-append_spare _ db.moves (draft_row h) (other_key h.id j ne);
        other_lines = λ j ne. ap (λ (d : Db). lines_of j d.lines) k;
        unposted = λ row f. absurd (not_none f missing);
      },
      ap (λ (d : Db). d.lines) k,
    )
upsert_draft_inv h db db' (some old) found e =
    let (old_draft, e') = guard-eq-ok (is_draft old.state) _ _ e in
    let (_, e'') = guard-eq-ok _ _ _ e' in
    let k = sym (ok-injective e'') in
    (
      record {
        other_moves = λ j ne.
            ap (find_move j) k
            ∙ find-update_spare (λ m. m.id == j) _ _ db.moves (λ y. refl) (λ y. other_id h j y ne);
        other_lines = λ j ne. ap (λ (d : Db). lines_of j d.lines) k;
        unposted = λ row f. same_draft found f old_draft;
      },
      ap (λ (d : Db). d.lines) k,
    )

-- What SaveDraftMove did: the row, and behind it the lines.
pub save_draft_move_touches :
    (env : Env) (now : Time) (m : AccountMove) (db : Db) {r : AccountMove × Db}
    → save_draft_move env now m db ≡ ok r
    → TouchesOnly (draft_header env now m.header).id db r.1
unfolding save_draft_move upsert_draft written_by
save_draft_move_touches env now m db {r} e =
    let h = draft_header env now m.header in
    let (_, e1) = guard-eq-ok _ _ _ e in
    let (_, v, e2) = >>=-eq-ok (validate_balance m.lines) _ e1 in
    let (db1, u, e3) = >>=-eq-ok (written_by h db (find_move h.id db)) _ e2 in
    let (ins, i, e4) =
      >>=-eq-ok (insert_move_lines env now h.id h.date m.lines (clear_lines h.id db1)) _ e3 in
    let (_, inserted) =
      insert_move_lines_inv env now h.id h.date m.lines (clear_lines h.id db1) i in
    let k = ok-eq_1 e4 ∙ inserted in
    let (t, same_lines) = upsert_draft_inv h db db1 (find_move h.id db) refl u in
    record {
      other_moves = λ j ne. ap (find_move j) k ∙ t.other_moves j ne;
      other_lines = λ j ne.
          ap (λ (d : Db). lines_of j d.lines) k
          ∙ lines_of-replaced_ne env now h.id h.date m.lines j db1.lines ne
          ∙ ap (lines_of j) same_lines;
      unposted = t.unposted;
    }

-- Saving a draft, new or old, changes no move that is posted: a posted move keeps its columns and its
-- lines, whatever identity and lines the saved move has.
pub save_draft_move-KeepsPosted :
    (env : Env) (now : Time) (m : AccountMove) (db : Db) {r : AccountMove × Db}
    → save_draft_move env now m db ≡ ok r
    → KeepsPosted db r.1
save_draft_move-KeepsPosted env now m db e =
    TouchesOnly-KeepsPosted (save_draft_move_touches env now m db e)

deleted_spare :
    (id j : Uuid) (y : MoveRow)
    → j ≢ id
    → (y.id == j) ≡ true
    → (y.id == id && is_draft y.state) ≡ false
deleted_spare id j y ne e = ground arith

pub delete_draft_move_touches :
    (id : Uuid) (db : Db) {db' : Db} → delete_draft_move id db ≡ ok db' → TouchesOnly id db db'
unfolding delete_draft_move
delete_draft_move_touches id db {db'} e =
    let (row, f, e1) = or_err-eq-ok (find_move id db) _ _ e in
    let (row_draft, e2) = guard-eq-ok (is_draft row.state) _ _ e1 in
    let (_, e3) = fail_if-eq-ok _ _ _ e2 in
    let k = sym (ok-injective e3) in
    record {
      other_moves = λ j ne.
          ap (find_move j) k
          ∙ find-delete_where (λ m. m.id == j) _ db.moves (λ y. deleted_spare id j y ne);
      other_lines =
          λ j ne. ap (λ (d : Db). lines_of j d.lines) k ∙ lines_of-delete_ne id j db.lines ne;
      unposted = λ other g. same_draft f g row_draft;
    }

-- Deleting a draft changes no move that is posted.
pub delete_draft_move-KeepsPosted :
    (id : Uuid) (db : Db) {db' : Db} → delete_draft_move id db ≡ ok db' → KeepsPosted db db'
delete_draft_move-KeepsPosted id db e = TouchesOnly-KeepsPosted (delete_draft_move_touches id db e)
