-- ===== src/Moves/Posting/Unscanned.antt =====
-- What becomes of a draft that SaveDraftMove stores, whose hash_signature is NULL.
use cashflow_backend.Base.{
  ◌≡◌, sym, ap, ◌∙◌, Option, none, some, [], ◌∷◌, ◌==◌, arith, ok, err, guard-eq-ok, >>=-eq-ok,
  ok-injective, ok-eq_1,
}
use cashflow_backend.Domain.{Uuid, Time, AccountMove, MoveHeader, Error}
use cashflow_backend.Domain.Balance.{validate_balance}
use cashflow_backend.Repository.Tables.{Env, MoveRow, Db}
use cashflow_backend.Repository.Rows.{
  find_move, scan_move, get_move_by_id, insert_move_lines, clear_lines,
}
use cashflow_backend.Repository.Rows.Find.{find-append_none}
use cashflow_backend.Repository.Rows.Lines.{insert_move_lines_inv}
use cashflow_backend.Repository.Drafts.{
  draft_header, draft_row, written_by, upsert_draft, save_draft_move,
}
use cashflow_backend.Repository.Drafts.Sound.{find_last}
use cashflow_backend.Moves.Posting.{MakerCheckerSettings, post_move}

inserted_row :
    (h : MoveHeader) (db : Db) {db1 : Db} (o : Option MoveRow)
    → o ≡ none
    → find_move h.id db ≡ none
    → written_by h db o ≡ ok db1
    → find_move h.id db1 ≡ some (draft_row h)
unfolding written_by
inserted_row h db (some old) n f e = absurd (ground arith)
inserted_row h db none n f e =
    let (_, e1) = guard-eq-ok _ _ _ e in
    ap (find_move h.id) (sym (ok-injective e1))
    ∙ find-append_none (λ (m : MoveRow). m.id == h.id) db.moves (draft_row h ∷ []) f
    ∙ find_last h

saved_row :
    (env : Env) (now : Time) (m : AccountMove) (db : Db) {r : AccountMove × Db}
    → save_draft_move env now m db ≡ ok r
    → find_move (draft_header env now m.header).id db ≡ none
    → find_move (draft_header env now m.header).id r.1
      ≡ some (draft_row (draft_header env now m.header))
unfolding save_draft_move upsert_draft
saved_row env now m db e f =
    let h = draft_header env now m.header in
    let (_, e1) = guard-eq-ok _ _ _ e in
    let (_, v, e2) = >>=-eq-ok (validate_balance m.lines) _ e1 in
    let (db1, u, e3) = >>=-eq-ok (written_by h db (find_move h.id db)) _ e2 in
    let (ins, i, e4) =
      >>=-eq-ok (insert_move_lines env now h.id h.date m.lines (clear_lines h.id db1)) _ e3 in
    let (_, inserted) =
      insert_move_lines_inv env now h.id h.date m.lines (clear_lines h.id db1) i in
    ap (find_move h.id) (ok-eq_1 e4 ∙ inserted) ∙ inserted_row h db (find_move h.id db) f f u

unscanned :
    (env : Env) (g : MakerCheckerSettings) (later : Time) (id actor : Uuid) (db : Db)
    (h : MoveHeader)
    → (x : Error) → env.scan_null ≡ err x
    → find_move id db ≡ some (draft_row h)
    → post_move env g later id actor db ≡ err x
unfolding post_move get_move_by_id scan_move
unscanned env g later id actor db h x s f = rw (f, s)

-- If the driver refuses to read a NULL into a Go string, no new draft can be posted: after
-- SaveDraftMove has inserted a draft, PostMove of it fails with the driver's error, whoever asks.
pub save_draft_move-post_move :
    (env : Env) (g : MakerCheckerSettings) (now later : Time) (actor : Uuid) (m : AccountMove)
    (db : Db)
    → {r : AccountMove × Db} (x : Error) → env.scan_null ≡ err x
    → save_draft_move env now m db ≡ ok r
    → find_move (draft_header env now m.header).id db ≡ none
    → post_move env g later (draft_header env now m.header).id actor r.1 ≡ err x
save_draft_move-post_move env g now later actor m db {r} x s e f =
    unscanned env g later (draft_header env now m.header).id actor r.1
      (draft_header env now m.header) x s (saved_row env now m db e f)
