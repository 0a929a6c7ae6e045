-- ===== src/Repository/Reversal/Mirror.antt =====
-- ReverseMoveAtomic, seen through the lines and the other moves.
use mathlib.Core.List.{append-nil}
use cashflow_backend.Base.{
  not_both, not_none, ◌≡◌, ◌≢◌, refl, sym, ap, ◌∙◌, ℕ, ◌+◌, Bool, true, false, none, some, List, [],
  ◌∷◌, ◌++◌, arith, ◌==◌, exists, find, ok,
}
use cashflow_backend.Base.Int.{◌+ℤ◌}
use cashflow_backend.Domain.{
  Uuid, Date, Time, MoveHeader, AccountMove, AccountMoveLine, FinancialAuditLog, MoveState, posted,
  is_posted, is_draft,
}
use cashflow_backend.Domain.Balance.{debits, credits, debits-order_by, credits-order_by}
use cashflow_backend.Repository.Tables.{Env, MoveRow, Db}
use cashflow_backend.Repository.Rows.{
  find_move, lines_of, load_move_lines, by_creation, complete_lines, move_accepted,
}
use cashflow_backend.Repository.Rows.Find.{find-append_spare}
use cashflow_backend.Repository.Rows.Lines.{lines_of-append, lines_of-rows_ne}
use cashflow_backend.Repository.Invariant.{TouchesOnly, KeepsPosted, TouchesOnly-KeepsPosted}
use cashflow_backend.Repository.Reversal.{has_reversal, mirror_lines, reverse_move_atomic}
use cashflow_backend.Repository.Reversal.Laws.{Reversed, reverse_move_atomic_inv}

exists-append_last :
    (p : MoveRow → Bool) (ms : List MoveRow) (m : MoveRow)
    → p m ≡ true
    → exists p (ms ++ m ∷ []) ≡ true
unfolding exists
exists-append_last p [] m h = ground (arith, h)
exists-append_last p (x ∷ xs) m h = ground (arith, exists-append_last p xs m h)

reverses_it :
    (id : Uuid) (m : MoveRow)
    → m.reversed_move_id ≡ some id
    → elim m.reversed_move_id [ none ↦ false | some r ↦ r == id ] ≡ true
reverses_it id m e = ground (arith, e)

pub no_row :
    (id : Uuid) (ms : List MoveRow)
    → exists (λ (m : MoveRow). m.id == id) ms ≡ false
    → find (λ (m : MoveRow). m.id == id) ms ≡ none
unfolding exists find
no_row id [] e = refl
no_row id (m ∷ ms) e = ground (arith, no_row id ms)

debits-complete_lines :
    (env : Env) (now : Time) (id : Uuid) (date : Date) (k : ℕ) (ls : List AccountMoveLine)
    → debits (complete_lines env now id date k ls) ≡ debits ls
unfolding debits complete_lines
debits-complete_lines env now id date k [] = refl
debits-complete_lines env now id date k (l ∷ ls) =
    ap (λ s. l.debit +ℤ s) (debits-complete_lines env now id date (k + 1) ls)

credits-complete_lines :
    (env : Env) (now : Time) (id : Uuid) (date : Date) (k : ℕ) (ls : List AccountMoveLine)
    → credits (complete_lines env now id date k ls) ≡ credits ls
unfolding credits complete_lines
credits-complete_lines env now id date k [] = refl
credits-complete_lines env now id date k (l ∷ ls) =
    ap (λ s. l.credit +ℤ s) (credits-complete_lines env now id date (k + 1) ls)

pub debits-mirror_lines :
    (env : Env) (now : Time) (id : Uuid) (date : Date) (k : ℕ) (given ls : List AccountMoveLine)
    → debits (mirror_lines env now id date k given ls) ≡ credits ls
unfolding debits credits mirror_lines
debits-mirror_lines env now id date k given [] = refl
debits-mirror_lines env now id date k [] (l ∷ ls) =
    ap (λ s. l.credit +ℤ s) (debits-mirror_lines env now id date (k + 1) [] ls)
debits-mirror_lines env now id date k (g ∷ gs) (l ∷ ls) =
    ap (λ s. l.credit +ℤ s) (debits-mirror_lines env now id date (k + 1) gs ls)

pub credits-mirror_lines :
    (env : Env) (now : Time) (id : Uuid) (date : Date) (k : ℕ) (given ls : List AccountMoveLine)
    → credits (mirror_lines env now id date k given ls) ≡ debits ls
unfolding debits credits mirror_lines
credits-mirror_lines env now id date k given [] = refl
credits-mirror_lines env now id date k [] (l ∷ ls) =
    ap (λ s. l.debit +ℤ s) (credits-mirror_lines env now id date (k + 1) [] ls)
credits-mirror_lines env now id date k (g ∷ gs) (l ∷ ls) =
    ap (λ s. l.debit +ℤ s) (credits-mirror_lines env now id date (k + 1) gs ls)

-- The totals of a reversal: its debits are the credits that the move has in the table and its credits
-- the debits, and the table names the move as reversed.
pub reverse_move_atomic-debits :
    (env : Env) (now : Time) (original_id : Uuid) (m : AccountMove) (audit : FinancialAuditLog)
    → (db : Db) {r : AccountMove × Db} → reverse_move_atomic env now original_id m audit db ≡ ok r
    → (debits r.0.lines ≡ credits (lines_of original_id db.lines))
      × (credits r.0.lines ≡ debits (lines_of original_id db.lines))
      × (has_reversal original_id r.1 ≡ true)
unfolding load_move_lines has_reversal
reverse_move_atomic-debits env now original_id m audit db e =
    let p = reverse_move_atomic_inv env now original_id m audit db e in
    let w = p.written in
    let same_lines = ap (λ (d : Db). lines_of original_id d.lines) p.numbered.bumped in
    let h = w.header in
    let originals = load_move_lines original_id p.db1 in
    let mirror = mirror_lines env now h.id m.date 1 m.lines originals in
    (
      ap debits w.result
          ∙ debits-complete_lines env now h.id m.date 1 mirror
          ∙ debits-mirror_lines env now h.id m.date 1 m.lines originals
          ∙ credits-order_by by_creation (lines_of original_id p.db1.lines)
          ∙ ap credits same_lines,
      ap credits w.result
          ∙ credits-complete_lines env now h.id m.date 1 mirror
          ∙ credits-mirror_lines env now h.id m.date 1 m.lines originals
          ∙ debits-order_by by_creation (lines_of original_id p.db1.lines)
          ∙ ap debits same_lines,
      ap (exists _) w.moves
          ∙ exists-append_last _ p.db1.moves w.row (reverses_it original_id w.row w.row_reverses),
    )

-- A move is reversed once: after a reversal, no further reversal of the same move succeeds, whatever
-- its caller, its date and its lines.
pub reverse_move_atomic-once :
    (env : Env) (now later : Time) (original_id : Uuid) (m m' : AccountMove)
    → (audit audit' : FinancialAuditLog) (db : Db) {r r' : AccountMove × Db}
    → reverse_move_atomic env now original_id m audit db ≡ ok r
    → ¬ (reverse_move_atomic env later original_id m' audit' r.1 ≡ ok r')
reverse_move_atomic-once env now later original_id m m' audit audit' db {r} e f =
    let (_, _, taken) = reverse_move_atomic-debits env now original_id m audit db e in
    let again = reverse_move_atomic_inv env later original_id m' audit' r.1 f in
    not_both taken again.first

pub not_present :
    (db : Db) (h : MoveHeader)
    → move_accepted db h ≡ true
    → exists (λ (m : MoveRow). m.id == h.id) db.moves ≡ false
unfolding move_accepted
not_present db h e = ground arith

other_row : (j : Uuid) (row : MoveRow) (id : Uuid) → row.id ≡ id → j ≢ id → (row.id == j) ≡ false
other_row j row id e ne = ground arith

pub reversal_touches :
    (env : Env) (now : Time) (original_id : Uuid) (m : AccountMove) (audit : FinancialAuditLog)
    → (db : Db) {r : AccountMove × Db} → (p : Reversed env now original_id m audit db r)
    → TouchesOnly p.written.header.id db r.1
reversal_touches env now original_id m audit db {r} p =
    let w = p.written in
    let id = w.header.id in
    let moves1 = ap (λ (d : Db). d.moves) p.numbered.bumped in
    let lines1 = ap (λ (d : Db). d.lines) p.numbered.bumped in
    record {
      other_moves = λ j ne.
          ap (find (λ x. x.id == j)) w.moves
          ∙ find-append_spare (λ x. x.id == j) p.db1.moves w.row (other_row j w.row id w.row_id ne)
          ∙ ap (find (λ x. x.id == j)) moves1;
      other_lines = λ j ne.
          ap (lines_of j) w.lines
          ∙ lines_of-append j p.db1.lines _
          ∙ ap (λ t. lines_of j p.db1.lines ++ t) (lines_of-rows_ne env now id m.date j 1 _ ne)
          ∙ append-nil _
          ∙ ap (lines_of j) lines1;
      unposted = λ row f. absurd (
          not_none f (
            ap (find (λ x. x.id == id)) (sym moves1)
            ∙ no_row id p.db1.moves (not_present p.db1 w.header w.accepted)));
    }

-- A reversal changes no earlier move that is no draft, the one that it reverses included: each keeps
-- its columns and its lines.
pub reverse_move_atomic-KeepsPosted :
    (env : Env) (now : Time) (original_id : Uuid) (m : AccountMove) (audit : FinancialAuditLog)
    → (db : Db) {r : AccountMove × Db} → reverse_move_atomic env now original_id m audit db ≡ ok r
    → KeepsPosted db r.1
reverse_move_atomic-KeepsPosted env now original_id m audit db e = TouchesOnly-KeepsPosted (
    reversal_touches env now original_id m audit db
      (reverse_move_atomic_inv env now original_id m audit db e))

posted_state : (s : MoveState) → is_posted s ≡ true → (s ≡ posted) × (is_draft s ≡ false)
posted_state posted e = (refl, refl)
posted_state _ e = absurd (ground arith)

-- A reversal never marks the move that it reverses: where the life cycle of an entry in
-- docs/analysis/financial_accounting_system_architecture_standards.md goes from Posted to Reversed, the
-- move has the state posted after its reversal too, and is in the table as it was before.
pub reverse_move_atomic-posted :
    (env : Env) (now : Time) (original_id : Uuid) (m : AccountMove) (audit : FinancialAuditLog)
    → (db : Db) {r : AccountMove × Db} → reverse_move_atomic env now original_id m audit db ≡ ok r
    → (row : MoveRow) × (find_move original_id db ≡ some row)
      × (find_move original_id r.1 ≡ some row)
      × (row.state ≡ posted)
reverse_move_atomic-posted env now original_id m audit db e =
    let p = reverse_move_atomic_inv env now original_id m audit db e in
    let (state, no_draft) = posted_state p.original.state p.was_posted in
    let (there, _) =
      reverse_move_atomic-KeepsPosted env now original_id m audit db e original_id p.original
        p.found no_draft in
    (p.original, p.found, there, state)
