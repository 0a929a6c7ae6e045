-- ===== src/Repository/Reversal/Sound.antt =====
-- ReverseMoveAtomic under the invariant of the books.
use cashflow_backend.Base.{
  not_none, ◌≡◌, refl, sym, ap, subst, ◌∙◌, ℕ, suc, ◌+◌, true, false, none, some, List, [], ◌∷◌,
  ◌++◌, map, arith, ◌==◌, length, All, All-order_by, find, ok,
}
use cashflow_backend.Base.Int.{+ℤ_parts}
use cashflow_backend.Domain.{
  Uuid, Date, Time, AccountMove, AccountMoveLine, FinancialAuditLog, is_draft, is_posted, MoveState,
}
use cashflow_backend.Domain.Balance.{IsEntry, IsBalanced, order_by-IsBalanced}
use cashflow_backend.Repository.Tables.{Env, MoveRow, LineRow, Db}
use cashflow_backend.Repository.Rows.{
  find_move, lines_of, load_move_lines, by_creation, complete_lines,
}
use cashflow_backend.Repository.Rows.Find.{find-append_none}
use cashflow_backend.Repository.Rows.Lines.{
  IsExact, stored_line, lines_of-append, lines_of-rows_self, lines_of-All, stored-IsBalanced,
}
use cashflow_backend.Repository.Audit.{verify_audit_integrity}
use cashflow_backend.Repository.Audit.Chain.{insert_audit_log-verify, verify_of_same}
use cashflow_backend.Repository.Invariant.{
  IsSound, IsNumeric, TouchesOnly-PostedBalance, TouchesOnly-NoOrphans, appended-IsExact,
}
use cashflow_backend.Repository.Reversal.{mirror_lines, mirrored, reverse_move_atomic}
use cashflow_backend.Repository.Reversal.Laws.{Reversed, reverse_move_atomic_inv}
use cashflow_backend.Repository.Reversal.Mirror.{
  debits-mirror_lines, credits-mirror_lines, no_row, not_present, reversal_touches,
}

mirrored-IsEntry :
    (id move_id : Uuid) (date : Date) (now : Time) (l : AccountMoveLine)
    → IsEntry l
    → IsEntry (mirrored id move_id date now l)
mirrored-IsEntry id move_id date now l h =
    ground (arith, h, +ℤ_parts l.debit l.credit, +ℤ_parts l.credit l.debit)

module _ (env : Env) (now : Time) (id : Uuid) (date : Date) where
  length-mirror_lines :
      (k : ℕ) (given ls : List AccountMoveLine)
      → length (mirror_lines env now id date k given ls) ≡ length ls
  unfolding mirror_lines
  length-mirror_lines k given [] = refl
  length-mirror_lines k [] (l ∷ ls) = ap suc (length-mirror_lines (k + 1) [] ls)
  length-mirror_lines k (g ∷ gs) (l ∷ ls) = ap suc (length-mirror_lines (k + 1) gs ls)

  mirror_lines-IsEntry :
      (k : ℕ) (given ls : List AccountMoveLine)
      → All IsEntry ls
      → All IsEntry (mirror_lines env now id date k given ls)
  unfolding mirror_lines
  mirror_lines-IsEntry k given [] h = tt
  mirror_lines-IsEntry k [] (l ∷ ls) h =
      (mirrored-IsEntry _ id date now l h.0, mirror_lines-IsEntry (k + 1) [] ls h.1)
  mirror_lines-IsEntry k (g ∷ gs) (l ∷ ls) h =
      (mirrored-IsEntry _ id date now l h.0, mirror_lines-IsEntry (k + 1) gs ls h.1)

  pub mirror_lines-IsExact :
      (k : ℕ) (given ls : List AccountMoveLine)
      → All (IsExact env) ls
      → All (IsExact env) (mirror_lines env now id date k given ls)
  unfolding mirror_lines
  mirror_lines-IsExact k given [] h = tt
  mirror_lines-IsExact k [] (l ∷ ls) h =
      (record { debit = h.0.credit; credit = h.0.debit }, mirror_lines-IsExact (k + 1) [] ls h.1)
  mirror_lines-IsExact k (g ∷ gs) (l ∷ ls) h =
      (record { debit = h.0.credit; credit = h.0.debit }, mirror_lines-IsExact (k + 1) gs ls h.1)

  pub mirror_lines-IsBalanced :
      (given ls : List AccountMoveLine)
      → IsBalanced ls
      → IsBalanced (mirror_lines env now id date 1 given ls)
  mirror_lines-IsBalanced given ls b = record {
    enough = omega (arith, length-mirror_lines 1 given ls, b.enough);
    entries = mirror_lines-IsEntry 1 given ls b.entries;
    equal =
        debits-mirror_lines env now id date 1 given ls
        ∙ sym b.equal
        ∙ sym (credits-mirror_lines env now id date 1 given ls);
  }

posted_no_draft : (s : MoveState) → is_posted s ≡ true → is_draft s ≡ false
posted_no_draft s e = ground arith

after_none : (xs ys : List AccountMoveLine) → xs ≡ [] → xs ++ ys ≡ ys
after_none xs ys e = ap (λ t. t ++ ys) e

found_single :
    (row : MoveRow) (id : Uuid)
    → row.id ≡ id
    → find (λ (m : MoveRow). m.id == id) (row ∷ []) ≡ some row
unfolding find
found_single row id e = ground arith

module _ {env : Env} {now : Time} {original_id : Uuid} {m : AccountMove} {audit : FinancialAuditLog}
    {db : Db} {r : AccountMove × Db} (p : Reversed env now original_id m audit db r)
    (s : IsSound env db) where
  unfoldable pub originals : List AccountMoveLine
  originals = load_move_lines original_id p.db1

  pub same_lines : p.db1.lines ≡ db.lines
  same_lines = ap (λ (d : Db). d.lines) p.numbered.bumped

  originals-IsBalanced : IsBalanced originals
  unfolding originals load_move_lines
  originals-IsBalanced = order_by-IsBalanced by_creation _ (
      subst (λ ls. IsBalanced (lines_of original_id ls)) (sym same_lines)
        (s.balance original_id p.original p.found (posted_no_draft p.original.state p.was_posted)))

  pub originals-IsExact : All (IsExact env) originals
  unfolding originals load_move_lines
  originals-IsExact = All-order_by (IsExact env) by_creation _ (
      lines_of-All env original_id p.db1.lines
        (subst (All (λ (l : LineRow). IsExact env l.line)) (sym same_lines) s.amounts))

  fresh : find_move p.written.header.id p.db1 ≡ none
  fresh =
      no_row p.written.header.id p.db1.moves (not_present p.db1 p.written.header p.written.accepted)

  no_lines : lines_of p.written.header.id p.db1.lines ≡ []
  no_lines =
      ap (lines_of p.written.header.id) same_lines
      ∙ s.linked p.written.header.id (
          ap (find (λ x. x.id == p.written.header.id))
            (sym (ap (λ (d : Db). d.moves) p.numbered.bumped))
          ∙ fresh)

  pub reversal_lines :
      lines_of p.written.header.id r.1.lines
      ≡ map (stored_line env) (
          complete_lines env now p.written.header.id m.date 1
            (mirror_lines env now p.written.header.id m.date 1 m.lines originals))
  unfolding originals
  reversal_lines =
      ap (lines_of p.written.header.id) p.written.lines
      ∙ lines_of-append p.written.header.id p.db1.lines _
      ∙ after_none _ _ no_lines
      ∙ lines_of-rows_self env now p.written.header.id m.date 1 _

  reversal-IsBalanced : IsBalanced (lines_of p.written.header.id r.1.lines)
  reversal-IsBalanced =
      let id = p.written.header.id in
      subst IsBalanced (sym reversal_lines) (
        stored-IsBalanced env now id m.date 1 _
          (mirror_lines-IsExact env now id m.date 1 m.lines originals originals-IsExact)
          (mirror_lines-IsBalanced env now id m.date m.lines originals originals-IsBalanced))

  reversal_there : find_move p.written.header.id r.1 ≡ some p.written.row
  reversal_there =
      ap (find (λ x. x.id == p.written.header.id)) p.written.moves
      ∙ find-append_none (λ x. x.id == p.written.header.id) p.db1.moves _ fresh
      ∙ found_single p.written.row p.written.header.id p.written.row_id

  pub Reversed-IsSound : IsNumeric env → IsSound env r.1
  Reversed-IsSound w =
      let t = reversal_touches env now original_id m audit db p in
      record {
        balance = TouchesOnly-PostedBalance t (λ row f nd. reversal-IsBalanced) s.balance;
        linked =
            TouchesOnly-NoOrphans t (λ missing. absurd (not_none reversal_there missing)) s.linked;
        amounts = subst (All (λ (l : LineRow). IsExact env l.line)) (sym p.written.lines) (
            appended-IsExact env w p.db1.lines _
              (subst (All (λ (l : LineRow). IsExact env l.line)) (sym same_lines) s.amounts));
        chain =
            subst (λ d. verify_audit_integrity env d ≡ ok tt) (sym p.written.logged)
              (insert_audit_log-verify env now (some audit) p.written.final (
                verify_of_same env db p.written.final
                  (p.written.final_audit ∙ ap (λ (d : Db). d.audit) p.numbered.bumped) s.chain));
      }

-- A reversal keeps sound books sound, if the columns keep a value that they hold: the reversal is balanced in the table, as every earlier posted move
-- is, no line is without its move, and the audit chain is intact.
pub reverse_move_atomic-IsSound :
    (env : Env) (now : Time) (original_id : Uuid) (m : AccountMove) (audit : FinancialAuditLog)
    → (db : Db) {r : AccountMove × Db} → IsNumeric env
    → reverse_move_atomic env now original_id m audit db ≡ ok r
    → IsSound env db
    → IsSound env r.1
reverse_move_atomic-IsSound env now original_id m audit db w e s =
    Reversed-IsSound (reverse_move_atomic_inv env now original_id m audit db e) s w
