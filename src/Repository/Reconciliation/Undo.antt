-- ===== src/Repository/Reconciliation/Undo.antt =====
-- UnreconcileMoveLines under the invariant of the books.
use cashflow_backend.Base.{
  suc, ◌≡◌, refl, sym, ap, subst, ◌∙◌, true, false, ◌||◌, Option, none, some, List, [], ◌∷◌, map,
  ◌==◌, arith, All, All-order_by, ltb, length, find, select, ok, guard-eq-ok, fail_if-eq-ok,
  >>=-eq-ok, or_err-eq-ok, ok-injective,
}
use cashflow_backend.Base.Int.{◌+ℤ◌}
use cashflow_backend.Domain.{
  Uuid, uuid_nil, Date, Time, AccountMoveLine, is_posted, is_draft, MoveState, required,
  inconsistent_residual, reconciliation_not_found, move_not_found, cannot_reverse_unposted_move,
  move_already_reversed, move_requires_at_least_two_lines,
}
use cashflow_backend.Domain.Balance.{IsEntry, IsBalanced, debits, credits, order_by-IsBalanced}
use cashflow_backend.Repository.Tables.{Env, MoveRow, Reconciliation, ReconciliationItem, Db}
use cashflow_backend.Repository.Rows.{
  find_move, load_move_lines, by_creation, lock_open_period, next_sequence,
}
use cashflow_backend.Repository.Rows.Lines.{IsExact, lines_of-All}
use cashflow_backend.Repository.Rows.Sequence.{next_sequence_inv}
use cashflow_backend.Repository.Invariant.{IsSound, IsNumeric, KeepsPosted}
use cashflow_backend.Repository.Posted.{insert_posted_inv}
use cashflow_backend.Repository.Extends.{
  Extends, Extends-refl, Extends-trans, logged-Extends, posted-Extends,
}
use cashflow_backend.Repository.Reversal.{has_reversal}
use cashflow_backend.Repository.Reversal.Sound.{mirror_lines-IsExact, mirror_lines-IsBalanced}
use cashflow_backend.Repository.Reconciliation.Realized.{
  unmatched, reversal_lines, period_in_transaction, reverse_posted_move,
}
use cashflow_backend.Repository.Reconciliation.Commit.{
  covers, lower, restore, items_of, undo_realized, unreconcile_move_lines,
}
use cashflow_backend.Repository.Reconciliation.Sound.{update-Extends, others-Extends}

posted_no_draft : (s : MoveState) → is_posted s ≡ true → is_draft s ≡ false
posted_no_draft s e = ground (arith, e)

length-unmatched :
    (ls : List AccountMoveLine) → length (map (λ (l : AccountMoveLine). unmatched l) ls) ≡ length ls
length-unmatched [] = refl
length-unmatched (l ∷ ls) = ap suc (length-unmatched ls)

unmatched_entries :
    (ls : List AccountMoveLine)
    → All IsEntry ls
    → All IsEntry (map (λ (l : AccountMoveLine). unmatched l) ls)
unmatched_entries [] h = tt
unmatched_entries (l ∷ ls) h = (
  record {
    debit_nonneg = h.0.debit_nonneg;
    credit_nonneg = h.0.credit_nonneg;
    nonzero = h.0.nonzero;
  },
  unmatched_entries ls h.1,
)

unmatched-IsExact :
    (env : Env) (ls : List AccountMoveLine)
    → All (IsExact env) ls
    → All (IsExact env) (map (λ (l : AccountMoveLine). unmatched l) ls)
unmatched-IsExact env [] h = tt
unmatched-IsExact env (l ∷ ls) h =
    (record { debit = h.0.debit; credit = h.0.credit }, unmatched-IsExact env ls h.1)

debits-unmatched :
    (ls : List AccountMoveLine) → debits (map (λ (l : AccountMoveLine). unmatched l) ls) ≡ debits ls
unfolding debits
debits-unmatched [] = refl
debits-unmatched (l ∷ ls) = ap (λ t. l.debit +ℤ t) (debits-unmatched ls)

credits-unmatched :
    (ls : List AccountMoveLine)
    → credits (map (λ (l : AccountMoveLine). unmatched l) ls) ≡ credits ls
unfolding credits
credits-unmatched [] = refl
credits-unmatched (l ∷ ls) = ap (λ t. l.credit +ℤ t) (credits-unmatched ls)

unmatched-IsBalanced :
    (ls : List AccountMoveLine)
    → IsBalanced ls
    → IsBalanced (map (λ (l : AccountMoveLine). unmatched l) ls)
unmatched-IsBalanced ls b = record {
  enough = omega (arith, length-unmatched ls, b.enough);
  entries = unmatched_entries ls b.entries;
  equal = debits-unmatched ls ∙ b.equal ∙ sym (credits-unmatched ls);
}

reversal_good :
    (env : Env) (now : Time) (id : Uuid) (date : Date) (ls : List AccountMoveLine)
    → All (IsExact env) ls
    → IsBalanced ls
    → All (IsExact env) (reversal_lines env now id date ls)
      × IsBalanced (reversal_lines env now id date ls)
unfolding reversal_lines
reversal_good env now id date ls x b = (
  unmatched-IsExact env _ (mirror_lines-IsExact env now id date 1 [] ls x),
  unmatched-IsBalanced _ (mirror_lines-IsBalanced env now id date [] ls b),
)

-- The lines of a posted entry, as loadMoveLines reads them.
loaded :
    (env : Env) (id : Uuid) (row : MoveRow) (db : Db)
    → find_move id db ≡ some row
    → is_posted row.state ≡ true
    → IsSound env db
    → All (IsExact env) (load_move_lines id db) × IsBalanced (load_move_lines id db)
unfolding load_move_lines
loaded env id row db f p s = (
  All-order_by (IsExact env) by_creation _ (lines_of-All env id db.lines s.amounts),
  order_by-IsBalanced by_creation _ (s.balance id row f (posted_no_draft row.state p)),
)

pub reverse_posted_move-Extends :
    (env : Env) (now : Time) (original : Uuid) (date : Date) (actor : Uuid) (db : Db) {db' : Db}
    → IsNumeric env
    → reverse_posted_move env now original date actor db ≡ ok db'
    → Extends env db db'
unfolding reverse_posted_move
reverse_posted_move-Extends env now original date actor db w e =
    let (m, f, e1) = or_err-eq-ok (find_move original db) move_not_found _ e in
    let (p, e2) = guard-eq-ok (is_posted m.state) cannot_reverse_unposted_move _ e1 in
    let (_, e3) = fail_if-eq-ok (has_reversal original db) move_already_reversed _ e2 in
    let (period, _, e4) = >>=-eq-ok (period_in_transaction date db) _ e3 in
    let (_, _, e5) = >>=-eq-ok (lock_open_period period date db) _ e4 in
    let ((name, db1), q, e6) = >>=-eq-ok (next_sequence m.journal_id db) _ e5 in
    let (_, e7) =
      fail_if-eq-ok (ltb (length (load_move_lines original db1)) 2) move_requires_at_least_two_lines
        _ e6 in
    let t = next_sequence_inv m.journal_id db q in
    posted-Extends w t (insert_posted_inv env now _ _ _ db1 e7) (λ s1.
      let there : find_move original db1 ≡ some m = ap (find_move original) t.bumped ∙ f in
      let (x, b) = loaded env original m db1 there p s1 in
      reversal_good env now (env.new_uuid 0) date (load_move_lines original db1) x b)

restore-Extends :
    (env : Env) (is : List ReconciliationItem) (db : Db) {db' : Db}
    → restore env is db ≡ ok db'
    → Extends env db db'
unfolding restore
restore-Extends env [] db e = subst (Extends env db) (ok-injective e) (Extends-refl env db)
restore-Extends env (i ∷ is) db e =
    let (_, e1) =
      guard-eq-ok (length (select (covers i) db.lines) == 1) inconsistent_residual _ e in
    Extends-trans
      (update-Extends env (lower env i.allocated_amount) (λ r. refl) (covers i) db.items db)
      (restore-Extends env is _ e1)

undo_realized-Extends :
    (env : Env) (now : Time) (move_id : Option Uuid) (date : Date) (actor : Uuid) (db : Db)
    {db' : Db}
    → IsNumeric env
    → undo_realized env now move_id date actor db ≡ ok db'
    → Extends env db db'
unfolding undo_realized
undo_realized-Extends env now none date actor db w e =
    subst (Extends env db) (ok-injective e) (Extends-refl env db)
undo_realized-Extends env now (some move_id) date actor db w e =
    reverse_posted_move-Extends env now move_id date actor db w e

-- Taking a reconciliation back keeps sound books sound: the entry that reverses the realized exchange
-- difference is balanced in the table, the audit chain is intact, and every entry that was posted
-- before has the same columns and the same lines.
pub unreconcile_move_lines-IsSound :
    (env : Env) (now : Time) (id : Uuid) (date : Date) (actor : Uuid) (db : Db) {db' : Db}
    → IsNumeric env
    → IsSound env db
    → unreconcile_move_lines env now id date actor db ≡ ok db'
    → IsSound env db' × KeepsPosted db db'
unfolding unreconcile_move_lines
unreconcile_move_lines-IsSound env now id date actor db {db'} w s e =
    let (_, e1) = fail_if-eq-ok (id == uuid_nil || actor == uuid_nil) required _ e in
    let (r, _, e2) =
      or_err-eq-ok (find (λ (r : Reconciliation). r.id == id) db.reconciliations)
        reconciliation_not_found _ e1 in
    let (db1, f, e3) = >>=-eq-ok (restore env (items_of id db) db) _ e2 in
    let (db2, g, e4) =
      >>=-eq-ok (undo_realized env now r.realized_fx_move_id date actor db1) _ e3 in
    let x = subst (Extends env db) (ok-injective e4) (
      Extends-trans (restore-Extends env (items_of id db) db f) (
        Extends-trans (undo_realized-Extends env now r.realized_fx_move_id date actor db1 w g)
          (Extends-trans (logged-Extends env now _ db2) (others-Extends env _ _ _)))) in
    (x.sound s, x.kept)
