-- ===== src/Repository/Reconciliation/Sound.antt =====
-- Reconciliation under the invariant of the books.
use cashflow_backend.Base.{
  ◌≡◌, refl, sym, subst, ◌∙◌, Bool, true, false, ◌&&◌, ◌||◌, Option, none, List, [], ◌∷◌, Text,
  ◌==◌, arith, All, ltb, Bool-cases, inl, inr, length, find, exists, update_where, ok, if_true,
  if_false, guard-eq-ok, fail_if-eq-ok, >>=-eq-ok, or_err-eq-ok, ok-injective, ok-eq_1,
}
use cashflow_backend.Base.Int.{pos, ◌-ℤ◌, abs, eqb_ℤ, ◌≤ℤ◌, +ℤ_parts, int_laws, abs_nonneg}
use cashflow_backend.Domain.{
  Uuid, uuid_nil, Date, Time, Decimal, AccountingConfiguration, adjustment_rounds_to_zero,
  accounting_configuration_missing, required, constraint_violation, unequal_allocations,
  line_not_found,
}
use cashflow_backend.Domain.Balance.{IsBalanced, is_zero, is_positive, debits, credits}
use cashflow_backend.Repository.Tables.{Env, LineRow, Reconciliation, ReconciliationItem, Db}
use cashflow_backend.Repository.Rows.{lines_of, next_sequence}
use cashflow_backend.Repository.Rows.Lines.{IsExact}
use cashflow_backend.Repository.Rows.Sequence.{next_sequence_inv}
use cashflow_backend.Repository.Audit.Chain.{verify_of_same}
use cashflow_backend.Repository.Invariant.{IsSound, KeepsPosted}
use cashflow_backend.Repository.Posted.{insert_posted, insert_posted_inv}
use cashflow_backend.Repository.Extends.{
  Extends, Extends-refl, Extends-trans, logged-Extends, posted-Extends,
}
use cashflow_backend.Repository.YearClose.Exact.{IsFixedPoint}
use cashflow_backend.Repository.Reconciliation.Realized.{
  realized_lines, check_realized, post_realized_move,
}
use cashflow_backend.Repository.Reconciliation.{
  Allocation, Totals, raise, allocate, check_allocations,
}
use cashflow_backend.Repository.Reconciliation.Commit.{
  settle, write_reconciliation, with_reconciliation, no_totals, reconcile_move_lines,
}

-- What decimal.Decimal.Round(4) is documented to do, beside NUMERIC(28, 4).
pub record IsRounding (env : Env) : Type 0 where
  pub fixed : IsFixedPoint env
  pub round_kept : (a : Decimal) → env.numeric (env.round4 a) ≡ env.round4 a
  pub round_nonneg : (a : Decimal) → pos 0 ≤ℤ a → pos 0 ≤ℤ env.round4 a

-- A change of the reconciled amounts alone.
lines_of-update :
    (f : LineRow → LineRow)
    → ((r : LineRow) → (f r).line ≡ r.line)
    → (p : LineRow → Bool) (id : Uuid) (rs : List LineRow)
    → lines_of id (update_where p f rs) ≡ lines_of id rs
unfolding lines_of update_where
lines_of-update f k p id [] = refl
lines_of-update f k p id (r ∷ rs) = elim (Bool-cases (p r)) [
  | inl y ↦ rw (y, k r, lines_of-update f k p id rs) refl
  | inr n ↦ rw (n, lines_of-update f k p id rs) refl
]

amounts_update :
    (env : Env) (f : LineRow → LineRow)
    → ((r : LineRow) → (f r).line ≡ r.line)
    → (p : LineRow → Bool) (rs : List LineRow) → All (λ (r : LineRow). IsExact env r.line) rs
    → All (λ (r : LineRow). IsExact env r.line) (update_where p f rs)
unfolding update_where
amounts_update env f k p [] h = tt
amounts_update env f k p (r ∷ rs) h = elim (Bool-cases (p r)) [
  | inl y ↦ rw y (subst (IsExact env) (sym (k r)) h.0, amounts_update env f k p rs h.1)
  | inr n ↦ rw n (h.0, amounts_update env f k p rs h.1)
]

pub update-Extends :
    (env : Env) (f : LineRow → LineRow)
    → ((r : LineRow) → (f r).line ≡ r.line)
    → (p : LineRow → Bool) (is : List ReconciliationItem) (db : Db)
    → Extends env db (record db { lines = update_where p f db.lines; items = is })
update-Extends env f k p is db = record {
  years = refl;
  sound = λ s. record {
    balance = λ id row g nd.
        subst IsBalanced (sym (lines_of-update f k p id db.lines)) (s.balance id row g nd);
    linked = λ id g. lines_of-update f k p id db.lines ∙ s.linked id g;
    amounts = amounts_update env f k p db.lines s.amounts;
    chain = verify_of_same env db _ refl s.chain;
  };
  kept = λ id row g nd. (g, lines_of-update f k p id db.lines);
}

-- The tables that the invariant does not read.
pub others-Extends :
    (env : Env) (rs : List Reconciliation) (is : List ReconciliationItem) (db : Db)
    → Extends env db (record db { reconciliations = rs; items = is })
others-Extends env rs is db = record {
  years = refl;
  sound = λ s. record {
    balance = s.balance;
    linked = s.linked;
    amounts = s.amounts;
    chain = verify_of_same env db _ refl s.chain;
  };
  kept = λ id row g nd. (g, refl);
}

allocate-Extends :
    (env : Env) (id : Uuid) (currency : Text) (als : List Allocation) (db : Db) {db' : Db}
    → allocate env id currency als db ≡ ok db'
    → Extends env db db'
unfolding allocate
allocate-Extends env id currency [] db e =
    subst (Extends env db) (ok-injective e) (Extends-refl env db)
allocate-Extends env id currency (al ∷ als) db e =
    let (_, e1) = guard-eq-ok (is_positive (env.numeric al.amount)) constraint_violation _ e in
    let (_, e2) =
      fail_if-eq-ok
        (exists
          (λ (i : ReconciliationItem).
            i.reconciliation_id == id && i.move_line_id == al.move_line_id)
          db.items)
        constraint_violation _ e1 in
    Extends-trans
      (update-Extends env (raise env al.amount) (λ r. refl) (λ r. r.id == al.move_line_id) _ db)
      (allocate-Extends env id currency als _ e2)

module _ (env : Env) (w : IsRounding env) (now : Time) (move_id : Uuid) (date : Date)
    (account : Uuid) (c : AccountingConfiguration) (a : Decimal)
    (n : is_zero (env.round4 (abs a)) ≡ false) where
  nonneg : pos 0 ≤ℤ env.round4 (abs a)
  nonneg = w.round_nonneg (abs a) (ground (arith, abs_nonneg a))

  realized-IsExact :
      (up : Bool)
      → All (IsExact env) (realized_lines env now move_id date account c up (env.round4 (abs a)))
  realized-IsExact true = (
    record { debit = w.fixed.zero_kept; credit = w.round_kept (abs a) },
    (record { debit = w.round_kept (abs a); credit = w.fixed.zero_kept }, tt),
  )
  realized-IsExact false = (
    record { debit = w.round_kept (abs a); credit = w.fixed.zero_kept },
    (record { debit = w.fixed.zero_kept; credit = w.round_kept (abs a) }, tt),
  )

  realized-IsBalanced :
      (up : Bool)
      → IsBalanced (realized_lines env now move_id date account c up (env.round4 (abs a)))
  unfolding debits credits
  realized-IsBalanced true = record {
    enough = omega arith;
    entries = (
      ground (arith, n, nonneg, +ℤ_parts (pos 0) (env.round4 (abs a))),
      (ground (arith, n, nonneg, +ℤ_parts (env.round4 (abs a)) (pos 0)), tt),
    );
    equal = omega int_laws;
  }
  realized-IsBalanced false = record {
    enough = omega arith;
    entries = (
      ground (arith, n, nonneg, +ℤ_parts (env.round4 (abs a)) (pos 0)),
      (ground (arith, n, nonneg, +ℤ_parts (pos 0) (env.round4 (abs a))), tt),
    );
    equal = omega int_laws;
  }

post_realized_move-Extends :
    (env : Env) (now : Time) (account : Uuid) (realized : Decimal) (date : Date) (actor id : Uuid)
    (c : AccountingConfiguration) (db : Db) {r : Uuid × Db}
    → IsRounding env
    → post_realized_move env now account realized date actor id c db ≡ ok r
    → Extends env db r.1
unfolding post_realized_move
post_realized_move-Extends env now account realized date actor id c db w e =
    let (period, _, e1) = >>=-eq-ok (check_realized date c db) _ e in
    let (n, e2) =
      fail_if-eq-ok (is_zero (env.round4 (abs realized))) adjustment_rounds_to_zero _ e1 in
    let ((name, db1), f, e3) = >>=-eq-ok (next_sequence c.fx_reconciliation_journal_id db) _ e2 in
    let (db2, g, e4) = >>=-eq-ok (insert_posted env now _ _ _ db1) _ e3 in
    let up = is_positive realized in
    let move_id = env.new_uuid 1 in
    subst (Extends env db) (sym (ok-eq_1 e4)) (
      posted-Extends w.fixed.numeric (next_sequence_inv c.fx_reconciliation_journal_id db f)
        (insert_posted_inv env now _ _ _ db1 g)
        (λ s. (
          realized-IsExact env w now move_id date account c realized n up,
          realized-IsBalanced env w now move_id date account c realized n up,
        )))

settle-Extends :
    (env : Env) (now : Time) (first : LineRow) (realized : Decimal) (date : Date) (actor id : Uuid)
    (db : Db) {r : Option Uuid × Db}
    → IsRounding env
    → settle env now first realized date actor id db ≡ ok r
    → Extends env db r.1
unfolding settle
settle-Extends env now first realized date actor id db {r} w e =
    elim (Bool-cases (is_zero realized)) [
      | inl z ↦
          subst (Extends env db) (sym (ok-eq_1 (sym (if_true _ _ z) ∙ e))) (Extends-refl env db)
      | inr n ↦
          let (c, _, f) =
            or_err-eq-ok (find (λ (c : AccountingConfiguration). true) db.configurations)
              accounting_configuration_missing _ (sym (if_false _ _ n) ∙ e) in
          let (r0, h, g) =
            >>=-eq-ok (post_realized_move env now first.account_id realized date actor id c db) _
              f in
          subst (Extends env db) (sym (ok-eq_1 g)) (
            Extends-trans
              (post_realized_move-Extends env now first.account_id realized date actor id c db w h)
              (others-Extends env _ _ (r0.1)))
    ]

write_reconciliation-Extends :
    (env : Env) (now : Time) (date : Date) (actor : Uuid) (first : LineRow) (t : Totals)
    (als : List Allocation) (db : Db) {r : Uuid × Db}
    → IsRounding env
    → write_reconciliation env now date actor first t als db ≡ ok r
    → Extends env db r.1
unfolding write_reconciliation
write_reconciliation-Extends env now date actor first t als db w e =
    let id = env.new_uuid 0 in
    let (db1, f, e1) =
      >>=-eq-ok (allocate env id first.currency_id als (with_reconciliation id date first actor db))
        _ e in
    let ((move_id, db2), g, e2) =
      >>=-eq-ok (settle env now first (t.debit_functional -ℤ t.credit_functional) date actor id db1)
        _ e1 in
    subst (Extends env db) (sym (ok-eq_1 e2)) (
      Extends-trans (others-Extends env _ _ db) (
        Extends-trans (allocate-Extends env id first.currency_id als _ f) (
          Extends-trans
            (settle-Extends env now first (t.debit_functional -ℤ t.credit_functional) date actor id
              db1 w g)
            (logged-Extends env now _ db2))))

-- A reconciliation keeps sound books sound, if rounding to four decimals gives amounts that the
-- columns hold: the entry of a realized exchange difference is balanced in the table, the audit chain
-- is intact, and every entry that was posted before has the same columns and the same lines.
pub reconcile_move_lines-IsSound :
    (env : Env) (now : Time) (date : Date) (actor account : Uuid) (currency : Text)
    (als : List Allocation) (db : Db) {r : Uuid × Db}
    → IsRounding env
    → IsSound env db
    → reconcile_move_lines env now date actor account currency als db ≡ ok r
    → IsSound env r.1 × KeepsPosted db r.1
unfolding reconcile_move_lines
reconcile_move_lines-IsSound env now date actor account currency als db w s e =
    let (_, e1) = fail_if-eq-ok (actor == uuid_nil || ltb (length als) 2) required _ e in
    let ((first, t), _, e2) =
      >>=-eq-ok (check_allocations env date account currency none [] no_totals als db) _ e1 in
    let (_, e3) = guard-eq-ok (eqb_ℤ t.debit_foreign t.credit_foreign) unequal_allocations _ e2 in
    let (_, e4) = fail_if-eq-ok (is_zero t.debit_foreign) required _ e3 in
    let (line, _, e5) = or_err-eq-ok first line_not_found _ e4 in
    let x = write_reconciliation-Extends env now date actor line t als db w e5 in
    (x.sound s, x.kept)
