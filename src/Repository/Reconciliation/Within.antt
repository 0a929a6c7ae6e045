-- ===== src/Repository/Reconciliation/Within.antt =====
-- ReconcileMoveLines keeps what is reconciled of each line within the amount of the line.
use cashflow_backend.Base.{
  ◌≡◌, sym, ap, subst, ◌∙◌, Bool, true, false, ◌&&◌, ◌||◌, Option, none, List, [], ◌∷◌, map, Text,
  ◌==◌, arith, All, All-append, ltb, length, Bool-cases, inl, inr, if◌then◌else◌, if_true, if_false,
  find, exists, update_where, ok, guard-eq-ok, fail_if-eq-ok, >>=-eq-ok, or_err-eq-ok, ok-injective,
  ok-eq_1,
}
use cashflow_backend.Base.Int.{
  pos, ◌+ℤ◌, ◌-ℤ◌, abs, eqb_ℤ, ltb_ℤ, ◌≤ℤ◌, +ℤ_parts, -ℤ_parts, abs_nonneg,
}
use cashflow_backend.Domain.{
  Uuid, uuid_nil, Date, Time, Decimal, AccountingConfiguration, AccountMoveLine, required,
  constraint_violation, adjustment_rounds_to_zero, accounting_configuration_missing,
  unequal_allocations, line_not_found,
}
use cashflow_backend.Domain.Balance.{is_zero, is_positive}
use cashflow_backend.Repository.Tables.{Env, LineRow, ReconciliationItem, Db}
use cashflow_backend.Repository.Rows.{line_row, next_sequence}
use cashflow_backend.Repository.Rows.Sequence.{next_sequence_inv}
use cashflow_backend.Repository.Audit.{insert_audit_log}
use cashflow_backend.Repository.Posted.{insert_posted, insert_posted_inv}
use cashflow_backend.Repository.YearClose.Exact.{IsFixedPoint}
use cashflow_backend.Repository.Reconciliation.Realized.{check_realized, post_realized_move}
use cashflow_backend.Repository.Reconciliation.{
  Allocation, Totals, capacity, functional_net, currency_net, raise, allocate, check_allocations,
}
use cashflow_backend.Repository.Reconciliation.Commit.{
  settle, write_reconciliation, with_reconciliation, no_totals, reconcile_move_lines,
}
use cashflow_backend.Repository.Reconciliation.Bounds.{
  IsWithin, HasLineKeys, Located, Distinct, Fits, fits, check_allocations_inv,
}

room :
    (c r a : Decimal)
    → pos 0 ≤ℤ r
    → is_positive a ≡ true
    → ltb_ℤ (c -ℤ r) a ≡ false
    → (pos 0 ≤ℤ (r +ℤ a)) × ((r +ℤ a) ≤ℤ c)
room c r a n p k =
    (ground (arith, n, p, +ℤ_parts r a), ground (arith, n, p, k, +ℤ_parts r a, -ℤ_parts c r))

abs_low : (a : Decimal) → pos 0 ≤ℤ abs a
abs_low a = ground (arith, abs_nonneg a)

either_low : (b : Bool) (x y : Decimal) → pos 0 ≤ℤ x → pos 0 ≤ℤ y → pos 0 ≤ℤ (if b then x else y)
either_low true x y h k = h
either_low false x y h k = k

nonneg_capacity : (r : LineRow) → pos 0 ≤ℤ capacity r
nonneg_capacity r =
    either_low (is_zero (abs (currency_net r))) _ _ (abs_low (functional_net r))
      (abs_low (currency_net r))

module _ (env : Env) (w : IsFixedPoint env) where
  raised :
      (al : Allocation) (r : LineRow)
      → env.numeric al.amount ≡ al.amount
      → IsWithin env r
      → is_positive al.amount ≡ true
      → ltb_ℤ (capacity r -ℤ r.reconciled_amount) al.amount ≡ false
      → IsWithin env (raise env al.amount r)
  raised al r k h p c =
      let (low, high) = room (capacity r) r.reconciled_amount al.amount h.nonneg p c in
      let sum = w.sum_kept r.reconciled_amount al.amount h.kept k in
      record {
        nonneg = subst (λ x. pos 0 ≤ℤ x) (sym sum) low;
        bounded = subst (λ x. x ≤ℤ capacity r) (sym sum) high;
        kept = ap env.numeric sum;
      }

  raised_rows :
      (al : Allocation) (rs : List LineRow)
      → env.numeric al.amount ≡ al.amount
      → All (IsWithin env) rs
      → All (Fits al) rs
      → All (IsWithin env) (update_where (λ r. r.id == al.move_line_id) (raise env al.amount) rs)
  unfolding update_where
  raised_rows al [] k h f = tt
  raised_rows al (r ∷ rs) k h f = elim (Bool-cases (r.id == al.move_line_id)) [
    | inl y ↦ let (p, c) = f.0 y in rw y (raised al r k h.0 p c, raised_rows al rs k h.1 f.1)
    | inr n ↦ rw n (h.0, raised_rows al rs k h.1 f.1)
  ]

  -- The update for one allocation leaves the rows of the others alone.
  other-Fits :
      (al b : Allocation) (rs : List LineRow)
      → (al.move_line_id == b.move_line_id) ≡ false
      → All (Fits b) rs
      → All (Fits b) (update_where (λ r. r.id == al.move_line_id) (raise env al.amount) rs)
  unfolding update_where
  other-Fits al b [] d f = tt
  other-Fits al b (r ∷ rs) d f = elim (Bool-cases (r.id == al.move_line_id)) [
    | inl y ↦
        let clash : (r.id == b.move_line_id) ≡ true → ⊥ = λ z. ground (arith, y, z, d) in
        rw y ((λ z. absurd (clash z)), other-Fits al b rs d f.1)
    | inr n ↦ rw n (f.0, other-Fits al b rs d f.1)
  ]

  rest-Fits :
      (al : Allocation) (als : List Allocation) (rs : List LineRow)
      → All (λ (b : Allocation). (al.move_line_id == b.move_line_id) ≡ false) als
      → All (λ (b : Allocation). All (Fits b) rs) als
      → All
          (λ (b : Allocation).
            All (Fits b) (update_where (λ r. r.id == al.move_line_id) (raise env al.amount) rs))
          als
  rest-Fits al [] rs d f = tt
  rest-Fits al (b ∷ als) rs d f = (other-Fits al b rs d.0 f.0, rest-Fits al als rs d.1 f.1)

  allocate-IsWithin :
      (id : Uuid) (currency : Text) (als : List Allocation) (db : Db) {db' : Db}
      → All (λ (b : Allocation). env.numeric b.amount ≡ b.amount) als
      → Distinct als
      → All (λ (b : Allocation). All (Fits b) db.lines) als
      → All (IsWithin env) db.lines
      → allocate env id currency als db ≡ ok db'
      → All (IsWithin env) db'.lines
  unfolding allocate
  allocate-IsWithin id currency [] db k d f h e =
      subst (λ (x : Db). All (IsWithin env) x.lines) (ok-injective e) h
  allocate-IsWithin id currency (al ∷ als) db k d f h e =
      let (_, e1) = guard-eq-ok (is_positive (env.numeric al.amount)) constraint_violation _ e in
      let (_, e2) =
        fail_if-eq-ok
          (exists
            (λ (i : ReconciliationItem).
              i.reconciliation_id == id && i.move_line_id == al.move_line_id)
            db.items)
          constraint_violation _ e1 in
      allocate-IsWithin id currency als _ k.1 d.1 (rest-Fits al als db.lines d.0 f.1)
        (raised_rows al db.lines k.0 h f.0) e2

  every-Fits :
      (rs : List LineRow) (als : List Allocation)
      → HasLineKeys rs
      → All (Located rs) als
      → All (λ (b : Allocation). All (Fits b) rs) als
  every-Fits rs [] k l = tt
  every-Fits rs (al ∷ als) k l = (fits rs rs al l.0 k, every-Fits rs als k l.1)

  new-IsWithin : (ls : List AccountMoveLine) → All (IsWithin env) (map (line_row env) ls)
  unfolding line_row
  new-IsWithin [] = tt
  new-IsWithin (l ∷ ls) = (
    record { nonneg = omega arith; bounded = nonneg_capacity (line_row env l); kept = w.zero_kept },
    new-IsWithin ls,
  )

  settle-IsWithin :
      (now : Time) (first : LineRow) (realized : Decimal) (date : Date) (actor id : Uuid) (db : Db)
      {r : Option Uuid × Db}
      → All (IsWithin env) db.lines
      → settle env now first realized date actor id db ≡ ok r
      → All (IsWithin env) r.1.lines
  unfolding settle post_realized_move
  settle-IsWithin now first realized date actor id db {r} h e =
      elim (Bool-cases (is_zero realized)) [
        | inl z ↦
            subst (λ (x : Db). All (IsWithin env) x.lines) (sym (ok-eq_1 (sym (if_true _ _ z) ∙ e)))
              h
        | inr n ↦
            let (c, _, f) =
              or_err-eq-ok (find (λ (c : AccountingConfiguration). true) db.configurations)
                accounting_configuration_missing _ (sym (if_false _ _ n) ∙ e) in
            let (r0, k, g) =
              >>=-eq-ok (post_realized_move env now first.account_id realized date actor id c db) _
                f in
            let (period, _, e1) = >>=-eq-ok (check_realized date c db) _ k in
            let (_, e2) =
              fail_if-eq-ok (is_zero (env.round4 (abs realized))) adjustment_rounds_to_zero _ e1 in
            let ((name, db1), q, e3) =
              >>=-eq-ok (next_sequence c.fx_reconciliation_journal_id db) _ e2 in
            let (db2, i, e4) = >>=-eq-ok (insert_posted env now _ _ _ db1) _ e3 in
            let p = insert_posted_inv env now _ _ _ db1 i in
            let t = next_sequence_inv c.fx_reconciliation_journal_id db q in
            let before : All (IsWithin env) db1.lines =
              subst (All (IsWithin env)) (sym (ap (λ (d : Db). d.lines) t.bumped)) h in
            subst (λ (x : Db). All (IsWithin env) x.lines) (sym (ok-eq_1 g))
              (subst (λ (x : Db). All (IsWithin env) x.lines) (sym (ok-eq_1 e4))
                (subst (All (IsWithin env)) (sym p.rows)
                  (All-append (IsWithin env) db1.lines _ before (new-IsWithin _))))
      ]

  write_reconciliation-IsWithin :
      (now : Time) (date : Date) (actor : Uuid) (first : LineRow) (t : Totals)
      (als : List Allocation) (db : Db) {r : Uuid × Db}
      → All (λ (b : Allocation). env.numeric b.amount ≡ b.amount) als
      → Distinct als
      → All (λ (b : Allocation). All (Fits b) db.lines) als
      → All (IsWithin env) db.lines
      → write_reconciliation env now date actor first t als db ≡ ok r
      → All (IsWithin env) r.1.lines
  unfolding write_reconciliation insert_audit_log
  write_reconciliation-IsWithin now date actor first t als db k d f h e =
      let id = env.new_uuid 0 in
      let (db1, x, e1) =
        >>=-eq-ok
          (allocate env id first.currency_id als (with_reconciliation id date first actor db)) _
          e in
      let ((move_id, db2), y, e2) =
        >>=-eq-ok
          (settle env now first (t.debit_functional -ℤ t.credit_functional) date actor id db1) _
          e1 in
      subst (λ (x : Db). All (IsWithin env) x.lines) (sym (ok-eq_1 e2))
        (settle-IsWithin now first (t.debit_functional -ℤ t.credit_functional) date actor id db1
          (allocate-IsWithin id first.currency_id als _ k d f h x) y)

-- A reconciliation never takes more of a line than the line has: if line ids are unique and the amounts
-- are such as the columns hold, then what is reconciled of each line, which was not negative and not
-- above the amount of the line before, is so afterwards.
pub reconcile_move_lines-IsWithin :
    (env : Env) (now : Time) (date : Date) (actor account : Uuid) (currency : Text)
    (als : List Allocation) (db : Db) {r : Uuid × Db}
    → IsFixedPoint env
    → HasLineKeys db.lines
    → All (λ (b : Allocation). env.numeric b.amount ≡ b.amount) als
    → All (IsWithin env) db.lines
    → reconcile_move_lines env now date actor account currency als db ≡ ok r
    → All (IsWithin env) r.1.lines
unfolding reconcile_move_lines
reconcile_move_lines-IsWithin env now date actor account currency als db w keys k h e =
    let (_, e1) = fail_if-eq-ok (actor == uuid_nil || ltb (length als) 2) required _ e in
    let ((first, t), c, e2) =
      >>=-eq-ok (check_allocations env date account currency none [] no_totals als db) _ e1 in
    let (_, e3) = guard-eq-ok (eqb_ℤ t.debit_foreign t.credit_foreign) unequal_allocations _ e2 in
    let (_, e4) = fail_if-eq-ok (is_zero t.debit_foreign) required _ e3 in
    let (line, _, e5) = or_err-eq-ok first line_not_found _ e4 in
    let p = check_allocations_inv env date account currency none [] no_totals als db c in
    write_reconciliation-IsWithin env w now date actor line t als db k p.distinct
      (every-Fits env w db.lines als keys p.located) h e5
