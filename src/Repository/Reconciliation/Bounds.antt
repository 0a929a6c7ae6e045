-- ===== src/Repository/Reconciliation/Bounds.antt =====
-- Allocations stay within the amounts of the lines.
use cashflow_backend.Base.{
  ◌≡◌, sym, ap, ◌∙◌, Bool, true, false, not, ◌&&◌, Option, some, List, [], ◌∷◌, Text, ◌==◌, arith,
  All, ltb, find, exists, ok, guard-eq-ok, fail_if-eq-ok, >>=-eq-ok, or_err-eq-ok, ok-injective,
}
use cashflow_backend.Base.Int.{pos, ◌-ℤ◌, ltb_ℤ, ◌≤ℤ◌}
use cashflow_backend.Domain.{
  Uuid, uuid_nil, Date, Account, is_posted, required, duplicate_allocation,
  account_not_reconcilable, date_precedes_line, mixed_allocations, allocation_exceeds_residual,
  line_not_found,
}
use cashflow_backend.Domain.Balance.{is_positive}
use cashflow_backend.Repository.Tables.{Env, MoveRow, LineRow, Db}
use cashflow_backend.Repository.Rows.{find_move}
use cashflow_backend.Repository.Reconciliation.{
  Allocation, Totals, capacity, lock_line, differs, check_allocation, check_allocations,
  add_allocation, or_first,
}

-- What is reconciled of a line is not negative, not more than its amount, and one the column holds.
pub record IsWithin (env : Env) (r : LineRow) : Type 0 where
  pub nonneg : pos 0 ≤ℤ r.reconciled_amount
  pub bounded : r.reconciled_amount ≤ℤ capacity r
  pub kept : env.numeric r.reconciled_amount ≡ r.reconciled_amount

-- The primary key of the lines.
abbrev pub HasLineKeys : List LineRow → Type 0
HasLineKeys rs = All (λ (r : LineRow). find (λ (x : LineRow). x.id == r.id) rs ≡ some r) rs

-- The line is there, and what is left of it covers the allocation.
pub record Located (rs : List LineRow) (al : Allocation) : Type 0 where
  pub row : LineRow
  pub found : find (λ (x : LineRow). x.id == al.move_line_id) rs ≡ some row
  pub positive : is_positive al.amount ≡ true
  pub covered : ltb_ℤ (capacity row -ℤ row.reconciled_amount) al.amount ≡ false

abbrev pub Distinct : List Allocation → Type 0
Distinct [] = Unit
Distinct (al ∷ als) =
    All (λ (b : Allocation). (al.move_line_id == b.move_line_id) ≡ false) als × Distinct als

second_of : (a b : Bool) → (a && b) ≡ true → b ≡ true
second_of a b e = ground (arith, e)

check_allocation_inv :
    (date : Date) (account : Uuid) (currency : Text) (first : Option LineRow) (seen : List Uuid)
    (al : Allocation) (db : Db) {r : LineRow}
    → check_allocation date account currency first seen al db ≡ ok r
    → (exists (λ id. id == al.move_line_id) seen ≡ false) × Located db.lines al
unfolding check_allocation lock_line
check_allocation_inv date account currency first seen al db e =
    let (p, e1) =
      guard-eq-ok (not (al.move_line_id == uuid_nil) && is_positive al.amount) required _ e in
    let (u, e2) =
      fail_if-eq-ok (exists (λ id. id == al.move_line_id) seen) duplicate_allocation _ e1 in
    let ((r, (a, m)), l, e3) = >>=-eq-ok (lock_line al.move_line_id db) _ e2 in
    let (_, e4) =
      guard-eq-ok (is_posted m.state && a.is_active && a.is_reconcilable) account_not_reconcilable _
        e3 in
    let (_, e5) = fail_if-eq-ok (ltb date r.date) date_precedes_line _ e4 in
    let (_, e6) = fail_if-eq-ok _ mixed_allocations _ e5 in
    let (_, e7) = fail_if-eq-ok _ mixed_allocations _ e6 in
    let (_, e8) = fail_if-eq-ok (differs first r) mixed_allocations _ e7 in
    let (c, e9) =
      fail_if-eq-ok (ltb_ℤ (capacity r -ℤ r.reconciled_amount) al.amount)
        allocation_exceeds_residual _ e8 in
    let (r', f, l1) =
      or_err-eq-ok (find (λ (r : LineRow). r.id == al.move_line_id) db.lines) line_not_found _ l in
    let (a', _, l2) =
      or_err-eq-ok (find (λ (a : Account). a.id == r'.account_id) db.accounts) line_not_found _
        l1 in
    let (m', _, l3) = or_err-eq-ok (find_move r'.move_id db) line_not_found _ l2 in
    let same : r' ≡ r = ap (λ (t : LineRow × (Account × MoveRow)). t.0) (ok-injective l3) in
    (u, record { row = r; found = f ∙ ap some same; positive = second_of _ _ p; covered = c })

not_seen :
    (id : Uuid) (seen : List Uuid) (als : List Allocation)
    → All (λ (b : Allocation). exists (λ i. i == b.move_line_id) (id ∷ seen) ≡ false) als
    → All (λ (b : Allocation). exists (λ i. i == b.move_line_id) seen ≡ false) als
      × All (λ (b : Allocation). (id == b.move_line_id) ≡ false) als
unfolding exists
not_seen id seen [] h = (tt, tt)
not_seen id seen (b ∷ als) h =
    let (x, y) = not_seen id seen als h.1 in ((ground (arith, h.0), x), (ground (arith, h.0), y))

pub record Checked (seen : List Uuid) (rs : List LineRow) (als : List Allocation) : Type 0 where
  pub unseen : All (λ (b : Allocation). exists (λ i. i == b.move_line_id) seen ≡ false) als
  pub distinct : Distinct als
  pub located : All (Located rs) als

pub check_allocations_inv :
    (env : Env) (date : Date) (account : Uuid) (currency : Text) (first : Option LineRow)
    (seen : List Uuid) (t : Totals) (als : List Allocation) (db : Db) {r : Option LineRow × Totals}
    → check_allocations env date account currency first seen t als db ≡ ok r
    → Checked seen db.lines als
unfolding check_allocations
check_allocations_inv env date account currency first seen t [] db e = record {
  unseen = tt;
  distinct = tt;
  located = tt;
}
check_allocations_inv env date account currency first seen t (al ∷ als) db e =
    let (r, f, e1) = >>=-eq-ok (check_allocation date account currency first seen al db) _ e in
    let (u, l) = check_allocation_inv date account currency first seen al db f in
    let c =
      check_allocations_inv env date account currency (some (or_first first r))
        (al.move_line_id ∷ seen) (add_allocation env al.amount r t) als db e1 in
    let (x, y) = not_seen al.move_line_id seen als c.unseen in
    record { unseen = (u, x); distinct = (y, c.distinct); located = (l, c.located) }

-- Every row with the id of the allocation has room for it.
abbrev pub Fits : Allocation → LineRow → Type 0
Fits al r =
    (r.id == al.move_line_id) ≡ true
    → (is_positive al.amount ≡ true) × (ltb_ℤ (capacity r -ℤ r.reconciled_amount) al.amount ≡ false)

pub fits :
    (rs front : List LineRow) (al : Allocation)
    → Located rs al
    → All (λ (r : LineRow). find (λ (x : LineRow). x.id == r.id) rs ≡ some r) front
    → All (Fits al) front
fits rs [] al l k = tt
fits rs (r ∷ front) al l k = (
  (λ y.
      let same : r.id ≡ al.move_line_id = ground (arith, y) in
      let own : l.row ≡ r =
        some_row (sym l.found ∙ ap (λ i. find (λ (x : LineRow). x.id == i) rs) (sym same) ∙ k.0) in
      (
        l.positive,
        ap (λ (x : LineRow). ltb_ℤ (capacity x -ℤ x.reconciled_amount) al.amount) (sym own)
            ∙ l.covered,
      )),
  fits rs front al l k.1,
)
  where
    some_row : {x y : LineRow} → ◌≡◌ {A = Option LineRow} (some x) (some y) → x ≡ y
    some_row e = cc
