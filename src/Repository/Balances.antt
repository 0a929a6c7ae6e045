-- ===== src/Repository/Balances.antt =====
-- The balance of an account by the lines in posted entries, and what an entry adds to it.
use mathlib.Core.List.{append-nil}
use cashflow_backend.Base.{
  not_both, ℕ, ◌+◌, ◌≡◌, refl, sym, ap, ◌∙◌, true, false, ◌&&◌, none, List, [], ◌∷◌, ◌++◌, map,
  arith, ◌==◌, All, is_some, Bool-cases, Option-cases, inl, inr, if◌then◌else◌, find, select,
  select-append, leb,
}
use cashflow_backend.Base.Int.{pos, ◌+ℤ◌, ◌-ℤ◌, zero-+ℤ, +ℤ_assoc}
use cashflow_backend.Domain.{
  Uuid, Date, Time, Decimal, AccountMoveLine, MoveHeader, FinancialAuditLog, is_posted,
}
use cashflow_backend.Repository.Tables.{Env, LineRow, Db}
use cashflow_backend.Repository.Rows.{find_move, lines_of, line_row, complete_lines}
use cashflow_backend.Repository.Rows.Find.{find-append_some}
use cashflow_backend.Repository.Rows.Lines.{IsExact}
use cashflow_backend.Repository.Invariant.{NoOrphans}
use cashflow_backend.Repository.Posted.{Inserted, found_there}
use cashflow_backend.Repository.YearClose.Lines.{net_of, joins, counted, account_rows}

-- Debits less credits of the lines of one account.
unfoldable pub lines_net : Uuid → List AccountMoveLine → Decimal
lines_net j [] = pos 0
lines_net j (l ∷ ls) = (if l.account_id == j then l.debit -ℤ l.credit else pos 0) +ℤ lines_net j ls

pub net_of-append : (xs ys : List LineRow) → net_of (xs ++ ys) ≡ net_of xs +ℤ net_of ys
unfolding net_of
net_of-append [] ys = sym (zero-+ℤ (net_of ys))
net_of-append (x ∷ xs) ys =
    ap (λ s. (x.debit -ℤ x.credit) +ℤ s) (net_of-append xs ys)
    ∙ sym (+ℤ_assoc _ (net_of xs) (net_of ys))

head_lines : (r : LineRow) (rs : List LineRow) → lines_of r.move_id (r ∷ rs) ≡ [] → ⊥
unfolding lines_of
head_lines r rs e = ground (arith, e)

tail_lines :
    (id : Uuid) (r : LineRow) (rs : List LineRow) → lines_of id (r ∷ rs) ≡ [] → lines_of id rs ≡ []
unfolding lines_of
tail_lines id r rs e = ground (arith, e)

-- Every line of the table joins a move.
pub linked_rows :
    (db : Db) (rs : List LineRow)
    → ((id : Uuid) → find_move id db ≡ none → lines_of id rs ≡ [])
    → All (λ (r : LineRow). is_some (find_move r.move_id db) ≡ true) rs
linked_rows db [] h = tt
linked_rows db (r ∷ rs) h = (
  elim (Option-cases (find_move r.move_id db)) [
    | inl e ↦ absurd (head_lines r rs (h r.move_id e))
    | inr (m, e) ↦ ap is_some e
  ],
  linked_rows db rs (λ id e. tail_lines id r rs (h id e)),
)

module _ {env : Env} {now : Time} {h : MoveHeader} {lines : List AccountMoveLine}
    {audit : FinancialAuditLog} {db db' : Db} (p : Inserted env now h lines audit db db')
    (as_of : Date) (j : Uuid) where
  same_join :
      (r : LineRow)
      → is_some (find_move r.move_id db) ≡ true
      → counted as_of j db' r ≡ counted as_of j db r
  same_join r e = elim (Option-cases (find_move r.move_id db)) [
    | inl n ↦ absurd (not_both e (ap is_some n))
    | inr (m, f) ↦
        ap (λ o. r.account_id == j && joins as_of o)
          (ap (find (λ x. x.id == r.move_id)) p.moves
            ∙ find-append_some (λ x. x.id == r.move_id) db.moves _ f
            ∙ sym f)
  ]

  old_rows :
      (rs : List LineRow)
      → All (λ (r : LineRow). is_some (find_move r.move_id db) ≡ true) rs
      → select (counted as_of j db') rs ≡ select (counted as_of j db) rs
  unfolding select
  old_rows [] a = refl
  old_rows (r ∷ rs) a = rw (same_join r a.0, old_rows rs a.1)

  new_rows :
      (k : ℕ) (ls : List AccountMoveLine)
      → All (IsExact env) ls
      → is_posted h.state ≡ true
      → leb h.date as_of ≡ true
      → net_of (
          select
            (counted as_of j db')
            (map (line_row env) (complete_lines env now h.id h.date k ls)))
        ≡ lines_net j ls
  unfolding select net_of line_row complete_lines lines_net
  new_rows k [] x s d = refl
  new_rows k (l ∷ ls) x s d = elim (Bool-cases (l.account_id == j)) [
    | inl y ↦
        rw (y, found_there p, s, d)
          (rw (x.0.debit, x.0.credit)
            (ap (λ t. (l.debit -ℤ l.credit) +ℤ t) (new_rows (k + 1) ls x.1 s d)))
    | inr n ↦ rw n (new_rows (k + 1) ls x.1 s d ∙ sym (zero-+ℤ _))
  ]

  later_rows :
      (k : ℕ) (ls : List AccountMoveLine)
      → leb h.date as_of ≡ false
      → select (counted as_of j db') (map (line_row env) (complete_lines env now h.id h.date k ls))
        ≡ []
  unfolding select line_row complete_lines
  later_rows k [] d = refl
  later_rows k (l ∷ ls) d =
      let uncounted : (l.account_id == j && joins as_of (find_move h.id db')) ≡ false =
        rw (found_there p) (ground (arith, d)) in
      rw uncounted (later_rows (k + 1) ls d)

  all_rows :
      NoOrphans db
      → account_rows as_of j db'
        ≡ account_rows as_of j db
          ++ select
              (counted as_of j db')
              (map (line_row env) (complete_lines env now h.id h.date 1 lines))
  unfolding account_rows
  all_rows linked =
      ap (select (counted as_of j db')) p.rows
      ∙ select-append (counted as_of j db') db.lines _
      ∙ ap
          (λ rs.
            rs
            ++ select (counted as_of j db')
                (map (line_row env) (complete_lines env now h.id h.date 1 lines)))
          (old_rows db.lines (linked_rows db db.lines linked))

  -- A posted entry up to the date adds its lines to the balance of an account.
  pub inserted_balance :
      NoOrphans db
      → All (IsExact env) lines
      → is_posted h.state ≡ true
      → leb h.date as_of ≡ true
      → net_of (account_rows as_of j db') ≡ net_of (account_rows as_of j db) +ℤ lines_net j lines
  inserted_balance linked x s d =
      ap net_of (all_rows linked)
      ∙ net_of-append (account_rows as_of j db) _
      ∙ ap (λ t. net_of (account_rows as_of j db) +ℤ t) (new_rows 1 lines x s d)

  -- A later entry adds nothing.
  pub later_balance :
      NoOrphans db
      → leb h.date as_of ≡ false
      → net_of (account_rows as_of j db') ≡ net_of (account_rows as_of j db)
  later_balance linked d = ap net_of (
      all_rows linked
      ∙ ap (λ t. account_rows as_of j db ++ t) (later_rows 1 lines d)
      ∙ append-nil (account_rows as_of j db))
