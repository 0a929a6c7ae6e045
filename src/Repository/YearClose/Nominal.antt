-- ===== src/Repository/YearClose/Nominal.antt =====
-- The income and the expense accounts after CloseFiscalYear.
use cashflow_backend.Base.{
  ◌+◌, ◌≡◌, sym, ap, ◌∙◌, Bool, true, false, ◌&&◌, ◌||◌, Option, some, List, [], ◌∷◌, map, Text,
  ◌==◌, arith, All, ltb, leb, Bool-cases, inl, inr, find, length, if◌then◌else◌, ok, guard-eq-ok,
  fail_if-eq-ok, >>=-eq-ok, or_err-eq-ok, ok-injective, ok-eq_1, guard_inv,
}
use cashflow_backend.Base.Int.{pos, ◌+ℤ◌, +ℤ-zero, int_laws}
use cashflow_backend.Domain.{
  Uuid, uuid_nil, Date, Time, Decimal, FiscalYear, FiscalPeriod, Account, AccountType, Journal,
  AccountMoveLine, is_open, is_open_year, fiscal_year_not_found, fiscal_year_not_closable, required,
  journal_not_found, journal_inactive, account_not_found, retained_account_unfit,
}
use cashflow_backend.Repository.Tables.{Env, Db}
use cashflow_backend.Repository.Rows.Lines.{IsExact}
use cashflow_backend.Repository.Rows.Sequence.{TakesNumber}
use cashflow_backend.Repository.Audit.{insert_audit_log}
use cashflow_backend.Repository.Invariant.{IsSound}
use cashflow_backend.Repository.Extends.{numbered-IsSound}
use cashflow_backend.Repository.Keys.{HasKeys, some_inj}
use cashflow_backend.Repository.Balances.{lines_net, inserted_balance, later_balance}
use cashflow_backend.Repository.YearClose.{
  Closable, check_closable, fiscal_year_periods, check_sequence, has_draft_moves, find_successor,
  insert_if_any, insert_system_move, assigned, closing_ref, opening_ref,
}
use cashflow_backend.Repository.YearClose.Lines.{
  net_of, account_rows, is_nominal, is_equity, fiscal_closing_lines, fiscal_opening_lines,
}
use cashflow_backend.Repository.YearClose.Exact.{IsFixedPoint, fiscal_closing_lines-IsExact}
use cashflow_backend.Repository.YearClose.Sound.{
  SystemMove, insert_system_move_inv, insert_if_any-Extends, assigned-IsExact,
}
use cashflow_backend.Repository.YearClose.Zero.{assigned-net, fiscal_closing_lines-net}
use cashflow_backend.Repository.YearClose.Close.{
  YearCloseResult, mark_closed, write_close, close_year, validate_closing_setup, retained_account,
  configuration,
}

abbrev pub balance : Date → Uuid → Db → Decimal
balance as_of j db = net_of (account_rows as_of j db)

-- A journal's number does not matter to a balance.
numbered_balance :
    {journal_id : Uuid} {name : Text} {db db1 : Db} (as_of : Date) (j : Uuid)
    → TakesNumber journal_id db name db1
    → balance as_of j db1 ≡ balance as_of j db
unfolding account_rows
numbered_balance {db = db} as_of j t = ap (balance as_of j) t.bumped

module _ {env : Env} {now : Time} {id period_id journal_id : Uuid} {date : Date}
    {ls : List AccountMoveLine} {db db' : Db}
    (m : SystemMove env now id period_id journal_id date ls db db') (s : IsSound env db)
    (as_of : Date) (j : Uuid) where
  system_balance :
      All (IsExact env) ls
      → leb date as_of ≡ true
      → balance as_of j db' ≡ balance as_of j db +ℤ lines_net j ls
  system_balance x d =
      inserted_balance m.inserted as_of j (numbered-IsSound m.numbered s).linked
        (assigned-IsExact env id date now ls x) m.in_effect (ap (λ t. leb t as_of) m.same_date ∙ d)
      ∙ ap (λ t. t +ℤ lines_net j (map (assigned id date now) ls))
          (numbered_balance as_of j m.numbered)
      ∙ ap (λ t. balance as_of j db +ℤ t) (assigned-net j id date now ls)

  system_balance_later : leb date as_of ≡ false → balance as_of j db' ≡ balance as_of j db
  system_balance_later d =
      later_balance m.inserted as_of j (numbered-IsSound m.numbered s).linked
        (ap (λ t. leb t as_of) m.same_date ∙ d)
      ∙ numbered_balance as_of j m.numbered

module _ (env : Env) (now : Time) (id journal_id period_id : Uuid) (date : Date) (actor : Uuid)
    (ref : Text) (as_of : Date) (j : Uuid) where
  any_balance :
      (ls : List AccountMoveLine) (db : Db) {r : Option Uuid × Db}
      → IsSound env db
      → All (IsExact env) ls
      → leb date as_of ≡ true
      → insert_if_any env now id journal_id period_id date actor ref ls db ≡ ok r
      → balance as_of j r.1 ≡ balance as_of j db +ℤ lines_net j ls
  unfolding insert_if_any lines_net
  any_balance [] db s x d e = ap (balance as_of j) (ok-eq_1 e) ∙ sym (+ℤ-zero _)
  any_balance (l ∷ ls) db s x d e =
      let (db1, f, g) =
        >>=-eq-ok (insert_system_move env now id journal_id period_id date actor ref (l ∷ ls) db) _
          e in
      ap (balance as_of j) (ok-eq_1 g)
      ∙ system_balance
          (insert_system_move_inv env now id journal_id period_id date actor ref (l ∷ ls) db f) s
          as_of j x d

  any_balance_later :
      (ls : List AccountMoveLine) (db : Db) {r : Option Uuid × Db}
      → IsSound env db
      → leb date as_of ≡ false
      → insert_if_any env now id journal_id period_id date actor ref ls db ≡ ok r
      → balance as_of j r.1 ≡ balance as_of j db
  unfolding insert_if_any
  any_balance_later [] db s d e = ap (balance as_of j) (ok-eq_1 e)
  any_balance_later (l ∷ ls) db s d e =
      let (db1, f, g) =
        >>=-eq-ok (insert_system_move env now id journal_id period_id date actor ref (l ∷ ls) db) _
          e in
      ap (balance as_of j) (ok-eq_1 g)
      ∙ system_balance_later
          (insert_system_move_inv env now id journal_id period_id date actor ref (l ∷ ls) db f) s
          as_of j d

-- The account of retained earnings is no income or expense account.
nominal_no_equity : (t : AccountType) → is_nominal t ≡ true → is_equity t ≡ true → ⊥
nominal_no_equity t n e = ground (arith, n, e)

second_holds : (p q : Bool) → (p && q) ≡ true → q ≡ true
second_holds p q e = ground (arith, e)

apart :
    (db : Db) (retained j : Uuid) {a : Account} (journal_id : Uuid)
    → validate_closing_setup journal_id retained db ≡ ok tt
    → find (λ (b : Account). b.id == j) db.accounts ≡ some a
    → is_nominal a.account_type ≡ true
    → (retained == j) ≡ false
unfolding validate_closing_setup
apart db retained j {a} journal_id e f n = elim (Bool-cases (retained == j)) [
  | inr other ↦ other
  | inl same ↦
      let (jr, _, e1) =
        or_err-eq-ok (find (λ (b : Journal). b.id == journal_id) db.journals) journal_not_found _
          e in
      let (_, e2) = guard-eq-ok jr.is_active journal_inactive _ e1 in
      let (b, g, e3) =
        or_err-eq-ok (find (λ (b : Account). b.id == retained) db.accounts) account_not_found _
          e2 in
      let h = guard_inv (b.is_active && is_equity b.account_type) retained_account_unfit e3 in
      let eq : retained ≡ j = ground (arith, same) in
      let ab : a ≡ b =
        some_inj (sym f ∙ ap (λ i. find (λ (b : Account). b.id == i) db.accounts) (sym eq) ∙ g) in
      absurd (
        nominal_no_equity b.account_type
          (ap (λ (x : Account). is_nominal x.account_type) (sym ab) ∙ n) (second_holds _ _ h))
]

end_of :
    {x y : FiscalYear} → ◌≡◌ {A = Option FiscalYear} (some x) (some y) → x.end_date ≡ y.end_date
end_of e = cc

find_successor_inv :
    (y : FiscalYear) (last : FiscalPeriod) (db : Db) {c : Closable}
    → find_successor y last db ≡ ok c
    → (c.year ≡ y) × (leb c.successor.start_date c.year.end_date ≡ false)
unfolding find_successor
find_successor_inv y last db {c} e =
    let (next, _, e1) =
      or_err-eq-ok
        (find (λ (n : FiscalYear). n.year == (y.year + 1) && is_open_year n.state) db.years)
        fiscal_year_not_closable _ e in
    let (g, e2) =
      guard-eq-ok (ltb y.end_date next.start_date && next.start_date == (y.end_date + 1))
        fiscal_year_not_closable _ e1 in
    let (first, _, e3) =
      or_err-eq-ok
        (find
          (λ (q : FiscalPeriod).
            q.fiscal_year_id == next.id
            && q.period_number == 1
            && leb q.start_date next.start_date
            && leb next.start_date q.end_date
            && is_open q.state)
          db.periods)
        fiscal_year_not_closable _ e2 in
    let after : leb next.start_date y.end_date ≡ false = ground (arith, g) in
    let k = sym (ok-injective e3) in
    (
      ap (λ (c : Closable). c.year) k,
      ap (λ (c : Closable). leb c.successor.start_date c.year.end_date) k ∙ after,
    )

pub check_closable_year :
    (id : Uuid) (db : Db) {c : Closable}
    → check_closable id db ≡ ok c
    → (find (λ (y : FiscalYear). y.id == id) db.years ≡ some c.year)
      × (leb c.successor.start_date c.year.end_date ≡ false)
unfolding check_closable
check_closable_year id db {c} e =
    let (y, f, e1) =
      or_err-eq-ok (find (λ (y : FiscalYear). y.id == id) db.years) fiscal_year_not_found _ e in
    let periods = fiscal_year_periods id db in
    let (_, e2) = guard-eq-ok (is_open_year y.state) fiscal_year_not_closable _ e1 in
    let (_, e3) = guard-eq-ok (length periods == 12) fiscal_year_not_closable _ e2 in
    let (_, _, e4) = >>=-eq-ok (check_sequence 0 periods) _ e3 in
    let (last, _, e5) =
      or_err-eq-ok (find (λ (p : FiscalPeriod). p.period_number == 12) periods)
        fiscal_year_not_closable _ e4 in
    let (_, e6) = guard-eq-ok (last.end_date == y.end_date) fiscal_year_not_closable _ e5 in
    let (_, e7) = fail_if-eq-ok (has_draft_moves y db) fiscal_year_not_closable _ e6 in
    let (same, after) = find_successor_inv y last db e7 in (f ∙ ap some (sym same), after)

marked_balance :
    (env : Env) (now : Time) (id actor : Uuid) (result : YearCloseResult) (db : Db)
    {r : YearCloseResult × Db} (as_of : Date) (j : Uuid)
    → mark_closed env now id actor result db ≡ ok r
    → balance as_of j r.1 ≡ balance as_of j db
unfolding mark_closed insert_audit_log account_rows
marked_balance env now id actor result db as_of j e =
    let (_, e1) = guard-eq-ok _ fiscal_year_not_closable _ e in ap (balance as_of j) (ok-eq_1 e1)

+ℤ_swap : (a b : Decimal) → a +ℤ b ≡ b +ℤ a
+ℤ_swap a b = omega int_laws

write_close_balance :
    (env : Env) (now : Time) (id journal_id retained : Uuid) (currency : Text) (actor : Uuid)
    (c : Closable) (db : Db) {r : YearCloseResult × Db} (j : Uuid) {a : Account}
    → IsFixedPoint env
    → IsSound env db
    → HasKeys db.accounts
    → find (λ (b : Account). b.id == j) db.accounts ≡ some a
    → is_nominal a.account_type ≡ true
    → (retained == j) ≡ false
    → leb c.successor.start_date c.year.end_date ≡ false
    → write_close env now id journal_id retained currency actor c db ≡ ok r
    → balance c.year.end_date j r.1 ≡ pos 0
unfolding write_close
write_close_balance env now id journal_id retained currency actor c db j w s keys f y other after
      e =
    let end = c.year.end_date in
    let closing = fiscal_closing_lines env now end retained currency db in
    let n = length closing in
    let k = if n == 0 then 0 else n + 1 in
    let exact = fiscal_closing_lines-IsExact env w now end retained currency db s.amounts in
    let ((closing_id, db1), e1, f1) =
      >>=-eq-ok
        (insert_if_any env now (env.new_uuid n) journal_id c.closing_period.id end actor closing_ref
          closing db)
        _ e in
    let x1 =
      insert_if_any-Extends env now (env.new_uuid n) journal_id c.closing_period.id end actor
        closing_ref closing db w.numeric exact e1 in
    let (opening, e2, f2) = >>=-eq-ok (fiscal_opening_lines env now end currency k db1) _ f1 in
    let ((opening_id, db2), e3, f3) =
      >>=-eq-ok
        (insert_if_any env now (env.new_uuid (k + length opening)) journal_id c.opening_period.id
          c.successor.start_date actor opening_ref opening db1)
        _ f2 in
    marked_balance env now id actor _ db2 end j f3
    ∙ any_balance_later env now (env.new_uuid (k + length opening)) journal_id c.opening_period.id
        c.successor.start_date actor opening_ref end j opening db1 (x1.sound s) after e3
    ∙ any_balance env now (env.new_uuid n) journal_id c.closing_period.id end actor closing_ref end
        j closing db s exact (ground arith) e1
    ∙ +ℤ_swap (balance end j db) (lines_net j closing)
    ∙ fiscal_closing_lines-net env now end retained currency db j keys f y other

-- Closing a year of sound books does what it is for, if ids of accounts are unique and the columns
-- keep amounts of four decimals and their sums: every income and every expense account has afterwards
-- the balance zero, over the entries that are posted with a date up to the end of the year.
pub close_year-balance :
    (env : Env) (now : Time) (id journal_id retained_id actor : Uuid) (db : Db)
    {r : YearCloseResult × Db} (year : FiscalYear) (j : Uuid) {a : Account}
    → IsFixedPoint env
    → IsSound env db
    → HasKeys db.accounts
    → find (λ (y : FiscalYear). y.id == id) db.years ≡ some year
    → find (λ (b : Account). b.id == j) db.accounts ≡ some a
    → is_nominal a.account_type ≡ true
    → close_year env now id journal_id retained_id actor db ≡ ok r
    → balance year.end_date j r.1 ≡ pos 0
unfolding close_year
close_year-balance env now id journal_id retained_id actor db {r} year j w s keys found f y e =
    let (_, e1) =
      fail_if-eq-ok (id == uuid_nil || journal_id == uuid_nil || actor == uuid_nil) required _ e in
    let (c, h, e2) = >>=-eq-ok (check_closable id db) _ e1 in
    let (retained, _, e3) = >>=-eq-ok (retained_account retained_id db) _ e2 in
    let (_, v, e4) = >>=-eq-ok (validate_closing_setup journal_id retained db) _ e3 in
    let (configured, _, e5) = >>=-eq-ok (configuration db) _ e4 in
    let (g, after) = check_closable_year id db h in
    let same : year.end_date ≡ c.year.end_date = end_of (sym found ∙ g) in
    ap (λ d. balance d j r.1) same
    ∙ write_close_balance env now id journal_id retained configured.functional_currency actor c db j
        w s keys f y (apart db retained j journal_id v f y) after e5
