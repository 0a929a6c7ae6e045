-- ===== src/Repository/YearClose/Final.antt =====
-- CloseFiscalYear as a whole.
use cashflow_backend.Base.{
  not_both, ◌+◌, ◌≡◌, refl, sym, ap, subst, ◌∙◌, Bool, true, false, ◌&&◌, ◌||◌, Option, none, some,
  List, Text, ◌==◌, find, length, select, if◌then◌else◌, ok, guard-eq-ok, fail_if-eq-ok, >>=-eq-ok,
  or_err-eq-ok, ok-eq_1,
}
use cashflow_backend.Domain.{
  Uuid, uuid_nil, Time, FiscalYear, FinancialAuditLog, is_open_year, closed_year,
  fiscal_year_not_found, fiscal_year_not_closable, required,
}
use cashflow_backend.Repository.Tables.{Env, Db}
use cashflow_backend.Repository.Rows.Find.{find-update_where, find_sound}
use cashflow_backend.Repository.Audit.{insert_audit_log}
use cashflow_backend.Repository.Audit.Chain.{verify_of_same}
use cashflow_backend.Repository.Invariant.{IsSound, KeepsPosted}
use cashflow_backend.Repository.Extends.{Extends, Extends-trans, logged-Extends}
use cashflow_backend.Repository.YearClose.{
  insert_if_any, check_closable, Closable, closing_ref, opening_ref,
}
use cashflow_backend.Repository.YearClose.Lines.{fiscal_closing_lines, fiscal_opening_lines}
use cashflow_backend.Repository.YearClose.Exact.{
  IsFixedPoint, fiscal_closing_lines-IsExact, fiscal_opening_lines-IsExact,
}
use cashflow_backend.Repository.YearClose.Sound.{insert_if_any-Extends}
use cashflow_backend.Repository.YearClose.Close.{
  YearCloseResult, mark_closed, write_close, close_year, validate_closing_setup, retained_account,
  configuration,
}

abbrev pub find_year : Uuid → Db → Option FiscalYear
find_year id db = find (λ (y : FiscalYear). y.id == id) db.years

-- What a close leaves: the year, which was open, is closed.
pub record YearClosed (env : Env) (id : Uuid) (db db' : Db) : Type 0 where
  pub year : FiscalYear
  pub found : find_year id db ≡ some year
  pub was_open : is_open_year year.state ≡ true
  pub now_closed : find_year id db' ≡ some (record year { state = closed_year })
  pub sound : IsSound env db → IsSound env db'
  pub kept : KeepsPosted db db'

abbrev still_open : Option FiscalYear → Bool
still_open none = false
still_open (some y) = is_open_year y.state

closed_row :
    (id : Uuid) (y : FiscalYear)
    → (y.id == id) ≡ true
    → is_open_year y.state ≡ true
    → (if y.id == id && is_open_year y.state then record y { state = closed_year } else y)
      ≡ record y { state = closed_year }
closed_row id y a b = rw (a, b) refl

check_closable_inv :
    (id : Uuid) (db : Db) {c : Closable}
    → check_closable id db ≡ ok c
    → (y : FiscalYear) × (find_year id db ≡ some y) × (is_open_year y.state ≡ true)
unfolding check_closable
check_closable_inv id db e =
    let (y, f, e1) =
      or_err-eq-ok (find (λ (y : FiscalYear). y.id == id) db.years) fiscal_year_not_found _ e in
    let (g, _) = guard-eq-ok (is_open_year y.state) fiscal_year_not_closable _ e1 in (y, f, g)

closed-IsSound :
    (env : Env) (now : Time) (a : FinancialAuditLog) {db : Db} {ys : List FiscalYear}
    → IsSound env db
    → IsSound env (record (insert_audit_log env now (some a) db) { years = ys })
closed-IsSound env now a {db} {ys} s =
    let t = (logged-Extends env now a db).sound s in
    record {
      balance = t.balance;
      linked = t.linked;
      amounts = t.amounts;
      chain = verify_of_same env (insert_audit_log env now (some a) db) _ refl t.chain;
    }

mark_closed-YearClosed :
    (env : Env) (now : Time) (id actor : Uuid) (result : YearCloseResult) (db0 db : Db)
    {r : YearCloseResult × Db} (y : FiscalYear)
    → find_year id db0 ≡ some y
    → is_open_year y.state ≡ true
    → Extends env db0 db
    → mark_closed env now id actor result db ≡ ok r
    → YearClosed env id db0 r.1
unfolding mark_closed insert_audit_log
mark_closed-YearClosed env now id actor result db0 db y f o x e =
    let (_, e1) =
      guard-eq-ok
        (length (select (λ (y : FiscalYear). y.id == id && is_open_year y.state) db.years) == 1)
        fiscal_year_not_closable _ e in
    let k = sym (ok-eq_1 e1) in
    let there : find_year id db ≡ some y = ap (find (λ (y : FiscalYear). y.id == id)) x.years ∙ f in
    subst (YearClosed env id db0) k (record {
      year = y;
      found = f;
      was_open = o;
      now_closed =
          find-update_where (λ (y : FiscalYear). y.id == id)
            (λ y. y.id == id && is_open_year y.state) (λ y. record y { state = closed_year })
            db.years (λ z. refl) there
          ∙ ap some (closed_row id y (find_sound (λ (y : FiscalYear). y.id == id) db0.years f) o);
      sound = λ s. closed-IsSound env now _ (x.sound s);
      kept = x.kept;
    })

write_close-YearClosed :
    (env : Env) (now : Time) (id journal_id retained : Uuid) (currency : Text) (actor : Uuid)
    (c : Closable) (db : Db) {r : YearCloseResult × Db} (y : FiscalYear)
    → find_year id db ≡ some y
    → is_open_year y.state ≡ true
    → IsFixedPoint env
    → IsSound env db
    → write_close env now id journal_id retained currency actor c db ≡ ok r
    → YearClosed env id db r.1
unfolding write_close
write_close-YearClosed env now id journal_id retained currency actor c db y f o w s e =
    let closing = fiscal_closing_lines env now c.year.end_date retained currency db in
    let n = length closing in
    let k = if n == 0 then 0 else n + 1 in
    let ((closing_id, db1), e1, f1) =
      >>=-eq-ok
        (insert_if_any env now (env.new_uuid n) journal_id c.closing_period.id c.year.end_date actor
          closing_ref closing db)
        _ e in
    let x1 =
      insert_if_any-Extends env now (env.new_uuid n) journal_id c.closing_period.id c.year.end_date
        actor closing_ref closing db w.numeric
        (fiscal_closing_lines-IsExact env w now c.year.end_date retained currency db s.amounts)
        e1 in
    let (opening, e2, f2) =
      >>=-eq-ok (fiscal_opening_lines env now c.year.end_date currency k db1) _ f1 in
    let ((opening_id, db2), e3, f3) =
      >>=-eq-ok
        (insert_if_any env now (env.new_uuid (k + length opening)) journal_id c.opening_period.id
          c.successor.start_date actor opening_ref opening db1)
        _ f2 in
    let x2 =
      insert_if_any-Extends env now (env.new_uuid (k + length opening)) journal_id
        c.opening_period.id c.successor.start_date actor opening_ref opening db1 w.numeric
        (fiscal_opening_lines-IsExact env w now c.year.end_date currency k db1 (x1.sound s).amounts
          e2)
        e3 in
    mark_closed-YearClosed env now id actor _ db db2 y f o (Extends-trans x1 x2) f3

close_year_inv :
    (env : Env) (now : Time) (id journal_id retained_id actor : Uuid) (db : Db)
    {r : YearCloseResult × Db}
    → IsFixedPoint env
    → IsSound env db
    → close_year env now id journal_id retained_id actor db ≡ ok r
    → YearClosed env id db r.1
unfolding close_year
close_year_inv env now id journal_id retained_id actor db w s e =
    let (_, e1) =
      fail_if-eq-ok (id == uuid_nil || journal_id == uuid_nil || actor == uuid_nil) required _ e in
    let (c, f, e2) = >>=-eq-ok (check_closable id db) _ e1 in
    let (retained, _, e3) = >>=-eq-ok (retained_account retained_id db) _ e2 in
    let (_, _, e4) = >>=-eq-ok (validate_closing_setup journal_id retained db) _ e3 in
    let (configured, _, e5) = >>=-eq-ok (configuration db) _ e4 in
    let (y, g, o) = check_closable_inv id db f in
    write_close-YearClosed env now id journal_id retained configured.functional_currency actor c db
      y g o w s e5

-- Closing a fiscal year keeps sound books sound, if the columns keep amounts of four decimals and
-- their sums: the closing and the opening entry are balanced in the table, the audit chain is intact,
-- and every entry that was posted before has the same columns and the same lines.
pub close_year-IsSound :
    (env : Env) (now : Time) (id journal_id retained_id actor : Uuid) (db : Db)
    {r : YearCloseResult × Db}
    → IsFixedPoint env
    → IsSound env db
    → close_year env now id journal_id retained_id actor db ≡ ok r
    → IsSound env r.1 × KeepsPosted db r.1
close_year-IsSound env now id journal_id retained_id actor db w s e =
    let p = close_year_inv env now id journal_id retained_id actor db w s e in (p.sound s, p.kept)

-- A fiscal year of sound books is closed once: it is closed in the table afterwards, and no second
-- close of it succeeds, with whatever journal, account and user.
pub close_year-once :
    (env : Env) (now later : Time)
    (id journal_id retained_id actor journal_id' retained_id' actor' : Uuid) (db : Db)
    {r r' : YearCloseResult × Db}
    → IsFixedPoint env
    → IsSound env db
    → close_year env now id journal_id retained_id actor db ≡ ok r
    → ((y : FiscalYear) × (find_year id r.1 ≡ some y) × (y.state ≡ closed_year))
      × ¬ (close_year env later id journal_id' retained_id' actor' r.1 ≡ ok r')
close_year-once env now later id journal_id retained_id actor journal_id' retained_id' actor' db {r}
      w s e =
    let p = close_year_inv env now id journal_id retained_id actor db w s e in
    (
      (record p.year { state = closed_year }, p.now_closed, refl),
      λ e'.
          let q =
            close_year_inv env later id journal_id' retained_id' actor' r.1 w (p.sound s) e' in
          not_both (ap still_open q.found ∙ q.was_open) (ap still_open p.now_closed),
    )
