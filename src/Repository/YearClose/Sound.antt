-- ===== src/Repository/YearClose/Sound.antt =====
-- CloseFiscalYear under the invariant of the books.
use cashflow_backend.Base.{
  ◌≡◌, refl, sym, subst, true, Option, List, [], ◌∷◌, map, Text, All, ok, >>=-eq-ok, ok-eq_1,
}
use cashflow_backend.Domain.{
  Uuid, Date, Time, AccountMoveLine, MoveHeader, FinancialAuditLog, is_posted,
}
use cashflow_backend.Domain.Balance.{IsBalanced, validate_balance, IsBalanced-of_validate_balance}
use cashflow_backend.Repository.Tables.{Env, Db}
use cashflow_backend.Repository.Rows.{next_sequence}
use cashflow_backend.Repository.Rows.Lines.{IsExact}
use cashflow_backend.Repository.Rows.Sequence.{TakesNumber, next_sequence_inv}
use cashflow_backend.Repository.Invariant.{IsNumeric}
use cashflow_backend.Repository.Posted.{Inserted, insert_posted_inv}
use cashflow_backend.Repository.Extends.{Extends, posted-Extends, Extends-refl}
use cashflow_backend.Repository.YearClose.{assigned, insert_system_move, insert_if_any}

-- What insertSystemMove did.
pub record SystemMove (env : Env) (now : Time) (id period_id journal_id : Uuid) (date : Date)
    (ls : List AccountMoveLine) (db db' : Db) : Type 0 where
  pub header : MoveHeader
  pub audit : FinancialAuditLog
  pub name : Text
  pub db1 : Db
  pub same_id : header.id ≡ id
  pub same_date : header.date ≡ date
  pub in_effect : is_posted header.state ≡ true
  pub balanced : IsBalanced (map (assigned id date now) ls)
  pub numbered : TakesNumber journal_id db name db1
  pub inserted : Inserted env now header (map (assigned id date now) ls) audit db1 db'

pub insert_system_move_inv :
    (env : Env) (now : Time) (id journal_id period_id : Uuid) (date : Date) (actor : Uuid)
    (ref : Text) (ls : List AccountMoveLine) (db : Db) {db' : Db}
    → insert_system_move env now id journal_id period_id date actor ref ls db ≡ ok db'
    → SystemMove env now id period_id journal_id date ls db db'
unfolding insert_system_move
insert_system_move_inv env now id journal_id period_id date actor ref ls db e =
    let (_, v, e1) = >>=-eq-ok (validate_balance (map (assigned id date now) ls)) _ e in
    let ((name, db1), n, e2) = >>=-eq-ok (next_sequence journal_id db) _ e1 in
    record {
      header = _;
      audit = _;
      name = name;
      db1 = db1;
      same_id = refl;
      same_date = refl;
      in_effect = refl;
      balanced = IsBalanced-of_validate_balance _ v;
      numbered = next_sequence_inv journal_id db n;
      inserted = insert_posted_inv env now _ _ _ db1 e2;
    }

pub assigned-IsExact :
    (env : Env) (id : Uuid) (date : Date) (now : Time) (ls : List AccountMoveLine)
    → All (IsExact env) ls
    → All (IsExact env) (map (assigned id date now) ls)
assigned-IsExact env id date now [] h = tt
assigned-IsExact env id date now (l ∷ ls) h =
    (record { debit = h.0.debit; credit = h.0.credit }, assigned-IsExact env id date now ls h.1)

pub SystemMove-Extends :
    {env : Env} {now : Time} {id period_id journal_id : Uuid} {date : Date}
    {ls : List AccountMoveLine} {db db' : Db}
    → IsNumeric env
    → All (IsExact env) ls
    → SystemMove env now id period_id journal_id date ls db db'
    → Extends env db db'
SystemMove-Extends {env} {now} {id} {date = date} {ls = ls} w x m =
    posted-Extends w m.numbered m.inserted
      (λ s. (assigned-IsExact env id date now ls x, m.balanced))

pub insert_if_any-Extends :
    (env : Env) (now : Time) (id journal_id period_id : Uuid) (date : Date) (actor : Uuid)
    (ref : Text) (ls : List AccountMoveLine) (db : Db) {r : Option Uuid × Db}
    → IsNumeric env
    → All (IsExact env) ls
    → insert_if_any env now id journal_id period_id date actor ref ls db ≡ ok r
    → Extends env db r.1
unfolding insert_if_any
insert_if_any-Extends env now id journal_id period_id date actor ref [] db w x e =
    subst (Extends env db) (sym (ok-eq_1 e)) (Extends-refl env db)
insert_if_any-Extends env now id journal_id period_id date actor ref (l ∷ ls) db w x e =
    let (db1, f, g) =
      >>=-eq-ok (insert_system_move env now id journal_id period_id date actor ref (l ∷ ls) db) _
        e in
    subst (Extends env db) (sym (ok-eq_1 g)) (
      SystemMove-Extends w x
        (insert_system_move_inv env now id journal_id period_id date actor ref (l ∷ ls) db f))
