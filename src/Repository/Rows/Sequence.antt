-- ===== src/Repository/Rows/Sequence.antt =====
-- What lockOpenPeriod and GetNextSequenceWithLock found when they succeed.
use cashflow_backend.Base.{
  ◌+◌, ◌≤◌, ◌≡◌, some, Text, ◌==◌, arith, find, update_where, ok, guard, or_err-eq-ok,
  fail_if-eq-ok, ok-eq_0, ok-eq_1,
}
use cashflow_backend.Domain.{
  Uuid, Date, FiscalPeriod, Journal, is_open, open_period, period_not_found, period_closed,
  journal_not_found, bad_sequence_number,
}
use cashflow_backend.Repository.Tables.{Db}
use cashflow_backend.Repository.Rows.{lock_open_period, next_sequence, sequence_name}
use cashflow_backend.Repository.Rows.Find.{find_sound}

-- The table has an open period with this id that holds the date.
pub record HasOpenPeriod (id : Uuid) (date : Date) (db : Db) : Type 0 where
  pub period : FiscalPeriod
  pub same_id : period.id ≡ id
  pub starts : period.start_date ≤ date
  pub ends : date ≤ period.end_date
  pub is_open : period.state ≡ open_period

pub lock_open_period_inv :
    (id : Uuid) (date : Date) (db : Db)
    → lock_open_period id date db ≡ ok tt
    → HasOpenPeriod id date db
unfolding lock_open_period
lock_open_period_inv id date db e =
    let (p, f, g) =
      or_err-eq-ok _ period_not_found (λ (p : FiscalPeriod). guard (is_open p.state) period_closed)
        e in
    let found = find_sound _ db.periods f in
    record {
      period = p;
      same_id = ground arith;
      starts = ground arith;
      ends = ground arith;
      is_open = ground arith;
    }

-- The journal's next number is taken: the name holds it, and the journal now has the one after it.
pub record TakesNumber (journal_id : Uuid) (db : Db) (name : Text) (db' : Db) : Type 0 where
  pub journal : Journal
  pub found : find (λ j. j.id == journal_id) db.journals ≡ some journal
  pub positive : 1 ≤ journal.next_number
  pub named : name ≡ sequence_name journal.sequence_prefix journal.next_number
  pub bumped : db' ≡ record db {
    journals =
        update_where
          (λ k. k.id == journal_id)
          (λ k. record k { next_number = k.next_number + 1 })
          db.journals;
  }

pub next_sequence_inv :
    (journal_id : Uuid) (db : Db) {r : Text × Db}
    → next_sequence journal_id db ≡ ok r
    → TakesNumber journal_id db r.0 r.1
unfolding next_sequence
next_sequence_inv journal_id db e =
    let (j, f, g) = or_err-eq-ok _ journal_not_found _ e in
    let (h, k) = fail_if-eq-ok _ bad_sequence_number _ g in
    record {
      journal = j;
      found = f;
      positive = ground arith;
      named = ok-eq_0 k;
      bumped = ok-eq_1 k;
    }
