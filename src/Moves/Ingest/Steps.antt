-- ===== src/Moves/Ingest/Steps.antt =====
-- An ingestion as a path of the ledger's transactions.
use cashflow_backend.Base.{
  ◌≡◌, sym, ap, subst, ◌∙◌, true, ◌||◌, some, Text, is_empty, All, Option-cases, inl, inr, ok, err,
  guard-eq-ok, fail_if-eq-ok, >>=-eq-ok, or_err-eq-ok, ok-injective, ok-eq_1,
}
use cashflow_backend.Domain.{
  Date, Time, Decimal, AccountMove, FinancialAuditLog, Fallible, required, account_inactive,
  journal_inactive,
}
use cashflow_backend.Domain.Balance.{can_post}
use cashflow_backend.Repository.Tables.{Env, Db}
use cashflow_backend.Repository.Rows.{get_period_by_date}
use cashflow_backend.Repository.Rows.Lines.{IsExact}
use cashflow_backend.Repository.YearClose.Exact.{IsFixedPoint}
use cashflow_backend.Repository.Posting.{EventKey, post_new_move_with_event}
use cashflow_backend.Repository.Steps.{posts, Reach, stays, then_step}
use cashflow_backend.Masters.Accounts.{get_account_by_id}
use cashflow_backend.Masters.Journals.{get_mapping, get_journal_by_id}
use cashflow_backend.Moves.Requests.{Strings}
use cashflow_backend.Moves.Ingest.{
  IngestRequest, Rates, validate_ingest, get_processed_move, event_rate, event_move, prepare_event,
  after_failure, ingest_new, ingest_known, ingest,
}

-- What Round(4) of a product is documented to do, beside NUMERIC(28, 4).
pub record IsProduct (env : Env) : Type 0 where
  pub fixed : IsFixedPoint env
  pub product_kept : (a b : Decimal) → env.numeric (env.product4 a b) ≡ env.product4 a b

prepare_event-IsExact :
    (env : Env) (w : IsProduct env) (rates : Rates) (now : Time) (date : Date) (q : IngestRequest)
    (db : Db) {m : AccountMove}
    → prepare_event env rates now date q db ≡ ok m
    → All (IsExact env) m.lines
unfolding prepare_event event_move
prepare_event-IsExact env w rates now date q db {m} e =
    let (mapping, _, e1) = >>=-eq-ok (get_mapping q.event_type db) _ e in
    let (debit, _, e2) = >>=-eq-ok (get_account_by_id mapping.debit_account_id db) _ e1 in
    let (_, e3) = guard-eq-ok debit.is_active account_inactive _ e2 in
    let (credit, _, e4) = >>=-eq-ok (get_account_by_id mapping.credit_account_id db) _ e3 in
    let (_, e5) = guard-eq-ok credit.is_active account_inactive _ e4 in
    let (period, _, e6) = >>=-eq-ok (get_period_by_date date db) _ e5 in
    let (_, _, e7) = >>=-eq-ok (can_post period) _ e6 in
    let (journal, _, e8) = >>=-eq-ok (get_journal_by_id mapping.journal_id db) _ e7 in
    let (_, e9) = guard-eq-ok journal.is_active journal_inactive _ e8 in
    let (rate, _, e10) = >>=-eq-ok (event_rate rates q.currency date) _ e9 in
    let kept = w.product_kept q.amount rate in
    let zero = w.fixed.zero_kept in
    subst (λ (m : AccountMove). All (IsExact env) m.lines) (ok-injective e10)
      (record { debit = kept; credit = zero }, (record { debit = zero; credit = kept }, tt))

posted-Reach :
    (env : Env) (now : Time) (m : AccountMove) (audit : FinancialAuditLog) (k : EventKey) (db : Db)
    {r : AccountMove × Db}
    → All (IsExact env) m.lines
    → post_new_move_with_event env now m audit k db ≡ ok r
    → Reach env db r.1
unfolding post_new_move_with_event
posted-Reach env now m audit k db x e =
    let (_, e1) =
      fail_if-eq-ok (is_empty k.idempotency_key || is_empty k.event_type) required _ e in
    then_step stays (posts now m (some audit) (some k) true x e1)

after_failure-Reach :
    (env : Env) (key : Text) (later db : Db) (first : Fallible (AccountMove × Db))
    {r : AccountMove × Db}
    → ((q : AccountMove × Db) → first ≡ ok q → Reach env db q.1)
    → Reach env db later
    → after_failure env key later first ≡ ok r
    → Reach env db r.1
unfolding after_failure
after_failure-Reach env key later db (ok q) {r} h l e = h r e
after_failure-Reach env key later db (err x) h l e =
    let (m, f, e1) = >>=-eq-ok (get_processed_move env key later) _ e in
    let (m', g, e2) = or_err-eq-ok m x _ e1 in
    subst (λ (d : Db). Reach env db d) (ok-eq_1 (sym e2)) l

-- Ingestion refines the transactions of the ledger: with amounts that are rounded to what the columns
-- hold, the tables that an ingestion ends with are reached from those it starts from by steps of
-- Repository.Steps, if the tables that it reads again after a failure are reached by such steps.
pub ingest-Reach :
    (env : Env) (s : Strings) (rates : Rates) (now : Time) (request : IngestRequest) (later db : Db)
    {r : AccountMove × Db}
    → IsProduct env
    → ingest env s rates now request later db ≡ ok r
    → Reach env db later
    → Reach env db r.1
unfolding ingest ingest_new
ingest-Reach env s rates now request later db {r} w e l =
    let ((q, date), v, e1) = >>=-eq-ok (validate_ingest s request) _ e in
    let (known, f, e2) = >>=-eq-ok (get_processed_move env q.idempotency_key db) _ e1 in
    let rest = ingest_new env rates now date q later db in
    elim (Option-cases known) [
      | inr (m, k) ↦
          subst (λ (d : Db). Reach env db d)
            (sym (ok-eq_1 (ap (λ o. ingest_known o db rest) (sym k) ∙ e2))) stays
      | inl n ↦
          let e3 = ap (λ o. ingest_known o db rest) (sym n) ∙ e2 in
          let (m, p, e4) = >>=-eq-ok (prepare_event env rates now date q db) _ e3 in
          after_failure-Reach env q.idempotency_key later db _
            (λ q' g.
              posted-Reach env now m _ _ db (prepare_event-IsExact env w rates now date q db p) g)
            l e4
    ]
