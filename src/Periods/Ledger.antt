-- ===== src/Periods/Ledger.antt =====
-- UpdatePeriodState and the ledger.
use cashflow_backend.Base.{
  ◌≡◌, refl, sym, subst, ◌∙◌, List, ok, Bool-cases, inl, inr, guard-eq-ok, or_err-eq-ok, >>=-eq-ok,
  ok-injective, if_true, if_false, find, ◌==◌, update_where,
}
use cashflow_backend.Domain.{Uuid, Time, FiscalYear, FiscalPeriod, PeriodState, is_open_year}
use cashflow_backend.Repository.Tables.{Env, Db}
use cashflow_backend.Repository.Audit.Chain.{verify_of_same}
use cashflow_backend.Repository.Invariant.{IsSound, KeepsPosted}
use cashflow_backend.Periods.{
  same_state, check_transition, set_state, move_period, update_period_state,
}

-- The table of periods is the only one that differs.
move_period_writes :
    (now : Time) (p : FiscalPeriod) (to : PeriodState) (actor : Uuid) (db : Db) {db' : Db}
    → move_period now p to actor db ≡ ok db'
    → (ps : List FiscalPeriod) × (record db { periods = ps } ≡ db')
unfolding move_period
move_period_writes now p to actor db {db'} e = elim (Bool-cases (same_state p.state to)) [
  | inl same ↦ (db.periods, ok-injective (sym (if_true _ _ same) ∙ e))
  | inr moves ↦
      let (_, c, e1) = >>=-eq-ok (check_transition p.state to) _ (sym (if_false _ _ moves) ∙ e) in
      (update_where (λ q. q.id == p.id) (set_state now to actor) db.periods, ok-injective e1)
]

replanned :
    (env : Env) (db : Db) (ps : List FiscalPeriod)
    → IsSound env db
    → IsSound env (record db { periods = ps }) × KeepsPosted db (record db { periods = ps })
replanned env db ps s = (
  record {
    balance = s.balance;
    linked = s.linked;
    amounts = s.amounts;
    chain = verify_of_same env db _ refl s.chain;
  },
  λ id row f nd. (f, refl),
)

-- A change of a period's state keeps sound books sound, and changes no move that is posted.
pub update_period_state-IsSound :
    (env : Env) (now : Time) (id : Uuid) (to : PeriodState) (actor : Uuid) (db : Db) {db' : Db}
    → update_period_state now id to actor db ≡ ok db'
    → IsSound env db
    → IsSound env db' × KeepsPosted db db'
unfolding update_period_state
update_period_state-IsSound env now id to actor db {db'} e s =
    let (p, _, e1) = or_err-eq-ok (find (λ (p : FiscalPeriod). p.id == id) db.periods) _ _ e in
    let (y, _, e2) =
      or_err-eq-ok (find (λ (y : FiscalYear). y.id == p.fiscal_year_id) db.years) _ _ e1 in
    let (_, e3) = guard-eq-ok (is_open_year y.state) _ _ e2 in
    let (ps, same) = move_period_writes now p to actor db e3 in
    subst (λ (d : Db). IsSound env d × KeepsPosted db d) same (replanned env db ps s)
