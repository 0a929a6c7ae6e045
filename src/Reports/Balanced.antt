-- ===== src/Reports/Balanced.antt =====
-- The statements over sound books: the use cases return them, and they are balanced.
use cashflow_backend.Base.{
  ◌≤◌, ◌≡◌, refl, sym, ap, subst, ◌∙◌, Bool, true, false, ◌&&◌, ◌||◌, List, [], ◌∷◌, map, ◌==◌,
  arith, All, All-order_by, Bool-cases, inl, inr, if_false, ltb, find, order_by, is_some,
  Option-cases, not_both, ok,
}
use cashflow_backend.Base.Int.{pos, ◌+ℤ◌, ◌-ℤ◌, eqb_ℤ, int_laws, +ℤ-zero, zero-+ℤ}
use cashflow_backend.Domain.{Uuid, Date, Decimal, Account, TrialBalanceRow}
use cashflow_backend.Domain.Balance.{is_zero}
use cashflow_backend.Repository.Tables.{Env, LineRow, Db}
use cashflow_backend.Repository.Invariant.{IsSound}
use cashflow_backend.Repository.Keys.{count, count-order_by}
use cashflow_backend.Repository.YearClose.Lines.{net_of}
use cashflow_backend.Reports.BalanceSheet.{
  BalanceSheet, balance_sheet, balance_sheet-difference, sheet_rows, add_to_sheet, close_sheet,
  empty_sheet, net, HasNaturalSide,
}
use cashflow_backend.Reports.Queries.{
  debit_of, credit_of, in_posted, dated_rows, joined_rows, as_of_rows, balances_loop, by_code,
  up_to, initial_dates, period_dates, trial_row, get_account_balances, get_trial_balance_data,
  generate_balance_sheet, generate_trial_balance,
}
use cashflow_backend.Reports.Statements.{
  TrialBalance, trial_balance, trial_totals, trial_balance-verdict,
}
use cashflow_backend.Reports.Totals.{HasOwnDates, posted-net}
use cashflow_backend.Reports.Grouping.{group, group_sums, group_sums-net}

sides-net : (rs : List LineRow) → debit_of rs -ℤ credit_of rs ≡ net_of rs
unfolding debit_of credit_of net_of
sides-net [] = omega int_laws
sides-net (r ∷ rs) =
    swap4 r.debit (debit_of rs) r.credit (credit_of rs)
    ∙ ap (λ t. (r.debit -ℤ r.credit) +ℤ t) (sides-net rs)
  where
    swap4 : (a b c d : Decimal) → (a +ℤ b) -ℤ (c +ℤ d) ≡ (a -ℤ c) +ℤ (b -ℤ d)
    swap4 a b c d = omega int_laws

abbrev posted_during : Db → (Date → Bool) → LineRow → Bool
posted_during db during r = in_posted db r && during r.date

-- The foreign key of the lines and the primary key of the accounts.
abbrev pub HasAccounts : Db → Type 0
HasAccounts db = All (λ (r : LineRow). count r.account_id db.accounts ≡ 1) db.lines

dated-net :
    (during : Date → Bool) (account : Uuid) (db : Db)
    → net_of (dated_rows during account db)
      ≡ net_of (group (posted_during db during) account db.lines)
unfolding dated_rows
dated-net during account db = refl

as_of-net :
    (a : Account) (joined posted : List LineRow) (rest : List TrialBalanceRow)
    → net (as_of_rows a joined posted rest) ≡ net_of posted +ℤ net rest
unfolding net net_of debit_of credit_of
as_of-net a [] [] rest = ap (λ t. t +ℤ net rest) (omega int_laws)
as_of-net a (l ∷ ls) [] rest = sym (zero-+ℤ (net rest))
as_of-net a [] (r ∷ rs) rest = ap (λ t. t +ℤ net rest) (sides-net (r ∷ rs))
as_of-net a (l ∷ ls) (r ∷ rs) rest = ap (λ t. t +ℤ net rest) (sides-net (r ∷ rs))

balances-net :
    (as_of : Date) (db : Db) (accts : List Account)
    → net (balances_loop as_of db accts)
      ≡ group_sums (posted_during db (up_to as_of)) accts db.lines
unfolding balances_loop net group_sums
balances-net as_of db [] = refl
balances-net as_of db (a ∷ accts) =
    as_of-net a (joined_rows as_of a.id db) (dated_rows (up_to as_of) a.id db)
      (balances_loop as_of db accts)
    ∙ ap (λ t. t +ℤ net (balances_loop as_of db accts)) (dated-net (up_to as_of) a.id db)
    ∙ ap (λ t. net_of (group (posted_during db (up_to as_of)) a.id db.lines) +ℤ t)
        (balances-net as_of db accts)

trial-net :
    (from to : Date) (db : Db) (accts : List Account)
    → net (map (trial_row from to db) accts)
      ≡ group_sums (posted_during db (initial_dates from)) accts db.lines
        +ℤ group_sums (posted_during db (period_dates from to)) accts db.lines
unfolding net group_sums
trial-net from to db [] = sym (+ℤ-zero (pos 0))
trial-net from to db (a ∷ accts) = rw (trial-net from to db accts) (
    join_nets (debit_of (dated_rows (initial_dates from) a.id db))
      (credit_of (dated_rows (initial_dates from) a.id db))
      (debit_of (dated_rows (period_dates from to) a.id db))
      (credit_of (dated_rows (period_dates from to) a.id db)) _ _ _ _
      (sides-net (dated_rows (initial_dates from) a.id db) ∙ dated-net (initial_dates from) a.id db)
      (sides-net (dated_rows (period_dates from to) a.id db)
        ∙ dated-net (period_dates from to) a.id db))
  where
    join_nets :
        (d c e f x y u v : Decimal)
        → d -ℤ c ≡ x
        → e -ℤ f ≡ y
        → ((d +ℤ e) -ℤ (c +ℤ f)) +ℤ (u +ℤ v) ≡ (x +ℤ u) +ℤ (y +ℤ v)
    join_nets d c e f x y u v p q = rw (sym p, sym q) (omega int_laws)

module _ {env : Env} (db : Db) (s : IsSound env db) (own : HasOwnDates db)
    (h : HasAccounts db) where
  ordered : List Account
  ordered = order_by by_code db.accounts

  keyed :
      (rs : List LineRow)
      → All (λ (r : LineRow). count r.account_id db.accounts ≡ 1) rs
      → All (λ (r : LineRow). count r.account_id ordered ≡ 1) rs
  unfolding ordered
  keyed [] k = tt
  keyed (r ∷ rs) k = (count-order_by by_code r.account_id db.accounts ∙ k.0, keyed rs k.1)

  sums_zero : (during : Date → Bool) → group_sums (posted_during db during) ordered db.lines ≡ pos 0
  sums_zero during =
      group_sums-net (posted_during db during) ordered db.lines (keyed db.lines h)
      ∙ posted-net db during s own

  -- The balances of sound books as of any day have equal debits and credits.
  pub get_account_balances-net : (as_of : Date) → net (get_account_balances as_of db) ≡ pos 0
  unfolding ordered
  get_account_balances-net as_of = balances-net as_of db ordered ∙ sums_zero (up_to as_of)

  pub trial_rows-net :
      (from to : Date) → net (map (trial_row from to db) (order_by by_code db.accounts)) ≡ pos 0
  unfolding ordered
  trial_rows-net from to =
      trial-net from to db ordered
      ∙ rw (sums_zero (initial_dates from), sums_zero (period_dates from to)) (+ℤ-zero (pos 0))

-- The accounts of the rows are in the chart.
abbrev Known : List Account → TrialBalanceRow → Type 0
Known accts r = is_some (find (λ (a : Account). a.id == r.account_id) accts) ≡ true

is_found :
    (j : Uuid) (accts : List Account)
    → 1 ≤ count j accts
    → is_some (find (λ (a : Account). a.id == j) accts) ≡ true
unfolding count find
is_found j [] e = absurd (omega arith)
is_found j (a ∷ accts) e = elim (Bool-cases (a.id == j)) [
  | inl y ↦ rw y refl
  | inr n ↦ rw n (is_found j accts (subst (λ k. 1 ≤ k) (if_false _ _ n) e))
]

grows :
    (front bs : List Account) (b : Account)
    → All (λ (a : Account). 1 ≤ count a.id bs) front
    → All (λ (a : Account). 1 ≤ count a.id (b ∷ bs)) front
unfolding count
grows [] bs b h = tt
grows (a ∷ front) bs b h = (ground (arith, h.0), grows front bs b h.1)

own_counts : (accts : List Account) → All (λ (a : Account). 1 ≤ count a.id accts) accts
unfolding count
own_counts [] = tt
own_counts (a ∷ accts) = (ground arith, grows accts accts a (own_counts accts))

as_of-Known :
    (accts : List Account) (a : Account) (joined posted : List LineRow)
    (rest : List TrialBalanceRow)
    → 1 ≤ count a.id accts
    → All (Known accts) rest
    → All (Known accts) (as_of_rows a joined posted rest)
as_of-Known accts a [] posted rest k h = (is_found a.id accts k, h)
as_of-Known accts a (l ∷ ls) [] rest k h = h
as_of-Known accts a (l ∷ ls) (r ∷ rs) rest k h = (is_found a.id accts k, h)

balances-Known :
    (as_of : Date) (db : Db) (all accts : List Account)
    → All (λ (a : Account). 1 ≤ count a.id all) accts
    → All (Known all) (balances_loop as_of db accts)
unfolding balances_loop
balances-Known as_of db all [] h = tt
balances-Known as_of db all (a ∷ accts) h =
    as_of-Known all a (joined_rows as_of a.id db) (dated_rows (up_to as_of) a.id db) _ h.0
      (balances-Known as_of db all accts h.1)

sheet_rows-total :
    (accts : List Account) (rows : List TrialBalanceRow) (b : BalanceSheet)
    → All (Known accts) rows
    → (c : BalanceSheet) × (sheet_rows accts rows b ≡ ok c)
unfolding sheet_rows
sheet_rows-total accts [] b h = (b, refl)
sheet_rows-total accts (r ∷ rows) b h =
    elim (Option-cases (find (λ (a : Account). a.id == r.account_id) accts)) [
      | inl n ↦ absurd (not_both h.0 (ap is_some n))
      | inr (a, f) ↦
          let (c, e) =
            sheet_rows-total accts rows
              (add_to_sheet a a.account_type r.ending_debit r.ending_credit b) h.1 in
          (c, rw f e)
    ]

-- The balance sheet of sound books as of any day is returned, and is balanced, if each line has one
-- account in the chart and the date of its entry, and no account is a contra account.
pub generate_balance_sheet-balanced :
    {env : Env} (db : Db) (as_of : Date)
    → IsSound env db
    → HasOwnDates db
    → HasAccounts db
    → All HasNaturalSide db.accounts
    → (b : BalanceSheet) × (generate_balance_sheet as_of db ≡ ok b) × (b.is_balanced ≡ true)
unfolding generate_balance_sheet balance_sheet
generate_balance_sheet-balanced db as_of s own h sides =
    let accts = order_by by_code db.accounts in
    let rows = get_account_balances as_of db in
    let (c, e) =
      sheet_rows-total accts rows empty_sheet
        (balances-Known as_of db accts accts (own_counts accts)) in
    let made : balance_sheet rows accts ≡ ok (close_sheet c) = rw e refl in
    let (_, verdict) =
      balance_sheet-difference rows accts (All-order_by HasNaturalSide by_code db.accounts sides)
        made in
    (close_sheet c, made, verdict ∙ ap is_zero (get_account_balances-net db s own h as_of))

-- The trial balance of sound books over any span of days is returned, and is balanced, if each line
-- has one account in the chart and the date of its entry.
pub generate_trial_balance-balanced :
    {env : Env} (db : Db) (from to : Date)
    → IsSound env db
    → HasOwnDates db
    → HasAccounts db
    → (from == 0 || to == 0) ≡ false
    → ltb to from ≡ false
    → (t : TrialBalance) × (generate_trial_balance from to db ≡ ok t) × (t.is_balanced ≡ true)
unfolding generate_trial_balance get_trial_balance_data trial_balance
generate_trial_balance-balanced db from to s own h given span =
    let rows = map (trial_row from to db) (order_by by_code db.accounts) in
    let totals = trial_totals (pos 0) (pos 0) rows in
    let t : TrialBalance = record {
      total_debit = totals.0;
      total_credit = totals.1;
      is_balanced = eqb_ℤ (totals.0) (totals.1);
      rows = rows;
    } in
    (
      t,
      rw (given, span) refl,
      trial_balance-verdict rows ∙ ap is_zero (trial_rows-net db s own h from to),
    )
