-- ===== src/Repository/YearClose/Lines.antt =====
-- fiscalClosingLines and fiscalOpeningLines (year_close.go).
use cashflow_backend.Base.{
  ℕ, ◌+◌, Bool, true, false, not, ◌&&◌, ◌||◌, Option, none, some, List, [], ◌∷◌, ◌++◌, map, Text,
  ◌==◌, text_eq, leb, if◌then◌else◌, select, delete_where, order_by, ok, ◌>>=◌, ◌>>◌, guard,
  fail_if,
}
use cashflow_backend.Base.Int.{pos, ◌+ℤ◌, ◌-ℤ◌, abs, eqb_ℤ}
use cashflow_backend.Domain.{
  Uuid, Date, Time, Decimal, Account, AccountType, equity, income, expense, AccountMoveLine,
  is_posted, Fallible, unbalanced_move, missing_foreign_amount,
}
use cashflow_backend.Domain.Balance.{is_zero, is_positive}
use cashflow_backend.Repository.Tables.{Env, MoveRow, LineRow, Db}
use cashflow_backend.Repository.Rows.{find_move, text_leb}

abbrev pub is_equity : AccountType → Bool
is_equity equity = true
is_equity _ = false

-- `account_type IN ('income', 'expense')`
abbrev pub is_nominal : AccountType → Bool
is_nominal income = true
is_nominal expense = true
is_nominal _ = false

-- SUM(l.debit - l.credit)
unfoldable pub net_of : List LineRow → Decimal
net_of [] = pos 0
net_of (r ∷ rs) = (r.debit -ℤ r.credit) +ℤ net_of rs

-- SUM(COALESCE(l.amount_currency, 0))
unfoldable pub foreign_of : List LineRow → Decimal
foreign_of [] = pos 0
foreign_of (r ∷ rs) = r.amount_currency +ℤ foreign_of rs

-- `m.state = 'posted' AND m.date <= $1`, of the move that a line joins
abbrev pub joins : Date → Option MoveRow → Bool
joins as_of none = false
joins as_of (some m) = is_posted m.state && leb m.date as_of

-- The lines of an account that are in entries posted up to the date.
abbrev pub counted : Date → Uuid → Db → LineRow → Bool
counted as_of account db r = r.account_id == account && joins as_of (find_move r.move_id db)

unfoldable pub account_rows : Date → Uuid → Db → List LineRow
account_rows as_of account db = select (counted as_of account db) db.lines

abbrev pub by_id : Account → Account → Bool
by_id a b = leb a.id b.id

-- GROUP BY l.account_id, over the accounts; an account without a line has no group.
unfoldable pub balances : Date → Db → List Account → List (Uuid × Decimal)
unfolding account_rows
balances as_of db [] = []
balances as_of db (a ∷ rest) =
    let others = balances as_of db rest in
    elim (account_rows as_of a.id db) [ [] ↦ others | r ∷ rs ↦ (a.id, net_of (r ∷ rs)) ∷ others ]

-- A line without amounts.
abbrev pub blank_line : Uuid → Uuid → Text → Date → Time → AccountMoveLine
blank_line id account currency date now = record {
  id = id;
  move_id = 0;
  account_id = account;
  partner_id = none;
  debit = pos 0;
  credit = pos 0;
  amount_currency = pos 0;
  currency_id = currency;
  cost_center_id = none;
  matching_number = [];
  date = date;
  created_at = now;
}

-- The amount on the credit side if it is positive, and on the debit side if it is not; and the
-- other way round.
abbrev pub credit_by_sign : Decimal → AccountMoveLine → AccountMoveLine
credit_by_sign b l = if is_positive b then record l { credit = b } else record l { debit = abs b }

abbrev pub debit_by_sign : Decimal → AccountMoveLine → AccountMoveLine
debit_by_sign b l = if is_positive b then record l { debit = b } else record l { credit = abs b }

-- The loop of fiscalClosingLines with what follows it; `k` counts the calls of uuid.New, and `total`
-- is retainedDebitMinusCredit.
unfoldable pub closing_loop :
    Env → Time → Date → Uuid → Text → ℕ → Decimal → List (Uuid × Decimal) → List AccountMoveLine
closing_loop env now as_of retained currency k total [] =
    if is_zero total
    then []
    else debit_by_sign total (blank_line (env.new_uuid k) retained currency as_of now) ∷ []
closing_loop env now as_of retained currency k total ((account, b) ∷ groups) =
    let rest =
      closing_loop env now as_of retained currency (if is_zero b then k else k + 1)
        (if is_zero b then total else total +ℤ b) groups in
    if is_zero b
    then rest
    else credit_by_sign b (blank_line (env.new_uuid k) account currency as_of now) ∷ rest

abbrev pub closing_groups : Date → Db → List (Uuid × Decimal)
closing_groups as_of db =
    balances as_of db (order_by by_id (select (λ a. is_nominal a.account_type) db.accounts))

-- fiscalClosingLines
unfoldable pub fiscal_closing_lines : Env → Time → Date → Uuid → Text → Db → List AccountMoveLine
unfolding balances closing_loop
fiscal_closing_lines env now as_of retained currency db =
    closing_loop env now as_of retained currency 0 (pos 0) (closing_groups as_of db)

-- A row of the query of fiscalOpeningLines.
pub record OpeningGroup : Type 0 where
  pub account_id : Uuid
  pub currency_id : Text
  pub net : Decimal
  pub amount_currency : Decimal

-- The currencies of the rows, each one once, in the order of texts.
unfoldable pub distinct : List Text → List Text
distinct [] = []
distinct (t ∷ ts) = t ∷ delete_where (text_eq t) (distinct ts)

abbrev pub currencies : List LineRow → List Text
currencies rs = order_by text_leb (distinct (map (λ (r : LineRow). r.currency_id) rs))

abbrev pub opening_group : Uuid → List LineRow → Text → OpeningGroup
opening_group account rs c =
    let mine = select (λ (r : LineRow). text_eq r.currency_id c) rs in
    record {
      account_id = account;
      currency_id = c;
      net = net_of mine;
      amount_currency = foreign_of mine;
    }

-- HAVING
abbrev pub is_open_group : OpeningGroup → Bool
is_open_group g = not (is_zero g.net) || not (is_zero g.amount_currency)

unfoldable pub opening_groups : Date → Db → List Account → List OpeningGroup
unfolding account_rows distinct
opening_groups as_of db [] = []
opening_groups as_of db (a ∷ rest) =
    let rows = account_rows as_of a.id db in
    select is_open_group (map (opening_group a.id rows) (currencies rows))
    ++ opening_groups as_of db rest

abbrev pub opening_line : Env → Time → Date → ℕ → OpeningGroup → AccountMoveLine
opening_line env now as_of k g =
    debit_by_sign g.net
      (record (blank_line (env.new_uuid k) g.account_id g.currency_id (as_of + 1) now) {
        amount_currency = g.amount_currency;
      })

-- The loop of fiscalOpeningLines, with totalDebit and totalCredit, and what follows it.
unfoldable pub opening_loop :
    Env
    → Time
    → Date
    → Text
    → ℕ
    → Decimal
    → Decimal
    → List OpeningGroup
    → Fallible (List AccountMoveLine)
opening_loop env now as_of functional k d c [] = guard (eqb_ℤ d c) unbalanced_move >> ok []
opening_loop env now as_of functional k d c (g ∷ groups) = do
  fail_if
      (not (text_eq g.currency_id functional) && is_zero g.amount_currency && not (is_zero g.net))
      missing_foreign_amount
  let up = is_positive g.net
  rest ←
      opening_loop env now as_of functional (k + 1) (if up then d +ℤ g.net else d)
        (if up then c else c +ℤ abs g.net) groups
  ok (opening_line env now as_of k g ∷ rest)

-- fiscalOpeningLines
unfoldable pub fiscal_opening_lines :
    Env → Time → Date → Text → ℕ → Db → Fallible (List AccountMoveLine)
unfolding opening_groups opening_loop
fiscal_opening_lines env now as_of functional k db =
    opening_loop env now as_of functional k (pos 0) (pos 0) (
      opening_groups as_of db
        (order_by by_id (select (λ a. not (is_nominal a.account_type)) db.accounts)))
