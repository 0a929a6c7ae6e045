-- ===== src/Reports/BalanceSheet.antt =====
-- GenerateBalanceSheetUseCase. The balances are those that the repository's query returns.
use cashflow_backend.Base.{
  ◌≡◌, refl, sym, ap, ◌∙◌, Bool, false, Option, some, List, [], ◌∷◌, ◌++◌, Text, ◌==◌, find, ok,
  ◌>>=◌, or_err, All, arith, or_err-eq-ok, >>=-eq-ok, ok-injective, subst, Bool-cases, inl, inr,
  if_true, if_false,
}
use cashflow_backend.Base.Int.{pos, ◌+ℤ◌, ◌-ℤ◌, neg, int_laws, +ℤ-zero, zero-+ℤ, +ℤ_assoc}
use cashflow_backend.Domain.{
  Uuid, Decimal, Account, AccountType, asset, liability, equity, income, expense, NormalBalance,
  debit_balance, credit_balance, TrialBalanceRow, Fallible, unknown_account,
}
use cashflow_backend.Domain.Balance.{is_zero}
use cashflow_backend.Masters.Accounts.{natural_side}

pub record StatementAccountLine : Type 0 where
  pub account_id : Uuid
  pub code : Text
  pub name : Text
  pub amount : Decimal

abbrev pub statement_line : Account → Decimal → StatementAccountLine
statement_line a amount = record {
  account_id = a.id;
  code = a.code;
  name = a.name;
  amount = amount;
}

-- The account of a row, by the map `byID`.
abbrev pub account_of : List Account → TrialBalanceRow → Fallible Account
account_of accounts r = or_err (find (λ a. a.id == r.account_id) accounts) unknown_account

pub record BalanceSheet : Type 0 where
  pub assets : List StatementAccountLine
  pub liabilities : List StatementAccountLine
  pub equities : List StatementAccountLine
  pub total_assets : Decimal
  pub total_liabilities : Decimal
  pub total_equity : Decimal
  pub current_income : Decimal
  pub balance_difference : Decimal
  pub is_balanced : Bool

abbrev pub empty_sheet : BalanceSheet
empty_sheet = record {
  assets = [];
  liabilities = [];
  equities = [];
  total_assets = pos 0;
  total_liabilities = pos 0;
  total_equity = pos 0;
  current_income = pos 0;
  balance_difference = pos 0;
  is_balanced = false;
}

-- The amount of a row on the side of its account.
abbrev pub side_amount : NormalBalance → Decimal → Decimal
side_amount debit_balance a = a
side_amount credit_balance a = neg a

-- The `switch account.Type` of the balance sheet.
unfoldable pub add_to_sheet :
    Account → AccountType → Decimal → Decimal → BalanceSheet → BalanceSheet
add_to_sheet a asset d c b =
    let amount = side_amount a.normal_balance (d -ℤ c) in
    record b {
      assets = b.assets ++ statement_line a amount ∷ [];
      total_assets = b.total_assets +ℤ amount;
    }
add_to_sheet a liability d c b =
    let amount = side_amount a.normal_balance (d -ℤ c) in
    record b {
      liabilities = b.liabilities ++ statement_line a amount ∷ [];
      total_liabilities = b.total_liabilities +ℤ amount;
    }
add_to_sheet a equity d c b =
    let amount = side_amount a.normal_balance (d -ℤ c) in
    record b {
      equities = b.equities ++ statement_line a amount ∷ [];
      total_equity = b.total_equity +ℤ amount;
    }
add_to_sheet a income d c b = record b { current_income = b.current_income +ℤ (c -ℤ d) }
add_to_sheet a expense d c b = record b { current_income = b.current_income -ℤ (d -ℤ c) }

-- The loop over the rows.
unfoldable pub sheet_rows :
    List Account → List TrialBalanceRow → BalanceSheet → Fallible BalanceSheet
unfolding add_to_sheet
sheet_rows accounts [] b = ok b
sheet_rows accounts (r ∷ rs) b = do
  a ← account_of accounts r
  sheet_rows accounts rs (add_to_sheet a a.account_type r.ending_debit r.ending_credit b)

-- The last lines of GenerateBalanceSheetUseCase.Execute.
abbrev pub close_sheet : BalanceSheet → BalanceSheet
close_sheet b =
    let total = b.total_equity +ℤ b.current_income in
    let difference = b.total_assets -ℤ b.total_liabilities -ℤ total in
    record b {
      total_equity = total;
      balance_difference = difference;
      is_balanced = is_zero difference;
    }

-- GenerateBalanceSheetUseCase.Execute, from the balances and the accounts that it reads
unfoldable pub balance_sheet : List TrialBalanceRow → List Account → Fallible BalanceSheet
unfolding sheet_rows
balance_sheet rows accounts = do b ← sheet_rows accounts rows empty_sheet; ok (close_sheet b)

-- Debits less credits of all the rows.
unfoldable pub net : List TrialBalanceRow → Decimal
net [] = pos 0
net (r ∷ rs) = (r.ending_debit -ℤ r.ending_credit) +ℤ net rs

-- The account grows on the side of its type: it is no contra account.
abbrev pub HasNaturalSide : Account → Type 0
HasNaturalSide a = a.normal_balance ≡ natural_side a.account_type

abbrev difference : BalanceSheet → Decimal
difference b = b.total_assets -ℤ b.total_liabilities -ℤ (b.total_equity +ℤ b.current_income)

difference_step :
    (a : Account) (t : AccountType) (d c : Decimal) (b : BalanceSheet)
    → a.normal_balance ≡ natural_side t
    → difference (add_to_sheet a t d c b) ≡ difference b +ℤ (d -ℤ c)
unfolding add_to_sheet
difference_step a asset d c b h = rw h (omega int_laws)
difference_step a liability d c b h = rw h (omega int_laws)
difference_step a equity d c b h = rw h (omega int_laws)
difference_step a income d c b h = omega int_laws
difference_step a expense d c b h = omega int_laws

some-injective : {a b : Account} → ◌≡◌ {A = Option Account} (some a) (some b) → a ≡ b
some-injective e = cc

find-All {κ} :
    (P : Account → Type κ) (q : Account → Bool) (accts : List Account) {a : Account}
    → All P accts
    → find q accts ≡ some a
    → P a
unfolding find
find-All P q [] h e = absurd (ground arith)
find-All P q (b ∷ bs) {a} h e = elim (Bool-cases (q b)) [
  | inl y ↦ subst P (some-injective (sym (if_true _ _ y) ∙ e)) h.0
  | inr n ↦ find-All P q bs {a = a} h.1 (sym (if_false _ _ n) ∙ e)
]

sheet_rows-difference :
    (accounts : List Account) (rs : List TrialBalanceRow) (b : BalanceSheet) {b' : BalanceSheet}
    → All HasNaturalSide accounts
    → sheet_rows accounts rs b ≡ ok b'
    → difference b' ≡ difference b +ℤ net rs
unfolding sheet_rows net
sheet_rows-difference accounts [] b h e = ap difference (sym (ok-injective e)) ∙ sym (+ℤ-zero _)
sheet_rows-difference accounts (r ∷ rs) b {b'} h e =
    let (a, f, e1) =
      or_err-eq-ok (find (λ (x : Account). x.id == r.account_id) accounts) unknown_account _ e in
    let side = find-All HasNaturalSide _ accounts h f in
    sheet_rows-difference accounts rs
      (add_to_sheet a a.account_type r.ending_debit r.ending_credit b) h e1
    ∙ ap (λ x. x +ℤ net rs) (difference_step a a.account_type r.ending_debit r.ending_credit b side)
    ∙ +ℤ_assoc (difference b) (r.ending_debit -ℤ r.ending_credit) (net rs)

pub no_difference : pos 0 -ℤ pos 0 ≡ pos 0
unfolding ◌-ℤ◌
no_difference = refl

empty_difference : difference empty_sheet ≡ pos 0
unfolding ◌-ℤ◌ ◌+ℤ◌
empty_difference = refl

-- The balance sheet closes: if no account is a contra account, assets less liabilities, equity and
-- the income of the period are the debits less the credits of the balances, so that the sheet is
-- balanced whenever the balances are.
pub balance_sheet-difference :
    (rows : List TrialBalanceRow) (accounts : List Account) {b : BalanceSheet}
    → All HasNaturalSide accounts
    → balance_sheet rows accounts ≡ ok b
    → (b.balance_difference ≡ net rows) × (b.is_balanced ≡ is_zero (net rows))
unfolding balance_sheet
balance_sheet-difference rows accounts h e =
    let (b0, f, e2) = >>=-eq-ok (sheet_rows accounts rows empty_sheet) _ e in
    let d : difference b0 ≡ net rows =
      sheet_rows-difference accounts rows empty_sheet h f
      ∙ ap (λ x. x +ℤ net rows) empty_difference
      ∙ zero-+ℤ (net rows) in
    let k = sym (ok-injective e2) in
    (
      ap (λ (b : BalanceSheet). b.balance_difference) k ∙ d,
      ap (λ (b : BalanceSheet). b.is_balanced) k ∙ ap is_zero d,
    )
