-- ===== src/Masters/Accounts.antt =====
-- The chart of accounts: CreateAccountRequest.Validate and normalizeCashFlowActivity (dto.go),
-- CreateAccount, UpdateAccount and the reads (internal/repository.go), and the use cases CreateAccount
-- and UpdateAccount.
use cashflow_backend.Base.{
  ℕ, zero, suc, Bool, true, false, not, ◌&&◌, ◌||◌, Option, none, some, List, [], ◌∷◌, ◌++◌, Text,
  ◌==◌, text_eq, is_empty, if◌then◌else◌, find, exists, update_where, order_by, length, ok, ◌>>=◌,
  ◌>>◌, guard, fail_if, or_err,
}
use cashflow_backend.Domain.{
  Uuid, Account, AccountType, asset, liability, equity, income, expense, NormalBalance,
  debit_balance, credit_balance, Fallible, account_not_found, duplicate_account_code,
  account_has_posted_moves, required, bad_choice, constraint_violation, is_draft,
}
use cashflow_backend.Repository.Tables.{LineRow, Db}
use cashflow_backend.Repository.Rows.{text_leb, find_move}
use cashflow_backend.Moves.Requests.{Strings, normalize_currency, sar}

abbrev pub account_types : List (Text × AccountType)
account_types =
    (b'a' ∷ b's' ∷ b's' ∷ b'e' ∷ b't' ∷ [], asset)
    ∷ (b'l' ∷ b'i' ∷ b'a' ∷ b'b' ∷ b'i' ∷ b'l' ∷ b'i' ∷ b't' ∷ b'y' ∷ [], liability)
    ∷ (b'e' ∷ b'q' ∷ b'u' ∷ b'i' ∷ b't' ∷ b'y' ∷ [], equity)
    ∷ (b'i' ∷ b'n' ∷ b'c' ∷ b'o' ∷ b'm' ∷ b'e' ∷ [], income)
    ∷ (b'e' ∷ b'x' ∷ b'p' ∷ b'e' ∷ b'n' ∷ b's' ∷ b'e' ∷ [], expense)
    ∷ []

abbrev pub normal_balances : List (Text × NormalBalance)
normal_balances =
    (b'd' ∷ b'e' ∷ b'b' ∷ b'i' ∷ b't' ∷ [], debit_balance)
    ∷ (b'c' ∷ b'r' ∷ b'e' ∷ b'd' ∷ b'i' ∷ b't' ∷ [], credit_balance)
    ∷ []

abbrev pub unclassified : Text
unclassified =
    b'u' ∷ b'n' ∷ b'c' ∷ b'l' ∷ b'a' ∷ b's' ∷ b's' ∷ b'i' ∷ b'f' ∷ b'i' ∷ b'e' ∷ b'd' ∷ []

abbrev pub activities : List Text
activities =
    (b'o' ∷ b'p' ∷ b'e' ∷ b'r' ∷ b'a' ∷ b't' ∷ b'i' ∷ b'n' ∷ b'g' ∷ [])
    ∷ (b'i' ∷ b'n' ∷ b'v' ∷ b'e' ∷ b's' ∷ b't' ∷ b'i' ∷ b'n' ∷ b'g' ∷ [])
    ∷ (b'f' ∷ b'i' ∷ b'n' ∷ b'a' ∷ b'n' ∷ b'c' ∷ b'i' ∷ b'n' ∷ b'g' ∷ [])
    ∷ (b'n' ∷ b'o' ∷ b'n' ∷ b'e' ∷ [])
    ∷ unclassified
    ∷ []

abbrev pub choose {ℓ} : {A : Type ℓ} → Text → List (Text × A) → Fallible A
choose t choices = or_err (find (λ c. text_eq (c.0) t) choices) bad_choice >>= λ c. ok (c.1)

-- normalizeCashFlowActivity
unfoldable pub normalize_cash_flow_activity : Strings → Text → Fallible Text
normalize_cash_flow_activity s value =
    let trimmed = s.to_lower (s.trim_space value) in
    let activity = if is_empty trimmed then unclassified else trimmed in
    guard (exists (text_eq activity) activities) bad_choice >> ok activity

-- CreateAccountRequest and, with its one field more, UpdateAccountRequest.
pub record AccountRequest : Type 0 where
  pub code : Text
  pub name : Text
  pub account_type : Text
  pub normal_balance : Text
  pub currency_id : Text
  pub parent_id : Option Uuid
  pub is_reconcilable : Bool
  pub is_active : Bool
  pub is_cash_equivalent : Bool
  pub is_non_cash_adjustment : Bool
  pub cash_flow_activity : Text

-- What a valid request says.
pub record AccountFields : Type 0 where
  pub code : Text
  pub name : Text
  pub account_type : AccountType
  pub normal_balance : NormalBalance
  pub currency_id : Text
  pub cash_flow_activity : Text

-- The side on which an account of the type grows.
abbrev pub natural_side : AccountType → NormalBalance
natural_side asset = debit_balance
natural_side expense = debit_balance
natural_side _ = credit_balance

unfoldable pub choose_side : Text → AccountType → Fallible NormalBalance
choose_side t type = if is_empty t then ok (natural_side type) else choose t normal_balances

-- CreateAccountRequest.Validate and UpdateAccountRequest.Validate
unfoldable pub validate_account : Strings → AccountRequest → Fallible AccountFields
unfolding choose_side normalize_cash_flow_activity
validate_account s r = do
  let code = s.trim_space r.code
  fail_if (is_empty code) required
  let name = s.trim_space r.name
  fail_if (is_empty name) required
  type ← choose (s.to_lower (s.trim_space r.account_type)) account_types
  side ← choose_side (s.to_lower (s.trim_space r.normal_balance)) type
  currency ← normalize_currency s r.currency_id sar
  activity ← normalize_cash_flow_activity s r.cash_flow_activity
  ok (record {
    code = code;
    name = name;
    account_type = type;
    normal_balance = side;
    currency_id = currency;
    cash_flow_activity = activity;
  })

-- GetAccountByID
abbrev pub get_account_by_id : Uuid → Db → Fallible Account
get_account_by_id id db = or_err (find (λ a. a.id == id) db.accounts) account_not_found

-- GetAccountByCode
abbrev pub get_account_by_code : Text → Db → Fallible Account
get_account_by_code code db = or_err (find (λ a. text_eq a.code code) db.accounts) account_not_found

-- ListAccounts
abbrev pub list_accounts : Db → List Account
list_accounts db = order_by (λ a b. text_leb a.code b.code) db.accounts

abbrev pub parent_exists : Option Uuid → Db → Bool
parent_exists none db = true
parent_exists (some p) db = exists (λ (a : Account). a.id == p) db.accounts

-- CreateAccount
unfoldable pub insert_account : Account → Db → Fallible Db
insert_account a db = do
  fail_if (exists (λ (b : Account). text_eq b.code a.code) db.accounts) duplicate_account_code
  fail_if (exists (λ (b : Account). b.id == a.id) db.accounts) constraint_violation
  guard (parent_exists a.parent_id db) constraint_violation
  ok (record db { accounts = db.accounts ++ a ∷ [] })

-- The recursive query over `descendants`, upwards: `id` is above `a`, or is `a`. One step per account
-- is enough fuel for a hierarchy without a cycle.
unfoldable pub is_below : ℕ → List Account → Uuid → Uuid → Bool
is_below zero accounts id a = a == id
is_below (suc n) accounts id a =
    let above : Bool = elim (find (λ b. b.id == a) accounts) [
      | none ↦ false
      | some b ↦ elim b.parent_id [ none ↦ false | some p ↦ is_below n accounts id p ]
    ] in
    if a == id then true else above

abbrev pub check_hierarchy : Account → Db → Fallible (Unit {0})
check_hierarchy a db = elim a.parent_id [
  | none ↦ ok tt
  | some p ↦ fail_if (is_below (length db.accounts) db.accounts a.id p) bad_choice
]

abbrev pub same_type : AccountType → AccountType → Bool
same_type asset asset = true
same_type liability liability = true
same_type equity equity = true
same_type income income = true
same_type expense expense = true
same_type _ _ = false

-- The account has a line in a move that is posted or reversed.
abbrev pub has_posted_moves : Uuid → Db → Bool
has_posted_moves id db =
    exists
      (λ (l : LineRow).
        l.account_id == id
        && elim (find_move l.move_id db) [ none ↦ false | some m ↦ not (is_draft m.state) ])
      db.lines

abbrev pub overwrite_account : Account → Account → Account
overwrite_account a b = record a { id = b.id; created_at = b.created_at }

-- UpdateAccount
unfoldable pub update_account : Account → Db → Fallible Db
unfolding is_below
update_account a db = do
  check_hierarchy a db
  old ← or_err (find (λ (b : Account). b.id == a.id) db.accounts) account_not_found
  fail_if
      ((not (text_eq old.code a.code) || not (same_type old.account_type a.account_type))
        && has_posted_moves a.id db)
      account_has_posted_moves
  fail_if (exists (λ (b : Account). text_eq b.code a.code && not (b.id == a.id)) db.accounts)
      duplicate_account_code
  guard (parent_exists a.parent_id db) constraint_violation
  ok (record db { accounts = update_where (λ b. b.id == a.id) (overwrite_account a) db.accounts })
