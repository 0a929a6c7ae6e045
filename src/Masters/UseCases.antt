-- ===== src/Masters/UseCases.antt =====
-- The use cases of accounts, journals, event mappings and the configuration
-- (usecase_create_account.go, usecase_update_account.go, usecase_create_journal.go,
-- usecase_update_journal.go, usecase_save_subledger_mapping.go,
-- usecase_update_accounting_configuration.go), and the validation of their requests (dto.go).
pub mod Mappings
use cashflow_backend.Base.{
  ℕ, Bool, true, false, not, ◌||◌, Option, none, some, List, [], ◌∷◌, Text, ltb, ◌==◌, text_eq,
  is_empty, if◌then◌else◌, exists, length, ok, err, find, or_err, ◌>>=◌, ◌>>◌, guard, fail_if,
}
use cashflow_backend.Domain.{
  Uuid, uuid_nil, Time, Account, Journal, SubledgerEventMapping, AccountingConfiguration, equity,
  income, expense, Fallible, duplicate_account_code, duplicate_journal_code, account_inactive,
  journal_not_found, journal_inactive, required, too_long, bad_choice, unknown_account,
  retained_account_unfit, fx_accounts_unfit,
}
use cashflow_backend.Repository.Tables.{Env, Db}
use cashflow_backend.Moves.Requests.{Strings, normalize_currency, sar}
use cashflow_backend.Masters.Accounts.{
  AccountRequest, AccountFields, validate_account, get_account_by_id, get_account_by_code,
  insert_account, update_account, same_type,
}
use cashflow_backend.Masters.Journals.{
  get_journal_by_id, get_journal_by_code, create_journal, update_journal, save_mapping,
  update_configuration,
}

-- A lookup by code that must find nothing.
abbrev pub must_miss {ℓ} : {A : Type ℓ} → Fallible A → Fallible (Unit {0}) → Fallible (Unit {0})
must_miss (ok x) taken = taken
must_miss (err e) taken = ok tt

abbrev pub check_parent : Option Uuid → Db → Fallible (Unit {0})
check_parent none db = ok tt
check_parent (some p) db = get_account_by_id p db >>= λ a. guard a.is_active account_inactive

-- The account that a request describes, with the identity and the creation given.
abbrev pub requested_account : AccountRequest → AccountFields → Uuid → Bool → Time → Time → Account
requested_account r f id active created now = record {
  id = id;
  code = f.code;
  name = f.name;
  account_type = f.account_type;
  normal_balance = f.normal_balance;
  currency_id = f.currency_id;
  parent_id = r.parent_id;
  is_reconcilable = r.is_reconcilable;
  is_active = active;
  is_cash_equivalent = r.is_cash_equivalent;
  is_non_cash_adjustment = r.is_non_cash_adjustment;
  cash_flow_activity = f.cash_flow_activity;
  created_at = created;
  updated_at = now;
}

-- CreateAccountUseCase.Execute
unfoldable pub create_account : Env → Strings → Time → AccountRequest → Db → Fallible (Account × Db)
create_account env s now r db = do
  f ← validate_account s r
  must_miss (get_account_by_code f.code db) (err duplicate_account_code)
  check_parent r.parent_id db
  let a = requested_account r f (env.new_uuid 0) true now now
  db' ← insert_account a db
  ok (a, db')

abbrev pub is_itself : Uuid → Option Uuid → Bool
is_itself id none = false
is_itself id (some p) = p == id

-- UpdateAccountUseCase.Execute
unfoldable pub change_account :
    Strings → Time → Uuid → AccountRequest → Db → Fallible (Account × Db)
change_account s now id r db = do
  fail_if (id == uuid_nil) required
  f ← validate_account s r
  old ← get_account_by_id id db
  fail_if (is_itself id r.parent_id) bad_choice
  check_parent r.parent_id db
  let a = requested_account r f old.id r.is_active old.created_at now
  db' ← update_account a db
  ok (a, db')

pub record JournalRequest : Type 0 where
  pub code : Text
  pub name : Text
  pub journal_type : Text
  pub sequence_prefix : Text

abbrev pub journal_types : List Text
journal_types =
    (b'g' ∷ b'e' ∷ b'n' ∷ b'e' ∷ b'r' ∷ b'a' ∷ b'l' ∷ [])
    ∷ (b'b' ∷ b'a' ∷ b'n' ∷ b'k' ∷ [])
    ∷ (b'c' ∷ b'a' ∷ b's' ∷ b'h' ∷ [])
    ∷ (b's' ∷ b'a' ∷ b'l' ∷ b'e' ∷ [])
    ∷ (b'p' ∷ b'u' ∷ b'r' ∷ b'c' ∷ b'h' ∷ b'a' ∷ b's' ∷ b'e' ∷ [])
    ∷ []

-- CreateJournalRequest.Validate, with the request as it leaves it
unfoldable pub validate_journal : Strings → JournalRequest → Fallible JournalRequest
validate_journal s r = do
  let code = s.to_upper (s.trim_space r.code)
  let name = s.trim_space r.name
  let type = s.to_lower (s.trim_space r.journal_type)
  let prefix = s.trim_space r.sequence_prefix
  fail_if (is_empty code) required
  fail_if (ltb 10 (length code)) too_long
  fail_if (is_empty name) required
  guard (exists (text_eq type) journal_types) bad_choice
  fail_if (is_empty prefix) required
  ok (record { code = code; name = name; journal_type = type; sequence_prefix = prefix })

-- CreateJournalUseCase.Execute
unfoldable pub add_journal : Env → Strings → Time → JournalRequest → Db → Fallible (Journal × Db)
add_journal env s now request db = do
  r ← validate_journal s request
  must_miss (get_journal_by_code r.code db) (err duplicate_journal_code)
  create_journal env now
      (record {
        id = env.new_uuid 0;
        code = r.code;
        name = r.name;
        journal_type = r.journal_type;
        sequence_prefix = r.sequence_prefix;
        next_number = 1;
        is_active = true;
        created_at = now;
      })
      db

abbrev pub active_or : Option Bool → Bool → Bool
active_or none old = old
active_or (some b) old = b

-- UpdateJournalUseCase.Execute, with the fields of UpdateJournalRequest and its Validate
unfoldable pub change_journal :
    Strings → Uuid → Text → Text → Option Bool → Db → Fallible (Journal × Db)
change_journal s id name prefix active db = do
  fail_if (id == uuid_nil) journal_not_found
  let name' = s.trim_space name
  let prefix' = s.trim_space prefix
  fail_if (is_empty name') required
  fail_if (is_empty prefix') required
  old ← get_journal_by_id id db
  let j : Journal = record old {
    name = name';
    sequence_prefix = prefix';
    is_active = active_or active old.is_active;
  }
  db' ← update_journal j db
  ok (j, db')

-- SaveSubledgerEventMappingRequest.Validate, with the request as it leaves it
unfoldable pub validate_mapping : Strings → SubledgerEventMapping → Fallible SubledgerEventMapping
validate_mapping s m = do
  let event_type = s.trim_space m.event_type
  fail_if (is_empty event_type) required
  fail_if (m.journal_id == uuid_nil) required
  fail_if (m.debit_account_id == uuid_nil) required
  fail_if (m.credit_account_id == uuid_nil) required
  ok (record m { event_type = event_type })

-- The lookup of a mapped account, whose every failure has one error.
abbrev pub mapped_account : Uuid → Db → Fallible Account
mapped_account id db = or_err (find (λ a. a.id == id) db.accounts) unknown_account

-- SaveSubledgerMappingUseCase.Execute
unfoldable pub change_mapping :
    Strings → SubledgerEventMapping → Db → Fallible (SubledgerEventMapping × Db)
change_mapping s request db = do
  m ← validate_mapping s request
  journal ← get_journal_by_id m.journal_id db
  debit ← mapped_account m.debit_account_id db
  credit ← mapped_account m.credit_account_id db
  db' ← save_mapping m db
  ok (m, db')

-- UpdateAccountingConfigurationRequest.Validate, with the request as it leaves it
unfoldable pub validate_configuration :
    Strings → AccountingConfiguration → Fallible AccountingConfiguration
validate_configuration s c = do
  fail_if (c.retained_earnings_account_id == uuid_nil) required
  fail_if (c.fx_gain_account_id == uuid_nil) required
  fail_if (c.fx_loss_account_id == uuid_nil) required
  fail_if (c.fx_reconciliation_journal_id == uuid_nil) required
  currency ← normalize_currency s c.functional_currency sar
  ok (record c { functional_currency = currency })

-- UpdateAccountingConfigurationUseCase.Execute
unfoldable pub change_configuration :
    Strings → AccountingConfiguration → Db → Fallible (AccountingConfiguration × Db)
change_configuration s request db = do
  c ← validate_configuration s request
  retained ← get_account_by_id c.retained_earnings_account_id db
  guard (same_type retained.account_type equity) retained_account_unfit
  gain ← get_account_by_id c.fx_gain_account_id db
  guard (same_type gain.account_type income) fx_accounts_unfit
  loss ← get_account_by_id c.fx_loss_account_id db
  guard (same_type loss.account_type expense) fx_accounts_unfit
  journal ← get_journal_by_id c.fx_reconciliation_journal_id db
  guard journal.is_active journal_inactive
  db' ← update_configuration c db
  ok (c, db')
