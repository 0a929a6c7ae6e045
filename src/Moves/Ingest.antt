-- ===== src/Moves/Ingest.antt =====
-- The ingestion of subledger events: IngestSubledgerEventRequest.Validate (dto.go),
-- GetProcessedEventMove (internal/repository.go) and IngestSubledgerEventUseCase.Execute.
pub mod Laws
pub mod Steps
use cashflow_backend.Base.{
  ℕ, ◌+◌, Bool, true, false, not, ◌&&◌, ◌||◌, Option, none, some, List, [], ◌∷◌, ◌++◌, Text, ltb,
  text_eq, is_empty, if◌then◌else◌, find, ok, err, ◌>>=◌, ◌>>◌, guard, fail_if, or_err, Result,
}
use cashflow_backend.Base.Int.{pos, neg}
use cashflow_backend.Domain.{
  Uuid, uuid_nil, Date, Time, Decimal, Account, FiscalPeriod, Journal, SubledgerEventMapping,
  AccountMoveLine, MoveHeader, AccountMove, draft, FinancialAuditLog, Fallible, required, too_long,
  bad_rate, exchange_rate_missing, account_inactive, journal_inactive,
}
use cashflow_backend.Domain.Balance.{is_zero, is_negative, is_positive, can_post}
use cashflow_backend.Repository.Tables.{Env, ProcessedEvent, Db}
use cashflow_backend.Repository.Rows.{get_move_by_id, get_period_by_date}
use cashflow_backend.Repository.Posting.{EventKey, post_new_move_with_event}
use cashflow_backend.Masters.Accounts.{get_account_by_id}
use cashflow_backend.Masters.Journals.{get_mapping, get_journal_by_id}
use cashflow_backend.Moves.Requests.{Strings, parse_date, normalize_currency}
use cashflow_backend.Moves.Posting.{new_financial_audit, account_move_text}

pub record IngestRequest : Type 0 where
  pub idempotency_key : Text
  pub event_type : Text
  pub date : Text
  pub ref : Text
  pub amount : Decimal
  pub currency : Text

-- IngestSubledgerEventRequest.Validate, with the request as it leaves it and the date
unfoldable pub validate_ingest : Strings → IngestRequest → Fallible (IngestRequest × Date)
validate_ingest s r = do
  let key = s.trim_space r.idempotency_key
  fail_if (is_empty key) required
  let event_type = s.trim_space r.event_type
  fail_if (is_empty event_type) required
  fail_if (ltb 128 (s.rune_count key)) too_long
  fail_if (ltb 100 (s.rune_count event_type)) too_long
  fail_if (ltb 255 (s.rune_count r.ref)) too_long
  fail_if (is_zero r.amount || is_negative r.amount) required
  date ← parse_date s r.date
  currency ← normalize_currency s r.currency []
  ok (record r { idempotency_key = key; event_type = event_type; currency = currency }, date)

abbrev pub processed_move : Env → Db → Option ProcessedEvent → Fallible (Option AccountMove)
processed_move env db none = ok none
processed_move env db (some p) = get_move_by_id env p.move_id db >>= λ m. ok (some m)

-- GetProcessedEventMove; `none` stands for `nil, nil`
unfoldable pub get_processed_move : Env → Text → Db → Fallible (Option AccountMove)
get_processed_move env key db =
    processed_move env db (find (λ (p : ProcessedEvent). text_eq p.idempotency_key key) db.events)

-- The rate provider, which may be nil, and the currency of the books.
pub record Rates : Type 0 where
  pub get_closing_rate : Option (Text → Text → Date → Fallible Decimal)
  pub one : Decimal
  pub functional_currency : Text

abbrev pub ask_rate :
    Option (Text → Text → Date → Fallible Decimal) → Text → Text → Date → Fallible Decimal
ask_rate none from to date = err exchange_rate_missing
ask_rate (some rate) from to date = rate from to date

-- The rate of the event.
unfoldable pub event_rate : Rates → Text → Date → Fallible Decimal
event_rate rates currency date =
    if text_eq currency rates.functional_currency
    then ok rates.one
    else (ask_rate rates.get_closing_rate currency rates.functional_currency date >>= λ rate.
        guard (is_positive rate) bad_rate >> ok rate)

-- "INGEST_POST"
abbrev pub ingest_text : Text
ingest_text = b'I' ∷ b'N' ∷ b'G' ∷ b'E' ∷ b'S' ∷ b'T' ∷ b'_' ∷ b'P' ∷ b'O' ∷ b'S' ∷ b'T' ∷ []

abbrev pub event_ref : IngestRequest → Text
event_ref r = b'[' ∷ (r.event_type ++ (b']' ∷ b' ' ∷ r.ref))

-- The entry of an event.
unfoldable pub event_move :
    Env → Time → Date → IngestRequest → Uuid → Uuid → Uuid → Uuid → Decimal → AccountMove
event_move env now date r journal period debit_account credit_account amount =
    let id = env.new_uuid 0 in
    let line : AccountMoveLine = record {
      id = env.new_uuid 1;
      move_id = id;
      account_id = debit_account;
      partner_id = none;
      debit = amount;
      credit = pos 0;
      amount_currency = r.amount;
      currency_id = r.currency;
      cost_center_id = none;
      matching_number = [];
      date = date;
      created_at = now;
    } in
    record {
      header = record {
        id = id;
        name = [];
        journal_id = journal;
        period_id = period;
        date = date;
        state = draft;
        ref = event_ref r;
        reversed_move_id = none;
        hash_signature = [];
        posted_at = none;
        posted_by = some uuid_nil;
        created_by = none;
        created_at = now;
        updated_at = 0;
      };
      lines =
          line
          ∷ record line {
            id = env.new_uuid 2;
            account_id = credit_account;
            debit = pos 0;
            credit = amount;
            amount_currency = neg r.amount;
          }
          ∷ [];
    }

-- The mapping, the accounts, the period, the journal and the rate, and the entry made of them.
unfoldable pub prepare_event : Env → Rates → Time → Date → IngestRequest → Db → Fallible AccountMove
unfolding event_rate event_move
prepare_event env rates now date r db = do
  mapping ← get_mapping r.event_type db
  debit ← get_account_by_id mapping.debit_account_id db
  guard debit.is_active account_inactive
  credit ← get_account_by_id mapping.credit_account_id db
  guard credit.is_active account_inactive
  period ← get_period_by_date date db
  can_post period
  journal ← get_journal_by_id mapping.journal_id db
  guard journal.is_active journal_inactive
  rate ← event_rate rates r.currency date
  ok (
      event_move env now date r journal.id period.id debit.id credit.id
        (env.product4 r.amount rate))

-- After a failure: what another transaction has made of the event, in the tables as they then are.
unfoldable pub after_failure :
    Env → Text → Db → Fallible (AccountMove × Db) → Fallible (AccountMove × Db)
unfolding get_processed_move
after_failure env key later (ok r) = ok r
after_failure env key later (err e) =
    get_processed_move env key later >>= λ m. or_err m e >>= λ m. ok (m, later)

unfoldable pub ingest_new :
    Env → Rates → Time → Date → IngestRequest → Db → Db → Fallible (AccountMove × Db)
unfolding prepare_event after_failure
ingest_new env rates now date r later db = do
  m ← prepare_event env rates now date r db
  after_failure env r.idempotency_key later (
      post_new_move_with_event env now m
        (new_financial_audit env account_move_text m.header.id ingest_text uuid_nil now)
        (record { idempotency_key = r.idempotency_key; event_type = r.event_type }) db)

abbrev pub ingest_known :
    Option AccountMove → Db → Fallible (AccountMove × Db) → Fallible (AccountMove × Db)
ingest_known none db rest = rest
ingest_known (some m) db rest = ok (m, db)

-- IngestSubledgerEventUseCase.Execute; `later` are the tables that it reads after a failure
unfoldable pub ingest :
    Env → Strings → Rates → Time → IngestRequest → Db → Db → Fallible (AccountMove × Db)
unfolding validate_ingest get_processed_move ingest_new
ingest env s rates now request later db = do
  (r, date) ← validate_ingest s request
  existing ← get_processed_move env r.idempotency_key db
  ingest_known existing db (ingest_new env rates now date r later db)
