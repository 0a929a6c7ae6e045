-- ===== src/Examples/Events.antt =====
-- An event that is ingested twice.
use cashflow_backend.Base.{
  ◌≡◌, refl, true, none, some, [], ◌∷◌, ok, find, exists, order_by, update_where, delete_where,
  text_eq,
}
use cashflow_backend.Base.Int.{pos, ◌+ℤ◌, neg}
use cashflow_backend.Domain.{AccountMove, Fallible, SubledgerEventMapping}
use cashflow_backend.Domain.Balance.{validate_balance}
use cashflow_backend.Repository.Tables.{Db}
use cashflow_backend.Repository.Rows.{
  line_row, line_accepted, move_accepted, name_free, insert_move_lines, next_sequence,
  lock_open_period, get_period_by_date,
}
use cashflow_backend.Repository.Audit.{insert_audit_log}
use cashflow_backend.Repository.Posting.{post_atomic, post_new_move_with_event}
use cashflow_backend.Moves.Requests.{sar, parse_date, normalize_currency}
use cashflow_backend.Moves.Ingest.{
  IngestRequest, Rates, validate_ingest, get_processed_move, ingest,
}
use cashflow_backend.Masters.Journals.{get_mapping, save_mapping}
use cashflow_backend.Masters.UseCases.{validate_mapping, change_mapping}
use cashflow_backend.Masters.UseCases.Mappings.{change_mapping-get_mapping}
use cashflow_backend.Moves.Ingest.Laws.{ingest-again}
use cashflow_backend.Moves.Ingest.Steps.{IsProduct, ingest-Reach}
use cashflow_backend.Repository.Steps.{Reach, stays}
use cashflow_backend.Examples.Books.{
  example-IsFixedPoint, example_env, empty_books, books_after, move_after, example_move,
}
use cashflow_backend.Examples.Settings.{plain_strings}

abbrev sale_mapping : SubledgerEventMapping
sale_mapping = record {
  event_type = b'S' ∷ [];
  journal_id = 1;
  debit_account_id = 1;
  credit_account_id = 2;
  description = [];
  is_active = true;
}

abbrev mapped_books : Db
mapped_books = record empty_books { mappings = sale_mapping ∷ [] }

mapping_saved :
    change_mapping plain_strings sale_mapping empty_books ≡ ok (sale_mapping, mapped_books)
unfolding change_mapping validate_mapping save_mapping find exists text_eq
mapping_saved = refl

change_mapping-get_mapping_example : get_mapping (b'S' ∷ []) mapped_books ≡ ok sale_mapping
change_mapping-get_mapping_example =
    change_mapping-get_mapping plain_strings sale_mapping empty_books mapping_saved refl

abbrev example_rates : Rates
example_rates = record { get_closing_rate = none; one = pos 1; functional_currency = sar }

abbrev sale : IngestRequest
sale = record {
  idempotency_key = b'k' ∷ [];
  event_type = b'S' ∷ [];
  date = b'd' ∷ [];
  ref = [];
  amount = pos 5;
  currency = sar;
}

abbrev ingested : Fallible (AccountMove × Db)
ingested = ingest example_env plain_strings example_rates 1000 sale mapped_books mapped_books

abbrev ingested_books : Db
ingested_books = books_after mapped_books ingested

abbrev ingested_move : AccountMove
ingested_move = move_after example_move ingested

ingested_once : ingested ≡ ok (ingested_move, ingested_books)
unfolding ingest post_new_move_with_event post_atomic find exists validate_balance ◌+ℤ◌ neg
    get_period_by_date order_by lock_open_period insert_move_lines line_accepted delete_where
    line_row next_sequence name_free update_where insert_audit_log move_accepted text_eq
    normalize_currency parse_date
ingested_once = refl

sale_valid : validate_ingest plain_strings sale ≡ ok (sale, 12)
unfolding validate_ingest normalize_currency parse_date text_eq exists
sale_valid = refl

-- The same key with another amount.
abbrev changed_sale : IngestRequest
changed_sale = record sale { amount = pos 9 }

changed_sale_valid : validate_ingest plain_strings changed_sale ≡ ok (changed_sale, 12)
unfolding validate_ingest normalize_currency parse_date text_eq exists
changed_sale_valid = refl

ingest-again_example :
    (m : AccountMove) × (get_processed_move example_env (b'k' ∷ []) ingested_books ≡ ok (some m))
    × (ingest example_env plain_strings example_rates 2000 changed_sale mapped_books ingested_books
        ≡ ok (m, ingested_books))
ingest-again_example =
    ingest-again example_env plain_strings example_rates example_rates 1000 2000 sale changed_sale
      mapped_books mapped_books mapped_books ingested_once sale_valid changed_sale_valid refl

example-IsProduct : IsProduct example_env
example-IsProduct = record { fixed = example-IsFixedPoint; product_kept = λ a b. refl }

ingest-Reach_example : Reach example_env mapped_books ingested_books
ingest-Reach_example =
    ingest-Reach example_env plain_strings example_rates 1000 sale mapped_books mapped_books
      example-IsProduct ingested_once stays
