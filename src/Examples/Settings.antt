-- ===== src/Examples/Settings.antt =====
-- Runs on the configuration, a journal and a request.
use cashflow_backend.Base.{
  ◌≡◌, refl, none, some, List, [], ◌∷◌, exists, update_where, text_eq, ok, err,
}
use cashflow_backend.Base.Int.{pos, ◌+ℤ◌}
use cashflow_backend.Domain.{AccountingConfiguration, Journal, constraint_violation}
use cashflow_backend.Masters.Journals.{
  update_configuration, update_configuration-twice, update_journal,
}
use cashflow_backend.Moves.Requests.{
  Strings, sar, parse_date, normalize_currency, check_line, MoveLineRequest, CreateMoveRequest,
  validate_move_request, IsValidRequest, validate_move_request-IsValidRequest,
}
use cashflow_backend.Examples.Books.{empty_books, example_journal}

abbrev example_configuration : AccountingConfiguration
example_configuration = record {
  retained_earnings_account_id = 1;
  fx_gain_account_id = 2;
  fx_loss_account_id = 2;
  fx_reconciliation_journal_id = 1;
  functional_currency = [];
}

configured :
    update_configuration example_configuration empty_books
    ≡ ok (record empty_books { configurations = example_configuration ∷ [] })
unfolding update_configuration exists
configured = refl

update_configuration-twice_example :
    update_configuration example_configuration
      (record empty_books { configurations = example_configuration ∷ [] })
    ≡ err constraint_violation
update_configuration-twice_example =
    update_configuration-twice example_configuration example_configuration empty_books configured

abbrev renamed : Journal
renamed = record example_journal { name = b'N' ∷ []; next_number = 7 }

renamed_once :
    update_journal renamed empty_books
    ≡ ok (record empty_books { journals = record example_journal { name = b'N' ∷ [] } ∷ [] })
unfolding update_journal exists update_where
renamed_once = refl

abbrev pub plain_strings : Strings
plain_strings = record {
  trim_space = λ t. t;
  to_upper = λ t. t;
  to_lower = λ t. t;
  rune_count = λ t. 1;
  parse_layout = λ t. some 12;
  format_layout = λ d. b'd' ∷ [];
}

abbrev request_line : MoveLineRequest
request_line = record {
  account_id = 1;
  partner_id = none;
  debit = pos 5;
  credit = pos 0;
  amount_currency = pos 0;
  currency_id = [];
  cost_center_id = none;
  matching_number = [];
}

abbrev sar_lines : List MoveLineRequest
sar_lines =
    record request_line { currency_id = sar }
    ∷ record request_line { currency_id = sar; debit = pos 0; credit = pos 5 }
    ∷ []

abbrev example_request : CreateMoveRequest
example_request = record {
  journal_id = 1;
  date = b'd' ∷ [];
  ref = [];
  lines = request_line ∷ record request_line { debit = pos 0; credit = pos 5 } ∷ [];
}

request_valid :
    validate_move_request plain_strings example_request
    ≡ ok (record example_request { lines = sar_lines })
unfolding validate_move_request parse_date text_eq check_line normalize_currency exists ◌+ℤ◌
request_valid = refl

validate_move_request-IsValidRequest_example : IsValidRequest sar_lines
validate_move_request-IsValidRequest_example =
    validate_move_request-IsValidRequest plain_strings example_request request_valid
