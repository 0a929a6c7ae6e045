-- ===== src/Moves/Requests.antt =====
-- CreateMoveRequest.Validate with parseDate and normalizeCurrency (dto.go). Package strings and
-- package time are a parameter.
use cashflow_backend.Base.{
  ℕ, ◌≡◌, refl, sym, ap, ◌∙◌, false, not, ◌&&◌, ◌||◌, Option, List, [], ◌∷◌, Text, ◌==◌, text_eq,
  is_empty, ltb, if◌then◌else◌, exists, length, arith, ok, ◌>>=◌, ◌>>◌, guard, fail_if, or_err, All,
  suc, subst, fail_if-eq-ok, guard-eq-ok, >>=-eq-ok, ok-injective,
}
use cashflow_backend.Base.Int.{pos, ◌+ℤ◌, eqb_ℤ, +ℤ-zero, +ℤ_assoc, eqb_ℤ_iff, zero-+ℤ}
use cashflow_backend.Domain.{
  Uuid, uuid_nil, Date, Decimal, Fallible, required, bad_date, bad_currency, both_debit_and_credit,
  move_requires_at_least_two_lines, negative_amounts_not_allowed, zero_amount_line, unbalanced_move,
}
use cashflow_backend.Domain.Balance.{is_negative, is_zero}

-- What the program calls on texts.
pub record Strings : Type 0 where
  pub trim_space : Text → Text
  pub to_upper : Text → Text
  pub to_lower : Text → Text
  -- utf8.RuneCountInString
  pub rune_count : Text → ℕ
  -- time.Parse and Format with the layout 2006-01-02
  pub parse_layout : Text → Option Date
  pub format_layout : Date → Text

abbrev pub sar : Text
sar = b'S' ∷ b'A' ∷ b'R' ∷ []

-- money.SupportedCurrencies
abbrev pub supported_currencies : List Text
supported_currencies =
    sar
    ∷ (b'U' ∷ b'S' ∷ b'D' ∷ [])
    ∷ (b'E' ∷ b'U' ∷ b'R' ∷ [])
    ∷ (b'G' ∷ b'B' ∷ b'P' ∷ [])
    ∷ (b'K' ∷ b'W' ∷ b'D' ∷ [])
    ∷ (b'B' ∷ b'H' ∷ b'D' ∷ [])
    ∷ (b'J' ∷ b'P' ∷ b'Y' ∷ [])
    ∷ []

-- parseDate
unfoldable pub parse_date : Strings → Text → Fallible Date
parse_date s value = do
  date ← or_err (s.parse_layout value) bad_date
  guard (text_eq (s.format_layout date) value) bad_date
  ok date

-- normalizeCurrency
unfoldable pub normalize_currency : Strings → Text → Text → Fallible Text
normalize_currency s value default_code =
    let trimmed = s.to_upper (s.trim_space value) in
    let code = if is_empty trimmed then default_code else trimmed in
    guard (exists (text_eq code) supported_currencies) bad_currency >> ok code

pub record MoveLineRequest : Type 0 where
  pub account_id : Uuid
  pub partner_id : Option Uuid
  pub debit : Decimal
  pub credit : Decimal
  pub amount_currency : Decimal
  pub currency_id : Text
  pub cost_center_id : Option Uuid
  pub matching_number : Text

pub record CreateMoveRequest : Type 0 where
  pub journal_id : Uuid
  pub date : Text
  pub ref : Text
  pub lines : List MoveLineRequest

-- The body of the loop over the lines, which leaves the normalized currency in the line.
unfoldable pub check_line : Strings → MoveLineRequest → Fallible MoveLineRequest
check_line s l = do
  fail_if (l.account_id == uuid_nil) required
  fail_if (is_negative l.debit || is_negative l.credit) negative_amounts_not_allowed
  fail_if (is_zero l.debit && is_zero l.credit) zero_amount_line
  fail_if (not (is_zero l.debit) && not (is_zero l.credit)) both_debit_and_credit
  code ← normalize_currency s l.currency_id sar
  ok (record l { currency_id = code })

-- The loop, with the running totals: the checked lines, and the totals.
unfoldable pub check_lines :
    Strings
    → Decimal
    → Decimal
    → List MoveLineRequest
    → Fallible (List MoveLineRequest × (Decimal × Decimal))
check_lines s d c [] = ok ([], (d, c))
check_lines s d c (l ∷ ls) = do
  l' ← check_line s l
  (ls', totals) ← check_lines s (d +ℤ l.debit) (c +ℤ l.credit) ls
  ok (l' ∷ ls', totals)

-- CreateMoveRequest.Validate, with the request as it is afterwards
unfoldable pub validate_move_request : Strings → CreateMoveRequest → Fallible CreateMoveRequest
unfolding check_lines
validate_move_request s r = do
  fail_if (r.journal_id == uuid_nil) required
  _ ← parse_date s r.date
  fail_if (ltb (length r.lines) 2) move_requires_at_least_two_lines
  (lines, (d, c)) ← check_lines s (pos 0) (pos 0) r.lines
  guard (eqb_ℤ d c) unbalanced_move
  ok (record r { lines = lines })

-- What each line of a valid request has.
pub record IsOneSided (l : MoveLineRequest) : Type 0 where
  pub account : (l.account_id == uuid_nil) ≡ false
  pub nonnegative : (is_negative l.debit || is_negative l.credit) ≡ false
  pub nonzero : (is_zero l.debit && is_zero l.credit) ≡ false
  pub one_side : (not (is_zero l.debit) && not (is_zero l.credit)) ≡ false

unfoldable pub request_debits : List MoveLineRequest → Decimal
request_debits [] = pos 0
request_debits (l ∷ ls) = l.debit +ℤ request_debits ls

unfoldable pub request_credits : List MoveLineRequest → Decimal
request_credits [] = pos 0
request_credits (l ∷ ls) = l.credit +ℤ request_credits ls

pub record IsValidRequest (ls : List MoveLineRequest) : Type 0 where
  pub enough : ltb (length ls) 2 ≡ false
  pub one_sided : All IsOneSided ls
  pub equal : request_debits ls ≡ request_credits ls

-- The loop changes no amount.
check_line_inv :
    (s : Strings) (l : MoveLineRequest) {l' : MoveLineRequest}
    → check_line s l ≡ ok l'
    → IsOneSided l' × ((l'.debit ≡ l.debit) × (l'.credit ≡ l.credit))
unfolding check_line
check_line_inv s l {l'} e =
    let (a, e1) = fail_if-eq-ok (l.account_id == uuid_nil) _ _ e in
    let (b, e2) = fail_if-eq-ok (is_negative l.debit || is_negative l.credit) _ _ e1 in
    let (c, e3) = fail_if-eq-ok (is_zero l.debit && is_zero l.credit) _ _ e2 in
    let (d, e4) = fail_if-eq-ok (not (is_zero l.debit) && not (is_zero l.credit)) _ _ e3 in
    let (code, _, e5) = >>=-eq-ok (normalize_currency s l.currency_id sar) _ e4 in
    let k = ok-injective e5 in
    (
      subst IsOneSided k (record { account = a; nonnegative = b; nonzero = c; one_side = d }),
      (
        ap (λ (x : MoveLineRequest). x.debit) (sym k),
        ap (λ (x : MoveLineRequest). x.credit) (sym k),
      ),
    )

check_lines_inv :
    (s : Strings) (d c : Decimal) (ls : List MoveLineRequest)
    → {r : List MoveLineRequest × (Decimal × Decimal)} → check_lines s d c ls ≡ ok r
    → (length (r.0) ≡ length ls)
      × All IsOneSided (r.0)
      × (r.1.0 ≡ d +ℤ request_debits (r.0))
      × (r.1.1 ≡ c +ℤ request_credits (r.0))
unfolding check_lines request_debits request_credits
check_lines_inv s d c [] {r} e =
    let k = sym (ok-injective e) in
    subst
      (λ (t : List MoveLineRequest × (Decimal × Decimal)).
        (length (t.0) ≡ 0)
        × All IsOneSided (t.0)
        × (t.1.0 ≡ d +ℤ request_debits (t.0))
        × (t.1.1 ≡ c +ℤ request_credits (t.0)))
      (sym k) (refl, tt, sym (+ℤ-zero d), sym (+ℤ-zero c))
check_lines_inv s d c (l ∷ ls) {r} e =
    let (l', f, e1) = >>=-eq-ok (check_line s l) _ e in
    let (q, g, e2) = >>=-eq-ok (check_lines s (d +ℤ l.debit) (c +ℤ l.credit) ls) _ e1 in
    let (one, (same_d, same_c)) = check_line_inv s l f in
    let (n, sided, td, tc) = check_lines_inv s (d +ℤ l.debit) (c +ℤ l.credit) ls g in
    subst
      (λ (t : List MoveLineRequest × (Decimal × Decimal)).
        (length (t.0) ≡ suc (length ls))
        × All IsOneSided (t.0)
        × (t.1.0 ≡ d +ℤ request_debits (t.0))
        × (t.1.1 ≡ c +ℤ request_credits (t.0)))
      (ok-injective e2)
      (
        ap suc n,
        (one, sided),
        td ∙ +ℤ_assoc d l.debit _ ∙ ap (λ x. d +ℤ (x +ℤ request_debits (q.0))) (sym same_d),
        tc ∙ +ℤ_assoc c l.credit _ ∙ ap (λ x. c +ℤ (x +ℤ request_credits (q.0))) (sym same_c),
      )

-- A request that passes CreateMoveRequest.Validate has two lines or more, each with an account and
-- either a debit or a credit that is positive, and the debits and the credits have the same sum.
pub validate_move_request-IsValidRequest :
    (s : Strings) (r : CreateMoveRequest) {r' : CreateMoveRequest}
    → validate_move_request s r ≡ ok r'
    → IsValidRequest r'.lines
unfolding validate_move_request
validate_move_request-IsValidRequest s r {r'} e =
    let (_, e1) = fail_if-eq-ok (r.journal_id == uuid_nil) _ _ e in
    let (_, _, e2) = >>=-eq-ok (parse_date s r.date) _ e1 in
    let (n, e3) = fail_if-eq-ok (ltb (length r.lines) 2) _ _ e2 in
    let (q, g, e4) = >>=-eq-ok (check_lines s (pos 0) (pos 0) r.lines) _ e3 in
    let (t, e5) = guard-eq-ok (eqb_ℤ (q.1.0) (q.1.1)) _ _ e4 in
    let (len, sided, td, tc) = check_lines_inv s (pos 0) (pos 0) r.lines g in
    subst (λ (x : CreateMoveRequest). IsValidRequest x.lines) (ok-injective e5)
      (record {
        enough = ap (λ k. ltb k 2) len ∙ n;
        one_sided = sided;
        equal =
            sym (zero-+ℤ _) ∙ sym td ∙ ground (arith, eqb_ℤ_iff (q.1.0) (q.1.1)) ∙ tc ∙ zero-+ℤ _;
      })
