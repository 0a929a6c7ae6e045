-- ===== src/Domain/Balance.antt =====
-- The checks of an entity on itself (entity.go): FiscalPeriod.CanPost, AccountMove.ValidateBalance,
-- ValidateCanModify and ValidateCanReverse.
use cashflow_backend.Base.{
  ◌≤◌, ◌≡◌, refl, ◌↔◌, inl, inr, Bool, false, ◌&&◌, ◌||◌, List, [], ◌∷◌, length, All, arith, ltb,
  Bool-cases, ok, ◌>>=◌, ◌>>◌, guard, fail_if, fail_if-eq-ok, >>=-eq-ok, insert_by, order_by,
  length-order_by, All-order_by, ap, sym, ◌∙◌,
}
use cashflow_backend.Base.Int.{
  pos, ◌+ℤ◌, ◌<ℤ◌, ◌≤ℤ◌, ltb_ℤ, eqb_ℤ, +ℤ_parts, +ℤ-zero, +ℤ_assoc, +ℤ_left_comm, zero-+ℤ,
  eqb_ℤ_iff,
}
use cashflow_backend.Domain.Types.{
  Decimal, AccountMoveLine, AccountMove, FiscalPeriod, is_open, is_draft, is_posted,
}
use cashflow_backend.Domain.Errors.{
  Fallible, period_closed, move_requires_at_least_two_lines, negative_amounts_not_allowed,
  zero_amount_line, unbalanced_move, move_already_posted, cannot_reverse_unposted_move,
}

abbrev pub is_negative : Decimal → Bool
is_negative a = ltb_ℤ a (pos 0)

abbrev pub is_zero : Decimal → Bool
is_zero a = eqb_ℤ a (pos 0)

abbrev pub is_positive : Decimal → Bool
is_positive a = ltb_ℤ (pos 0) a

-- FiscalPeriod.CanPost
abbrev pub can_post : FiscalPeriod → Fallible (Unit {0})
can_post p = guard (is_open p.state) period_closed

-- The loop of ValidateBalance, with the two running totals.
unfoldable pub total_lines : Decimal → Decimal → List AccountMoveLine → Fallible (Decimal × Decimal)
total_lines d c [] = ok (d, c)
total_lines d c (l ∷ ls) = do
  fail_if (is_negative l.debit || is_negative l.credit) negative_amounts_not_allowed
  fail_if (is_zero l.debit && is_zero l.credit) zero_amount_line
  total_lines (d +ℤ l.debit) (c +ℤ l.credit) ls

unfoldable pub check_totals : Decimal × Decimal → Fallible (Unit {0})
check_totals (d, c) = guard (eqb_ℤ d c) unbalanced_move

-- AccountMove.ValidateBalance, which reads the lines only
unfoldable pub validate_balance : List AccountMoveLine → Fallible (Unit {0})
unfolding total_lines check_totals
validate_balance ls = do
  fail_if (ltb (length ls) 2) move_requires_at_least_two_lines
  total_lines (pos 0) (pos 0) ls >>= check_totals

-- AccountMove.ValidateCanModify
abbrev pub validate_can_modify : AccountMove → Fallible (Unit {0})
validate_can_modify m = guard (is_draft m.state) move_already_posted

-- AccountMove.ValidateCanReverse
abbrev pub validate_can_reverse : AccountMove → Fallible (Unit {0})
validate_can_reverse m = guard (is_posted m.state) cannot_reverse_unposted_move

-- What the double-entry rule says, with no loop: plain sums, and a condition on each line.
unfoldable pub debits : List AccountMoveLine → Decimal
debits [] = pos 0
debits (l ∷ ls) = l.debit +ℤ debits ls

unfoldable pub credits : List AccountMoveLine → Decimal
credits [] = pos 0
credits (l ∷ ls) = l.credit +ℤ credits ls

pub record IsEntry (l : AccountMoveLine) : Type 0 where
  pub debit_nonneg : pos 0 ≤ℤ l.debit
  pub credit_nonneg : pos 0 ≤ℤ l.credit
  pub nonzero : pos 0 <ℤ (l.debit +ℤ l.credit)

pub record IsBalanced (ls : List AccountMoveLine) : Type 0 where
  pub enough : 2 ≤ length ls
  pub entries : All IsEntry ls
  pub equal : debits ls ≡ credits ls

-- One line: the two tests of the loop pass exactly for an entry.
tests_of_IsEntry :
    (l : AccountMoveLine)
    → IsEntry l
    → ((is_negative l.debit || is_negative l.credit) ≡ false)
      × ((is_zero l.debit && is_zero l.credit) ≡ false)
tests_of_IsEntry l h = ground (arith, +ℤ_parts l.debit l.credit)

IsEntry-of_tests :
    (l : AccountMoveLine)
    → (is_negative l.debit || is_negative l.credit) ≡ false
    → (is_zero l.debit && is_zero l.credit) ≡ false
    → IsEntry l
IsEntry-of_tests l p q = ground (arith, +ℤ_parts l.debit l.credit)

total_lines-ok :
    (d c : Decimal) (ls : List AccountMoveLine)
    → All IsEntry ls
    → total_lines d c ls ≡ ok (d +ℤ debits ls, c +ℤ credits ls)
unfolding total_lines debits credits
total_lines-ok d c [] h = ground (arith, +ℤ-zero d, +ℤ-zero c)
total_lines-ok d c (l ∷ ls) h =
    let (p, q) = tests_of_IsEntry l h.0 in
    rw (p, q, total_lines-ok (d +ℤ l.debit) (c +ℤ l.credit) ls h.1, +ℤ_assoc, +ℤ_assoc)

total_lines_inv :
    (d c : Decimal) (ls : List AccountMoveLine) {r : Decimal × Decimal}
    → total_lines d c ls ≡ ok r
    → All IsEntry ls
unfolding total_lines
total_lines_inv d c [] h = tt
total_lines_inv d c (l ∷ ls) h =
    let (p, h') = fail_if-eq-ok _ _ _ h in
    let (q, h'') = fail_if-eq-ok _ _ _ h' in
    (IsEntry-of_tests l p q, total_lines_inv (d +ℤ l.debit) (c +ℤ l.credit) ls h'')

pub validate_balance_of_IsBalanced :
    (ls : List AccountMoveLine) → IsBalanced ls → validate_balance ls ≡ ok tt
unfolding validate_balance
validate_balance_of_IsBalanced ls h =
    let enough : ltb (length ls) 2 ≡ false = ground (arith, h.enough) in
    rw (enough, total_lines-ok (pos 0) (pos 0) ls h.entries)
      (ground (arith, h.equal, zero-+ℤ (debits ls), zero-+ℤ (credits ls)))

pub IsBalanced-of_validate_balance :
    (ls : List AccountMoveLine) → validate_balance ls ≡ ok tt → IsBalanced ls
unfolding validate_balance
IsBalanced-of_validate_balance ls h =
    let (enough, h') = fail_if-eq-ok _ _ _ h in
    let (totals, e, h'') = >>=-eq-ok _ _ h' in
    let entries = total_lines_inv (pos 0) (pos 0) ls e in
    record {
      enough = ground arith;
      entries = entries;
      equal = ground (
        arith,
        total_lines-ok (pos 0) (pos 0) ls entries,
        zero-+ℤ (debits ls),
        zero-+ℤ (credits ls),
        eqb_ℤ_iff (debits ls) (credits ls),
      );
    }

-- The order of the lines does not matter to the double-entry rule.
module _ (before : AccountMoveLine → AccountMoveLine → Bool) where
  debits-insert_by :
      (l : AccountMoveLine) (ls : List AccountMoveLine)
      → debits (insert_by before l ls) ≡ l.debit +ℤ debits ls
  unfolding debits insert_by
  debits-insert_by l [] = refl
  debits-insert_by l (x ∷ xs) = elim (Bool-cases (before l x)) [
    | inl e ↦ rw e
    | inr e ↦ rw (e, debits-insert_by l xs) (+ℤ_left_comm x.debit l.debit (debits xs))
  ]

  credits-insert_by :
      (l : AccountMoveLine) (ls : List AccountMoveLine)
      → credits (insert_by before l ls) ≡ l.credit +ℤ credits ls
  unfolding credits insert_by
  credits-insert_by l [] = refl
  credits-insert_by l (x ∷ xs) = elim (Bool-cases (before l x)) [
    | inl e ↦ rw e
    | inr e ↦ rw (e, credits-insert_by l xs) (+ℤ_left_comm x.credit l.credit (credits xs))
  ]

  pub debits-order_by : (ls : List AccountMoveLine) → debits (order_by before ls) ≡ debits ls
  unfolding debits order_by
  debits-order_by [] = refl
  debits-order_by (l ∷ ls) =
      debits-insert_by l (order_by before ls) ∙ ap (λ s. l.debit +ℤ s) (debits-order_by ls)

  pub credits-order_by : (ls : List AccountMoveLine) → credits (order_by before ls) ≡ credits ls
  unfolding credits order_by
  credits-order_by [] = refl
  credits-order_by (l ∷ ls) =
      credits-insert_by l (order_by before ls) ∙ ap (λ s. l.credit +ℤ s) (credits-order_by ls)

  pub order_by-IsBalanced :
      (ls : List AccountMoveLine) → IsBalanced ls → IsBalanced (order_by before ls)
  order_by-IsBalanced ls h = record {
    enough = omega (arith, length-order_by before ls);
    entries = All-order_by IsEntry before ls h.entries;
    equal = debits-order_by ls ∙ h.equal ∙ sym (credits-order_by ls);
  }

-- ValidateBalance accepts a journal entry exactly when it has two lines or more, each line has no
-- negative amount and one that is positive, and the debits and the credits have the same sum.
pub validate_balance_iff :
    (ls : List AccountMoveLine) → (validate_balance ls ≡ ok tt) ↔ IsBalanced ls
validate_balance_iff ls = (IsBalanced-of_validate_balance ls, validate_balance_of_IsBalanced ls)
