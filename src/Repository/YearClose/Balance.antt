-- ===== src/Repository/YearClose/Balance.antt =====
-- The lines of the closing and of the opening entry are balanced.
use cashflow_backend.Base.{
  ℕ, ◌+◌, ◌≤◌, ◌≡◌, refl, sym, ◌∙◌, ◌⊎◌, inl, inr, true, false, List, Text, [], ◌∷◌, arith, length,
  All, Bool-cases,
}
use cashflow_backend.Base.Int.{
  pos, ◌+ℤ◌, abs, int_laws, +ℤ_parts, abs_parts, abs_nonneg, eq_of_parts, +ℤ-zero,
}
use cashflow_backend.Domain.{Uuid, Date, Time, Decimal, AccountMoveLine}
use cashflow_backend.Domain.Balance.{IsEntry, IsBalanced, debits, credits, is_zero, is_positive}
use cashflow_backend.Repository.Tables.{Env, Db}
use cashflow_backend.Repository.YearClose.Lines.{
  blank_line, credit_by_sign, debit_by_sign, closing_groups, closing_loop, fiscal_closing_lines,
}

-- A line without amounts.
record IsBlank (l : AccountMoveLine) : Type 0 where
  debit : l.debit ≡ pos 0
  credit : l.credit ≡ pos 0

cancels : (b : Decimal) → is_positive b ≡ false → pos 0 ≡ abs b +ℤ b
cancels b n = eq_of_parts _ _ (ground (arith, n, +ℤ_parts (abs b) b, abs_parts b, abs_nonneg b))

zero_of : (b : Decimal) → is_zero b ≡ true → b ≡ pos 0
zero_of b z = eq_of_parts b (pos 0) (ground (arith, z))

not_zero : (t b : Decimal) → is_zero t ≡ true → is_zero b ≡ false → is_zero (t +ℤ b) ≡ false
not_zero t b z n = ground (arith, z, n, +ℤ_parts t b)

closing_step : (d c ds cs b t : Decimal) → c ≡ d +ℤ b → ds ≡ cs +ℤ (t +ℤ b) → d +ℤ ds ≡ c +ℤ cs +ℤ t
closing_step d c ds cs b t e f = rw (e, f) (omega int_laws)

last_step : (d c t : Decimal) → d ≡ c +ℤ t → d +ℤ pos 0 ≡ c +ℤ pos 0 +ℤ t
last_step d c t e = rw e (omega int_laws)

credited :
    (b : Decimal) (l : AccountMoveLine)
    → IsBlank l
    → is_zero b ≡ false
    → IsEntry (credit_by_sign b l)
credited b l k z = elim (Bool-cases (is_positive b)) [
  | inl p ↦ rw p (ground (arith, k, +ℤ_parts l.debit b))
  | inr n ↦ rw n (ground (arith, k, +ℤ_parts (abs b) l.credit, abs_parts b, abs_nonneg b))
]

credited_sides :
    (b : Decimal) (l : AccountMoveLine)
    → IsBlank l
    → (credit_by_sign b l).credit ≡ (credit_by_sign b l).debit +ℤ b
credited_sides b l k = elim (Bool-cases (is_positive b)) [
  | inl p ↦ rw (p, k.debit) (omega int_laws)
  | inr n ↦ rw (n, k.credit) (cancels b n)
]

debited :
    (b : Decimal) (l : AccountMoveLine)
    → IsBlank l
    → is_zero b ≡ false
    → IsEntry (debit_by_sign b l)
debited b l k z = elim (Bool-cases (is_positive b)) [
  | inl p ↦ rw p (ground (arith, k, +ℤ_parts b l.credit))
  | inr n ↦ rw n (ground (arith, k, +ℤ_parts l.debit (abs b), abs_parts b, abs_nonneg b))
]

debited_sides :
    (b : Decimal) (l : AccountMoveLine)
    → IsBlank l
    → (debit_by_sign b l).debit ≡ (debit_by_sign b l).credit +ℤ b
debited_sides b l k = elim (Bool-cases (is_positive b)) [
  | inl p ↦ rw (p, k.credit) (omega int_laws)
  | inr n ↦ rw (n, k.debit) (cancels b n)
]

-- The loop of fiscalClosingLines: the debits exceed the credits by what was retained before it.
module _ (env : Env) (now : Time) (as_of : Date) (retained : Uuid) (currency : Text) where
  abbrev loop : ℕ → Decimal → List (Uuid × Decimal) → List AccountMoveLine
  loop = closing_loop env now as_of retained currency

  loop_sides :
      (k : ℕ) (total : Decimal) (groups : List (Uuid × Decimal))
      → debits (loop k total groups) ≡ credits (loop k total groups) +ℤ total
  unfolding closing_loop debits credits
  loop_sides k total [] = elim (Bool-cases (is_zero total)) [
    | inl z ↦ rw (z, zero_of total z) (sym (+ℤ-zero (pos 0)))
    | inr n ↦ rw n (
        last_step _ _ total (
          debited_sides total (blank_line (env.new_uuid k) retained currency as_of now)
            (record { debit = refl; credit = refl })))
  ]
  loop_sides k total ((account, b) ∷ groups) = elim (Bool-cases (is_zero b)) [
    | inl z ↦ rw z (loop_sides k total groups)
    | inr n ↦ rw n (
        closing_step _ _ _ _ b total
          (credited_sides b (blank_line (env.new_uuid k) account currency as_of now)
            (record { debit = refl; credit = refl }))
          (loop_sides (k + 1) (total +ℤ b) groups))
  ]

  loop_entries :
      (k : ℕ) (total : Decimal) (groups : List (Uuid × Decimal)) → All IsEntry (loop k total groups)
  unfolding closing_loop
  loop_entries k total [] = elim (Bool-cases (is_zero total)) [
    | inl z ↦ rw z tt
    | inr n ↦ rw n (debited total _ (record { debit = refl; credit = refl }) n, tt)
  ]
  loop_entries k total ((account, b) ∷ groups) = elim (Bool-cases (is_zero b)) [
    | inl z ↦ rw z (loop_entries k total groups)
    | inr n ↦ rw n (
      credited b _ (record { debit = refl; credit = refl }) n,
      loop_entries (k + 1) (total +ℤ b) groups,
    )
  ]

  loop_some :
      (k : ℕ) (total : Decimal) (groups : List (Uuid × Decimal))
      → is_zero total ≡ false
      → 1 ≤ length (loop k total groups)
  unfolding closing_loop
  loop_some k total [] n = rw n (omega arith)
  loop_some k total ((account, b) ∷ groups) n = elim (Bool-cases (is_zero b)) [
    | inl z ↦ rw z (loop_some k total groups n)
    | inr m ↦ rw m (omega arith)
  ]

  loop_two :
      (k : ℕ) (total : Decimal) (groups : List (Uuid × Decimal))
      → is_zero total ≡ true
      → (loop k total groups ≡ []) ⊎ (2 ≤ length (loop k total groups))
  unfolding closing_loop
  loop_two k total [] z = inl (rw z refl)
  loop_two k total ((account, b) ∷ groups) z = elim (Bool-cases (is_zero b)) [
    | inl zb ↦ rw zb (loop_two k total groups z)
    | inr n ↦
        rw n (inr (omega (arith, loop_some (k + 1) (total +ℤ b) groups (not_zero total b z n))))
  ]

-- The closing entry is sound whatever the books say: fiscalClosingLines gives no line, or lines that
-- ValidateBalance accepts.
pub fiscal_closing_lines-IsBalanced :
    (env : Env) (now : Time) (as_of : Date) (retained : Uuid) (currency : Text) (db : Db)
    → (fiscal_closing_lines env now as_of retained currency db ≡ [])
      ⊎ IsBalanced (fiscal_closing_lines env now as_of retained currency db)
unfolding fiscal_closing_lines
fiscal_closing_lines-IsBalanced env now as_of retained currency db =
    elim (loop_two env now as_of retained currency 0 (pos 0) (closing_groups as_of db) refl) [
      | inl e ↦ inl e
      | inr n ↦ inr (record {
        enough = n;
        entries = loop_entries env now as_of retained currency 0 (pos 0) (closing_groups as_of db);
        equal =
            loop_sides env now as_of retained currency 0 (pos 0) (closing_groups as_of db)
            ∙ +ℤ-zero _;
      })
    ]
