-- ===== src/Reports/Grouping.antt =====
-- GROUP BY account: the sums of the groups add up to the sum of the lines.
use cashflow_backend.Base.{
  ◌≡◌, refl, sym, ap, ◌∙◌, Bool, true, false, ◌&&◌, List, [], ◌∷◌, ◌==◌, arith, All, Bool-cases,
  inl, inr, if◌then◌else◌, if_true, if_false, select,
}
use cashflow_backend.Base.Int.{pos, ◌+ℤ◌, ◌-ℤ◌, int_laws, +ℤ-zero, zero-+ℤ}
use cashflow_backend.Domain.{Uuid, Decimal, Account}
use cashflow_backend.Repository.Tables.{LineRow}
use cashflow_backend.Repository.Keys.{count}
use cashflow_backend.Repository.YearClose.Lines.{net_of}

module _ (q : LineRow → Bool) where
  abbrev pub group : Uuid → List LineRow → List LineRow
  group j rs = select (λ (r : LineRow). r.account_id == j && q r) rs

  -- The groups of the accounts, one after the other.
  unfoldable pub group_sums : List Account → List LineRow → Decimal
  group_sums [] rs = pos 0
  group_sums (a ∷ accts) rs = net_of (group a.id rs) +ℤ group_sums accts rs

  abbrev own : LineRow → Decimal
  own r = if q r then r.debit -ℤ r.credit else pos 0

  shares : List Account → LineRow → Decimal
  shares [] r = pos 0
  shares (a ∷ accts) r = (if a.id == r.account_id then own r else pos 0) +ℤ shares accts r

  no_share :
      (accts : List Account) (r : LineRow) → count r.account_id accts ≡ 0 → shares accts r ≡ pos 0
  unfolding shares count
  no_share [] r e = refl
  no_share (a ∷ accts) r e = elim (Bool-cases (a.id == r.account_id)) [
    | inl y ↦ absurd (ground (arith, y, e))
    | inr n ↦ rw n (zero-+ℤ _ ∙ no_share accts r (sym (if_false _ _ n) ∙ e))
  ]

  one_share :
      (accts : List Account) (r : LineRow) → count r.account_id accts ≡ 1 → shares accts r ≡ own r
  unfolding shares count
  one_share [] r e = absurd (ground (arith, e))
  one_share (a ∷ accts) r e = elim (Bool-cases (a.id == r.account_id)) [
    | inl y ↦
        rw y (ap (λ t. own r +ℤ t) (no_share accts r (ground (arith, y, e))) ∙ +ℤ-zero (own r))
    | inr n ↦ rw n (zero-+ℤ _ ∙ one_share accts r (sym (if_false _ _ n) ∙ e))
  ]

  group_step :
      (j : Uuid) (r : LineRow) (rs : List LineRow)
      → net_of (group j (r ∷ rs))
        ≡ (if j == r.account_id then own r else pos 0) +ℤ net_of (group j rs)
  unfolding select net_of
  group_step j r rs = elim (Bool-cases (j == r.account_id)) [
    | inl y ↦
        let z : (r.account_id == j) ≡ true = ground (arith, y) in
        elim (Bool-cases (q r)) [
          | inl c ↦ rw (y, z, c) refl
          | inr c ↦ rw (y, z, c) (sym (zero-+ℤ _))
        ]
    | inr y ↦ let z : (r.account_id == j) ≡ false = ground (arith, y) in rw (y, z) (sym (zero-+ℤ _))
  ]

  sums_step :
      (accts : List Account) (r : LineRow) (rs : List LineRow)
      → group_sums accts (r ∷ rs) ≡ shares accts r +ℤ group_sums accts rs
  unfolding group_sums shares
  sums_step [] r rs = sym (+ℤ-zero (pos 0))
  sums_step (a ∷ accts) r rs = rw (group_step a.id r rs, sums_step accts r rs) (omega int_laws)

  no_sums : (accts : List Account) → group_sums accts [] ≡ pos 0
  unfolding group_sums select net_of
  no_sums [] = refl
  no_sums (a ∷ accts) = zero-+ℤ _ ∙ no_sums accts

  -- If each line's account is there once.
  pub group_sums-net :
      (accts : List Account) (rs : List LineRow)
      → All (λ (r : LineRow). count r.account_id accts ≡ 1) rs
      → group_sums accts rs ≡ net_of (select q rs)
  unfolding net_of select
  group_sums-net accts [] h = no_sums accts
  group_sums-net accts (r ∷ rs) h = elim (Bool-cases (q r)) [
    | inl y ↦ rw y (
        sums_step accts r rs
        ∙ ap (λ t. t +ℤ group_sums accts rs) (one_share accts r h.0 ∙ if_true _ _ y)
        ∙ ap (λ t. (r.debit -ℤ r.credit) +ℤ t) (group_sums-net accts rs h.1))
    | inr n ↦ rw n (
        sums_step accts r rs
        ∙ ap (λ t. t +ℤ group_sums accts rs) (one_share accts r h.0 ∙ if_false _ _ n)
        ∙ zero-+ℤ _
        ∙ group_sums-net accts rs h.1)
  ]
