-- ===== src/Repository/YearClose/Exact.antt =====
-- The lines of the closing and of the opening entry have amounts that the columns hold.
use cashflow_backend.Base.{
  ℕ, ◌+◌, ◌≡◌, subst, Bool, List, [], ◌∷◌, map, Text, All, All-append, Bool-cases, inl, inr,
  if◌then◌else◌, select, ok, guard-eq-ok, fail_if-eq-ok, >>=-eq-ok, ok-injective,
}
use cashflow_backend.Base.Int.{pos, ◌+ℤ◌, ◌-ℤ◌, abs, eqb_ℤ}
use cashflow_backend.Domain.{Uuid, Date, Time, Decimal, Account, AccountMoveLine}
use cashflow_backend.Domain.Balance.{is_zero, is_positive}
use cashflow_backend.Repository.Tables.{Env, LineRow, Db}
use cashflow_backend.Repository.Rows.Lines.{IsExact}
use cashflow_backend.Repository.Invariant.{IsNumeric, HoldsAmounts}
use cashflow_backend.Repository.YearClose.Lines.{
  net_of, account_rows, counted, balances, closing_groups, closing_loop, fiscal_closing_lines,
  credit_by_sign, debit_by_sign, OpeningGroup, opening_group, opening_groups, opening_line,
  opening_loop, fiscal_opening_lines,
}

-- What NUMERIC(28, 4) is documented to do, up to its bounds: it keeps the values with four decimals,
-- and their sums and differences have four decimals too.
pub record IsFixedPoint (env : Env) : Type 0 where
  pub numeric : IsNumeric env
  pub zero_kept : env.numeric (pos 0) ≡ pos 0
  pub sum_kept :
      (a b : Decimal) → env.numeric a ≡ a → env.numeric b ≡ b → env.numeric (a +ℤ b) ≡ a +ℤ b
  pub difference_kept :
      (a b : Decimal) → env.numeric a ≡ a → env.numeric b ≡ b → env.numeric (a -ℤ b) ≡ a -ℤ b
  pub abs_kept : (a : Decimal) → env.numeric a ≡ a → env.numeric (abs a) ≡ abs a

abbrev Kept : Env → Decimal → Type 0
Kept env a = env.numeric a ≡ a

select-All {ℓ κ} :
    {A : Type ℓ} (P : A → Type κ) (q : A → Bool) (xs : List A) → All P xs → All P (select q xs)
unfolding select
select-All P q [] h = tt
select-All P q (x ∷ xs) h = elim (Bool-cases (q x)) [
  | inl e ↦ rw e (h.0, select-All P q xs h.1)
  | inr e ↦ rw e (select-All P q xs h.1)
]

module _ (env : Env) (w : IsFixedPoint env) where
  abbrev Holds : List LineRow → Type 0
  Holds = All (λ (r : LineRow). IsExact env r.line)

  net_of-Kept : (rs : List LineRow) → Holds rs → Kept env (net_of rs)
  unfolding net_of
  net_of-Kept [] h = w.zero_kept
  net_of-Kept (r ∷ rs) h =
      w.sum_kept _ _ (w.difference_kept _ _ h.0.debit h.0.credit) (net_of-Kept rs h.1)

  balances-Kept :
      (as_of : Date) (db : Db) (accounts : List Account)
      → HoldsAmounts env db
      → All (λ (g : Uuid × Decimal). Kept env g.1) (balances as_of db accounts)
  unfolding balances account_rows
  balances-Kept as_of db [] h = tt
  balances-Kept as_of db (a ∷ rest) h =
      grouped a.id (account_rows as_of a.id db) _ (select-All _ (counted as_of a.id db) db.lines h)
        (balances-Kept as_of db rest h)
    where
      grouped :
          (id : Uuid) (rows : List LineRow) (others : List (Uuid × Decimal))
          → Holds rows
          → All (λ (g : Uuid × Decimal). Kept env g.1) others
          → All
              (λ (g : Uuid × Decimal). Kept env g.1)
              (elim rows [ [] ↦ others | r ∷ rs ↦ (id, net_of (r ∷ rs)) ∷ others ])
      grouped id [] others h o = o
      grouped id (r ∷ rs) others h o = (net_of-Kept (r ∷ rs) h, o)

  credit_by_sign-IsExact :
      (b : Decimal) (l : AccountMoveLine)
      → IsExact env l
      → Kept env b
      → IsExact env (credit_by_sign b l)
  credit_by_sign-IsExact b l x k = elim (Bool-cases (is_positive b)) [
    | inl p ↦ rw p (record { debit = x.debit; credit = k })
    | inr n ↦ rw n (record { debit = w.abs_kept b k; credit = x.credit })
  ]

  debit_by_sign-IsExact :
      (b : Decimal) (l : AccountMoveLine)
      → IsExact env l
      → Kept env b
      → IsExact env (debit_by_sign b l)
  debit_by_sign-IsExact b l x k = elim (Bool-cases (is_positive b)) [
    | inl p ↦ rw p (record { debit = k; credit = x.credit })
    | inr n ↦ rw n (record { debit = x.debit; credit = w.abs_kept b k })
  ]

  closing_loop-IsExact :
      (now : Time) (as_of : Date) (retained : Uuid) (currency : Text) (k : ℕ) (total : Decimal)
      (groups : List (Uuid × Decimal))
      → Kept env total
      → All (λ (g : Uuid × Decimal). Kept env g.1) groups
      → All (IsExact env) (closing_loop env now as_of retained currency k total groups)
  unfolding closing_loop
  closing_loop-IsExact now as_of retained currency k total [] t h =
      elim (Bool-cases (is_zero total)) [
        | inl z ↦ rw z tt
        | inr n ↦ rw n (
          debit_by_sign-IsExact total _ (record { debit = w.zero_kept; credit = w.zero_kept }) t,
          tt,
        )
      ]
  closing_loop-IsExact now as_of retained currency k total ((account, b) ∷ groups) t h =
      elim (Bool-cases (is_zero b)) [
        | inl z ↦ rw z (closing_loop-IsExact now as_of retained currency k total groups t h.1)
        | inr n ↦ rw n (
          credit_by_sign-IsExact b _ (record { debit = w.zero_kept; credit = w.zero_kept }) h.0,
          closing_loop-IsExact now as_of retained currency (k + 1) (total +ℤ b) groups
              (w.sum_kept _ _ t h.0) h.1,
        )
      ]

  groups_of-Kept :
      (account : Uuid) (rs : List LineRow) (cs : List Text)
      → Holds rs
      → All (λ (g : OpeningGroup). Kept env g.net) (map (opening_group account rs) cs)
  groups_of-Kept account rs [] h = tt
  groups_of-Kept account rs (c ∷ cs) h =
      (net_of-Kept _ (select-All _ _ rs h), groups_of-Kept account rs cs h)

  opening_groups-Kept :
      (as_of : Date) (db : Db) (accounts : List Account)
      → HoldsAmounts env db
      → All (λ (g : OpeningGroup). Kept env g.net) (opening_groups as_of db accounts)
  unfolding opening_groups account_rows
  opening_groups-Kept as_of db [] h = tt
  opening_groups-Kept as_of db (a ∷ rest) h =
      All-append _ _ _
        (select-All _ _ _
          (groups_of-Kept a.id _ _ (select-All _ (counted as_of a.id db) db.lines h)))
        (opening_groups-Kept as_of db rest h)

  opening_loop-IsExact :
      (now : Time) (as_of : Date) (functional : Text) (k : ℕ) (d c : Decimal)
      (groups : List OpeningGroup) {ls : List AccountMoveLine}
      → All (λ (g : OpeningGroup). Kept env g.net) groups
      → opening_loop env now as_of functional k d c groups ≡ ok ls
      → All (IsExact env) ls
  unfolding opening_loop
  opening_loop-IsExact now as_of functional k d c [] h e =
      let (_, f) = guard-eq-ok (eqb_ℤ d c) _ (ok []) e in
      subst (All (IsExact env)) (ok-injective f) tt
  opening_loop-IsExact now as_of functional k d c (g ∷ groups) h e =
      let (_, e1) = fail_if-eq-ok _ _ _ e in
      let (rest, f, r) =
        >>=-eq-ok
          (opening_loop env now as_of functional (k + 1)
            (if is_positive g.net then d +ℤ g.net else d)
            (if is_positive g.net then c else c +ℤ abs g.net) groups)
          _ e1 in
      let all : All (IsExact env) (opening_line env now as_of k g ∷ rest) = (
        debit_by_sign-IsExact g.net _ (record { debit = w.zero_kept; credit = w.zero_kept }) h.0,
        opening_loop-IsExact now as_of functional (k + 1) _ _ groups h.1 f,
      ) in
      subst (All (IsExact env)) (ok-injective r) all

  pub fiscal_closing_lines-IsExact :
      (now : Time) (as_of : Date) (retained : Uuid) (currency : Text) (db : Db)
      → HoldsAmounts env db
      → All (IsExact env) (fiscal_closing_lines env now as_of retained currency db)
  unfolding fiscal_closing_lines
  fiscal_closing_lines-IsExact now as_of retained currency db h =
      closing_loop-IsExact now as_of retained currency 0 (pos 0) (closing_groups as_of db)
        w.zero_kept (balances-Kept as_of db _ h)

  pub fiscal_opening_lines-IsExact :
      (now : Time) (as_of : Date) (functional : Text) (k : ℕ) (db : Db) {ls : List AccountMoveLine}
      → HoldsAmounts env db
      → fiscal_opening_lines env now as_of functional k db ≡ ok ls
      → All (IsExact env) ls
  unfolding fiscal_opening_lines
  fiscal_opening_lines-IsExact now as_of functional k db h e =
      opening_loop-IsExact now as_of functional k (pos 0) (pos 0) _
        (opening_groups-Kept as_of db _ h) e
