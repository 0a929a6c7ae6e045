-- ===== src/Repository/YearClose/Zero.antt =====
-- The closing entry brings the income and the expense accounts to zero.
use cashflow_backend.Base.{
  ℕ, ◌+◌, ◌≡◌, ◌≤◌, refl, sym, ap, subst, ◌∙◌, Bool, true, false, some, if_false, List, [], ◌∷◌,
  map, Text, ◌==◌, arith, Bool-cases, inl, inr, if◌then◌else◌, find, select, order_by,
}
use cashflow_backend.Base.Int.{
  pos, ◌+ℤ◌, ◌-ℤ◌, abs, int_laws, zero-+ℤ, +ℤ-zero, eq_of_parts, -ℤ_parts, +ℤ_parts, abs_parts,
  abs_nonneg,
}
use cashflow_backend.Domain.{Uuid, Date, Time, Decimal, Account, AccountMoveLine}
use cashflow_backend.Domain.Balance.{is_zero, is_positive}
use cashflow_backend.Repository.Tables.{Env, LineRow, Db}
use cashflow_backend.Repository.Keys.{count, count-order_by, count-select, count_found, HasKeys}
use cashflow_backend.Repository.Balances.{lines_net}
use cashflow_backend.Repository.YearClose.{assigned}
use cashflow_backend.Repository.YearClose.Lines.{
  net_of, account_rows, balances, by_id, is_nominal, closing_groups, closing_loop,
  fiscal_closing_lines, blank_line, credit_by_sign, debit_by_sign,
}

-- The sum of the groups of one account.
groups_sum : Uuid → List (Uuid × Decimal) → Decimal
groups_sum j [] = pos 0
groups_sum j ((account, b) ∷ groups) = (if account == j then b else pos 0) +ℤ groups_sum j groups

own_net :
    (j id account : Uuid) (currency : Text) (date : Date) (now : Time) (b : Decimal)
    → (if (credit_by_sign b (blank_line id account currency date now)).account_id == j
          then (credit_by_sign b (blank_line id account currency date now)).debit
            -ℤ (credit_by_sign b (blank_line id account currency date now)).credit
          else pos 0)
        +ℤ (if account == j then b else pos 0)
      ≡ pos 0
own_net j id account currency date now b = elim (Bool-cases (is_positive b)) [
  | inl p ↦ rw p (elim (Bool-cases (account == j)) [
    | inl y ↦ rw y (omega int_laws)
    | inr n ↦ rw n (omega int_laws)
  ])
  | inr m ↦ rw m (elim (Bool-cases (account == j)) [
    | inl y ↦ rw y (
        eq_of_parts _ _ (
          ground (
            arith,
            m,
            +ℤ_parts (abs b -ℤ pos 0) b,
            -ℤ_parts (abs b) (pos 0),
            abs_parts b,
            abs_nonneg b,
          )))
    | inr n ↦ rw n (omega int_laws)
  ])
]

swapped : (u v x y : Decimal) → (u +ℤ x) +ℤ (v +ℤ y) ≡ (u +ℤ v) +ℤ (x +ℤ y)
swapped u v x y = omega int_laws

nothing_added : (c : Bool) (b s : Decimal) → is_zero b ≡ true → (if c then b else pos 0) +ℤ s ≡ s
nothing_added true b s z = ap (λ t. t +ℤ s) (eq_of_parts b (pos 0) (ground (arith, z))) ∙ zero-+ℤ s
nothing_added false b s z = zero-+ℤ s

sum_step : (u v x y : Decimal) → u +ℤ v ≡ pos 0 → x +ℤ y ≡ pos 0 → (u +ℤ x) +ℤ (v +ℤ y) ≡ pos 0
sum_step u v x y e f = swapped u v x y ∙ rw (e, f) (omega int_laws)

other_net :
    (j id account : Uuid) (currency : Text) (date : Date) (now : Time) (b : Decimal)
    → (account == j) ≡ false
    → lines_net j (debit_by_sign b (blank_line id account currency date now) ∷ []) ≡ pos 0
unfolding lines_net
other_net j id account currency date now b n = elim (Bool-cases (is_positive b)) [
  | inl p ↦ rw (p, n) (omega int_laws)
  | inr m ↦ rw (m, n) (omega int_laws)
]

module _ (env : Env) (now : Time) (as_of : Date) (retained : Uuid) (currency : Text) (j : Uuid)
    (other : (retained == j) ≡ false) where
  closing_loop-net :
      (k : ℕ) (total : Decimal) (groups : List (Uuid × Decimal))
      → lines_net j (closing_loop env now as_of retained currency k total groups)
          +ℤ groups_sum j groups
        ≡ pos 0
  unfolding closing_loop groups_sum lines_net
  closing_loop-net k total [] = elim (Bool-cases (is_zero total)) [
    | inl z ↦ rw z (omega int_laws)
    | inr n ↦ rw n (
        ap (λ t. t +ℤ pos 0) (other_net j (env.new_uuid k) retained currency as_of now total other)
        ∙ +ℤ-zero (pos 0))
  ]
  closing_loop-net k total ((account, b) ∷ groups) = elim (Bool-cases (is_zero b)) [
    | inl z ↦ rw z (
        ap (λ t. lines_net j (closing_loop env now as_of retained currency k total groups) +ℤ t)
          (nothing_added (account == j) b (groups_sum j groups) z)
        ∙ closing_loop-net k total groups)
    | inr n ↦ rw n (
        sum_step _ _ _ _ (own_net j (env.new_uuid k) account currency as_of now b)
          (closing_loop-net (k + 1) (total +ℤ b) groups))
  ]

-- The groups of an account that is not there, and of one that is there once.
module _ (as_of : Date) (db : Db) (j : Uuid) where
  one_group :
      (id : Uuid) (rows : List LineRow) (others : List (Uuid × Decimal))
      → groups_sum j (elim rows [ [] ↦ others | r ∷ rs ↦ (id, net_of (r ∷ rs)) ∷ others ])
        ≡ (if id == j then net_of rows else pos 0) +ℤ groups_sum j others
  unfolding groups_sum net_of
  one_group id [] others = elim (Bool-cases (id == j)) [
    | inl y ↦ rw y (sym (zero-+ℤ _))
    | inr n ↦ rw n (sym (zero-+ℤ _))
  ]
  one_group id (r ∷ rs) others = refl

  no_group :
      (accts : List Account) → count j accts ≡ 0 → groups_sum j (balances as_of db accts) ≡ pos 0
  unfolding count groups_sum balances
  no_group [] e = refl
  no_group (a ∷ accts) e = elim (Bool-cases (a.id == j)) [
    | inl y ↦ absurd (ground (arith, y, e))
    | inr n ↦
        one_group a.id (account_rows as_of a.id db) (balances as_of db accts)
        ∙ rw n (zero-+ℤ _ ∙ no_group accts (sym (if_false _ _ n) ∙ e))
  ]

  the_group :
      (accts : List Account)
      → count j accts ≡ 1
      → groups_sum j (balances as_of db accts) ≡ net_of (account_rows as_of j db)
  unfolding count groups_sum balances
  the_group [] e = absurd (ground (arith, e))
  the_group (a ∷ accts) e = elim (Bool-cases (a.id == j)) [
    | inl y ↦
        let same : a.id ≡ j = ground (arith, y) in
        one_group a.id (account_rows as_of a.id db) (balances as_of db accts)
        ∙ rw y (
            ap (λ t. net_of (account_rows as_of a.id db) +ℤ t)
              (no_group accts (ground (arith, y, e)))
            ∙ +ℤ-zero _
            ∙ ap (λ i. net_of (account_rows as_of i db)) same)
    | inr n ↦
        one_group a.id (account_rows as_of a.id db) (balances as_of db accts)
        ∙ rw n (zero-+ℤ _ ∙ the_group accts (sym (if_false _ _ n) ∙ e))
  ]

pub assigned-net :
    (j id : Uuid) (date : Date) (now : Time) (ls : List AccountMoveLine)
    → lines_net j (map (assigned id date now) ls) ≡ lines_net j ls
unfolding lines_net
assigned-net j id date now [] = refl
assigned-net j id date now (l ∷ ls) =
    ap (λ t. (if l.account_id == j then l.debit -ℤ l.credit else pos 0) +ℤ t)
      (assigned-net j id date now ls)

once : (n m : ℕ) → 1 ≤ n → n ≤ m → m ≤ 1 → n ≡ 1
once n m a b c = omega arith

-- The lines of the closing entry take the balance of an income or expense account away.
pub fiscal_closing_lines-net :
    (env : Env) (now : Time) (as_of : Date) (retained : Uuid) (currency : Text) (db : Db) (j : Uuid)
    {a : Account}
    → HasKeys db.accounts
    → find (λ (b : Account). b.id == j) db.accounts ≡ some a
    → is_nominal a.account_type ≡ true
    → (retained == j) ≡ false
    → lines_net j (fiscal_closing_lines env now as_of retained currency db)
        +ℤ net_of (account_rows as_of j db)
      ≡ pos 0
unfolding fiscal_closing_lines
fiscal_closing_lines-net env now as_of retained currency db j {a} keys f y other =
    let p : Account → Bool = λ a. is_nominal a.account_type in
    let accts = order_by by_id (select p db.accounts) in
    let n : count j accts ≡ 1 =
      once (count j accts) (count j db.accounts)
        (subst (λ n. 1 ≤ n) (sym (count-order_by by_id j (select p db.accounts)))
          (count_found j p db.accounts {a = a} f y))
        (subst (λ n. n ≤ count j db.accounts) (sym (count-order_by by_id j (select p db.accounts)))
          (count-select j p db.accounts))
        (keys j) in
    ap
      (λ t.
        lines_net j
          (closing_loop env now as_of retained currency 0 (pos 0) (closing_groups as_of db))
        +ℤ t)
      (sym (the_group as_of db j accts n))
    ∙ closing_loop-net env now as_of retained currency j other 0 (pos 0) (closing_groups as_of db)
