-- ===== src/Repository/Keys.antt =====
-- The primary key of the accounts, by counting.
use cashflow_backend.Base.{
  ℕ, suc, ◌≤◌, ◌≡◌, refl, sym, ap, ◌∙◌, Bool, true, Option, some, List, [], ◌∷◌, ◌==◌, arith,
  Bool-cases, inl, inr, if◌then◌else◌, if_true, if_false, find, select, insert_by, order_by,
}
use cashflow_backend.Domain.{Uuid, Account}

pub some_inj : {a b : Account} → ◌≡◌ {A = Option Account} (some a) (some b) → a ≡ b
some_inj e = cc

-- How many accounts of a list have the id.
unfoldable pub count : Uuid → List Account → ℕ
count j [] = 0
count j (a ∷ accts) = if a.id == j then suc (count j accts) else count j accts

count-insert_by :
    (before : Account → Account → Bool) (j : Uuid) (a : Account) (accts : List Account)
    → count j (insert_by before a accts) ≡ count j (a ∷ accts)
unfolding count insert_by
count-insert_by before j a [] = refl
count-insert_by before j a (b ∷ accts) = elim (Bool-cases (before a b)) [
  | inl e ↦ rw e refl
  | inr e ↦ rw (e, count-insert_by before j a accts) (ground arith)
]

pub count-order_by :
    (before : Account → Account → Bool) (j : Uuid) (accts : List Account)
    → count j (order_by before accts) ≡ count j accts
unfolding count order_by
count-order_by before j [] = refl
count-order_by before j (a ∷ accts) =
    count-insert_by before j a (order_by before accts)
    ∙ ap (λ n. if a.id == j then suc n else n) (count-order_by before j accts)

pub count-select :
    (j : Uuid) (p : Account → Bool) (accts : List Account)
    → count j (select p accts) ≤ count j accts
unfolding count select
count-select j p [] = omega arith
count-select j p (a ∷ accts) = ground (arith, count-select j p accts)

pub count_found :
    (j : Uuid) (p : Account → Bool) (accts : List Account) {a : Account}
    → find (λ (b : Account). b.id == j) accts ≡ some a
    → p a ≡ true
    → 1 ≤ count j (select p accts)
unfolding count select find
count_found j p [] e y = ground (arith, e)
count_found j p (b ∷ accts) {a} e y = elim (Bool-cases (b.id == j)) [
  | inl own ↦
      let same : p b ≡ true = ap p (some_inj (sym (if_true _ _ own) ∙ e)) ∙ y in
      rw same (ground (arith, own))
  | inr other ↦
      let ih = count_found j p accts {a = a} (sym (if_false _ _ other) ∙ e) y in ground (arith, ih)
]

-- No two accounts have the same id.
abbrev pub HasKeys : List Account → Type 0
HasKeys accts = (j : Uuid) → count j accts ≤ 1
