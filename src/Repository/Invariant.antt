-- ===== src/Repository/Invariant.antt =====
-- What the transactions of the repository keep: the moves that are posted, the double-entry rule of
-- their lines, and the amounts that the columns can hold.
use cashflow_backend.Base.{
  ◌≡◌, ◌≢◌, ◌∙◌, sym, subst, Bool, false, true, none, some, List, [], ◌∷◌, ◌++◌, All, All-append,
  arith, ◌==◌, Bool-cases, inl, inr, ap, delete_where, map, ok,
}
use cashflow_backend.Domain.{Uuid, Decimal, AccountMoveLine, is_draft}
use cashflow_backend.Domain.Balance.{IsBalanced}
use cashflow_backend.Repository.Tables.{Env, MoveRow, LineRow, Db}
use cashflow_backend.Repository.Rows.{find_move, lines_of, line_row}
use cashflow_backend.Repository.Rows.Lines.{IsExact}
use cashflow_backend.Repository.Audit.{verify_audit_integrity}

-- Each move that is no draft is still there, with the same columns and the same lines.
abbrev pub KeepsPosted : Db → Db → Type 0
KeepsPosted db db' =
    (id : Uuid) (row : MoveRow)
    → find_move id db ≡ some row
    → is_draft row.state ≡ false
    → (find_move id db' ≡ some row) × (lines_of id db'.lines ≡ lines_of id db.lines)

-- Each move that is no draft has balanced lines.
abbrev pub PostedBalance : Db → Type 0
PostedBalance db =
    (id : Uuid) (row : MoveRow)
    → find_move id db ≡ some row
    → is_draft row.state ≡ false
    → IsBalanced (lines_of id db.lines)

-- Every line belongs to a move.
abbrev pub NoOrphans : Db → Type 0
NoOrphans db = (id : Uuid) → find_move id db ≡ none → lines_of id db.lines ≡ []

-- The amounts of the lines are such as the columns hold.
abbrev pub HoldsAmounts : Env → Db → Type 0
HoldsAmounts env db = All (λ (r : LineRow). IsExact env r.line) db.lines

-- What a NUMERIC(28, 4) column is documented to do: a value that it holds is kept as it is.
pub record IsNumeric (env : Env) : Type 0 where
  pub idempotent : (a : Decimal) → env.numeric (env.numeric a) ≡ env.numeric a

-- A transaction that writes one move: no other move changes, and this one was not posted before.
pub record TouchesOnly (id : Uuid) (db db' : Db) : Type 0 where
  pub other_moves : (j : Uuid) → j ≢ id → find_move j db' ≡ find_move j db
  pub other_lines : (j : Uuid) → j ≢ id → lines_of j db'.lines ≡ lines_of j db.lines
  pub unposted : (row : MoveRow) → find_move id db ≡ some row → is_draft row.state ≡ true

module _ {id : Uuid} {db db' : Db} (t : TouchesOnly id db db') where
  pub TouchesOnly-KeepsPosted : KeepsPosted db db'
  TouchesOnly-KeepsPosted j row f nd =
      let ne : j ≢ id =
        λ same. ground (arith, t.unposted row (ap (λ i. find_move i db) (sym same) ∙ f), nd) in
      (t.other_moves j ne ∙ f, t.other_lines j ne)

  pub TouchesOnly-PostedBalance :
      ((row : MoveRow)
        → find_move id db' ≡ some row
        → is_draft row.state ≡ false
        → IsBalanced (lines_of id db'.lines))
      → PostedBalance db
      → PostedBalance db'
  TouchesOnly-PostedBalance own b j row f nd = elim (Bool-cases (j == id)) [
    | inl same ↦
        let e : j ≡ id = ground arith in
        subst (λ i. IsBalanced (lines_of i db'.lines)) (sym e)
          (own row (ap (λ i. find_move i db') (sym e) ∙ f) nd)
    | inr other ↦
        let ne : j ≢ id = ground arith in
        subst IsBalanced (sym (t.other_lines j ne)) (b j row (sym (t.other_moves j ne) ∙ f) nd)
  ]

  pub TouchesOnly-NoOrphans :
      (find_move id db' ≡ none → lines_of id db'.lines ≡ []) → NoOrphans db → NoOrphans db'
  TouchesOnly-NoOrphans own o j f = elim (Bool-cases (j == id)) [
    | inl same ↦
        let e : j ≡ id = ground arith in
        ap (λ i. lines_of i db'.lines) e ∙ own (ap (λ i. find_move i db') (sym e) ∙ f)
    | inr other ↦
        let ne : j ≢ id = ground arith in t.other_lines j ne ∙ o j (sym (t.other_moves j ne) ∙ f)
  ]

All-delete_where {ℓ κ} :
    {A : Type ℓ} (P : A → Type κ) (p : A → Bool) (xs : List A)
    → All P xs
    → All P (delete_where p xs)
unfolding delete_where
All-delete_where P p [] h = tt
All-delete_where P p (x ∷ xs) h = elim (Bool-cases (p x)) [
  | inl e ↦ rw e (All-delete_where P p xs h.1)
  | inr e ↦ rw e (h.0, All-delete_where P p xs h.1)
]

rows-IsExact :
    (env : Env) (w : IsNumeric env) (ls : List AccountMoveLine)
    → All (λ (r : LineRow). IsExact env r.line) (map (line_row env) ls)
unfolding line_row
rows-IsExact env w [] = tt
rows-IsExact env w (l ∷ ls) =
    (record { debit = w.idempotent l.debit; credit = w.idempotent l.credit }, rows-IsExact env w ls)

-- The table of lines after a deletion and an insertion.
pub replaced-IsExact :
    (env : Env) (w : IsNumeric env) (p : LineRow → Bool) (rs : List LineRow)
    → (ls : List AccountMoveLine) → All (λ (r : LineRow). IsExact env r.line) rs
    → All (λ (r : LineRow). IsExact env r.line) (delete_where p rs ++ map (line_row env) ls)
replaced-IsExact env w p rs ls h =
    All-append _ (delete_where p rs) (map (line_row env) ls) (All-delete_where _ p rs h)
      (rows-IsExact env w ls)

pub appended-IsExact :
    (env : Env) (w : IsNumeric env) (rs : List LineRow) (ls : List AccountMoveLine)
    → All (λ (r : LineRow). IsExact env r.line) rs
    → All (λ (r : LineRow). IsExact env r.line) (rs ++ map (line_row env) ls)
appended-IsExact env w rs ls h = All-append _ rs (map (line_row env) ls) h (rows-IsExact env w ls)

pub deleted-IsExact :
    (env : Env) (p : LineRow → Bool) (rs : List LineRow)
    → All (λ (r : LineRow). IsExact env r.line) rs
    → All (λ (r : LineRow). IsExact env r.line) (delete_where p rs)
deleted-IsExact env p rs h = All-delete_where _ p rs h

-- The state of the books: posted moves are balanced, lines belong to moves, the amounts are those of
-- the columns, and the audit chain is intact.
pub record IsSound (env : Env) (db : Db) : Type 0 where
  pub balance : PostedBalance db
  pub linked : NoOrphans db
  pub amounts : HoldsAmounts env db
  pub chain : verify_audit_integrity env db ≡ ok tt
