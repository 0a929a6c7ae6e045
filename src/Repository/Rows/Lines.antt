-- ===== src/Repository/Rows/Lines.antt =====
-- The table account_move_lines under insertMoveLines and DELETE, seen through the lines of one move.
use mathlib.Core.List.{append-nil, append_assoc}
use cashflow_backend.Base.{
  ok-injective, ℕ, suc, ◌+◌, ◌≡◌, refl, ◌≢◌, sym, ap, ◌∙◌, List, [], ◌∷◌, ◌++◌, map, arith, length,
  Bool-cases, inl, inr, ◌==◌, delete_where, All, ok, guard-eq-ok, >>=-eq-ok,
}
use cashflow_backend.Domain.{Uuid, Date, Time, AccountMoveLine}
use cashflow_backend.Domain.Balance.{IsEntry, IsBalanced, debits, credits}
use cashflow_backend.Repository.Tables.{Env, LineRow, Db}
use cashflow_backend.Repository.Rows.{
  complete_line, complete_lines, line_row, insert_rows, insert_move_lines, lines_of,
}

-- The line as the table keeps it.
abbrev pub stored_line : Env → AccountMoveLine → AccountMoveLine
stored_line env l = record l {
  debit = env.numeric l.debit;
  credit = env.numeric l.credit;
  amount_currency = env.numeric l.amount_currency;
}

pub lines_of-append :
    (id : Uuid) (xs ys : List LineRow) → lines_of id (xs ++ ys) ≡ lines_of id xs ++ lines_of id ys
unfolding lines_of
lines_of-append id [] ys = refl
lines_of-append id (x ∷ xs) ys = ground (arith, lines_of-append id xs ys)

pub lines_of-delete_self :
    (id : Uuid) (rs : List LineRow) → lines_of id (delete_where (λ r. r.move_id == id) rs) ≡ []
unfolding lines_of delete_where
lines_of-delete_self id [] = refl
lines_of-delete_self id (r ∷ rs) = ground (arith, lines_of-delete_self id rs)

pub lines_of-delete_ne :
    (id j : Uuid) (rs : List LineRow)
    → j ≢ id
    → lines_of j (delete_where (λ r. r.move_id == id) rs) ≡ lines_of j rs
unfolding lines_of delete_where
lines_of-delete_ne id j [] h = refl
lines_of-delete_ne id j (r ∷ rs) h = ground (arith, lines_of-delete_ne id j rs h)

module _ (env : Env) (now : Time) (id : Uuid) (date : Date) where
  pub lines_of-rows_self :
      (k : ℕ) (ls : List AccountMoveLine)
      → lines_of id (map (line_row env) (complete_lines env now id date k ls))
        ≡ map (stored_line env) (complete_lines env now id date k ls)
  unfolding lines_of line_row complete_lines
  lines_of-rows_self k [] = refl
  lines_of-rows_self k (l ∷ ls) = ground (arith, lines_of-rows_self (k + 1) ls)

  pub lines_of-rows_ne :
      (j : Uuid) (k : ℕ) (ls : List AccountMoveLine)
      → j ≢ id
      → lines_of j (map (line_row env) (complete_lines env now id date k ls)) ≡ []
  unfolding lines_of line_row complete_lines
  lines_of-rows_ne j k [] h = refl
  lines_of-rows_ne j k (l ∷ ls) h = ground (arith, lines_of-rows_ne j (k + 1) ls h)

-- The amounts have four decimals at most, so that the columns keep them as they are.
pub record IsExact (env : Env) (l : AccountMoveLine) : Type 0 where
  pub debit : env.numeric l.debit ≡ l.debit
  pub credit : env.numeric l.credit ≡ l.credit

pub lines_of-All :
    (env : Env) (id : Uuid) (rs : List LineRow)
    → All (λ (r : LineRow). IsExact env r.line) rs
    → All (IsExact env) (lines_of id rs)
unfolding lines_of
lines_of-All env id [] h = tt
lines_of-All env id (r ∷ rs) h = elim (Bool-cases (r.move_id == id)) [
  | inl e ↦ rw e (h.0, lines_of-All env id rs h.1)
  | inr e ↦ rw e (lines_of-All env id rs h.1)
]

module _ (env : Env) (now : Time) (id : Uuid) (date : Date) where
  stored_length :
      (k : ℕ) (ls : List AccountMoveLine)
      → length (map (stored_line env) (complete_lines env now id date k ls)) ≡ length ls
  unfolding complete_lines
  stored_length k [] = refl
  stored_length k (l ∷ ls) = ap suc (stored_length (k + 1) ls)

  stored_debits :
      (k : ℕ) (ls : List AccountMoveLine)
      → All (IsExact env) ls
      → debits (map (stored_line env) (complete_lines env now id date k ls)) ≡ debits ls
  unfolding complete_lines debits
  stored_debits k [] h = refl
  stored_debits k (l ∷ ls) h = cc (h.0.debit, stored_debits (k + 1) ls h.1)

  stored_credits :
      (k : ℕ) (ls : List AccountMoveLine)
      → All (IsExact env) ls
      → credits (map (stored_line env) (complete_lines env now id date k ls)) ≡ credits ls
  unfolding complete_lines credits
  stored_credits k [] h = refl
  stored_credits k (l ∷ ls) h = cc (h.0.credit, stored_credits (k + 1) ls h.1)

  stored_entries :
      (k : ℕ) (ls : List AccountMoveLine)
      → All (IsExact env) ls
      → All IsEntry ls
      → All IsEntry (map (stored_line env) (complete_lines env now id date k ls))
  unfolding complete_lines
  stored_entries k [] h e = tt
  stored_entries k (l ∷ ls) h e = (entry, stored_entries (k + 1) ls h.1 e.1)
    where
      entry : IsEntry (stored_line env (complete_line env now id date k l))
      entry = record {
        debit_nonneg = rw h.0.debit e.0.debit_nonneg;
        credit_nonneg = rw h.0.credit e.0.credit_nonneg;
        nonzero = rw (h.0.debit, h.0.credit) e.0.nonzero;
      }

  pub stored-IsBalanced :
      (k : ℕ) (ls : List AccountMoveLine)
      → All (IsExact env) ls
      → IsBalanced ls
      → IsBalanced (map (stored_line env) (complete_lines env now id date k ls))
  stored-IsBalanced k ls h b = record {
    enough = omega (arith, stored_length k ls, b.enough);
    entries = stored_entries k ls h b.entries;
    equal = stored_debits k ls h ∙ b.equal ∙ sym (stored_credits k ls h);
  }

pub insert_rows_inv :
    (env : Env) (ls : List AccountMoveLine) (db : Db) {db' : Db}
    → insert_rows env ls db ≡ ok db'
    → db' ≡ record db { lines = db.lines ++ map (line_row env) ls }
unfolding insert_rows
insert_rows_inv env [] db e =
    sym (ok-injective e) ∙ ap (λ rs. record db { lines = rs }) (sym (append-nil db.lines))
insert_rows_inv env (l ∷ ls) db e =
    let (_, e') = guard-eq-ok _ _ _ e in
    insert_rows_inv env ls (record db { lines = db.lines ++ line_row env l ∷ [] }) e'
    ∙ ap (λ rs. record db { lines = rs })
        (append_assoc db.lines (line_row env l ∷ []) (map (line_row env) ls))

-- The tables after insertMoveLines: the completed lines stand behind those of the table.
pub insert_move_lines_inv :
    (env : Env) (now : Time) (id : Uuid) (date : Date) (ls : List AccountMoveLine) (db : Db)
    → {r : List AccountMoveLine × Db} → insert_move_lines env now id date ls db ≡ ok r
    → (r.0 ≡ complete_lines env now id date 1 ls)
      × (r.1 ≡ record db {
        lines = db.lines ++ map (line_row env) (complete_lines env now id date 1 ls);
      })
unfolding insert_move_lines
insert_move_lines_inv env now id date ls db e =
    let (db1, f, g) = >>=-eq-ok (insert_rows env (complete_lines env now id date 1 ls) db) _ e in
    let h = insert_rows_inv env (complete_lines env now id date 1 ls) db f in (cc g, cc (g, h))

-- Replacing the lines of a move: the move has the new lines, and every other move its own.
module _ (env : Env) (now : Time) (id : Uuid) (date : Date) (ls : List AccountMoveLine) where
  abbrev pub replaced : List LineRow → List LineRow
  replaced rs =
      delete_where (λ r. r.move_id == id) rs
      ++ map (line_row env) (complete_lines env now id date 1 ls)

  pub lines_of-replaced_self :
      (rs : List LineRow)
      → lines_of id (replaced rs) ≡ map (stored_line env) (complete_lines env now id date 1 ls)
  lines_of-replaced_self rs =
      rw (lines_of-append id, lines_of-delete_self id rs) (lines_of-rows_self env now id date 1 ls)

  pub lines_of-replaced_ne :
      (j : Uuid) (rs : List LineRow) → j ≢ id → lines_of j (replaced rs) ≡ lines_of j rs
  lines_of-replaced_ne j rs h =
      rw
        (lines_of-append j, lines_of-delete_ne id j rs h, lines_of-rows_ne env now id date j 1 ls h)
        (append-nil (lines_of j rs))
