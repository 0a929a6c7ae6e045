-- ===== src/Reports/Totals.antt =====
-- The lines of posted entries over a span of dates have equal debits and credits.
use cashflow_backend.Base.{
  ℕ, zero, suc, ◌≤◌, ◌≡◌, ◌≢◌, refl, sym, ap, subst, ◌∙◌, Bool, true, false, ◌&&◌, Option, none,
  some, List, [], ◌∷◌, ◌==◌, arith, All, Bool-cases, Option-cases, inl, inr, if◌then◌else◌, if_true,
  if_false, select, delete_where, length,
}
use cashflow_backend.Base.Int.{pos, ◌+ℤ◌, ◌-ℤ◌, int_laws, +ℤ-zero, zero-+ℤ, +ℤ_assoc, +ℤ_left_comm}
use cashflow_backend.Domain.{Uuid, Date, Decimal, AccountMoveLine, MoveState, is_posted, is_draft}
use cashflow_backend.Domain.Balance.{debits, credits}
use cashflow_backend.Repository.Tables.{Env, MoveRow, LineRow, Db}
use cashflow_backend.Repository.Rows.{find_move, lines_of}
use cashflow_backend.Repository.Invariant.{IsSound}
use cashflow_backend.Repository.YearClose.Lines.{net_of}
use cashflow_backend.Reports.Queries.{in_posted}

abbrev rows_of : Uuid → List LineRow → List LineRow
rows_of j rs = select (λ (r : LineRow). r.move_id == j) rs

abbrev rows_but : Uuid → List LineRow → List LineRow
rows_but j rs = delete_where (λ (r : LineRow). r.move_id == j) rs

-- The lines of a move and the other lines.
split_net :
    (q : LineRow → Bool) (j : Uuid) (rs : List LineRow)
    → net_of (select q rs) ≡ net_of (select q (rows_of j rs)) +ℤ net_of (select q (rows_but j rs))
unfolding select delete_where net_of
split_net q j [] = sym (+ℤ-zero (pos 0))
split_net q j (r ∷ rs) = elim (Bool-cases (q r)) [
  | inl y ↦ elim (Bool-cases (r.move_id == j)) [
    | inl own ↦ rw (y, own, y) (rw (split_net q j rs) (sym (+ℤ_assoc _ _ _)))
    | inr other ↦ rw (y, other, y) (rw (split_net q j rs) (+ℤ_left_comm _ _ _))
  ]
  | inr n ↦ elim (Bool-cases (r.move_id == j)) [
    | inl own ↦ rw (n, own, n) (split_net q j rs)
    | inr other ↦ rw (n, other, n) (split_net q j rs)
  ]
]

rows_of-rows_but :
    (i j : Uuid) (rs : List LineRow) → i ≢ j → rows_of i (rows_but j rs) ≡ rows_of i rs
unfolding select delete_where
rows_of-rows_but i j [] h = refl
rows_of-rows_but i j (r ∷ rs) h = ground (arith, rows_of-rows_but i j rs h)

no_rows : (j : Uuid) (rs : List LineRow) → rows_of j (rows_but j rs) ≡ []
unfolding select delete_where
no_rows j [] = refl
no_rows j (r ∷ rs) = ground (arith, no_rows j rs)

fewer : (j : Uuid) (rs : List LineRow) → length (rows_but j rs) ≤ length rs
unfolding delete_where
fewer j [] = omega arith
fewer j (r ∷ rs) = ground (arith, fewer j rs)

fewer_head :
    (r : LineRow) (rs : List LineRow) (n : ℕ)
    → length (r ∷ rs) ≤ suc n
    → length (rows_but r.move_id (r ∷ rs)) ≤ n
unfolding delete_where
fewer_head r rs n h = ground (arith, fewer r.move_id rs)

-- Lines sum up to zero if those of each move do; `n` bounds their number.
all_zero :
    (q : LineRow → Bool) (n : ℕ) (rs : List LineRow)
    → length rs ≤ n
    → ((j : Uuid) → net_of (select q (rows_of j rs)) ≡ pos 0)
    → net_of (select q rs) ≡ pos 0
unfolding select net_of
all_zero q n [] b h = refl
all_zero q zero (r ∷ rs) b h = absurd (omega arith)
all_zero q (suc n) (r ∷ rs) b h =
    let j = r.move_id in
    split_net q j (r ∷ rs)
    ∙ ap (λ t. t +ℤ net_of (select q (rows_but j (r ∷ rs)))) (h j)
    ∙ zero-+ℤ _
    ∙ all_zero q n (rows_but j (r ∷ rs)) (fewer_head r rs n b) (λ i. elim (Bool-cases (i == j)) [
      | inl e ↦
          let same : i ≡ j = ground (arith, e) in
          ap (λ i. net_of (select q (rows_of i (rows_but j (r ∷ rs))))) same
          ∙ ap (λ t. net_of (select q t)) (no_rows j (r ∷ rs))
      | inr ne ↦
          let differ : i ≢ j = ground (arith, ne) in
          ap (λ t. net_of (select q t)) (rows_of-rows_but i j (r ∷ rs) differ) ∙ h i
    ])

net_of-rows_of :
    (j : Uuid) (rs : List LineRow)
    → net_of (rows_of j rs) ≡ debits (lines_of j rs) -ℤ credits (lines_of j rs)
unfolding select net_of debits credits lines_of
net_of-rows_of j [] = omega int_laws
net_of-rows_of j (r ∷ rs) = elim (Bool-cases (r.move_id == j)) [
  | inl y ↦ rw (y, net_of-rows_of j rs) (omega int_laws)
  | inr n ↦ rw n (net_of-rows_of j rs)
]

-- The lines of an entry have its date.
abbrev pub HasOwnDates : Db → Type 0
HasOwnDates db =
    (id : Uuid) (row : MoveRow)
    → find_move id db ≡ some row
    → is_draft row.state ≡ false
    → All (λ (l : AccountMoveLine). l.date ≡ row.date) (lines_of id db.lines)

module _ (db : Db) (during : Date → Bool) (j : Uuid) where
  abbrev chosen : LineRow → Bool
  chosen r = in_posted db r && during r.date

  -- One test for all lines of a posted entry.
  same_test :
      (row : MoveRow) (r : LineRow)
      → find_move j db ≡ some row
      → is_posted row.state ≡ true
      → r.move_id ≡ j
      → r.date ≡ row.date
      → chosen r ≡ during row.date
  same_test row r f s own d =
      ap (λ i. elim (find_move i db) [ none ↦ false | some m ↦ is_posted m.state ] && during r.date)
        own
      ∙ rw (f, s, d) refl

  dated_rows_of :
      (row : MoveRow) (rs : List LineRow)
      → find_move j db ≡ some row
      → is_posted row.state ≡ true
      → All (λ (l : AccountMoveLine). l.date ≡ row.date) (lines_of j rs)
      → select chosen (rows_of j rs) ≡ (if during row.date then rows_of j rs else [])
  unfolding select lines_of
  dated_rows_of row [] f s a = elim (Bool-cases (during row.date)) [
    | inl d ↦ rw d refl
    | inr d ↦ rw d refl
  ]
  dated_rows_of row (r ∷ rs) f s a = elim (Bool-cases (r.move_id == j)) [
    | inl y ↦
        let all : All (λ (l : AccountMoveLine). l.date ≡ row.date) (r.line ∷ lines_of j rs) =
          subst (All (λ (l : AccountMoveLine). l.date ≡ row.date)) (if_true _ _ y) a in
        let test = same_test row r f s (ground (arith, y)) all.0 in
        let ih = dated_rows_of row rs f s all.1 in
        elim (Bool-cases (during row.date)) [
          | inl d ↦ rw (y, d, test ∙ d) (ap (λ t. r ∷ t) (ih ∙ if_true _ _ d))
          | inr d ↦ rw (y, d, test ∙ d) (ih ∙ if_false _ _ d)
        ]
    | inr n ↦ rw n (
        dated_rows_of row rs f s
          (subst (All (λ (l : AccountMoveLine). l.date ≡ row.date)) (if_false _ _ n) a))
  ]

  dropped_rows :
      (rs : List LineRow)
      → ((r : LineRow) → r.move_id ≡ j → chosen r ≡ false)
      → select chosen (rows_of j rs) ≡ []
  unfolding select
  dropped_rows [] h = refl
  dropped_rows (r ∷ rs) h = elim (Bool-cases (r.move_id == j)) [
    | inl y ↦ rw (y, h r (ground (arith, y))) (dropped_rows rs h)
    | inr n ↦ rw n (dropped_rows rs h)
  ]

  unposted_test :
      (o : Option MoveRow)
      → find_move j db ≡ o
      → elim o [ none ↦ false | some m ↦ is_posted m.state ] ≡ false
      → (r : LineRow) → r.move_id ≡ j
      → chosen r ≡ false
  unposted_test o f n r own =
      ap (λ i. elim (find_move i db) [ none ↦ false | some m ↦ is_posted m.state ] && during r.date)
        own
      ∙ rw (f, n) refl

posted_no_draft : (s : MoveState) → is_posted s ≡ true → is_draft s ≡ false
posted_no_draft s e = ground (arith, e)

equal_sides : (d c : Decimal) → d ≡ c → d -ℤ c ≡ pos 0
equal_sides d c e = rw e (omega int_laws)

move_zero :
    {env : Env} (db : Db) (during : Date → Bool) (j : Uuid)
    → IsSound env db
    → HasOwnDates db
    → net_of (select (chosen db during j) (rows_of j db.lines)) ≡ pos 0
unfolding net_of
move_zero db during j s own = elim (Option-cases (find_move j db)) [
  | inl n ↦ ap net_of (dropped_rows db during j db.lines (unposted_test db during j none n refl))
  | inr (row, f) ↦ elim (Bool-cases (is_posted row.state)) [
    | inr u ↦
        ap net_of (dropped_rows db during j db.lines (unposted_test db during j (some row) f u))
    | inl y ↦
        let nd = posted_no_draft row.state y in
        let kept = ap net_of (dated_rows_of db during j row db.lines f y (own j row f nd)) in
        elim (Bool-cases (during row.date)) [
          | inl d ↦
              kept
              ∙ ap net_of (if_true _ _ d)
              ∙ net_of-rows_of j db.lines
              ∙ equal_sides _ _ (s.balance j row f nd).equal
          | inr d ↦ kept ∙ ap net_of (if_false _ _ d)
        ]
  ]
]

-- Over any dates, the posted lines of sound books have equal debits and credits.
pub posted-net :
    {env : Env} (db : Db) (during : Date → Bool)
    → IsSound env db
    → HasOwnDates db
    → net_of (select (λ (r : LineRow). in_posted db r && during r.date) db.lines) ≡ pos 0
posted-net db during s own =
    all_zero (λ (r : LineRow). in_posted db r && during r.date) (length db.lines) db.lines
      (omega arith) (λ j. move_zero db during j s own)
