-- ===== src/Repository/Reversal/Takeback.antt =====
-- The lines that ReverseMoveAtomic stores, against those of the move that it reverses.
use cashflow_backend.Base.{
  ◌≡◌, refl, sym, ap, subst, ◌∙◌, ℕ, ◌+◌, true, List, [], ◌∷◌, map, ◌==◌, All, order_by, ok,
  Bool-cases, inl, inr,
}
use cashflow_backend.Base.Int.{pos, neg, ◌+ℤ◌, ◌-ℤ◌, int_laws, zero-+ℤ, pos_part, neg_part}
use cashflow_backend.Domain.{
  Uuid, Date, Time, Decimal, MoveHeader, AccountMove, AccountMoveLine, FinancialAuditLog,
}
use cashflow_backend.Repository.Tables.{Env, Db}
use cashflow_backend.Repository.Rows.{lines_of, load_move_lines, by_creation, complete_lines}
use cashflow_backend.Repository.Rows.Lines.{IsExact, stored_line}
use cashflow_backend.Repository.Invariant.{IsSound}
use cashflow_backend.Repository.Balances.{lines_net}
use cashflow_backend.Repository.Reversal.{has_reversal, mirror_lines, reverse_move_atomic}
use cashflow_backend.Repository.Reversal.Laws.{reverse_move_atomic_inv}
use cashflow_backend.Repository.Reversal.Mirror.{reverse_move_atomic-debits}
use cashflow_backend.Repository.Reversal.Sound.{
  originals, same_lines, originals-IsExact, reversal_lines,
}

-- `b` takes back `a`: the same account, partner, cost center, currency and matching number, with the
-- sides exchanged and the foreign amount negated, as the column keeps it.
pub record IsMirror (env : Env) (a b : AccountMoveLine) : Type 0 where
  pub account : b.account_id ≡ a.account_id
  pub partner : b.partner_id ≡ a.partner_id
  pub cost_center : b.cost_center_id ≡ a.cost_center_id
  pub currency : b.currency_id ≡ a.currency_id
  pub matching : b.matching_number ≡ a.matching_number
  pub debit : b.debit ≡ a.credit
  pub credit : b.credit ≡ a.debit
  pub foreign : b.amount_currency ≡ env.numeric (neg a.amount_currency)

-- Line by line.
abbrev pub Mirrors : Env → List AccountMoveLine → List AccountMoveLine → Type 0
Mirrors env [] [] = Unit {0}
Mirrors env (a ∷ ls) (b ∷ bs) = IsMirror env a b × Mirrors env ls bs
Mirrors env _ _ = ⊥

module _ (env : Env) (now : Time) (id : Uuid) (date : Date) where
  stored-Mirrors :
      (k n : ℕ) (given ls : List AccountMoveLine)
      → All (IsExact env) ls
      → Mirrors env ls (
          map
            (stored_line env)
            (complete_lines env now id date n (mirror_lines env now id date k given ls)))
  unfolding mirror_lines complete_lines
  stored-Mirrors k n given [] x = tt
  stored-Mirrors k n [] (l ∷ ls) x = (
    record {
      account = refl;
      partner = refl;
      cost_center = refl;
      currency = refl;
      matching = refl;
      debit = x.0.credit;
      credit = x.0.debit;
      foreign = refl;
    },
    stored-Mirrors (k + 1) (n + 1) [] ls x.1,
  )
  stored-Mirrors k n (g ∷ gs) (l ∷ ls) x = (
    record {
      account = refl;
      partner = refl;
      cost_center = refl;
      currency = refl;
      matching = refl;
      debit = x.0.credit;
      credit = x.0.debit;
      foreign = refl;
    },
    stored-Mirrors (k + 1) (n + 1) gs ls x.1,
  )

cancelled : (d c x y : Decimal) → x +ℤ y ≡ pos 0 → ((c -ℤ d) +ℤ x) +ℤ ((d -ℤ c) +ℤ y) ≡ pos 0
cancelled d c x y h = omega (int_laws, ap pos_part h, ap neg_part h)

uncounted : (x y : Decimal) → x +ℤ y ≡ pos 0 → (pos 0 +ℤ x) +ℤ (pos 0 +ℤ y) ≡ pos 0
uncounted x y h = ap (λ a. a +ℤ (pos 0 +ℤ y)) (zero-+ℤ x) ∙ ap (λ b. x +ℤ b) (zero-+ℤ y) ∙ h

Mirrors-net :
    (env : Env) (j : Uuid) (ls bs : List AccountMoveLine)
    → Mirrors env ls bs
    → lines_net j bs +ℤ lines_net j ls ≡ pos 0
unfolding lines_net
Mirrors-net env j [] [] m = zero-+ℤ (pos 0)
Mirrors-net env j [] (b ∷ bs) m = absurd m
Mirrors-net env j (a ∷ ls) [] m = absurd m
Mirrors-net env j (a ∷ ls) (b ∷ bs) m =
    let ih = Mirrors-net env j ls bs m.1 in
    elim (Bool-cases (a.account_id == j)) [
      | inl y ↦
          rw (m.0.account, m.0.debit, m.0.credit, y)
            (cancelled a.debit a.credit (lines_net j bs) (lines_net j ls) ih)
      | inr n ↦ rw (m.0.account, n) (uncounted (lines_net j bs) (lines_net j ls) ih)
    ]

-- A reversal takes back what its move did. In sound books it stores one line for each line of the move,
-- whatever lines the caller handed over: with the same account, partner, cost center, currency and
-- matching number, debit and credit exchanged, and the foreign amount negated as the column keeps it.
-- So the two entries together leave every account at zero. A row of the table
-- names the move as the one that it reverses.
pub reverse_move_atomic-Mirrors :
    (env : Env) (now : Time) (original_id : Uuid) (m : AccountMove) (audit : FinancialAuditLog)
    (db : Db) {r : AccountMove × Db}
    → IsSound env db
    → reverse_move_atomic env now original_id m audit db ≡ ok r
    → Mirrors env (load_move_lines original_id db) (lines_of r.0.id r.1.lines)
      × ((j : Uuid)
          → lines_net j (lines_of r.0.id r.1.lines) +ℤ lines_net j (load_move_lines original_id db)
            ≡ pos 0)
      × (has_reversal original_id r.1 ≡ true)
unfolding originals load_move_lines
reverse_move_atomic-Mirrors env now original_id m audit db {r} s e =
    let p = reverse_move_atomic_inv env now original_id m audit db e in
    let id = p.written.header.id in
    let own : Mirrors env (load_move_lines original_id p.db1) (lines_of id r.1.lines) =
      subst (Mirrors env (originals p s)) (sym (reversal_lines p s))
        (stored-Mirrors env now id m.date 1 1 m.lines (originals p s) (originals-IsExact p s)) in
    let mirrors : Mirrors env (load_move_lines original_id db) (lines_of r.0.id r.1.lines) =
      subst (λ i. Mirrors env (load_move_lines original_id db) (lines_of i r.1.lines))
        (ap (λ (h : MoveHeader). h.id) (sym p.written.returned))
        (subst
          (λ rows.
            Mirrors env (order_by by_creation (lines_of original_id rows)) (lines_of id r.1.lines))
          (same_lines p s) own) in
    let (_, _, named) = reverse_move_atomic-debits env now original_id m audit db e in
    (mirrors, λ j. Mirrors-net env j _ _ mirrors, named)
