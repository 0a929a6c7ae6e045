-- ===== src/Moves/Posting/Governance.antt =====
-- The segregation of duties.
use cashflow_backend.Base.{
  ◌≡◌, ◌≢◌, refl, sym, ap, ◌∙◌, ◌↔◌, ◌⊎◌, ◌>>◌, true, false, ◌&&◌, Option, none, some, List, [],
  ◌∷◌, ◌==◌, arith, ok, if_true, Bool-cases, inl, inr, fail_if-eq-ok, fail_if,
}
use cashflow_backend.Base.Int.{pos, ◌+ℤ◌, ◌≤ℤ◌, ltb_ℤ, +ℤ_assoc, zero-+ℤ, +ℤ-zero}
use cashflow_backend.Domain.{
  maker_checker_actor_required, Uuid, uuid_nil, Decimal, AccountMove, AccountMoveLine,
}
use cashflow_backend.Domain.Balance.{debits}
use cashflow_backend.Moves.Posting.{
  MakerCheckerSettings, is_enabled, total_debit, check_creator, check_governance,
}

total_debit-debits :
    (acc : Decimal) (ls : List AccountMoveLine) → total_debit acc ls ≡ acc +ℤ debits ls
unfolding total_debit debits
total_debit-debits acc [] = sym (+ℤ-zero acc)
total_debit-debits acc (l ∷ ls) =
    total_debit-debits (acc +ℤ l.debit) ls ∙ +ℤ_assoc acc l.debit (debits ls)

-- A known user acts, and another known user made the move.
pub record HasOtherMaker (actor : Uuid) (creator : Option Uuid) : Type 0 where
  pub acting : actor ≢ uuid_nil
  pub maker : Uuid
  pub known : creator ≡ some maker
  pub real : maker ≢ uuid_nil
  pub other : actor ≢ maker

checked :
    (actor : Uuid) (creator : Option Uuid)
    → actor ≢ uuid_nil
    → check_creator actor creator ≡ ok tt
    → HasOtherMaker actor creator
unfolding check_creator
checked actor none a e = absurd (ground arith)
checked actor (some c) a e =
    let (n, e1) = fail_if-eq-ok (c == uuid_nil) _ _ e in
    record { acting = a; maker = c; known = refl; real = ground arith; other = ground (arith, e1) }

some_same : {a b : Uuid} → ◌≡◌ {A = Option Uuid} (some a) (some b) → a ≡ b
some_same e = cc

none_apart : {c : Uuid} → ◌≡◌ {A = Option Uuid} none (some c) → ⊥
none_apart e = cc

passes :
    (actor : Uuid) (creator : Option Uuid)
    → HasOtherMaker actor creator
    → check_creator actor creator ≡ ok tt
unfolding check_creator
passes actor none h = absurd (none_apart h.known)
passes actor (some c) h =
    let same : c ≡ h.maker = some_same h.known in
    let real : (c == uuid_nil) ≡ false = ground (arith, same, h.real) in
    let other : (actor == c) ≡ false = ground (arith, same, h.other) in rw (real, other) refl

asked :
    (actor : Uuid) (creator : Option Uuid)
    → HasOtherMaker actor creator
    → (fail_if (actor == uuid_nil) maker_checker_actor_required >> check_creator actor creator)
      ≡ ok tt
asked actor creator h =
    let real : (actor == uuid_nil) ≡ false = ground (arith, h.acting) in
    rw real (passes actor creator h)

-- The maker-checker rule, in full: the test of PostMove lets an actor post a move exactly when the rule
-- is off, or the debits of the move are not above the threshold, or a known user asks and another
-- known user is the creator of the move.
pub check_governance_iff :
    (g : MakerCheckerSettings) (actor : Uuid) (m : AccountMove)
    → (check_governance g actor m ≡ ok tt) ↔ (
        (g.threshold ≤ℤ pos 0)
        ⊎ ((debits m.lines ≤ℤ g.threshold) ⊎ HasOtherMaker actor m.created_by))
unfolding check_governance
check_governance_iff g actor m =
    let total : total_debit (pos 0) m.lines ≡ debits m.lines =
      total_debit-debits (pos 0) m.lines ∙ zero-+ℤ (debits m.lines) in
    elim (Bool-cases (is_enabled g)) [
      | inr off ↦ (λ e. inl (ground (arith, off)), λ h. rw off refl)
      | inl on ↦ elim (Bool-cases (ltb_ℤ g.threshold (debits m.lines))) [
        | inr low ↦ (λ e. inr (inl (ground (arith, low))), λ h. rw (total, on, low) refl)
        | inl high ↦
            let both : (is_enabled g && ltb_ℤ g.threshold (total_debit (pos 0) m.lines)) ≡ true =
              ground (arith, on, ap (ltb_ℤ g.threshold) total, high) in
            (
              λ e.
                  let e1 : (fail_if (actor == uuid_nil) maker_checker_actor_required
                        >> check_creator actor m.created_by)
                      ≡ ok tt =
                    sym (if_true _ _ both) ∙ e in
                  let (a, e2) = fail_if-eq-ok (actor == uuid_nil) _ _ e1 in
                  inr (inr (checked actor m.created_by (ground (arith, a)) e2)),
              λ h. if_true _ _ both ∙ elim h [
                | inl off ↦ absurd (ground (arith, on, off))
                | inr (inl low) ↦ absurd (ground (arith, high, low))
                | inr (inr o) ↦ asked actor m.created_by o
              ],
            )
      ]
    ]
