-- ===== src/Repository/Extends.antt =====
-- Parts of a transaction that only add to the books, and their composition.
use cashflow_backend.Base.{◌≡◌, refl, sym, subst, ◌∙◌, some, ap, List, Text, All}
use cashflow_backend.Domain.{Uuid, Time, MoveHeader, AccountMoveLine, FinancialAuditLog}
use cashflow_backend.Repository.Tables.{Env, Db}
use cashflow_backend.Domain.Balance.{IsBalanced}
use cashflow_backend.Repository.Rows.Lines.{IsExact}
use cashflow_backend.Repository.Rows.Sequence.{TakesNumber}
use cashflow_backend.Repository.Audit.{insert_audit_log}
use cashflow_backend.Repository.Audit.Chain.{insert_audit_log-verify, verify_of_same}
use cashflow_backend.Repository.Invariant.{IsSound, IsNumeric, KeepsPosted}
use cashflow_backend.Repository.Posted.{Inserted, insertion-IsSound, insertion-KeepsPosted}

-- A journal's number does not matter to the invariant.
pub numbered-IsSound :
    {env : Env} {journal_id : Uuid} {name : Text} {db db1 : Db}
    → TakesNumber journal_id db name db1
    → IsSound env db
    → IsSound env db1
numbered-IsSound {env} {db = db} {db1 = db1} t s = subst (IsSound env) (sym t.bumped) (record {
  balance = s.balance;
  linked = s.linked;
  amounts = s.amounts;
  chain = verify_of_same env db _ refl s.chain;
})

pub numbered-KeepsPosted :
    {journal_id : Uuid} {name : Text} {db db1 : Db}
    → TakesNumber journal_id db name db1
    → KeepsPosted db db1
numbered-KeepsPosted {db = db} t = subst (KeepsPosted db) (sym t.bumped) (λ id row f nd. (f, refl))

pub KeepsPosted-trans : (a b c : Db) → KeepsPosted a b → KeepsPosted b c → KeepsPosted a c
KeepsPosted-trans a b c k l id row f nd =
    let (f1, l1) = k id row f nd in let (f2, l2) = l id row f1 nd in (f2, l2 ∙ l1)

-- The years are those of before, sound books stay sound, and posted entries stay as they are.
pub record Extends (env : Env) (db db' : Db) : Type 0 where
  pub years : db'.years ≡ db.years
  pub sound : IsSound env db → IsSound env db'
  pub kept : KeepsPosted db db'

pub Extends-refl : (env : Env) (db : Db) → Extends env db db
Extends-refl env db = record { years = refl; sound = λ s. s; kept = λ id row f nd. (f, refl) }

pub Extends-trans : {env : Env} {a b c : Db} → Extends env a b → Extends env b c → Extends env a c
Extends-trans {a = a} {b = b} {c = c} x y = record {
  years = y.years ∙ x.years;
  sound = λ s. y.sound (x.sound s);
  kept = KeepsPosted-trans a b c x.kept y.kept;
}

-- An audit entry.
pub logged-Extends :
    (env : Env) (now : Time) (a : FinancialAuditLog) (db : Db)
    → Extends env db (insert_audit_log env now (some a) db)
unfolding insert_audit_log
logged-Extends env now a db = record {
  years = refl;
  sound = λ s. record {
    balance = s.balance;
    linked = s.linked;
    amounts = s.amounts;
    chain = insert_audit_log-verify env now (some a) db s.chain;
  };
  kept = λ id row f nd. (f, refl);
}

-- An entry that is posted at once under a new number, balanced if the books are sound.
pub posted-Extends :
    {env : Env} {now : Time} {journal_id : Uuid} {name : Text} {h : MoveHeader}
    {lines : List AccountMoveLine} {audit : FinancialAuditLog} {db db1 db' : Db}
    → IsNumeric env
    → TakesNumber journal_id db name db1
    → Inserted env now h lines audit db1 db'
    → (IsSound env db1 → All (IsExact env) lines × IsBalanced lines)
    → Extends env db db'
posted-Extends {db = db} {db1 = db1} {db' = db'} w t p b = record {
  years = p.years ∙ ap (λ (d : Db). d.years) t.bumped;
  sound = λ s. let s1 = numbered-IsSound t s in let (x, y) = b s1 in insertion-IsSound p w x y s1;
  kept = KeepsPosted-trans db db1 db' (numbered-KeepsPosted t) (insertion-KeepsPosted p);
}
