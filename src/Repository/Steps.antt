-- ===== src/Repository/Steps.antt =====
-- The transactions that write the ledger in any order: the books that they can reach.
use cashflow_backend.Base.{◌≡◌, refl, ◌∙◌, Bool, Option, List, Text, All, ok}
use cashflow_backend.Domain.{Uuid, Date, Time, AccountMove, FinancialAuditLog, PeriodState}
use cashflow_backend.Periods.{update_period_state}
use cashflow_backend.Periods.Ledger.{update_period_state-IsSound}
use cashflow_backend.Repository.Tables.{Env, Db}
use cashflow_backend.Repository.Rows.Lines.{IsExact}
use cashflow_backend.Repository.Invariant.{IsSound, KeepsPosted}
use cashflow_backend.Repository.Posting.{EventKey, post_atomic}
use cashflow_backend.Repository.Posting.Keeps.{post_atomic-IsSound, post_atomic-KeepsPosted}
use cashflow_backend.Repository.YearClose.Close.{YearCloseResult, close_year}
use cashflow_backend.Repository.YearClose.Final.{close_year-IsSound}
use cashflow_backend.Repository.Reconciliation.{Allocation}
use cashflow_backend.Repository.Reconciliation.Commit.{reconcile_move_lines, unreconcile_move_lines}
use cashflow_backend.Repository.Reconciliation.Sound.{IsRounding, reconcile_move_lines-IsSound}
use cashflow_backend.Repository.Reconciliation.Undo.{unreconcile_move_lines-IsSound}
use cashflow_backend.Repository.Drafts.{save_draft_move}
use cashflow_backend.Repository.Drafts.Laws.{save_draft_move-KeepsPosted}
use cashflow_backend.Repository.Drafts.Sound.{save_draft_move-IsSound}
use cashflow_backend.Repository.Reversal.{reverse_move_atomic}
use cashflow_backend.Repository.Reversal.Mirror.{reverse_move_atomic-KeepsPosted}
use cashflow_backend.Repository.Reversal.Sound.{reverse_move_atomic-IsSound}

-- One transaction that commits. A move is posted with amounts that the columns hold.
pub data Step (env : Env) : Db → Db → Type 0 where
  saves :
      {db : Db} {r : AccountMove × Db} (now : Time) (m : AccountMove)
      → save_draft_move env now m db ≡ ok r
      → Step env db r.1
  posts :
      {db : Db} {r : AccountMove × Db} (now : Time) (m : AccountMove)
      (audit : Option FinancialAuditLog) (event : Option EventKey) (create : Bool)
      → All (IsExact env) m.lines
      → post_atomic env now m audit event create db ≡ ok r
      → Step env db r.1
  reverses :
      {db : Db} {r : AccountMove × Db} (now : Time) (original_id : Uuid) (m : AccountMove)
      (audit : FinancialAuditLog)
      → reverse_move_atomic env now original_id m audit db ≡ ok r
      → Step env db r.1
  closes :
      {db : Db} {r : YearCloseResult × Db} (now : Time) (id journal_id retained_id actor : Uuid)
      → close_year env now id journal_id retained_id actor db ≡ ok r
      → Step env db r.1
  reconciles :
      {db : Db} {r : Uuid × Db} (now : Time) (date : Date) (actor account : Uuid) (currency : Text)
      (allocations : List Allocation)
      → reconcile_move_lines env now date actor account currency allocations db ≡ ok r
      → Step env db r.1
  unreconciles :
      {db db' : Db} (now : Time) (id : Uuid) (date : Date) (actor : Uuid)
      → unreconcile_move_lines env now id date actor db ≡ ok db'
      → Step env db db'
  moves_period :
      {db db' : Db} (now : Time) (id : Uuid) (to : PeriodState) (actor : Uuid)
      → update_period_state now id to actor db ≡ ok db'
      → Step env db db'

-- Any number of them, in any order.
pub data Reach (env : Env) : Db → Db → Type 0 where
  stays : {db : Db} → Reach env db db
  then_step : {a b c : Db} → Reach env a b → Step env b c → Reach env a c

Step-IsSound :
    {env : Env} {a b : Db}
    → IsRounding env
    → Step env a b
    → IsSound env a
    → IsSound env b × KeepsPosted a b
Step-IsSound w (saves now m e) s =
    (save_draft_move-IsSound _ now m _ w.fixed.numeric e s, save_draft_move-KeepsPosted _ now m _ e)
Step-IsSound w (posts now m audit event create x e) s = (
  post_atomic-IsSound _ now m audit event create _ w.fixed.numeric e x s,
  post_atomic-KeepsPosted _ now m audit event create _ e,
)
Step-IsSound w (reverses now id m audit e) s = (
  reverse_move_atomic-IsSound _ now id m audit _ w.fixed.numeric e s,
  reverse_move_atomic-KeepsPosted _ now id m audit _ e,
)
Step-IsSound w (closes now id journal_id retained_id actor e) s =
    close_year-IsSound _ now id journal_id retained_id actor _ w.fixed s e
Step-IsSound w (reconciles now date actor account currency allocations e) s =
    reconcile_move_lines-IsSound _ now date actor account currency allocations _ w s e
Step-IsSound w (unreconciles now id date actor e) s =
    unreconcile_move_lines-IsSound _ now id date actor _ w.fixed.numeric s e
Step-IsSound w (moves_period now id to actor e) s =
    update_period_state-IsSound _ now id to actor _ e s

-- The ledger as a whole, from sound books and with amounts of four decimals: whatever drafts are saved,
-- moves of such amounts posted, moves reversed, lines reconciled, reconciliations taken back, periods
-- opened or closed and years closed, in any order, the books stay sound, and a move that was posted at the start has at the
-- end the same columns and the same lines.
pub Reach-IsSound :
    {env : Env} {a b : Db}
    → IsRounding env
    → Reach env a b
    → IsSound env a
    → IsSound env b × KeepsPosted a b
Reach-IsSound w stays s = (s, λ id row f nd. (f, refl))
Reach-IsSound w (then_step path step) s =
    let (sound, kept) = Reach-IsSound w path s in
    let (sound', kept') = Step-IsSound w step sound in
    (
      sound',
      λ id row f nd.
          let (found, lines) = kept id row f nd in
          let (found', lines') = kept' id row found nd in (found', lines' ∙ lines),
    )
