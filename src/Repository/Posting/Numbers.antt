-- ===== src/Repository/Posting/Numbers.antt =====
-- The number that a posting takes, and the event that it records.
use cashflow_backend.Base.{
  not_both, ◌≡◌, refl, sym, ap, ◌∙◌, ◌+◌, Bool, true, false, ◌||◌, Option, some, List, [], ◌∷◌,
  ◌++◌, Text, ◌==◌, text_eq, text_eq_refl, is_empty, exists, find, arith, subst, ok, if_true,
  guard-eq-ok, fail_if-eq-ok, ok-injective,
}
use cashflow_backend.Domain.{Uuid, Time, MoveHeader, AccountMove, FinancialAuditLog, Journal}
use cashflow_backend.Repository.Tables.{Env, ProcessedEvent, Db}
use cashflow_backend.Repository.Rows.{sequence_name}
use cashflow_backend.Repository.Rows.Find.{find_sound, find-update_where}
use cashflow_backend.Repository.Rows.Sequence.{HasOpenPeriod}
use cashflow_backend.Repository.Audit.{insert_audit_log}
use cashflow_backend.Repository.Posting.{
  EventKey, insert_new_draft, insert_event, mark_rows, post_atomic, post_new_move_with_event,
}
use cashflow_backend.Repository.Posting.Laws.{
  post_atomic_inv, insert_event_frame, insert_audit_log_frame,
}

abbrev pub find_journal : Uuid → Db → Option Journal
find_journal id db = find (λ j. j.id == id) db.journals

created_frame :
    (create : Bool) (h : MoveHeader) (db : Db) {db1 : Db}
    → insert_new_draft create h db ≡ ok db1
    → (db1.journals ≡ db.journals) × (db1.events ≡ db.events)
unfolding insert_new_draft
created_frame true h db e =
    let (_, e') = guard-eq-ok _ _ _ e in
    let k = sym (ok-injective e') in (ap (λ (d : Db). d.journals) k, ap (λ (d : Db). d.events) k)
created_frame false h db e =
    let k = sym (ok-injective e) in (ap (λ (d : Db). d.journals) k, ap (λ (d : Db). d.events) k)

-- The move `m` took the next number of its journal, and was dated in an open period.
pub record IsNumbered (db : Db) (m : AccountMove) (db' : Db) : Type 0 where
  pub dated : HasOpenPeriod m.period_id m.date db
  pub journal : Journal
  pub found : find_journal m.journal_id db ≡ some journal
  pub named : m.name ≡ sequence_name journal.sequence_prefix journal.next_number
  pub counted :
      find_journal m.journal_id db'
      ≡ some (record journal { next_number = journal.next_number + 1 })

-- A posting happens on a date of a period that is open, and takes the next number of its journal: the
-- entry's name is the journal's prefix with that number, and the journal counts one on.
pub post_atomic-IsNumbered :
    (env : Env) (now : Time) (m : AccountMove) (audit : Option FinancialAuditLog)
    → (event : Option EventKey) (create : Bool) (db : Db) {r : AccountMove × Db}
    → post_atomic env now m audit event create db ≡ ok r
    → IsNumbered db r.0 r.1
post_atomic-IsNumbered env now m audit event create db {r} e =
    let p = post_atomic_inv env now m audit event create db e in
    let w = p.written in
    let t = w.numbered in
    let h = p.header in
    let (journals1, _) = created_frame create h db p.created in
    let (f, _) = insert_event_frame event h.id _ w.logged in
    let (g, _) = insert_audit_log_frame env now audit (mark_rows now h w.name w.hash w.db3) in
    let same : (j : Uuid) → find_journal j r.1 ≡ find_journal j w.db3 =
      λ j. ap (find (λ k. k.id == j)) (f.journals ∙ g.journals) in
    let key = find_sound (λ k. k.id == h.journal_id) p.db1.journals t.found in
    subst (λ x. IsNumbered db x r.1) (sym w.result)
      (record {
        dated = p.open_period;
        journal = t.journal;
        found = ap (find (λ k. k.id == h.journal_id)) (sym journals1) ∙ t.found;
        named = t.named;
        counted =
            same h.journal_id
            ∙ ap (find_journal h.journal_id) t.bumped
            ∙ find-update_where (λ k. k.id == h.journal_id) (λ k. k.id == h.journal_id)
                (λ k. record k { next_number = k.next_number + 1 }) p.db1.journals (λ y. refl)
                t.found
            ∙ ap some (if_true _ _ key);
      })

abbrev has_key : Text → List ProcessedEvent → Bool
has_key key events = exists (λ (p : ProcessedEvent). text_eq p.idempotency_key key) events

exists-append_event :
    (key : Text) (events : List ProcessedEvent) (p : ProcessedEvent)
    → p.idempotency_key ≡ key
    → has_key key (events ++ p ∷ []) ≡ true
unfolding exists
exists-append_event key [] p h = ground (arith, ap (λ t. text_eq t key) h, text_eq_refl key)
exists-append_event key (q ∷ qs) p h = ground (arith, exists-append_event key qs p h)

insert_event_inv :
    (k : EventKey) (id : Uuid) (db : Db) {db' : Db}
    → insert_event (some k) id db ≡ ok db'
    → (has_key k.idempotency_key db.events ≡ false) × (has_key k.idempotency_key db'.events ≡ true)
unfolding insert_event
insert_event_inv k id db e =
    let (fresh, e1) = guard-eq-ok _ _ _ e in
    (
      ground arith,
      ap (λ (d : Db). has_key k.idempotency_key d.events) (sym (ok-injective e1))
          ∙ exists-append_event k.idempotency_key db.events _ refl,
    )

-- The key was free before the posting and is taken afterwards.
post_new_move_with_event_inv :
    (env : Env) (now : Time) (m : AccountMove) (audit : FinancialAuditLog) (k : EventKey) (db : Db)
    → {r : AccountMove × Db} → post_new_move_with_event env now m audit k db ≡ ok r
    → (has_key k.idempotency_key db.events ≡ false) × (has_key k.idempotency_key r.1.events ≡ true)
unfolding post_new_move_with_event
post_new_move_with_event_inv env now m audit k db e =
    let (_, e1) = fail_if-eq-ok (is_empty k.idempotency_key || is_empty k.event_type) _ _ e in
    let p = post_atomic_inv env now m (some audit) (some k) true db e1 in
    let w = p.written in
    let (free, taken) = insert_event_inv k p.header.id _ w.logged in
    let (_, events1) = created_frame true p.header db p.created in
    let (_, events2) =
      insert_audit_log_frame env now (some audit) (mark_rows now p.header w.name w.hash w.db3) in
    let back : (insert_audit_log env now (some audit)
          (mark_rows now p.header w.name w.hash w.db3)).events
        ≡ db.events =
      events2 ∙ ap (λ (d : Db). d.events) w.numbered.bumped ∙ events1 in
    (ap (has_key k.idempotency_key) (sym back) ∙ free, taken)

-- An event is posted once: after a posting under an idempotency key, no other posting under the same
-- key succeeds, whatever its move, its type and its time.
pub post_new_move_with_event-once :
    (env : Env) (now later : Time) (m m' : AccountMove) (audit audit' : FinancialAuditLog)
    → (k k' : EventKey) (db : Db) {r r' : AccountMove × Db} → k'.idempotency_key ≡ k.idempotency_key
    → post_new_move_with_event env now m audit k db ≡ ok r
    → ¬ (post_new_move_with_event env later m' audit' k' r.1 ≡ ok r')
post_new_move_with_event-once env now later m m' audit audit' k k' db {r} same e f =
    let (_, taken) = post_new_move_with_event_inv env now m audit k db e in
    let (free, _) = post_new_move_with_event_inv env later m' audit' k' r.1 f in
    not_both taken (ap (λ t. has_key t r.1.events) (sym same) ∙ free)
