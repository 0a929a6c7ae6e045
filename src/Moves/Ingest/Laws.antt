-- ===== src/Moves/Ingest/Laws.antt =====
-- An event is ingested once.
use cashflow_backend.Base.{
  ◌≡◌, refl, sym, ap, subst, ◌∙◌, Bool, true, false, not, ◌||◌, none, some, List, [], ◌∷◌, Text,
  text_eq, text_eq_refl, is_empty, arith, find, exists, order_by, Option-cases, inl, inr, ok, err,
  ◌>>=◌, guard-eq-ok, fail_if-eq-ok, >>=-eq-ok, or_err-eq-ok, ok-injective, ok-eq_1,
}
use cashflow_backend.Domain.{
  Uuid, Date, Time, AccountMove, FinancialAuditLog, Fallible, required, constraint_violation,
}
use cashflow_backend.Repository.Tables.{Env, MoveRow, ProcessedEvent, Db}
use cashflow_backend.Repository.Rows.{find_move, get_move_by_id, scan_move, lines_of, by_date}
use cashflow_backend.Repository.Rows.Find.{find-append_none}
use cashflow_backend.Repository.Posting.{EventKey, insert_event, post_new_move_with_event}
use cashflow_backend.Repository.Posting.Laws.{post_atomic_inv}
use cashflow_backend.Repository.Posting.Keeps.{posted_found}
use cashflow_backend.Moves.Requests.{Strings}
use cashflow_backend.Moves.Ingest.{
  IngestRequest, Rates, validate_ingest, processed_move, get_processed_move, prepare_event,
  after_failure, ingest_new, ingest_known, ingest,
}

by_key : Text → ProcessedEvent → Bool
by_key key p = text_eq p.idempotency_key key

no_event :
    (q : ProcessedEvent → Bool) (events : List ProcessedEvent)
    → exists q events ≡ false
    → find q events ≡ none
unfolding exists find
no_event q [] e = refl
no_event q (p ∷ ps) e = ground (arith, no_event q ps)

negated : (b : Bool) → not b ≡ true → b ≡ false
negated b e = ground (arith, e)

single : (q : ProcessedEvent → Bool) (p : ProcessedEvent) → q p ≡ true → find q (p ∷ []) ≡ some p
unfolding find
single q p e = rw e refl

-- The row that insert_event writes is the one that the key finds.
event_found :
    (k : EventKey) (id : Uuid) (db : Db) {db' : Db}
    → insert_event (some k) id db ≡ ok db'
    → (p : ProcessedEvent) × (find
          (λ (p : ProcessedEvent). text_eq p.idempotency_key k.idempotency_key)
          db'.events
        ≡ some p)
      × (p.move_id ≡ id)
unfolding insert_event
event_found k id db e =
    let q : ProcessedEvent → Bool = λ p. text_eq p.idempotency_key k.idempotency_key in
    let row : ProcessedEvent = record {
      idempotency_key = k.idempotency_key;
      event_type = k.event_type;
      move_id = id;
    } in
    let (free, e1) = guard-eq-ok (not (exists q db.events)) constraint_violation _ e in
    (
      row,
      ap (λ (d : Db). find q d.events) (sym (ok-injective e1))
          ∙ find-append_none q db.events (row ∷ []) (no_event q db.events (negated _ free))
          ∙ single q row (text_eq_refl k.idempotency_key),
      refl,
    )

-- A row with a hash is scanned.
hashed_move :
    (env : Env) (id : Uuid) (db : Db) (row : MoveRow)
    → find_move id db ≡ some row
    → row.has_hash ≡ true
    → (m : AccountMove) × (get_move_by_id env id db ≡ ok m)
unfolding get_move_by_id scan_move
hashed_move env id db row f h =
    let m : AccountMove = record {
      header = row.header;
      lines = order_by by_date (lines_of id db.lines);
    } in
    let whole : get_move_by_id env id db ≡ ok m = rw (f, h) refl in (m, whole)

processed_by :
    (env : Env) (key : Text) (db : Db) (p : ProcessedEvent) {m : AccountMove}
    → find (λ (p : ProcessedEvent). text_eq p.idempotency_key key) db.events ≡ some p
    → get_move_by_id env p.move_id db ≡ ok m
    → get_processed_move env key db ≡ ok (some m)
unfolding get_processed_move
processed_by env key db p f g = ap (processed_move env db) f ∙ ap (λ o. o >>= λ m. ok (some m)) g

-- The entry that an event got is there for the key.
abbrev pub IsProcessed : Env → Text → Db → Type 0
IsProcessed env key db = (m : AccountMove) × (get_processed_move env key db ≡ ok (some m))

posted-IsProcessed :
    (env : Env) (now : Time) (m : AccountMove) (audit : FinancialAuditLog) (k : EventKey) (db : Db)
    {r : AccountMove × Db}
    → post_new_move_with_event env now m audit k db ≡ ok r
    → IsProcessed env k.idempotency_key r.1
unfolding post_new_move_with_event
posted-IsProcessed env now m audit k db {r} e =
    let (_, e1) =
      fail_if-eq-ok (is_empty k.idempotency_key || is_empty k.event_type) required _ e in
    let p = post_atomic_inv env now m (some audit) (some k) true db e1 in
    let (row, f, same) = event_found k p.header.id _ p.written.logged in
    let there = ap (λ i. find_move i r.1) same ∙ posted_found p in
    let (m', g) = hashed_move env row.move_id r.1 _ there refl in
    (m', processed_by env k.idempotency_key r.1 row f g)

after_failure-IsProcessed :
    (env : Env) (key : Text) (later : Db) (first : Fallible (AccountMove × Db))
    {r : AccountMove × Db}
    → ((q : AccountMove × Db) → first ≡ ok q → IsProcessed env key q.1)
    → after_failure env key later first ≡ ok r
    → IsProcessed env key r.1
unfolding after_failure
after_failure-IsProcessed env key later (ok q) {r} h e = h r e
after_failure-IsProcessed env key later (err x) h e =
    let (m, f, e1) = >>=-eq-ok (get_processed_move env key later) _ e in
    let (m', g, e2) = or_err-eq-ok m x _ e1 in
    subst (λ (d : Db). IsProcessed env key d) (sym (ok-eq_1 e2)) (m', f ∙ ap (λ o. ok o) g)

ingest-IsProcessed :
    (env : Env) (s : Strings) (rates : Rates) (now : Time) (request : IngestRequest) (later db : Db)
    {r : AccountMove × Db}
    → ingest env s rates now request later db ≡ ok r
    → (v : IngestRequest × Date) × (validate_ingest s request ≡ ok v)
      × IsProcessed env v.0.idempotency_key r.1
unfolding ingest ingest_new
ingest-IsProcessed env s rates now request later db {r} e =
    let ((q, date), v, e1) = >>=-eq-ok (validate_ingest s request) _ e in
    let (known, f, e2) = >>=-eq-ok (get_processed_move env q.idempotency_key db) _ e1 in
    (
      (q, date),
      v,
      elim (Option-cases known) [
        | inr (m, k) ↦
            subst (λ (d : Db). IsProcessed env q.idempotency_key d)
              (sym (
                ok-eq_1 (
                  ap (λ o. ingest_known o db (ingest_new env rates now date q later db)) (sym k)
                  ∙ e2)))
              (m, f ∙ ap (λ o. ok o) k)
        | inl n ↦
            let e3 =
              ap (λ o. ingest_known o db (ingest_new env rates now date q later db)) (sym n) ∙ e2 in
            let (m, _, e4) = >>=-eq-ok (prepare_event env rates now date q db) _ e3 in
            after_failure-IsProcessed env q.idempotency_key later _
              (λ q' g. posted-IsProcessed env now m _ _ db g) e4
      ],
    )

-- An event is ingested once: after an ingestion that succeeds, every further ingestion under the same
-- idempotency key succeeds too, returns the entry of that key, and changes nothing, whatever the rest
-- of its request, the clock and the rates.
pub ingest-again :
    (env : Env) (s : Strings) (rates rates' : Rates) (now now' : Time)
    (request request' : IngestRequest) (later later' db : Db) {r : AccountMove × Db}
    {v v' : IngestRequest × Date}
    → ingest env s rates now request later db ≡ ok r
    → validate_ingest s request ≡ ok v
    → validate_ingest s request' ≡ ok v'
    → v'.0.idempotency_key ≡ v.0.idempotency_key
    → (m : AccountMove) × (get_processed_move env v.0.idempotency_key r.1 ≡ ok (some m))
      × (ingest env s rates' now' request' later' r.1 ≡ ok (m, r.1))
unfolding ingest
ingest-again env s rates rates' now now' request request' later later' db {r} {v} {v'} e valid
      valid' same =
    let (u, f, (m, g)) = ingest-IsProcessed env s rates now request later db e in
    let one : u ≡ v = ok-injective (sym f ∙ valid) in
    let there : get_processed_move env v.0.idempotency_key r.1 ≡ ok (some m) =
      ap (λ (x : IngestRequest × Date). get_processed_move env x.0.idempotency_key r.1) (sym one)
      ∙ g in
    (m, there, rw (valid', same, there) refl)
