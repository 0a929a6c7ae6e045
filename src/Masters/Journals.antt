-- ===== src/Masters/Journals.antt =====
-- Journals, event mappings and the accounting configuration (internal/repository.go).
use cashflow_backend.Base.{
  ℕ, ◌≡◌, refl, Bool, true, false, ◌&&◌, ◌||◌, Option, none, some, List, [], ◌∷◌, ◌++◌, Text, ltb,
  ◌==◌, text_eq, if◌then◌else◌, find, exists, update_where, order_by, ok, err, ◌>>◌, guard, fail_if,
  or_err, arith, subst, guard-eq-ok, fail_if-eq-ok, ok-injective, sym, ap, ◌∙◌,
}
use cashflow_backend.Domain.{
  Uuid, uuid_nil, Time, Journal, SubledgerEventMapping, AccountingConfiguration, Account, Fallible,
  journal_not_found, duplicate_journal_code, constraint_violation, subledger_mapping_not_found,
  accounting_configuration_missing,
}
use cashflow_backend.Repository.Tables.{Env, Db}
use cashflow_backend.Repository.Rows.{text_leb, created_or}

-- GetJournalByID
abbrev pub get_journal_by_id : Uuid → Db → Fallible Journal
get_journal_by_id id db = or_err (find (λ j. j.id == id) db.journals) journal_not_found

-- GetJournalByCode
abbrev pub get_journal_by_code : Text → Db → Fallible Journal
get_journal_by_code code db = or_err (find (λ j. text_eq j.code code) db.journals) journal_not_found

-- ListJournals
abbrev pub list_journals : Db → List Journal
list_journals db = order_by (λ j k. text_leb j.code k.code) db.journals

-- CreateJournal, with the journal that it leaves to the caller
unfoldable pub create_journal : Env → Time → Journal → Db → Fallible (Journal × Db)
create_journal env now j db =
    let j' : Journal = record j {
      id = if j.id == uuid_nil then env.new_uuid 0 else j.id;
      created_at = created_or now j.created_at;
      next_number = if ltb j.next_number 1 then 1 else j.next_number;
    } in
    fail_if (exists (λ (k : Journal). k.id == j'.id || text_eq k.code j'.code) db.journals)
      duplicate_journal_code
    >> ok (j', record db { journals = db.journals ++ j' ∷ [] })

abbrev pub overwrite_journal : Journal → Journal → Journal
overwrite_journal j k = record k {
  name = j.name;
  sequence_prefix = j.sequence_prefix;
  is_active = j.is_active;
}

-- UpdateJournal
unfoldable pub update_journal : Journal → Db → Fallible Db
update_journal j db = do
  guard (exists (λ (k : Journal). k.id == j.id) db.journals) journal_not_found
  ok (record db { journals = update_where (λ k. k.id == j.id) (overwrite_journal j) db.journals })

-- GetSubledgerEventMapping
abbrev pub get_mapping : Text → Db → Fallible SubledgerEventMapping
get_mapping event_type db =
    or_err (find (λ m. text_eq m.event_type event_type && m.is_active) db.mappings)
      subledger_mapping_not_found

-- ListSubledgerEventMappings
abbrev pub list_mappings : Db → List SubledgerEventMapping
list_mappings db = order_by (λ m n. text_leb m.event_type n.event_type) db.mappings

-- The foreign keys of subledger_event_mappings.
abbrev pub mapping_accepted : SubledgerEventMapping → Db → Bool
mapping_accepted m db =
    exists (λ (j : Journal). j.id == m.journal_id) db.journals
    && exists (λ (a : Account). a.id == m.debit_account_id) db.accounts
    && exists (λ (a : Account). a.id == m.credit_account_id) db.accounts

-- SaveSubledgerEventMapping
unfoldable pub save_mapping : SubledgerEventMapping → Db → Fallible Db
save_mapping m db = do
  guard (mapping_accepted m db) constraint_violation
  ok (record db {
    mappings =
        if exists (λ (n : SubledgerEventMapping). text_eq n.event_type m.event_type) db.mappings
        then update_where (λ n. text_eq n.event_type m.event_type) (λ n. m) db.mappings
        else db.mappings ++ m ∷ [];
  })

-- GetAccountingConfiguration: the table has one row at most
abbrev pub get_configuration : Db → Fallible AccountingConfiguration
get_configuration db = or_err (find (λ c. true) db.configurations) accounting_configuration_missing

-- UpdateAccountingConfiguration, which is an INSERT into a table whose unique index admits one row
unfoldable pub update_configuration : AccountingConfiguration → Db → Fallible Db
update_configuration c db = do
  guard
      (exists (λ (a : Account). a.id == c.retained_earnings_account_id) db.accounts
        && exists (λ (a : Account). a.id == c.fx_gain_account_id) db.accounts
        && exists (λ (a : Account). a.id == c.fx_loss_account_id) db.accounts
        && exists (λ (j : Journal). j.id == c.fx_reconciliation_journal_id) db.journals)
      constraint_violation
  fail_if (exists (λ (d : AccountingConfiguration). true) db.configurations) constraint_violation
  ok (record db { configurations = db.configurations ++ c ∷ [] })

abbrev pub journal_number : Uuid → Db → Option ℕ
journal_number id db = elim (find (λ j. j.id == id) db.journals) [
  | none ↦ none
  | some j ↦ some j.next_number
]

numbers_kept :
    (j : Journal) (id : Uuid) (js : List Journal)
    → (elim (find (λ k. k.id == id) (update_where (λ k. k.id == j.id) (overwrite_journal j) js)) [
      | none ↦ none
      | some k ↦ some k.next_number
    ])
      ≡ elim (find (λ k. k.id == id) js) [ none ↦ none | some k ↦ some k.next_number ]
unfolding find update_where
numbers_kept j id [] = refl
numbers_kept j id (k ∷ ks) = ground (arith, numbers_kept j id ks)

exists-append_any :
    (c : AccountingConfiguration) (cs : List AccountingConfiguration)
    → exists (λ (d : AccountingConfiguration). true) (cs ++ c ∷ []) ≡ true
unfolding exists
exists-append_any c [] = refl
exists-append_any c (d ∷ cs) = refl

refused :
    (b : Bool)
    → ◌≡◌ {A = Fallible Db}
        (guard b constraint_violation >> err constraint_violation)
        (err constraint_violation)
refused true = refl
refused false = refl

second_refused :
    (d c : AccountingConfiguration) (db : Db)
    → update_configuration d (record db { configurations = db.configurations ++ c ∷ [] })
      ≡ err constraint_violation
unfolding update_configuration
second_refused d c db = rw (exists-append_any c db.configurations) (refused _)

-- The configuration can be set once and never again: after an update that succeeds, every further
-- update is refused.
pub update_configuration-twice :
    (c d : AccountingConfiguration) (db : Db) {db' : Db}
    → update_configuration c db ≡ ok db'
    → update_configuration d db' ≡ err constraint_violation
unfolding update_configuration
update_configuration-twice c d db {db'} e =
    let (_, e1) = guard-eq-ok _ _ _ e in
    let (_, e2) = fail_if-eq-ok _ _ _ e1 in
    subst (λ x. update_configuration d x ≡ err constraint_violation) (ok-injective e2)
      (second_refused d c db)

-- A journal's number is not the journal editor's: no update changes the next number of any journal.
pub update_journal-next_number :
    (j : Journal) (db : Db) {db' : Db} (id : Uuid)
    → update_journal j db ≡ ok db'
    → journal_number id db' ≡ journal_number id db
unfolding update_journal
update_journal-next_number j db id e =
    let (_, e1) = guard-eq-ok _ _ _ e in
    ap (journal_number id) (sym (ok-injective e1)) ∙ numbers_kept j id db.journals
