-- ===== src/Masters/UseCases/Mappings.antt =====
-- A mapping that is saved is the one that is found.
use cashflow_backend.Base.{
  ◌≡◌, refl, sym, ap, ◌∙◌, Bool, true, false, ◌&&◌, none, some, List, [], ◌∷◌, ◌++◌, text_eq,
  text_eq_refl, arith, if◌then◌else◌, find, exists, update_where, ok, Bool-cases, inl, inr, if_true,
  if_false, guard-eq-ok, >>=-eq-ok, ok-injective, ok-eq_0, ok-eq_1,
}
use cashflow_backend.Domain.{SubledgerEventMapping, constraint_violation}
use cashflow_backend.Repository.Tables.{Db}
use cashflow_backend.Repository.Rows.Find.{find-append_none}
use cashflow_backend.Moves.Requests.{Strings}
use cashflow_backend.Masters.Journals.{
  get_journal_by_id, get_mapping, mapping_accepted, save_mapping,
}
use cashflow_backend.Masters.UseCases.{validate_mapping, mapped_account, change_mapping}

module _ (m : SubledgerEventMapping) (active : m.is_active ≡ true) where
  abbrev of_type : SubledgerEventMapping → Bool
  of_type n = text_eq n.event_type m.event_type

  abbrev in_use : SubledgerEventMapping → Bool
  in_use n = text_eq n.event_type m.event_type && n.is_active

  in_use_itself : in_use m ≡ true
  in_use_itself = ground (arith, active, text_eq_refl m.event_type)

  overwritten_found :
      (ns : List SubledgerEventMapping)
      → exists of_type ns ≡ true
      → find in_use (update_where of_type (λ n. m) ns) ≡ some m
  unfolding exists find update_where
  overwritten_found [] e = cc
  overwritten_found (n ∷ ns) e = ground (arith, in_use_itself, overwritten_found ns)

  unknown_missed :
      (ns : List SubledgerEventMapping) → exists of_type ns ≡ false → find in_use ns ≡ none
  unfolding exists find
  unknown_missed [] e = refl
  unknown_missed (n ∷ ns) e = ground (arith, unknown_missed ns)

  found_last : find in_use (m ∷ []) ≡ some m
  unfolding find
  found_last = rw in_use_itself refl

  saved_found :
      (ns : List SubledgerEventMapping)
      → find in_use (if exists of_type ns then update_where of_type (λ n. m) ns else ns ++ m ∷ [])
        ≡ some m
  saved_found ns = elim (Bool-cases (exists of_type ns)) [
    | inl known ↦ ap (find in_use) (if_true _ _ known) ∙ overwritten_found ns known
    | inr new ↦
        ap (find in_use) (if_false _ _ new)
        ∙ find-append_none in_use ns (m ∷ []) (unknown_missed ns new)
        ∙ found_last
  ]

-- A mapping that is saved as active, new or over an older one of its type, active or not, is the one
-- that the type finds.
pub change_mapping-get_mapping :
    (s : Strings) (request : SubledgerEventMapping) (db : Db) {r : SubledgerEventMapping × Db}
    → change_mapping s request db ≡ ok r
    → r.0.is_active ≡ true
    → get_mapping r.0.event_type r.1 ≡ ok r.0
unfolding change_mapping save_mapping
change_mapping-get_mapping s request db {r} e active =
    let (m, _, e1) = >>=-eq-ok (validate_mapping s request) _ e in
    let (_, _, e2) = >>=-eq-ok (get_journal_by_id m.journal_id db) _ e1 in
    let (_, _, e3) = >>=-eq-ok (mapped_account m.debit_account_id db) _ e2 in
    let (_, _, e4) = >>=-eq-ok (mapped_account m.credit_account_id db) _ e3 in
    let (db', f, e5) = >>=-eq-ok (save_mapping m db) _ e4 in
    let (_, g) = guard-eq-ok (mapping_accepted m db) constraint_violation _ f in
    let same : r.0 ≡ m = ok-eq_0 e5 in
    let live : m.is_active ≡ true =
      ap (λ (x : SubledgerEventMapping). x.is_active) (sym same) ∙ active in
    let tables : r.1.mappings ≡ (
        if exists (of_type m live) db.mappings
        then update_where (of_type m live) (λ n. m) db.mappings
        else db.mappings ++ m ∷ []) =
      ap (λ (d : Db). d.mappings) (ok-eq_1 e5 ∙ sym (ok-injective g)) in
    rw (same, tables, saved_found m live db.mappings) refl
