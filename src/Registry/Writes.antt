-- ===== src/Registry/Writes.antt =====
-- `writeEntry`, `writeEntryIfAbsent` and `writeRuleWithOriginCitationAtomic` of
-- tools/learning-loop-mastra/core/meta-state.js, each one step under the registry lock.
pub mod Prepared
pub mod Absent
pub mod Promotion
use learning_loop_template.Base.{
  ℕ, String, Bool, true, false, not, ◌&&◌, ◌||◌, Option, none, some, List, [], ◌∷◌, ◌++◌, map, Text,
  codes, if◌then◌else◌, str_eq, any_of, is_set,
}
use learning_loop_template.Registry.Entry.{
  Entry, Kind, is_change_log, is_citation, is_rule, is_finding, is_archived,
}
use learning_loop_template.Registry.Projection.{
  Store, Reason, write_entry_identity, write_if_absent_identity, rule_promotion_identity,
  read_registry,
}
use learning_loop_template.Registry.Lifecycle.Step.{
  Error, invalid_entry, schema_version_skew, invalid_entry_error, rule_id_exists,
  rule_promotion_requires_rule_entry, Result, ok, thrown, log_violation,
}
use learning_loop_template.Registry.Files.{
  Disk, append_line, versioned, append_change_log, append_citation, restore_snapshot,
  warn_structural_ri, ids_of,
}
use learning_loop_template.Registry.References.{resolve_structural_ri}
use learning_loop_template.Registry.Host.{Host}

-- `typeof e.recurrence_key === "string" && e.recurrence_key.length > 0`
abbrev pub has_key : Entry → Bool
has_key e = elim e.recurrence_key [ none ↦ false | some k ↦ not (str_eq k "") ]

-- The identity pre-condition. The id is a string by its type.
abbrev pub is_identified : Bool → Entry → Bool
is_identified require_key e = is_set e.entry_kind && (not require_key || has_key e)

-- `a === b` where either may be undefined.
abbrev pub opt_str_eq : Option String → Option String → Bool
opt_str_eq none none = true
opt_str_eq (some a) (some b) = str_eq a b
opt_str_eq _ _ = false

unfoldable pub find_where : (Entry → Bool) → List Entry → Option Entry
find_where p [] = none
find_where p (e ∷ es) = if p e then some e else find_where p es

unfoldable pub has_rule : String → List Entry → Bool
has_rule id = any_of (λ x. is_rule x.entry_kind && str_eq x.id id)

abbrev supported : Host → Option Kind → Bool
supported h none = true
supported h (some k) = h.is_supported k

-- The entry that passed the schema, against the registry.
unfoldable pub prepare_parsed : Option Entry → Store → Result Entry × Store
prepare_parsed none s = (thrown invalid_entry_error, s)
prepare_parsed (some d) s =
    if is_rule d.entry_kind && has_rule d.id (read_registry s)
    then (thrown rule_id_exists, s)
    else (
      ok d,
      record s {
        gate_log =
            warn_structural_ri d.id (resolve_structural_ri (ids_of (read_registry s)) d) s.gate_log;
      },
    )

unfoldable pub prepare_write_entry : Host → Bool → Reason → Entry → Store → Result Entry × Store
prepare_write_entry h require_key code e s =
    if not (is_identified require_key e)
    then (thrown invalid_entry, log_violation code "" none none s)
    else if not (supported h e.entry_kind)
    then (thrown schema_version_skew, s)
    else prepare_parsed (h.parse_entry e) s

-- An append that throws leaves the store.
abbrev pub settle {ℓ} : {A : Type ℓ} → A → Result Store → Store → Result A × Store
settle a (ok s') s = (ok a, s')
settle a (thrown e) s = (thrown e, s)

-- `writeEntry` after its prologue.
unfoldable pub write_prepared : Disk → Result Entry → Store → Result (Unit {0}) × Store
write_prepared fails (thrown e) s = (thrown e, s)
write_prepared fails (ok d) s =
    if is_change_log d.entry_kind
    then settle tt (append_change_log (fails 0) d s) s
    else if is_citation d.entry_kind
    then settle tt (append_citation (fails 0) d s) s
    else settle tt (append_line (fails 0) (versioned d) s) s

unfoldable pub write_entry : Host → Disk → Entry → Store → Result (Unit {0}) × Store
write_entry h fails e s =
    let (r, s') = prepare_write_entry h false write_entry_identity e s in write_prepared fails r s'
