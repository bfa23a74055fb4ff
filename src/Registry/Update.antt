-- ===== src/Registry/Update.antt =====
-- `updateEntry` of tools/learning-loop-mastra/core/meta-state.js: one step under the registry lock.
pub mod Revised
pub mod Applied
use learning_loop_template.Base.{
  ℕ, String, Bool, true, false, not, ◌&&◌, ◌||◌, Option, none, some, List, [], ◌∷◌, ◌++◌, Text,
  if◌then◌else◌, text_eq, ◌==◌, is_set,
}
use learning_loop_template.Json.{Json, str}
use learning_loop_template.Registry.Entry.{Entry, version_of, is_change_log, is_rule}
use learning_loop_template.Registry.Projection.{
  Store, GateLine, immutable_fields, entry_kind_immutable, read_registry, current,
}
use learning_loop_template.Registry.Lifecycle.Step.{
  Error, change_log_immutable_error, Result, ok, thrown, log_violation,
}
use learning_loop_template.Registry.Patch.{Change, without}
use learning_loop_template.Registry.Fields.{entries_equal}
use learning_loop_template.Registry.References.{changed_dangling}
use learning_loop_template.Registry.Files.{
  Disk, append_line, append_citation, warn_structural_ri, ids_of,
}
use learning_loop_template.Registry.Host.{Host}
use learning_loop_template.Registry.Citations.{Stamp, rule_supersession_citation, cite_or_restore}
use learning_loop_template.Registry.Refine.{
  kind_kept, cleaned, names_supersedes, supersedes_of, is_truthy, Refined, invalid,
  supersedes_missing, refined, refine, next_version, immutable_transitions,
}

-- The replies: `true`, `null`, and the four strings.
pub data Updated : Type 0 where
  updated missing version_mismatched validation_failed supersedes_required immutable_field : Updated

-- `auditImmutableFieldTransition`
unfoldable pub audit_immutable : String → List String → List GateLine → List GateLine
audit_immutable id [] log = log
audit_immutable id (f ∷ fs) log = log ++ immutable_fields id (f ∷ fs) ∷ []

abbrev pub with_advice : Host → String → List Change → Entry → Entry → Store → Store
with_advice h id cs e t s = record s {
  gate_log =
      audit_immutable id (immutable_transitions h.stringify cs e)
        (warn_structural_ri id (changed_dangling (ids_of (read_registry s)) t e) s.gate_log);
}

-- `ruleSupersedes !== undefined && ruleSupersedes !== cleanPatch.supersedes`
unfoldable pub conflicts : Option Text → Option Json → Bool
conflicts none v = false
conflicts (some t) (some (str u)) = not (text_eq t u)
conflicts (some t) v = true

abbrev pub option_json : Option Text → Option Json
option_json none = none
option_json (some t) = some (str t)

abbrev pub mismatched : Option ℕ → Entry → Bool
mismatched none e = false
mismatched (some v) e = not (version_of e == v)

abbrev pub is_empty : List Change → Bool
is_empty [] = true
is_empty (c ∷ cs) = false

module _ (h : Host) (fails : Disk) (st : Stamp) (id : String) where
  -- The citation of the rule that a refinement supersedes; `before` is the store of the snapshots.
  unfoldable pub cite_supersession : Option Json → Entry → Store → Store → Result Updated × Store
  cite_supersession none e before s = (ok updated, s)
  cite_supersession (some v) e before s =
      if is_rule e.entry_kind && is_truthy v
      then cite_or_restore updated before s
          (append_citation (fails 1) (rule_supersession_citation st id v) s)
      else (ok updated, s)

  unfoldable pub update_appended :
      Option Json → Entry → Store → Store → Result Store → Result Updated × Store
  update_appended supersedes e before s (thrown x) = (thrown x, s)
  update_appended supersedes e before s (ok s') = cite_supersession supersedes e before s'

  unfoldable pub append_update :
      Option Json → List Change → Entry → Entry → Store → Result Updated × Store
  append_update supersedes cs e t s =
      let s' = with_advice h id cs e t s in
      update_appended supersedes e s s' (append_line (fails 0) t s')

  unfoldable pub update_refined :
      Option Json → List Change → Entry → Refined → Store → Result Updated × Store
  update_refined supersedes cs e invalid s = (ok validation_failed, s)
  update_refined supersedes cs e supersedes_missing s = (ok supersedes_required, s)
  update_refined supersedes cs e (refined p) s =
      if entries_equal h.stringify p e
      then (ok updated, s)
      else append_update supersedes cs e (next_version e p) s

  abbrev pub update_with : Option Json → List Change → Entry → Store → Result Updated × Store
  update_with supersedes cs e s = update_refined supersedes cs e (refine h e cs supersedes) s

  -- `option` is `options.ruleSupersedes`.
  unfoldable pub update_clean : Option Text → List Change → Entry → Store → Result Updated × Store
  update_clean option cs e s =
      if is_rule e.entry_kind && names_supersedes cs
      then (if conflicts option (supersedes_of cs)
          then (ok validation_failed, s)
          else update_with (supersedes_of cs) (without "supersedes" cs) e s)
      else update_with (option_json option) cs e s

  unfoldable pub update_found :
      List Change → Option ℕ → Option Text → Entry → Store → Result Updated × Store
  update_found patch expected option e s =
      if is_change_log e.entry_kind
      then (thrown change_log_immutable_error, s)
      else if is_empty patch && not (is_set expected)
      then (ok validation_failed, s)
      else if not (kind_kept e.entry_kind (without "entry_kind" patch))
      then (ok immutable_field, log_violation entry_kind_immutable id none none s)
      else if mismatched expected e
      then (ok version_mismatched, s)
      else update_clean option (cleaned patch) e s

  -- `expected` is the patch's `_expected_version`, apart from its other fields.
  unfoldable pub update_entry :
      List Change → Option ℕ → Option Text → Store → Result Updated × Store
  update_entry patch expected option s = elim (current s id) [
    | none ↦ (ok missing, s)
    | some e ↦ update_found patch expected option e s
  ]
