-- ===== src/Registry/Lifecycle/Restore.antt =====
-- `restoreEntry` of tools/learning-loop-mastra/core/meta-state.js.
use learning_loop_template.Base.{
  ℕ, suc, String, Bool, true, false, not, ◌&&◌, Option, none, some, List, [], ◌∷◌, ltb,
  if◌then◌else◌, str_eq, Text, select,
}
use learning_loop_template.Registry.Entry.{
  Entry, Status, Tombstone, delete_tombstone, version_of, is_archived,
}
use learning_loop_template.Registry.Projection.{
  not_found, not_archived, delete_not_restorable, no_pre_tombstone_version,
  read_registry_all_versions, current,
}
use learning_loop_template.Registry.Files.{append_line}
use learning_loop_template.Registry.Lifecycle.Step.{refusal, Op, appending, refuse, log_violation}

pub record Restored : Type 0 where
  pub id : String
  pub restored_status : Option Status
  pub restored_at : Text
  pub reason : Option String
  pub version : ℕ

-- The candidates for the line before the tombstone.
unfoldable pub is_candidate : String → ℕ → Entry → Bool
is_candidate id tombstone_version e =
    str_eq e.id id && (ltb (version_of e) tombstone_version && not (is_archived e.status))

-- The loop over the candidates: the first with the highest version.
unfoldable pub pre_tombstone : Option Entry → List Entry → Option Entry
pre_tombstone found [] = found
pre_tombstone none (c ∷ cs) = pre_tombstone (some c) cs
pre_tombstone (some p) (c ∷ cs) =
    pre_tombstone (some (if ltb (version_of p) (version_of c) then c else p)) cs

-- `preTombstone.version` does not enter: the line takes the version after the tombstone's.
abbrev pub restore_line : ℕ → Entry → Entry
restore_line tombstone_version p = record p {
  version = some (suc tombstone_version);
  archived_at = none;
  archived_by = none;
  archived_reason = none;
  tombstone_kind = none;
}

abbrev pub is_delete : Option Tombstone → Bool
is_delete (some delete_tombstone) = true
is_delete _ = false

unfoldable pub restore_from : Bool → Text → String → Option String → ℕ → Option Entry → Op Restored
restore_from broken now id reason v none s = refuse (refusal no_pre_tombstone_version id) s
restore_from broken now id reason v (some p) s =
    appending (append_line broken (restore_line v p) s)
      (record {
        id = id;
        restored_status = p.status;
        restored_at = now;
        reason = reason;
        version = suc v;
      })
      s

-- `assertArchivedTombstone` is the test on the status; a refusal is logged.
unfoldable pub restore_found : Bool → Text → String → Option String → Entry → Op Restored
unfolding restore_from
restore_found broken now id reason e s =
    if not (is_archived e.status)
    then refuse (refusal not_archived id) (log_violation not_archived id none none s)
    else if is_delete e.tombstone_kind
    then refuse
        (record (refusal delete_not_restorable id) { tombstone_kind = some delete_tombstone }) s
    else restore_from broken now id reason (version_of e)
        (pre_tombstone none
          (select (is_candidate id (version_of e)) (read_registry_all_versions s)))
        s

unfoldable pub restore_entry : Bool → Text → String → Option String → Op Restored
restore_entry broken now id reason s = elim (current s id) [
  | none ↦ refuse (refusal not_found id) s
  | some e ↦ restore_found broken now id reason e s
]
