-- ===== src/Registry/Lifecycle/Archive.antt =====
-- `archiveEntry` and `deleteEntry` of tools/learning-loop-mastra/core/meta-state.js.
use Prim.Native.String.{◌++◌ as str_append}
use learning_loop_template.Base.{suc, String, Bool, Option, none, some, if◌then◌else◌, str_eq, Text}
use learning_loop_template.Registry.Entry.{
  Entry, archived, archive_tombstone, delete_tombstone, version_of, is_change_log, is_archived,
}
use learning_loop_template.Registry.Projection.{
  not_found, already_archived, change_log_immutable, current,
}
use learning_loop_template.Registry.Files.{append_line}
use learning_loop_template.Registry.Lifecycle.Step.{
  change_log_immutable_error, thrown, refusal, Op, appending, refuse, log_violation,
}

pub record Archived : Type 0 where
  pub id : String
  pub archived_at : Text

abbrev pub archive_line : Text → Option String → Option String → Entry → Entry
archive_line now reason by e = record e {
  status = some archived;
  archived_at = some now;
  archived_by = by;
  archived_reason = reason;
  tombstone_kind = some archive_tombstone;
  version = some (suc (version_of e));
}

-- `broken`: the append fails in the file system. `assertNotArchived` is the test on the status; a refusal is logged.
unfoldable pub archive_found :
    Bool → Text → String → Option String → Option String → Entry → Op Archived
archive_found broken now id reason by e s =
    if is_change_log e.entry_kind
    then (thrown change_log_immutable_error, s)
    else if is_archived e.status
    then refuse (refusal already_archived id) (log_violation already_archived id none none s)
    else appending (append_line broken (archive_line now reason by e) s)
        (record { id = id; archived_at = now }) s

unfoldable pub archive_entry : Bool → Text → String → Option String → Option String → Op Archived
archive_entry broken now id reason by s = elim (current s id) [
  | none ↦ refuse (refusal not_found id) s
  | some e ↦ archive_found broken now id reason by e s
]

pub record Deleted : Type 0 where
  pub id : String

-- `reason || "no reason given"`
abbrev pub reason_or_default : Option String → String
reason_or_default none = "no reason given"
reason_or_default (some r) = if str_eq r "" then "no reason given" else r

abbrev pub delete_line : Text → Option String → Entry → Entry
delete_line now reason e = record e {
  status = some archived;
  archived_at = some now;
  archived_by = some "operator";
  archived_reason = some (str_append "deleted: " (reason_or_default reason));
  tombstone_kind = some delete_tombstone;
  version = some (suc (version_of e));
}

unfoldable pub delete_found : Bool → Text → String → Option String → Entry → Op Deleted
delete_found broken now id reason e s =
    if is_change_log e.entry_kind
    then refuse (refusal change_log_immutable id)
        (log_violation change_log_immutable id e.entry_kind none s)
    else appending (append_line broken (delete_line now reason e) s) (record { id = id }) s

unfoldable pub delete_entry : Bool → Text → String → Option String → Op Deleted
delete_entry broken now id reason s = elim (current s id) [
  | none ↦ refuse (refusal not_found id) s
  | some e ↦ delete_found broken now id reason e s
]
