-- ===== src/Registry/Projection.antt =====
-- The files of the registry and their two readings (tools/learning-loop-mastra/core/meta-state.js).
-- A file is the list of its parsed lines, oldest first.
pub mod Latest
pub mod Best
pub mod Found
pub mod Append
pub mod Newest
use learning_loop_template.Base.{
  String, Bool, ◌&&◌, ◌||◌, not, Option, none, some, List, [], ◌∷◌, ◌++◌, map, ltb, ◌==◌,
  if◌then◌else◌, str_eq, Text, text_lt, codes,
}
use learning_loop_template.Registry.Entry.{Entry, Kind, Status, version_of, created_of, read_line}

-- The reasons and reason codes that the operations report.
pub data Reason : Type 0 where
  not_found already_archived not_archived not_a_finding already_accepted already_terminal : Reason
  delete_not_restorable no_pre_tombstone_version change_log_immutable : Reason
  not_a_loop_design version_mismatch already_shipped invalid_status : Reason
  write_entry_identity write_if_absent_identity rule_promotion_identity : Reason
  entry_kind_immutable caller_supplied_envelope : Reason

-- What `assertinvariant` writes to the gate log when it refuses an operation; the id is empty where it
-- names none.
pub record Violation : Type 0 where
  pub reason_code : Reason
  pub id : String
  pub entry_kind : Option Kind
  pub current_status : Option Status

-- A reference of one entry to another, by the field that holds it.
pub record Ref : Type 0 where
  pub field_name : String
  pub target : Text

-- A line of the gate log: of `assertinvariant`, of `warnStructuralRI` and of
-- `auditImmutableFieldTransition`. The tool and the time stamp are left out.
pub data GateLine : Type 0 where
  violated : Violation → GateLine
  dangling_refs : String → List Ref → GateLine
  immutable_fields : String → List String → GateLine

pub record Store : Type 0 where
  pub meta_state : List Entry
  pub change_log : Option (List Entry)  -- `none`: the file does not exist
  pub citations : List Entry
  pub gate_log : List GateLine

abbrev pub lines_of : Option (List Entry) → List Entry
lines_of none = []
lines_of (some es) = es

unfoldable pub read_raw_lines : Store → List Entry
read_raw_lines s = map read_line (s.meta_state ++ (lines_of s.change_log ++ s.citations))

-- Does the line `next` replace the line `prior` of the same id?
unfoldable pub replaces : Entry → Entry → Bool
replaces next prior =
    ltb (version_of prior) (version_of next)
    || (version_of next == version_of prior && text_lt (created_of prior) (created_of next))

-- `byId.set(entry.id, entry)`: a key keeps the place where it was first set.
unfoldable pub merge : Entry → List Entry → List Entry
merge e [] = e ∷ []
merge e (p ∷ ps) = if str_eq p.id e.id then (if replaces e p then e else p) ∷ ps else p ∷ merge e ps

unfoldable pub collapse_from : List Entry → List Entry → List Entry
collapse_from by_id [] = by_id
collapse_from by_id (e ∷ es) = collapse_from (merge e by_id) es

-- `sort` is stable, so it agrees with insertion from the right.
module _ (before : Entry → Entry → Bool) where
  unfoldable pub insert_sorted : Entry → List Entry → List Entry
  insert_sorted e [] = e ∷ []
  insert_sorted e (p ∷ ps) = if before p e then p ∷ insert_sorted e ps else e ∷ p ∷ ps

  unfoldable pub sort_by : List Entry → List Entry
  unfolding insert_sorted
  sort_by [] = []
  sort_by (e ∷ es) = insert_sorted e (sort_by es)

unfoldable pub created_before : Entry → Entry → Bool
created_before a b = text_lt (created_of a) (created_of b)

unfoldable pub read_registry : Store → List Entry
read_registry s = sort_by created_before (collapse_from [] (read_raw_lines s))

-- `a < b` on ids, which are plain ASCII.
abbrev id_lt : String → String → Bool
id_lt a b = text_lt (codes a) (codes b)

-- The comparator of `parseFnAllVersions`.
unfoldable pub version_before : Entry → Entry → Bool
version_before a b =
    if not (str_eq a.id b.id)
    then id_lt a.id b.id
    else if not (version_of a == version_of b)
    then ltb (version_of a) (version_of b)
    else text_lt (created_of a) (created_of b)

unfoldable pub read_registry_all_versions : Store → List Entry
read_registry_all_versions s = sort_by version_before (read_raw_lines s)

-- `entries.find((e) => e.id === id)`
unfoldable pub find_entry : String → List Entry → Option Entry
find_entry id [] = none
find_entry id (e ∷ es) = if str_eq e.id id then some e else find_entry id es

-- The current line of an id, as every operation looks it up.
unfoldable pub current : Store → String → Option Entry
current s id = find_entry id (read_registry s)
