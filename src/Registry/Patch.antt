-- ===== src/Registry/Patch.antt =====
-- Patches of an entry (tools/learning-loop-mastra/core/meta-state.js): an object of fields that
-- `updateEntry` and `metaStateBatch` spread over the current line.
use learning_loop_template.Base.{
  ℕ, String, Bool, not, Option, none, some, List, [], ◌∷◌, Text, if◌then◌else◌, str_eq, any_of,
  select,
}
use learning_loop_template.Json.{Json}
use learning_loop_template.Registry.Entry.{
  Entry, Status, opened, resolved, accepted, archived, superseded, active, inactive, reported,
  stale, other_status, Kind, finding, change_log, rule, loop_design, citation, other_kind,
  Tombstone, archive_tombstone, delete_tombstone, other_tombstone,
}

abbrev pub status_text : Status → String
status_text opened = "open"
status_text resolved = "resolved"
status_text accepted = "accepted"
status_text archived = "archived"
status_text superseded = "superseded"
status_text active = "active"
status_text inactive = "inactive"
status_text reported = "reported"
status_text stale = "stale"
status_text (other_status s) = s

abbrev pub kind_text : Kind → String
kind_text finding = "finding"
kind_text change_log = "change-log"
kind_text rule = "rule"
kind_text loop_design = "loop-design"
kind_text citation = "citation"
kind_text (other_kind k) = k

abbrev pub tombstone_text : Tombstone → String
tombstone_text archive_tombstone = "archive"
tombstone_text delete_tombstone = "delete"
tombstone_text (other_tombstone t) = t

-- One field of a patch. A null is `none`, as in an entry; a patch of `content` holds any JSON value.
pub data Change : Type 0 where
  id_to : String → Change
  entry_kind_to : Option Kind → Change
  status_to : Option Status → Change
  version_to : Option ℕ → Change
  created_at_to last_verified_at_to resolved_at_to archived_at_to accepted_at_to shipped_at_to :
      Option Text → Change
  affected_system_to resolved_by_to resolution_to archived_by_to archived_reason_to :
      Option String → Change
  accepted_by_to accepted_reason_to shipped_in_plan_to evidence_code_ref_to : Option String → Change
  evidence_test_to code_fingerprint_to subtype_to recurrence_key_to : Option String → Change
  tombstone_kind_to : Option Tombstone → Change
  content_to : String → Json → Change

unfoldable pub key_of : Change → String
key_of (id_to v) = "id"
key_of (entry_kind_to v) = "entry_kind"
key_of (status_to v) = "status"
key_of (version_to v) = "version"
key_of (created_at_to v) = "created_at"
key_of (last_verified_at_to v) = "last_verified_at"
key_of (resolved_at_to v) = "resolved_at"
key_of (archived_at_to v) = "archived_at"
key_of (accepted_at_to v) = "accepted_at"
key_of (shipped_at_to v) = "shipped_at"
key_of (affected_system_to v) = "affected_system"
key_of (resolved_by_to v) = "resolved_by"
key_of (resolution_to v) = "resolution"
key_of (archived_by_to v) = "archived_by"
key_of (archived_reason_to v) = "archived_reason"
key_of (accepted_by_to v) = "accepted_by"
key_of (accepted_reason_to v) = "accepted_reason"
key_of (shipped_in_plan_to v) = "shipped_in_plan"
key_of (evidence_code_ref_to v) = "evidence_code_ref"
key_of (evidence_test_to v) = "evidence_test"
key_of (code_fingerprint_to v) = "code_fingerprint"
key_of (subtype_to v) = "subtype"
key_of (recurrence_key_to v) = "recurrence_key"
key_of (tombstone_kind_to v) = "tombstone_kind"
key_of (content_to k v) = k

unfoldable pub set_content : String → Json → List (String × Json) → List (String × Json)
set_content k v [] = (k, v) ∷ []
set_content k v ((j, w) ∷ fs) = if str_eq j k then (k, v) ∷ fs else (j, w) ∷ set_content k v fs

unfoldable pub get_content : String → List (String × Json) → Option Json
get_content k [] = none
get_content k ((j, w) ∷ fs) = if str_eq j k then some w else get_content k fs

-- The field takes the value of the patch.
unfoldable pub apply_change : Change → Entry → Entry
apply_change (id_to v) e = record e { id = v }
apply_change (entry_kind_to v) e = record e { entry_kind = v }
apply_change (status_to v) e = record e { status = v }
apply_change (version_to v) e = record e { version = v }
apply_change (created_at_to v) e = record e { created_at = v }
apply_change (last_verified_at_to v) e = record e { last_verified_at = v }
apply_change (resolved_at_to v) e = record e { resolved_at = v }
apply_change (archived_at_to v) e = record e { archived_at = v }
apply_change (accepted_at_to v) e = record e { accepted_at = v }
apply_change (shipped_at_to v) e = record e { shipped_at = v }
apply_change (affected_system_to v) e = record e { affected_system = v }
apply_change (resolved_by_to v) e = record e { resolved_by = v }
apply_change (resolution_to v) e = record e { resolution = v }
apply_change (archived_by_to v) e = record e { archived_by = v }
apply_change (archived_reason_to v) e = record e { archived_reason = v }
apply_change (accepted_by_to v) e = record e { accepted_by = v }
apply_change (accepted_reason_to v) e = record e { accepted_reason = v }
apply_change (shipped_in_plan_to v) e = record e { shipped_in_plan = v }
apply_change (evidence_code_ref_to v) e = record e { evidence_code_ref = v }
apply_change (evidence_test_to v) e = record e { evidence_test = v }
apply_change (code_fingerprint_to v) e = record e { code_fingerprint = v }
apply_change (subtype_to v) e = record e { subtype = v }
apply_change (recurrence_key_to v) e = record e { recurrence_key = v }
apply_change (tombstone_kind_to v) e = record e { tombstone_kind = v }
apply_change (content_to k v) e = record e { content = set_content k v e.content }

-- `{ ...existing, ...patch }`
unfoldable pub spread : Entry → List Change → Entry
spread e [] = e
spread e (c ∷ cs) = spread (apply_change c e) cs

-- `IMMUTABLE_PATCH_FIELDS`
abbrev pub immutable_patch_fields : List String
immutable_patch_fields =
    "id" ∷ "version" ∷ "created_at" ∷ "created_by" ∷ "code_fingerprint" ∷ "resolved_at"
    ∷ "resolved_by" ∷ "resolution" ∷ "accepted_at" ∷ "accepted_by" ∷ "accepted_reason"
    ∷ "entry_kind" ∷ "status" ∷ "operation_envelope" ∷ "last_verified_at" ∷ []

unfoldable pub is_denied : Change → Bool
is_denied c = any_of (str_eq (key_of c)) immutable_patch_fields

abbrev pub is_key : String → Change → Bool
is_key k c = str_eq (key_of c) k

-- `delete patch[key]`
unfoldable pub without : String → List Change → List Change
without k = select (λ c. not (is_key k c))
