-- ===== src/Registry/Entry.antt =====
-- A line of the registry (tools/learning-loop-mastra/core/meta-state.js): the fields that the
-- modelled operations read or write, with `none` for a missing or null field, and for an empty
-- `entry_kind`. The fields that they only carry along are `content`.
use learning_loop_template.Base.{ℕ, String, Bool, true, false, Option, none, some, List, [], Text}
use learning_loop_template.Json.{Json}

-- The values of `status`: the persisted enum, the values that `archive` and older lines use, and
-- any other string.
pub data Status : Type 0 where
  opened resolved accepted archived superseded active inactive reported stale : Status
  other_status : String → Status

pub data Kind : Type 0 where
  finding change_log rule loop_design citation : Kind
  other_kind : String → Kind

-- The values of `tombstone_kind`.
pub data Tombstone : Type 0 where
  archive_tombstone delete_tombstone : Tombstone
  other_tombstone : String → Tombstone

pub record Entry : Type 0 where
  pub id : String
  pub entry_kind : Option Kind
  pub status : Option Status
  pub version : Option ℕ
  pub created_at : Option Text
  pub last_verified_at : Option Text
  pub affected_system : Option String
  pub resolved_at : Option Text
  pub resolved_by : Option String
  pub resolution : Option String
  pub archived_at : Option Text
  pub archived_by : Option String
  pub archived_reason : Option String
  pub tombstone_kind : Option Tombstone
  pub accepted_at : Option Text
  pub accepted_by : Option String
  pub accepted_reason : Option String
  pub shipped_in_plan : Option String
  pub shipped_at : Option Text
  pub evidence_code_ref : Option String
  pub evidence_test : Option String
  pub code_fingerprint : Option String
  pub subtype : Option String
  pub recurrence_key : Option String
  pub content : List (String × Json)

-- `entry.version ?? 0`
abbrev pub version_of : Entry → ℕ
version_of e = elim e.version [ none ↦ 0 | some v ↦ v ]

-- `entry.created_at ?? ""`
abbrev pub created_of : Entry → Text
created_of e = elim e.created_at [ none ↦ [] | some t ↦ t ]

abbrev pub is_change_log : Option Kind → Bool
is_change_log (some change_log) = true
is_change_log _ = false

abbrev pub is_citation : Option Kind → Bool
is_citation (some citation) = true
is_citation _ = false

abbrev pub is_finding : Option Kind → Bool
is_finding (some finding) = true
is_finding _ = false

abbrev pub is_rule : Option Kind → Bool
is_rule (some rule) = true
is_rule _ = false

abbrev pub is_loop_design : Option Kind → Bool
is_loop_design (some loop_design) = true
is_loop_design _ = false

abbrev pub is_archived : Option Status → Bool
is_archived (some archived) = true
is_archived _ = false

abbrev pub is_accepted : Option Status → Bool
is_accepted (some accepted) = true
is_accepted _ = false

-- `if (!entry.entry_kind) entry.entry_kind = "finding"`
abbrev pub coerce_kind : Option Kind → Option Kind
coerce_kind none = some finding
coerce_kind (some k) = some k

-- `AFFECTED_SYSTEM_DEFAULT`
abbrev pub affected_system_default : String
affected_system_default = "meta"

abbrev pub default_system : Option String → Option String
default_system none = some affected_system_default
default_system (some s) = some s

unfoldable pub with_defaults : Entry → Entry
with_defaults e = record e { affected_system = default_system e.affected_system }

-- What `readRawLines` does to each parsed line.
unfoldable pub read_line : Entry → Entry
unfolding with_defaults
read_line e = with_defaults (record e { entry_kind = coerce_kind e.entry_kind })
