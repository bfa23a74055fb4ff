-- ===== src/Registry/Refine.antt =====
-- What `updateEntry` and `metaStateBatch` of tools/learning-loop-mastra/core/meta-state.js do to an entry
-- with a cleaned patch, before anything is appended.
use learning_loop_template.Base.{
  ℕ, String, Bool, true, false, not, ◌&&◌, ◌||◌, Option, none, some, List, [], ◌∷◌, Text,
  if◌then◌else◌, str_eq, text_eq, any_of, select, map, leb, ◌==◌, codes, ◌+◌,
}
use learning_loop_template.Json.{Json, null, bool, num, other_num, str, arr, obj}
use learning_loop_template.Registry.Entry.{Entry, Kind, version_of, is_rule, with_defaults}
use learning_loop_template.Registry.Patch.{
  Change, id_to, entry_kind_to, status_to, version_to, created_at_to, last_verified_at_to,
  resolved_at_to, archived_at_to, accepted_at_to, shipped_at_to, affected_system_to, resolved_by_to,
  resolution_to, archived_by_to, archived_reason_to, accepted_by_to, accepted_reason_to,
  shipped_in_plan_to, evidence_code_ref_to, evidence_test_to, code_fingerprint_to, subtype_to,
  recurrence_key_to, tombstone_kind_to, content_to, key_of, is_denied, is_key, without, spread,
  status_text, kind_text, tombstone_text,
}
use learning_loop_template.Registry.Fields.{mapped, to_json, value_at, rule_has_material_change}
use learning_loop_template.Registry.Writes.{opt_str_eq}
use learning_loop_template.Registry.Host.{Host}

-- `!("entry_kind" in p) || p.entry_kind === existing.entry_kind`
unfoldable pub kind_kept : Option Kind → List Change → Bool
kind_kept k [] = true
kind_kept k (entry_kind_to j ∷ cs) =
    opt_str_eq (mapped kind_text j) (mapped kind_text k) && kind_kept k cs
kind_kept k (c ∷ cs) = kind_kept k cs

-- The patch without the keys that are never applied.
abbrev pub cleaned : List Change → List Change
cleaned cs = without "entry_kind" (without "constructor" (without "__proto__" cs))

abbrev pub names_supersedes : List Change → Bool
names_supersedes = any_of (is_key "supersedes")

-- `cleanPatch.supersedes`
unfoldable pub supersedes_of : List Change → Option Json
supersedes_of [] = none
supersedes_of (content_to k v ∷ cs) =
    let rest = supersedes_of cs in if str_eq k "supersedes" then some v else rest
supersedes_of (c ∷ cs) = supersedes_of cs

-- The white space that `trim` removes.
abbrev is_space : ℕ → Bool
is_space c =
    (leb 9 c && leb c 13)
    || c == 32
    || c == 160
    || c == 5760
    || (leb 8192 c && leb c 8202)
    || c == 8232
    || c == 8233
    || c == 8239
    || c == 8287
    || c == 12288
    || c == 65279

-- `typeof v === "string" && v.trim().length > 0`
unfoldable pub names_rule : Option Json → Bool
names_rule (some (str t)) = any_of (λ c. not (is_space c)) t
names_rule _ = false

-- Is the value truthy? A number that is no natural one is not 0.
unfoldable pub is_truthy : Json → Bool
is_truthy null = false
is_truthy (bool b) = b
is_truthy (num n) = not (n == 0)
is_truthy (other_num t) = true
is_truthy (str t) = not (text_eq t [])
is_truthy (arr vs) = true
is_truthy (obj fs) = true

pub data Refined : Type 0 where
  invalid supersedes_missing : Refined
  refined : Entry → Refined

unfoldable pub refine_rule : Host → Entry → Option Json → Option Entry → Refined
refine_rule h e supersedes none = invalid
refine_rule h e supersedes (some p) =
    let q : Entry = record p { version = some (version_of e) } in
    if rule_has_material_change h.stringify e q && not (names_rule supersedes)
    then supersedes_missing
    else refined q

-- The entry that the patch makes of `e`.
unfoldable pub refine : Host → Entry → List Change → Option Json → Refined
refine h e cs supersedes =
    if is_rule e.entry_kind
    then refine_rule h e supersedes (h.parse_rule (with_defaults (spread e cs)))
    else refined (with_defaults (spread e cs))

-- The line to append.
abbrev pub next_version : Entry → Entry → Entry
next_version e p = record p { version = some (version_of e + 1) }

abbrev text_json : Option Text → Json
text_json none = null
text_json (some t) = str t

abbrev string_json : Option String → Json
string_json none = null
string_json (some t) = str (codes t)

abbrev number_json : Option ℕ → Json
number_json none = null
number_json (some n) = num n

-- The value that a change gives its key.
unfoldable pub value_of : Change → Json
value_of (id_to v) = str (codes v)
value_of (entry_kind_to v) = string_json (mapped kind_text v)
value_of (status_to v) = string_json (mapped status_text v)
value_of (version_to v) = number_json v
value_of (created_at_to v) = text_json v
value_of (last_verified_at_to v) = text_json v
value_of (resolved_at_to v) = text_json v
value_of (archived_at_to v) = text_json v
value_of (accepted_at_to v) = text_json v
value_of (shipped_at_to v) = text_json v
value_of (affected_system_to v) = string_json v
value_of (resolved_by_to v) = string_json v
value_of (resolution_to v) = string_json v
value_of (archived_by_to v) = string_json v
value_of (archived_reason_to v) = string_json v
value_of (accepted_by_to v) = string_json v
value_of (accepted_reason_to v) = string_json v
value_of (shipped_in_plan_to v) = string_json v
value_of (evidence_code_ref_to v) = string_json v
value_of (evidence_test_to v) = string_json v
value_of (code_fingerprint_to v) = string_json v
value_of (subtype_to v) = string_json v
value_of (recurrence_key_to v) = string_json v
value_of (tombstone_kind_to v) = string_json (mapped tombstone_text v)
value_of (content_to k v) = v

-- `JSON.stringify(cleanPatch[k]) !== JSON.stringify(existingEntry[k])`
unfoldable pub differs : (Json → Text) → Json → Option Json → Bool
differs stringify v none = true
differs stringify v (some w) = not (text_eq (stringify v) (stringify w))

-- The immutable fields that a patch changes, as `auditImmutableFieldTransition` names them. A field that
-- an entry holds as null counts as missing.
unfoldable pub immutable_transitions : (Json → Text) → List Change → Entry → List String
immutable_transitions stringify cs e = map key_of (
    select (λ c. is_denied c && differs stringify (value_of c) (value_at (key_of c) (to_json e)))
      cs)
