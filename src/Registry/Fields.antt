-- ===== src/Registry/Fields.antt =====
-- An entry as the object that the canonical comparator sees.
use learning_loop_template.Base.{
  ℕ, String, Option, none, some, List, [], ◌∷◌, Text, codes, Bool, any_of, not, ◌||◌,
}
use learning_loop_template.Json.{Json, num, str, obj, Fields, bare, field, get_field}
use learning_loop_template.Json.Canonical.{values_equal}
use learning_loop_template.Registry.Entry.{Entry}
use learning_loop_template.Registry.Patch.{status_text, kind_text, tombstone_text, get_content}

abbrev text_field : String → Option Text → Fields → Fields
text_field k none fs = fs
text_field k (some t) fs = field k (str t) fs

abbrev string_field : String → Option String → Fields → Fields
string_field k none fs = fs
string_field k (some t) fs = field k (str (codes t)) fs

abbrev pub mapped {ℓ} : {A : Type ℓ} → (A → String) → Option A → Option String
mapped f none = none
mapped f (some a) = some (f a)

abbrev number_field : String → Option ℕ → Fields → Fields
number_field k none fs = fs
number_field k (some n) fs = field k (num n) fs

unfoldable pub content_fields : List (String × Json) → Fields
content_fields [] = bare
content_fields ((k, v) ∷ cs) = field k v (content_fields cs)

unfoldable pub to_json : Entry → Json
unfolding content_fields
to_json e = obj (
    field "id" (str (codes e.id)) (
      string_field "entry_kind" (mapped kind_text e.entry_kind) (
        string_field "status" (mapped status_text e.status) (
          number_field "version" e.version (
            text_field "created_at" e.created_at (
              text_field "last_verified_at" e.last_verified_at (
                string_field "affected_system" e.affected_system (
                  text_field "resolved_at" e.resolved_at (
                    string_field "resolved_by" e.resolved_by (
                      string_field "resolution" e.resolution (
                        text_field "archived_at" e.archived_at (
                          string_field "archived_by" e.archived_by (
                            string_field "archived_reason" e.archived_reason (
                              string_field "tombstone_kind" (mapped tombstone_text e.tombstone_kind)
                                (text_field "accepted_at" e.accepted_at (
                                  string_field "accepted_by" e.accepted_by (
                                    string_field "accepted_reason" e.accepted_reason (
                                      string_field "shipped_in_plan" e.shipped_in_plan (
                                        text_field "shipped_at" e.shipped_at (
                                          string_field "evidence_code_ref" e.evidence_code_ref (
                                            string_field "evidence_test" e.evidence_test (
                                              string_field "code_fingerprint" e.code_fingerprint (
                                                string_field "subtype" e.subtype (
                                                  string_field "recurrence_key" e.recurrence_key (
                                                    content_fields
                                                      e.content)))))))))))))))))))))))))

-- `entry[key]`
abbrev pub value_at : String → Json → Option Json
value_at k (obj fs) = get_field k fs
value_at k _ = none

module _ (stringify : Json → Text) where
  -- `entriesEqual` on two entries
  unfoldable pub entries_equal : Entry → Entry → Bool
  entries_equal a b = values_equal stringify (some (to_json a)) (some (to_json b))

  -- The rest of `RULE_MATERIAL_FIELDS`; `evidence_code_ref` is compared below.
  abbrev pub material_content : List String
  material_content =
      "internalization_level" ∷ "pattern_type" ∷ "pattern" ∷ "description" ∷ "scope_predicate"
      ∷ "applies_to_resolution" ∷ "applies_to" ∷ "hint_text" ∷ "hint_suggestion" ∷ "hint_order"
      ∷ "hint_slug" ∷ []

  abbrev code_ref : Entry → Option Json
  code_ref e = elim e.evidence_code_ref [ none ↦ none | some r ↦ some (str (codes r)) ]

  -- An `evidence_code_ref` that a rule holds as null counts as missing.
  unfoldable pub rule_has_material_change : Entry → Entry → Bool
  rule_has_material_change before after =
      not (values_equal stringify (code_ref before) (code_ref after))
      || any_of
          (λ k.
            not
              (values_equal stringify (get_content k before.content) (get_content k after.content)))
          material_content
