-- ===== src/Registry/References.antt =====
-- The references of an entry to others and the ones that dangle (tools/learning-loop-mastra/core/
-- entry/relationship-graph.js). The kind that a reference carries is left out: no caller here reads it.
use learning_loop_template.Base.{
  String, Bool, not, ◌&&◌, Option, none, some, List, [], ◌∷◌, ◌++◌, map, Text, codes, if◌then◌else◌,
  str_eq, text_eq, any_of, select,
}
use learning_loop_template.Json.{Json, str, arr, Items, nil, cons}
use learning_loop_template.Registry.Entry.{
  Entry, Kind, finding, change_log, rule, loop_design, citation, other_kind,
}
use learning_loop_template.Registry.Projection.{Ref}
use learning_loop_template.Registry.Patch.{get_content}

-- `CROSS_REFS[entry.entry_kind ?? "finding"]`: the fields that hold references.
abbrev pub cross_refs : Option Kind → List String
cross_refs none = "reopens" ∷ []
cross_refs (some finding) = "reopens" ∷ []
cross_refs (some change_log) = []
cross_refs (some citation) = "source" ∷ "target" ∷ []
cross_refs (some rule) = "applies_to_resolution" ∷ []
cross_refs (some loop_design) = "proposed_design_for" ∷ "addresses" ∷ []
cross_refs (some (other_kind k)) = []

abbrev is_id : Text → Bool
is_id t = not (text_eq t []) && not (text_eq t (codes "*"))

-- The ids in an array, which the schemas make one of strings.
unfoldable pub item_ids : Items → List Text
item_ids nil = []
item_ids (cons (str t) vs) = let rest = item_ids vs in if is_id t then t ∷ rest else rest
item_ids (cons v vs) = item_ids vs

-- `fieldIdValues`, with the empty list for null
unfoldable pub field_id_values : Option Json → List Text
unfolding item_ids
field_id_values (some (str t)) = if is_id t then t ∷ [] else []
field_id_values (some (arr vs)) = item_ids vs
field_id_values _ = []

unfoldable pub refs_of : Entry → List String → List Ref
refs_of e [] = []
refs_of e (f ∷ fs) =
    map (λ t. record { field_name = f; target = t }) (field_id_values (get_content f e.content))
    ++ refs_of e fs

abbrev pub forward_refs : Entry → List Ref
forward_refs e = refs_of e (cross_refs e.entry_kind)

abbrev is_exempt : Ref → Bool
is_exempt r = str_eq r.field_name "applies_to_resolution"

abbrev pub same_ref : Ref → Ref → Bool
same_ref a b = str_eq a.field_name b.field_name && text_eq a.target b.target

unfoldable pub resolve_structural_ri : List Text → Entry → List Ref
resolve_structural_ri ids e =
    select (λ r. not (is_exempt r) && not (any_of (text_eq r.target) ids)) (forward_refs e)

unfoldable pub diff_changed_refs : List Ref → List Ref → List Ref
diff_changed_refs new old =
    select
      (λ r. not (is_exempt r) && not (any_of (same_ref r) (select (λ o. not (is_exempt o)) old)))
      new

-- The changed references that dangle.
abbrev pub changed_dangling : List Text → Entry → Entry → List Ref
changed_dangling ids new old =
    select (λ r. not (any_of (text_eq r.target) ids))
      (diff_changed_refs (forward_refs new) (forward_refs old))
