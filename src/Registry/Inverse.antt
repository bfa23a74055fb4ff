-- ===== src/Registry/Inverse.antt =====
-- The references to an entry, found by a walk over all entries or in the inverse indexes
-- (tools/learning-loop-mastra/core/entry/relationship-graph.js).
pub mod Agreement
use learning_loop_template.Base.{
  ℕ, String, Bool, true, false, not, ◌&&◌, ◌||◌, Option, none, some, List, [], ◌∷◌, ◌++◌, map, Text,
  codes, if◌then◌else◌, str_eq, text_eq, any_of, ◌==◌,
}
use learning_loop_template.Json.{Json, str}
use learning_loop_template.Registry.Entry.{
  Entry, Kind, finding, rule, loop_design, citation, is_citation,
}
use learning_loop_template.Registry.Projection.{Ref}
use learning_loop_template.Registry.Patch.{get_content}
use learning_loop_template.Registry.References.{forward_refs}

-- A reference from the entry `source` to another; `source_kind` is its kind.
pub record Inbound : Type 0 where
  pub source_kind : Kind
  pub source : Text
  pub field_name : String

unfoldable pub starts : Text → Text → Bool
starts [] t = true
starts (p ∷ ps) [] = false
starts (p ∷ ps) (c ∷ cs) = p == c && starts ps cs

-- `entry.entry_kind ?? "finding"`
abbrev pub kind_or_finding : Option Kind → Kind
kind_or_finding none = finding
kind_or_finding (some k) = k

-- `kindForId` with the hint `"any"`
unfoldable pub kind_for_id : Text → List Entry → Kind
kind_for_id id [] =
    if starts (codes "rule-") id
    then rule
    else if starts (codes "loop-design-") id
    then loop_design
    else if starts (codes "citation-") id
    then citation
    else finding
kind_for_id id (e ∷ es) =
    let rest = kind_for_id id es in
    if text_eq (codes e.id) id then kind_or_finding e.entry_kind else rest

-- An end of a citation, which the schema makes a string.
unfoldable pub citation_end : String → Entry → Text
citation_end k e = elim (get_content k e.content) [ some (str t) ↦ t | _ ↦ [] ]

-- The reference `r` of the entry `e`, as one to its target.
unfoldable pub inbound_of : List Entry → Entry → Ref → Inbound
inbound_of all e r =
    if is_citation e.entry_kind && str_eq r.field_name "target"
    then record {
      source_kind = kind_for_id (citation_end "source" e) all;
      source = citation_end "source" e;
      field_name = "target";
    }
    else record {
      source_kind = kind_or_finding e.entry_kind;
      source = codes e.id;
      field_name = r.field_name;
    }

unfoldable pub inbound_refs : List Entry → Text → Entry → List Ref → List Inbound
inbound_refs all id e [] = []
inbound_refs all id e (r ∷ rs) =
    let rest = inbound_refs all id e rs in
    if text_eq r.target id then inbound_of all e r ∷ rest else rest

unfoldable pub inverse_from : List Entry → Text → List Entry → List Inbound
inverse_from all id [] = []
inverse_from all id (e ∷ es) = inbound_refs all id e (forward_refs e) ++ inverse_from all id es

-- `inverseRefs`
unfoldable pub inverse_refs : Text → List Entry → List Inbound
inverse_refs id all = inverse_from all id all

abbrev pub Index : Type 0
Index = List (Text × List Text)

-- `map.get(key)`, with the empty list where the key is missing
unfoldable pub sources_of : Text → Index → List Text
sources_of k [] = []
sources_of k ((j, vs) ∷ m) = if text_eq j k then vs else sources_of k m

-- `newIndexState`
pub record Indexes : Type 0 where
  pub addresses_inverse : Index
  pub supersedes_inverse : Index
  pub origin_inverse : Index
  pub promoted_to_rule_inverse : Index
  pub reopens_inverse : Index
  pub consolidated_into_inverse : Index
  pub citations_inverse : Index

abbrev pub new_index_state : Indexes
new_index_state = record {
  addresses_inverse = [];
  supersedes_inverse = [];
  origin_inverse = [];
  promoted_to_rule_inverse = [];
  reopens_inverse = [];
  consolidated_into_inverse = [];
  citations_inverse = [];
}

unfoldable pub push_to_index : Text → Text → Index → Index
push_to_index k v [] = (k, v ∷ []) ∷ []
push_to_index k v ((j, vs) ∷ m) =
    if text_eq j k then (j, vs ++ v ∷ []) ∷ m else (j, vs) ∷ push_to_index k v m

-- `if (!arr.includes(v)) arr.push(v)`
unfoldable pub push_unique : Text → List Text → List Text
push_unique v vs = if any_of (text_eq v) vs then vs else vs ++ v ∷ []

unfoldable pub push_to_index_unique : Text → Text → Index → Index
push_to_index_unique k v [] = (k, v ∷ []) ∷ []
push_to_index_unique k v ((j, vs) ∷ m) =
    if text_eq j k then (j, push_unique v vs) ∷ m else (j, vs) ∷ push_to_index_unique k v m

-- `indexRef`, with `fieldToInverseMap`
unfoldable pub index_ref : Entry → Ref → Indexes → Indexes
index_ref e r x =
    if str_eq r.field_name "promoted_to_rule"
    then x
    else if is_citation e.entry_kind
    then (if str_eq r.field_name "target"
        then record x {
          citations_inverse =
              push_to_index_unique (citation_end "target" e) (citation_end "source" e)
                x.citations_inverse;
        }
        else x)
    else if str_eq r.field_name "addresses"
    then record x { addresses_inverse = push_to_index r.target (codes e.id) x.addresses_inverse }
    else if str_eq r.field_name "supersedes"
    then record x { supersedes_inverse = push_to_index r.target (codes e.id) x.supersedes_inverse }
    else if str_eq r.field_name "reopens"
    then record x { reopens_inverse = push_to_index r.target (codes e.id) x.reopens_inverse }
    else x

unfoldable pub index_refs : Entry → List Ref → Indexes → Indexes
index_refs e [] x = x
index_refs e (r ∷ rs) x = index_refs e rs (index_ref e r x)

unfoldable pub index_from : Indexes → List Entry → Indexes
index_from x [] = x
index_from x (e ∷ es) = index_from (index_refs e (forward_refs e) x) es

-- `buildInverseIndexes`
unfoldable pub build_inverse_indexes : List Entry → Indexes
build_inverse_indexes = index_from new_index_state
