-- ===== src/Registry/Envelope.antt =====
-- The envelope of a batch: counts of the registry before and after, and a content hash
-- (tools/learning-loop-mastra/core/operation-envelope.js). `stringify` is `JSON.stringify`, `sha256` gives the
-- hexadecimal digest of a text.
pub mod Tally
pub mod Shape
pub mod Validation
pub mod Valid
use learning_loop_template.Base.{
  ℕ, String, Bool, true, false, not, ◌&&◌, ◌||◌, Option, none, some, List, [], ◌∷◌, ◌++◌, map, Text,
  codes, if◌then◌else◌, str_eq, text_eq, text_lt, any_of, select, length, ltb, leb, ◌==◌,
}
use learning_loop_template.Json.{
  Json, null, num, str, arr, obj, Items, nil, cons, Fields, bare, field,
}
use learning_loop_template.Registry.Entry.{Entry}
use learning_loop_template.Registry.Patch.{kind_text}
use learning_loop_template.Registry.Fields.{mapped}
use learning_loop_template.Registry.Ops.{
  BatchOp, write_op, update_op, delete_op, archive_op, unknown_op, op_name, op_id,
}
use learning_loop_template.Registry.Envelope.Shape.{operation_envelope_kinds, has_control, has_dots}
use learning_loop_template.Registry.Envelope.Tally.{
  Counts, CountFault, Counted, counted, uncounted, count_registry, counts_json,
}

-- `KIND_OP_COMPATIBILITY[kind].requiredOps`
unfoldable pub required_ops : String → List String
required_ops kind =
    if str_eq kind "sweep"
    then "delete" ∷ []
    else if str_eq kind "consolidation" || str_eq kind "closeout"
    then "update" ∷ []
    else if str_eq kind "backfill"
    then "write" ∷ []
    else if str_eq kind "archive-wave"
    then "archive" ∷ []
    else []

-- What `buildEnvelope` throws.
pub data EnvelopeError : Type 0 where
  unknown_envelope_kind empty_target long_target control_in_target dots_in_target : EnvelopeError
  kind_op_incompatible : List String → EnvelopeError
  not_countable : CountFault → EnvelopeError

pub data Built : Type 0 where
  built : Json → Built
  not_built : EnvelopeError → Built

-- Insertion from the right, as the stable `sort` gives it.
module _ {A : Type 0} (before : A → A → Bool) where
  unfoldable pub insert_in : A → List A → List A
  insert_in x [] = x ∷ []
  insert_in x (y ∷ ys) = if before y x then y ∷ insert_in x ys else x ∷ y ∷ ys

  unfoldable pub sorted : List A → List A
  unfolding insert_in
  sorted [] = []
  sorted (x ∷ xs) = insert_in x (sorted xs)

abbrev string_or_null : Option String → Json
string_or_null none = null
string_or_null (some t) = str (codes t)

abbrev pub canonicalize_op : BatchOp → Json
canonicalize_op (write_op e) = obj (
    field "op" (str (codes "write")) (
      field "id" (str (codes e.id))
        (field "entry_kind" (string_or_null (mapped kind_text e.entry_kind)) bare)))
canonicalize_op (unknown_op name) = obj (field "op" (str (codes name)) bare)
canonicalize_op op =
    obj (field "op" (str (codes (op_name op))) (field "id" (str (codes (op_id op))) bare))

abbrev op_before : BatchOp → BatchOp → Bool
op_before a b = text_lt (codes (op_id a)) (codes (op_id b))

unfoldable pub sort_ops_for_hash : List BatchOp → List BatchOp
sort_ops_for_hash = sorted op_before

unfoldable pub items_of : List Json → Items
items_of [] = nil
items_of (v ∷ vs) = cons v (items_of vs)

-- `join(",")`
unfoldable pub join : List Text → Text
join [] = []
join (t ∷ []) = t
join (t ∷ u ∷ us) = t ++ codes "," ++ join (u ∷ us)

-- `.map((e) => e.id).filter(Boolean).sort()`
abbrev sorted_ids : List Entry → List Text
sorted_ids es = sorted text_lt (select (λ t. not (text_eq t [])) (map (λ e. codes e.id) es))

-- The required operation types that the batch does not have.
abbrev pub missing_ops : String → List BatchOp → List String
missing_ops kind ops =
    select (λ t. not (any_of (λ o. str_eq (op_name o) t) ops)) (required_ops kind)

module _ (stringify : Json → Text) (sha256 : Text → Text) where
  unfoldable pub content_hash : String → Text → List BatchOp → List Entry → List Entry → Text
  content_hash kind target ops pre post =
      codes "sha256:"
      ++ sha256 (
          codes kind
          ++ codes ":"
          ++ target
          ++ codes ":"
          ++ stringify (arr (items_of (map canonicalize_op (sort_ops_for_hash ops))))
          ++ codes ":"
          ++ join (sorted_ids pre)
          ++ codes ":"
          ++ join (sorted_ids post))

  abbrev pub envelope_json : String → Text → Counts → Counts → Text → Json
  envelope_json kind target pre post hash = obj (
      field "kind" (str (codes kind)) (
        field "target" (str target) (
          field "pre_count" (counts_json pre)
            (field "post_count" (counts_json post) (field "content_hash" (str hash) bare)))))

  -- The two counts, of which the earlier throws first.
  unfoldable pub assemble : String → Text → Text → Counted → Counted → Built
  assemble kind target hash (uncounted f) post = not_built (not_countable f)
  assemble kind target hash (counted pre) (uncounted f) = not_built (not_countable f)
  assemble kind target hash (counted pre) (counted post) =
      built (envelope_json kind target pre post hash)

  unfoldable pub build_compatible :
      List String → String → Text → List BatchOp → List Entry → List Entry → Built
  build_compatible (t ∷ ts) kind target ops pre post = not_built (kind_op_incompatible (t ∷ ts))
  build_compatible [] kind target ops pre post =
      assemble kind target (content_hash kind target ops pre post) (count_registry pre)
        (count_registry post)

  unfoldable pub build_envelope : String → Text → List BatchOp → List Entry → List Entry → Built
  build_envelope kind target ops pre post =
      if not (any_of (str_eq kind) operation_envelope_kinds)
      then not_built unknown_envelope_kind
      else if text_eq target []
      then not_built empty_target
      else if ltb 200 (length target)
      then not_built long_target
      else if has_control target
      then not_built control_in_target
      else if has_dots target
      then not_built dots_in_target
      else build_compatible (missing_ops kind ops) kind target ops pre post
