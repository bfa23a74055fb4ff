-- ===== src/Registry/Envelope/Validation.antt =====
-- `validateEnvelope` of tools/learning-loop-mastra/core/operation-envelope.js, on any JSON value.
use learning_loop_template.Base.{
  ℕ, String, Bool, true, false, not, ◌&&◌, ◌||◌, Option, none, some, List, [], ◌∷◌, Text, codes,
  if◌then◌else◌, str_eq, text_eq, any_of, length, ltb, leb, ◌==◌, drop,
}
use learning_loop_template.Json.{
  Json, num, other_num, str, arr, obj, nil, cons, Fields, bare, field,
}
use learning_loop_template.Registry.Fields.{value_at}
use learning_loop_template.Registry.Envelope.Shape.{operation_envelope_kinds, has_control, has_dots}

-- The reasons of `validateCounts`.
pub data CountsReason : Type 0 where
  counts_not_object invalid_total : CountsReason
  invalid_by : String → CountsReason
  invalid_key invalid_value : String → String → CountsReason

pub data EnvelopeReason : Type 0 where
  envelope_not_object invalid_kind invalid_target invalid_target_chars invalid_content_hash :
      EnvelopeReason
  pre_count_reason post_count_reason : CountsReason → EnvelopeReason

abbrev is_object : Json → Bool
is_object (arr vs) = true
is_object (obj fs) = true
is_object v = false

abbrev pub canonical_status_keys : List String
canonical_status_keys = "open" ∷ "resolved" ∷ "accepted" ∷ "archived" ∷ []

abbrev pub canonical_kind_keys : List String
canonical_kind_keys = "finding" ∷ "change-log" ∷ "rule" ∷ "loop-design" ∷ []

abbrev is_number : Json → Bool
is_number (num n) = true
is_number (other_num t) = true
is_number v = false

unfoldable pub validate_fields : List String → String → Fields → Option CountsReason
validate_fields allowed axis bare = none
validate_fields allowed axis (field k v fs) =
    let rest = validate_fields allowed axis fs in
    if not (any_of (str_eq k) allowed)
    then some (invalid_key axis k)
    else if not (is_number v)
    then some (invalid_value axis k)
    else rest

-- `validateRecord`. The keys of an array are its indices.
unfoldable pub validate_record : List String → String → Option Json → Option CountsReason
validate_record allowed axis (some (obj fs)) = validate_fields allowed axis fs
validate_record allowed axis (some (arr nil)) = none
validate_record allowed axis (some (arr (cons v vs))) = some (invalid_key axis "0")
validate_record allowed axis _ = some (invalid_by axis)

-- An integer of at least 0 is a natural number.
abbrev is_natural : Option Json → Bool
is_natural (some (num n)) = true
is_natural _ = false

-- The first reason, where there are two.
abbrev or_else {ℓ} : {A : Type ℓ} → Option A → Option A → Option A
or_else (some a) o = some a
or_else none o = o

unfoldable pub validate_counts : Option Json → Option CountsReason
unfolding validate_record validate_fields
validate_counts none = some counts_not_object
validate_counts (some v) =
    if not (is_object v)
    then some counts_not_object
    else if not (is_natural (value_at "total" v))
    then some invalid_total
    else or_else (validate_record canonical_status_keys "status" (value_at "by_status" v))
        (validate_record canonical_kind_keys "kind" (value_at "by_kind" v))

unfoldable pub validate_kind : Option Json → Option EnvelopeReason
validate_kind (some (str t)) =
    if any_of (λ k. text_eq t (codes k)) operation_envelope_kinds then none else some invalid_kind
validate_kind _ = some invalid_kind

unfoldable pub validate_target : Option Json → Option EnvelopeReason
validate_target (some (str t)) =
    if text_eq t [] || ltb 200 (length t)
    then some invalid_target
    else if has_control t || has_dots t
    then some invalid_target_chars
    else none
validate_target _ = some invalid_target

abbrev pub is_hex : ℕ → Bool
is_hex c = (leb 97 c && leb c 102) || (leb 48 c && leb c 57)

unfoldable pub all_hex : Text → Bool
all_hex [] = true
all_hex (c ∷ cs) = is_hex c && all_hex cs

-- `/^sha256:[a-f0-9]{64}$/`
unfoldable pub is_digest : Text → Bool
is_digest t = starts (codes "sha256:") t && length (drop 7 t) == 64 && all_hex (drop 7 t)
  where
    starts : Text → Text → Bool
    starts [] u = true
    starts (p ∷ ps) [] = false
    starts (p ∷ ps) (c ∷ cs) = p == c && starts ps cs

unfoldable pub validate_content_hash : Option Json → Option EnvelopeReason
validate_content_hash (some (str t)) = if is_digest t then none else some invalid_content_hash
validate_content_hash _ = some invalid_content_hash

abbrev tagged : (CountsReason → EnvelopeReason) → Option CountsReason → Option EnvelopeReason
tagged f none = none
tagged f (some r) = some (f r)

-- `none` where the envelope is valid.
unfoldable pub validate_envelope : Json → Option EnvelopeReason
validate_envelope v =
    if not (is_object v)
    then some envelope_not_object
    else or_else (validate_kind (value_at "kind" v)) (
        or_else (validate_target (value_at "target" v)) (
          or_else (tagged pre_count_reason (validate_counts (value_at "pre_count" v))) (
            or_else (tagged post_count_reason (validate_counts (value_at "post_count" v)))
              (validate_content_hash (value_at "content_hash" v)))))
