-- ===== src/Json/Canonical.antt =====
-- The canonical comparator of tools/learning-loop-mastra/core/canonical-compare.js. `stringify` is
-- `JSON.stringify`.
use learning_loop_template.Base.{
  String, Bool, true, false, Option, none, some, Text, codes, if◌then◌else◌, text_lt, text_eq,
}
use learning_loop_template.Json.{
  Json, null, bool, num, other_num, str, arr, obj, Items, nil, cons, Fields, bare, field,
}

abbrev pub is_absent : Json → Bool
is_absent null = true
is_absent (arr nil) = true
is_absent _ = false

abbrev key_lt : String → String → Bool
key_lt a b = text_lt (codes a) (codes b)

unfoldable pub insert_field : String → Json → Fields → Fields
insert_field k v bare = field k v bare
insert_field k v (field j w fs) =
    let rest = insert_field k v fs in
    if key_lt j k then field j w rest else field k v (field j w fs)

module _ (stringify : Json → Text) where
  unfoldable pub insert_item : Json → Items → Items
  insert_item v nil = cons v nil
  insert_item v (cons w ws) =
      let rest = insert_item v ws in
      if text_lt (stringify w) (stringify v) then cons w rest else cons v (cons w ws)

  unfoldable mutual
    unfolding insert_item insert_field

    pub sort_keys : Json → Json
    sort_keys (arr vs) = arr (sort_items vs)
    sort_keys (obj fs) = obj (sort_fields fs)
    sort_keys null = null
    sort_keys (bool b) = bool b
    sort_keys (num n) = num n
    sort_keys (other_num t) = other_num t
    sort_keys (str t) = str t

    pub sort_items : Items → Items
    sort_items nil = nil
    sort_items (cons v vs) = insert_item (sort_keys v) (sort_items vs)

    pub sort_fields : Fields → Fields
    sort_fields bare = bare
    sort_fields (field k v fs) =
        let rest = sort_fields fs in if is_absent v then rest else insert_field k (sort_keys v) rest

  abbrev pub canonicalize : Json → Text
  canonicalize v = stringify (sort_keys v)

  -- `none` stands for undefined. A null and another value are compared by `===`.
  unfoldable pub values_equal : Option Json → Option Json → Bool
  values_equal none none = true
  values_equal none (some b) = false
  values_equal (some a) none = false
  values_equal (some null) (some null) = true
  values_equal (some null) (some b) = false
  values_equal (some a) (some null) = false
  values_equal (some a) (some b) = text_eq (canonicalize a) (canonicalize b)
