-- ===== src/Json.antt =====
-- JSON values, as `JSON.parse` gives them, and their canonical form.
pub mod Canonical
use learning_loop_template.Base.{ℕ, String, Bool, Option, none, some, Text, if◌then◌else◌, str_eq}

-- A number is a natural one or the text of another; a string is its code units.
mutual
  pub data Json : Type 0 where
    null : Json
    bool : Bool → Json
    num : ℕ → Json
    other_num : String → Json
    str : Text → Json
    arr : Items → Json
    obj : Fields → Json

  pub data Items : Type 0 where
    nil : Items
    cons : Json → Items → Items

  pub data Fields : Type 0 where
    bare : Fields
    field : String → Json → Fields → Fields

-- `object[key]`
unfoldable pub get_field : String → Fields → Option Json
get_field k bare = none
get_field k (field j v fs) = if str_eq j k then some v else get_field k fs
