-- ===== src/Tests/Host.antt =====
-- A host for the tests: the schemas accept every entry, and a printer of JSON values.
use learning_loop_template.Base.{
  true, false, ◌≡◌, sym, ap, none, some, if◌then◌else◌, [], ◌∷◌, ◌++◌, Text, codes, arith,
}
use learning_loop_template.Json.{
  Json, null, bool, num, other_num, str, arr, obj, Items, nil, cons, Fields, bare, field,
}
use learning_loop_template.Registry.Entry.{Entry, is_citation, read_line, with_defaults}
use learning_loop_template.Registry.Host.{Host, IsSound}
use learning_loop_template.Registry.Citations.{Stamp}
use learning_loop_template.Registry.Files.{Disk}

unfoldable mutual
  pub print : Json → Text
  print null = codes "null"
  print (bool true) = codes "true"
  print (bool false) = codes "false"
  print (num n) = 35 ∷ n ∷ []
  print (other_num t) = codes t
  print (str t) = 34 ∷ t ++ 34 ∷ []
  print (arr vs) = 91 ∷ print_items vs ++ 93 ∷ []
  print (obj fs) = 123 ∷ print_fields fs ++ 125 ∷ []

  pub print_items : Items → Text
  print_items nil = []
  print_items (cons v vs) = print v ++ 44 ∷ print_items vs

  pub print_fields : Fields → Text
  print_fields bare = []
  print_fields (field k v fs) = codes k ++ 58 ∷ print v ++ 44 ∷ print_fields fs

abbrev pub digest : Text
digest = codes "0123456789abcdef0123456789abcdef0123456789abcdef0123456789abcdef"

-- As the union of the schemas does: the defaults are filled in, and a citation loses the system that its
-- schema does not have.
abbrev pub parsed_entry : Entry → Entry
parsed_entry e = record (read_line e) {
  affected_system = if is_citation e.entry_kind then none else (read_line e).affected_system;
}

abbrev pub host : Host
host = record {
  parse_entry = λ e. some (parsed_entry e);
  parse_rule = λ e. some e;
  stringify = print;
  sha256 = λ t. digest;
  is_supported = λ k. true;
}

id_of_parsed : (e d : Entry) → some (parsed_entry e) ≡ some d → d.id ≡ e.id
unfolding read_line with_defaults
id_of_parsed e d h =
    let same : parsed_entry e ≡ d = ground arith in ap {A = Entry} (λ x. x.id) (sym same)

id_of_rule : (e d : Entry) → some e ≡ some d → d.id ≡ e.id
id_of_rule e d h = let same : e ≡ d = ground arith in ap {A = Entry} (λ x. x.id) (sym same)

pub host-IsSound : IsSound host
host-IsSound = record { entry_id = id_of_parsed; rule_id = id_of_rule }

abbrev pub works : Disk
works n = false

abbrev pub stamp : Stamp
stamp = record { fresh_id = "meta-9"; now = codes "2026-03-03T00:00:00Z" }
