-- ===== src/Tests/Writes.antt =====
-- The writes and updates at a registry of findings.
use learning_loop_template.Base.{
  select, any_of, text_lt, text_eq, String, ◌≡◌, refl, false, none, some, List, [], ◌∷◌,
}
use learning_loop_template.Registry.Entry.{
  Entry, finding, rule, opened, active, read_line, with_defaults,
}
use learning_loop_template.Registry.Projection.{
  Store, current, find_entry, sort_by, collapse_from, merge, replaces, created_before,
  read_raw_lines, read_registry,
}
use learning_loop_template.Registry.Lifecycle.Step.{ok}
use learning_loop_template.Registry.Patch.{
  evidence_code_ref_to, Change, spread, apply_change, key_of, without,
}
use learning_loop_template.Registry.Fields.{entries_equal, to_json, content_fields}
use learning_loop_template.Json.Canonical.{
  values_equal, sort_keys, sort_items, sort_fields, insert_field, insert_item,
}
use learning_loop_template.Registry.Refine.{next_version}
use learning_loop_template.Registry.Writes.Absent.{write_entry_if_absent}
use learning_loop_template.Registry.Writes.Absent.OnePerKey.{
  OnePerKey, write_entry_if_absent-OnePerKey,
}
use learning_loop_template.Registry.Writes.Promotion.{
  write_rule_with_origin_citation, Promoted, write_rule_with_origin_citation-Promoted,
}
use learning_loop_template.Registry.Update.{updated, update_entry}
use learning_loop_template.Registry.Update.Revised.{Revised, update_entry-Revised}
use learning_loop_template.Registry.Update.Applied.{names, asked, update_entry-current}
use learning_loop_template.Tests.Host.{
  host, host-IsSound, works, stamp, print, print_items, print_fields,
}
use learning_loop_template.Tests.Registry.{blank, store}

abbrev noise : Entry
noise = record (blank "meta-7" finding opened 0) {
  subtype = some "recurring-false-positive";
  recurrence_key = some "rm";
}

abbrev pub no_entries : Store
no_entries = record { meta_state = []; change_log = none; citations = []; gate_log = [] }

pub nothing_found : (a : String) → current no_entries a ≡ none
unfolding current find_entry read_registry sort_by collapse_from read_raw_lines
nothing_found a = refl

pub OnePerKey-no_entries : OnePerKey no_entries
OnePerKey-no_entries a b key x y fa fb ra rb = let never = nothing_found a in absurd (cc)

write_entry_if_absent-OnePerKey_example :
    OnePerKey (write_entry_if_absent host works noise no_entries).1
write_entry_if_absent-OnePerKey_example =
    write_entry_if_absent-OnePerKey host host-IsSound works noise no_entries
      (nothing_found "meta-7") OnePerKey-no_entries

abbrev a_rule : Entry
a_rule = blank "rule-1" rule active 0

write_rule_with_origin_citation-Promoted_example :
    Promoted host a_rule stamp "meta-1" store
      (write_rule_with_origin_citation host works stamp a_rule "meta-1" store)
write_rule_with_origin_citation-Promoted_example =
    write_rule_with_origin_citation-Promoted host works stamp a_rule "meta-1" store

abbrev patch : List Change
patch = evidence_code_ref_to (some "core/gate.js") ∷ []

update_entry-Revised_example :
    Revised host stamp "meta-1" store
      (some 1)
      none
      patch
      (update_entry host works stamp "meta-1" patch (some 1) none store)
update_entry-Revised_example =
    update_entry-Revised host works stamp "meta-1" patch (some 1) none store

abbrev one_finding : Entry
one_finding = blank "meta-1" finding opened 1

found : current store "meta-1" ≡ some one_finding
unfolding current find_entry read_registry sort_by collapse_from read_raw_lines merge read_line
    replaces created_before text_lt
found = refl

changed : entries_equal print (asked one_finding patch) one_finding ≡ false
unfolding entries_equal values_equal to_json content_fields sort_keys sort_items sort_fields
    insert_field insert_item print print_items print_fields text_lt text_eq with_defaults spread
    apply_change key_of without select
changed = refl

named_nothing : names "id" patch ≡ false
unfolding any_of key_of
named_nothing = refl

update_entry-current_example :
    ((update_entry host works stamp "meta-1" patch (some 1) none store).0 ≡ ok updated)
    × (current (update_entry host works stamp "meta-1" patch (some 1) none store).1 "meta-1"
        ≡ some (next_version one_finding (asked one_finding patch)))
update_entry-current_example =
    update_entry-current host works stamp "meta-1" patch (some 1) none store one_finding found refl
      refl refl refl refl changed refl named_nothing
