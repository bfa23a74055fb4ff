-- ===== src/Tests/Registry.antt =====
-- A registry of one finding, one loop-design and one resolved finding, and the theorems at it.
use learning_loop_template.Base.{
  ℕ, ◌≤◌, text_lt, ◌≢◌, String, ◌≡◌, refl, true, false, none, some, List, [], ◌∷◌, inl, inr, Text,
  codes, length, select, Has, All, str_eq,
}
use learning_loop_template.Registry.Entry.{
  Entry, Kind, finding, loop_design, change_log, Status, opened, reported, active, resolved,
  read_line, delete_tombstone,
}
use learning_loop_template.Registry.Projection.{
  Store, current, find_entry, sort_by, collapse_from, merge, replaces, created_before,
  read_raw_lines, read_registry, delete_not_restorable, read_registry_all_versions, version_before,
}
use learning_loop_template.Registry.Projection.Newest.{IsNotAfter, current-latest}
use learning_loop_template.Registry.Files.{append_line}
use learning_loop_template.Registry.Lifecycle.Step.{ok, done, refused, refusal, true_append}
use learning_loop_template.Registry.Lifecycle.Archive.{
  archive_entry, archive_line, delete_entry, delete_line, archive_found,
}
use learning_loop_template.Registry.Lifecycle.Accept.{Accepted, accept_entry, accept_line}
use learning_loop_template.Registry.Lifecycle.Restore.{
  restore_entry, restore_line, restore_found, restore_from, is_candidate, pre_tombstone,
}
use learning_loop_template.Registry.Lifecycle.Run.{Command, archive, delete, accept, restore, run}
use learning_loop_template.Registry.Lifecycle.History.{
  Grown, run_append_only, run-current_other, run-Counted, Counted,
}
use learning_loop_template.Registry.Lifecycle.Replies.{
  archive_entry_live, delete_entry_final, accept_entry_open, accept_entry_closed,
}
use learning_loop_template.Registry.Lifecycle.RoundTrip.{IsOnly, restore-archive}

abbrev pub blank : String → Kind → Status → ℕ → Entry
blank id k st v = record {
  id = id;
  entry_kind = some k;
  status = some st;
  version = some v;
  created_at = some (codes "2026-01-02T00:00:00Z");
  last_verified_at = none;
  affected_system = some "meta";
  resolved_at = none;
  resolved_by = none;
  resolution = none;
  archived_at = none;
  archived_by = none;
  archived_reason = none;
  tombstone_kind = none;
  accepted_at = none;
  accepted_by = none;
  accepted_reason = none;
  shipped_in_plan = none;
  shipped_at = none;
  evidence_code_ref = none;
  evidence_test = none;
  code_fingerprint = none;
  subtype = none;
  recurrence_key = none;
  content = [];
}

abbrev finding_0 : Entry
finding_0 = blank "meta-1" finding reported 0

abbrev finding_1 : Entry
finding_1 = blank "meta-1" finding opened 1

abbrev design : Entry
design = blank "loop-design-1" loop_design active 0

abbrev closed : Entry
closed = blank "meta-2" finding resolved 3

abbrev pub store : Store
store = record {
  meta_state = finding_0 ∷ closed ∷ finding_1 ∷ design ∷ [];
  change_log = some (blank "change-1" change_log active 0 ∷ []);
  citations = [];
  gate_log = [];
}

abbrev later : Text
later = codes "2026-02-02T00:00:00Z"

current-finding_1 : current store "meta-1" ≡ some finding_1
unfolding current find_entry read_registry sort_by collapse_from read_raw_lines merge read_line
    replaces created_before text_lt
current-finding_1 = refl

current-closed : current store "meta-2" ≡ some closed
unfolding current find_entry read_registry sort_by collapse_from read_raw_lines merge read_line
    replaces created_before text_lt
current-closed = refl

IsOnly-finding_1 : IsOnly "meta-1" finding_1 store
unfolding read_raw_lines read_line
IsOnly-finding_1 = ((λ i v. cc), ((λ i v. cc), ((λ i v. refl), ((λ i v. cc), ((λ i v. cc), tt)))))

abbrev script : List Command
script =
    archive false later "meta-1" (some "noise") none
    ∷ restore false later "meta-1" none
    ∷ delete true later "meta-1" none
    ∷ accept false later "meta-2" (some "operator") none
    ∷ []

run_append_only_example :
    (lines : List Entry) × Grown store (run script store) lines × (length lines ≤ length script)
run_append_only_example = run_append_only script store

run-current_other_example :
    current (run script store) "loop-design-1" ≡ current store "loop-design-1"
run-current_other_example =
    run-current_other script store "loop-design-1" (refl, (refl, (refl, (refl, tt))))

run-Counted_example : Counted "meta-1" store finding_1 (run script store)
run-Counted_example = run-Counted script store "meta-1" finding_1 current-finding_1

current-latest_example :
    Has finding_1 (read_raw_lines store)
    × (finding_1.id ≡ "meta-1")
    × All (λ x. str_eq x.id "meta-1" ≡ true → IsNotAfter x finding_1) (read_raw_lines store)
current-latest_example = current-latest store "meta-1" finding_1 current-finding_1

archive_entry_live_example :
    ((archive_entry false later "meta-1" none none store).0
      ≡ ok (done (record { id = "meta-1"; archived_at = later })))
    × (current (archive_entry false later "meta-1" none none store).1 "meta-1"
        ≡ some (archive_line later none none finding_1))
archive_entry_live_example =
    archive_entry_live store "meta-1" finding_1 current-finding_1 later none none refl refl

delete_entry_final_example :
    let s' = (delete_entry false later "meta-1" none store).1 in
    ((delete_entry false later "meta-1" none store).0 ≡ ok (done (record { id = "meta-1" })))
    × (current s' "meta-1" ≡ some (delete_line later none finding_1))
    × (restore_entry false later "meta-1" none s' ≡ (
      ok (
          refused (record (refusal delete_not_restorable "meta-1") {
            tombstone_kind = some delete_tombstone;
          })),
      s',
    ))
delete_entry_final_example =
    delete_entry_final store "meta-1" finding_1 current-finding_1 later later none none refl

accept_entry_open_example :
    current (accept_entry false later "meta-1" none none store).1 "meta-1"
    ≡ some (accept_line later none none finding_1)
accept_entry_open_example =
    accept_entry_open store "meta-1" finding_1 current-finding_1 later none none refl refl refl

accept_entry_closed_example :
    ((a : Accepted) → (accept_entry false later "meta-2" none none store).0 ≢ ok (done a))
    × (current (accept_entry false later "meta-2" none none store).1 "meta-2" ≡ some closed)
accept_entry_closed_example =
    accept_entry_closed store "meta-2" closed current-closed false later none none (inr (inl refl))

restore-archive_example :
    current
      (restore_entry false later "meta-1" none
        (archive_entry false later "meta-1" none none store).1).1
      "meta-1"
    ≡ some (restore_line 2 finding_1)
restore-archive_example =
    restore-archive store "meta-1" finding_1 current-finding_1 later later none none none refl refl
      IsOnly-finding_1

-- Two lines of one version, as a union merge leaves them: the projection reads the one created later,
-- and archiving and restoring brings back the other.
abbrev older : Entry
older = blank "meta-3" finding opened 1

abbrev newer : Entry
newer = record (blank "meta-3" finding reported 1) {
  created_at = some (codes "2026-01-03T00:00:00Z");
}

abbrev merged : Store
merged = record {
  meta_state = older ∷ newer ∷ [];
  change_log = none;
  citations = [];
  gate_log = [];
}

current-newer : current merged "meta-3" ≡ some newer
unfolding current find_entry read_registry sort_by collapse_from read_raw_lines merge read_line
    replaces created_before text_lt
current-newer = refl

restored-older :
    current
      (restore_entry false later "meta-3" none
        (archive_entry false later "meta-3" none none merged).1).1
      "meta-3"
    ≡ some (restore_line 2 older)
unfolding restore_entry restore_found restore_from archive_entry archive_found append_line
    true_append pre_tombstone is_candidate select read_registry_all_versions version_before current
    find_entry read_registry sort_by collapse_from read_raw_lines merge read_line replaces
    created_before text_lt
restored-older = refl
