-- ===== src/Tests/Status.antt =====
-- A finding with evidence, and the theorems on its derived status.
use learning_loop_template.Base.{◌≡◌, refl, ◌↔◌, ◌⊎◌, true, false, none, some, [], codes}
use learning_loop_template.Registry.Entry.{Entry, finding, opened, archived}
use learning_loop_template.Registry.Status.{
  is_open, mechanism_shipped, no_action, resolve, re_verify, Derived, reference_time, has_drifted,
  Context, is_stale_view, check_signal, compute_kind, assemble, derive_status,
}
use learning_loop_template.Registry.Status.Laws.{drift-advised, archived-drifted}

abbrev shipped : Entry
shipped = record {
  id = "meta-1";
  entry_kind = some finding;
  status = some opened;
  version = some 0;
  created_at = some (codes "1970-01-01");
  last_verified_at = some (codes "1970-01-02");
  affected_system = some "meta";
  resolved_at = none;
  resolved_by = none;
  resolution = none;
  archived_at = none;
  archived_by = none;
  archived_reason = none;
  tombstone_kind = none;
  accepted_at = none;
  accepted_by = none;
  accepted_reason = none;
  shipped_in_plan = none;
  shipped_at = none;
  evidence_code_ref = some "core/a.js";
  evidence_test = some "core/a.test.js";
  code_fingerprint = none;
  subtype = none;
  recurrence_key = none;
  content = [];
}

-- Every text has the time of the second of January.
abbrev context : Context
context = record {
  window = 604800000;
  get_time = λ t. some 86400000;
  index = none;
  current = none;
  exists_at = λ p. some true;
  test_passed = some true;
}

abbrev gone : Entry
gone = record shipped { status = some archived }

abbrev report : Entry → Derived
report e = assemble context 90000000 e (some true) (some true)

derived-open : derive_status context 90000000 shipped ≡ some (report shipped)
unfolding derive_status check_signal
derived-open = refl

derived-gone : derive_status context 90000000 gone ≡ some (report gone)
unfolding derive_status check_signal
derived-gone = refl

drift-advised_example :
    ((report shipped).drift ≡ true)
    ↔ (((report shipped).recommendation ≡ resolve) ⊎ ((report shipped).recommendation ≡ re_verify))
drift-advised_example = drift-advised context 90000000 shipped (report shipped) derived-open refl

gone-shipped : (report gone).kind ≡ mechanism_shipped
unfolding assemble compute_kind
gone-shipped = refl

archived-drifted_example : ((report gone).drift ≡ true) × ((report gone).recommendation ≡ no_action)
archived-drifted_example =
    archived-drifted context 90000000 gone (report gone) derived-gone refl gone-shipped

shipped-stale : is_stale_view context 700000000 shipped ≡ true
unfolding is_stale_view is_open reference_time has_drifted
shipped-stale = refl

no_drift : has_drifted none none shipped ≡ false
unfolding has_drifted
no_drift = refl
