-- ===== src/Tests/Batch.antt =====
-- Batches and envelopes at a registry of findings.
use learning_loop_template.Base.{
  ◌+◌, ◌≤◌, ◌≢◌, ◌≡◌, refl, none, some, List, [], ◌∷◌, Text, codes, length, text_lt, text_eq,
  select, any_of,
}
use learning_loop_template.Json.{Json, null}
use learning_loop_template.Registry.Entry.{
  Entry, finding, rule, citation, opened, active, resolved, read_line,
}
use learning_loop_template.Registry.Projection.{
  Store, current, find_entry, sort_by, collapse_from, merge, replaces, created_before,
  read_raw_lines, read_registry,
}
use learning_loop_template.Registry.Ops.{BatchOp, write_op, delete_op, archive_op}
use learning_loop_template.Registry.Envelope.{
  Built, built, not_built, build_envelope, build_compatible, assemble, required_ops,
}
use learning_loop_template.Registry.Envelope.Shape.{has_control, has_dots}
use learning_loop_template.Registry.Envelope.Tally.{
  Counts, counted, count_registry, count_from, count_entry, status_step, kind_step, count_status,
  count_kind, normalize_legacy_status, IsBalanced, count_registry-IsBalanced,
}
use learning_loop_template.Registry.Envelope.Validation.{all_hex, validate_envelope}
use learning_loop_template.Registry.Envelope.Valid.{IsHexDigest, validate_envelope-build_envelope}
use learning_loop_template.Registry.Batch.{
  EnvelopeArgs, Planning, all_planned, stopped, start_plan, plan_ops, meta_state_batch,
}
use learning_loop_template.Registry.Batch.Plan.{BatchPlan}
use learning_loop_template.Registry.Batch.Commit.{replied, all_applied}
use learning_loop_template.Registry.Batch.Atomic.{AllOrNothing, meta_state_batch-AllOrNothing}
use learning_loop_template.Registry.Batch.Bounds.{meta_state_batch_bound}
use learning_loop_template.Registry.Batch.Uncountable.{meta_state_batch_refused}
use learning_loop_template.Tests.Host.{host, works, stamp, digest}
use learning_loop_template.Tests.Registry.{blank, store}

abbrev ops : List BatchOp
ops =
    write_op (blank "meta-7" finding opened 0)
    ∷ archive_op "meta-7" (some "noise") none
    ∷ delete_op "meta-2" none none
    ∷ []

abbrev wrapped : EnvelopeArgs
wrapped = record { envelope_kind = "sweep"; envelope_target = codes "spring" }

meta_state_batch-AllOrNothing_example :
    AllOrNothing host
      (λ i. stamp)
      works
      ops
      store
      (some wrapped)
      (meta_state_batch host works (λ i. stamp) 500 ops (some wrapped) store)
meta_state_batch-AllOrNothing_example =
    meta_state_batch-AllOrNothing host (λ i. stamp) works ops store 500 (some wrapped)

meta_state_batch_bound_example :
    length (meta_state_batch host works (λ i. stamp) 500 ops none store).1.meta_state
    ≤ length store.meta_state + 500
meta_state_batch_bound_example = meta_state_batch_bound host works (λ i. stamp) ops store 500 none

abbrev cited : Store
cited = record {
  meta_state = blank "meta-1" finding opened 0 ∷ [];
  change_log = none;
  citations = blank "citation-1" citation active 0 ∷ [];
  gate_log = [];
}

current-cited : current cited "citation-1" ≡ some (blank "citation-1" citation active 0)
unfolding current find_entry read_registry sort_by collapse_from read_raw_lines merge read_line
    replaces created_before text_lt
current-cited = refl

meta_state_batch_refused_example :
    (meta_state_batch host works (λ i. stamp) 500 ops (some wrapped) cited).0
    ≢ replied (all_applied 3)
meta_state_batch_refused_example =
    meta_state_batch_refused host works (λ i. stamp) cited "citation-1"
      (blank "citation-1" citation active 0) current-cited refl 500 ops wrapped 3

abbrev counted_store : List Entry
counted_store =
    blank "meta-1" finding opened 0
    ∷ blank "meta-2" finding resolved 3
    ∷ blank "rule-1" rule active 0
    ∷ []

abbrev counts : Counts
counts = record {
  total = 3;
  open_count = 2;
  resolved_count = 1;
  accepted_count = 0;
  archived_count = 0;
  finding_count = 2;
  change_log_count = 0;
  rule_count = 1;
  loop_design_count = 0;
}

count_registry-counted_store : count_registry counted_store ≡ counted counts
unfolding count_registry count_from count_entry status_step kind_step count_status count_kind
    normalize_legacy_status
count_registry-counted_store = refl

count_registry-IsBalanced_example : IsBalanced 3 counts
count_registry-IsBalanced_example =
    count_registry-IsBalanced counted_store counts count_registry-counted_store

abbrev plan_or_start : Planning → BatchPlan
plan_or_start (all_planned p) = p
plan_or_start (stopped i r log) = start_plan store

abbrev final_plan : BatchPlan
final_plan = plan_or_start (plan_ops host (λ i. stamp) 0 ops (start_plan store))

digest-IsHexDigest : (t : Text) → IsHexDigest digest
unfolding all_hex
digest-IsHexDigest t = (refl, refl)

abbrev json_of : Built → Json
json_of (built v) = v
json_of (not_built e) = null

abbrev an_envelope : Built
an_envelope =
    build_envelope (λ v. []) (λ t. digest) "sweep" (codes "spring") ops counted_store counted_store

an_envelope-built : an_envelope ≡ built (json_of an_envelope)
unfolding build_envelope build_compatible assemble required_ops has_control has_dots text_eq any_of
    select count_registry count_from count_entry status_step kind_step count_status count_kind
    normalize_legacy_status
an_envelope-built = refl

validate_envelope-build_envelope_example : validate_envelope (json_of an_envelope) ≡ none
validate_envelope-build_envelope_example =
    validate_envelope-build_envelope (λ v. []) (λ t. digest) digest-IsHexDigest "sweep"
      (codes "spring") ops counted_store counted_store (json_of an_envelope) an_envelope-built
