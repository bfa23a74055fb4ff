-- ===== src/Recurrence/Emit.antt =====
-- `checkAndEmit` of tools/learning-loop-mastra/core/recurrence-tracker.js: the findings of the fresh groups go to
-- the registry. The messages on the standard error are left out.
pub mod OnePerKey
use Prim.Native.String.{◌++◌ as str_append}
use learning_loop_template.Base.{
  ℕ, String, Bool, true, false, not, ◌&&◌, Option, none, some, List, [], ◌∷◌, ◌++◌, map, Text,
  codes, if◌then◌else◌, str_eq, text_eq, select, length, suc, get_or,
}
use learning_loop_template.Json.{bool, str}
use learning_loop_template.Registry.Entry.{Entry, finding, opened, is_finding, is_rule, is_archived}
use learning_loop_template.Registry.Projection.{Store, read_registry}
use learning_loop_template.Registry.Lifecycle.Step.{Error, Result, ok, thrown}
use learning_loop_template.Registry.Files.{Disk}
use learning_loop_template.Registry.Host.{Host}
use learning_loop_template.Registry.Citations.{Stamp}
use learning_loop_template.Registry.Writes.{opt_str_eq, has_key, find_where}
use learning_loop_template.Registry.Writes.Absent.{
  Written, written, suppressed_by, write_entry_if_absent,
}
use learning_loop_template.Recurrence.{LogLine, Tracker}
use learning_loop_template.Recurrence.Report.{
  Recurrent, recurrence_threshold_n, key_of_report, find_recurrent_groups, collapse_fresh_by_key,
}

-- `existing` of `resolveDedupIndex`
unfoldable pub is_existing : Entry → Bool
is_existing e =
    is_finding e.entry_kind
    && opt_str_eq e.subtype (some "recurring-false-positive")
    && has_key e
    && not (is_archived e.status)

abbrev key_text : Entry → Text
key_text e = elim e.recurrence_key [ none ↦ [] | some k ↦ codes k ]

unfoldable pub existing_keys : List Entry → List Text
existing_keys es = map key_text (select is_existing es)

-- `ruleById.get(rule_id)`
unfoldable pub rule_by_id : Text → List Entry → Option Entry
rule_by_id id =
    find_where (λ e. is_rule e.entry_kind && not (str_eq e.id "") && text_eq (codes e.id) id)

abbrev reference_of : Option Entry → Option String
reference_of none = none
reference_of (some e) = elim e.evidence_code_ref [
  | none ↦ none
  | some r ↦ if str_eq r "" then none else some r
]

abbrev default_reference : Text → String
default_reference rule_id =
    if text_eq rule_id (codes "toolchain-failure")
    then "tools/learning-loop-mastra/hooks/universal/toolchain-failure-capture.js"
    else "tools/learning-loop-mastra/core/gate-logic.js"

unfoldable pub evidence_reference : List Entry → Recurrent → String
evidence_reference es g =
    if g.delivery_failure
    then "tools/learning-loop-mastra/core/rule-delivery.js"
    else get_or (reference_of (rule_by_id g.rule_id es)) (default_reference g.rule_id)

-- A number as text, and the string of a list of code units.
pub record Printer : Type 0 where
  pub decimal : ℕ → Text
  pub string_of : Text → String

unfoldable pub description_of : Printer → Recurrent → Text
description_of pr g =
    codes (if g.delivery_failure then "Rule Delivery failed " else "Pattern recurred ")
    ++ pr.decimal g.count
    ++ codes " time(s) across "
    ++ pr.decimal (get_or g.sessions 1)
    ++ codes " session(s) (latest: "
    ++ g.session_id
    ++ codes (if g.delivery_failure then ") for rule " else ") under rule ")
    ++ g.rule_id
    ++ codes ". First seen: "
    ++ g.first_ts
    ++ codes ". Last seen: "
    ++ g.last_ts
    ++ codes "."
    ++ (if g.cross_session_slow_burn
        then codes
            " (cross-session slow-burn: no single session reached the per-session threshold of "
          ++ pr.decimal recurrence_threshold_n
          ++ codes ")"
        else [])

-- `buildFinding`; the stamp has the generated id.
unfoldable pub build_finding : Tracker → Printer → Stamp → List Entry → Recurrent → Entry
build_finding x pr st es g = record {
  id = st.fresh_id;
  entry_kind = some finding;
  status = some opened;
  version = none;
  created_at = some st.now;
  last_verified_at = none;
  affected_system = some (if g.delivery_failure then "meta" else "gate-logic");
  resolved_at = none;
  resolved_by = none;
  resolution = none;
  archived_at = none;
  archived_by = none;
  archived_reason = none;
  tombstone_kind = none;
  accepted_at = none;
  accepted_by = none;
  accepted_reason = none;
  shipped_in_plan = none;
  shipped_at = none;
  evidence_code_ref = some (evidence_reference es g);
  evidence_test = none;
  code_fingerprint = none;
  subtype = some "recurring-false-positive";
  recurrence_key = some (pr.string_of (key_of_report x g));
  content =
      ("category", str (codes "gate-logic-bug"))
      ∷ ("severity", str (codes "warning"))
      ∷ ("description", str (description_of pr g))
      ∷ ("mechanism_check", bool true)
      ∷ [];
}

pub record Emitted : Type 0 where
  pub checked_groups : ℕ
  pub findings_emitted : ℕ
  pub recurrent : List Recurrent
  pub entries_scanned : ℕ

abbrev pub counted_write : ℕ → Written → ℕ
counted_write n written = suc n
counted_write n (suppressed_by e) = n

-- `stamps i` and `disks i` are those of the i-th write.
module _ (x : Tracker) (pr : Printer) (h : Host) (disks : ℕ → Disk) (stamps : ℕ → Stamp) where
  abbrev pub write_finding : ℕ → List Entry → Recurrent → Store → Result Written × Store
  write_finding i es g s = write_entry_if_absent h (disks i) (build_finding x pr (stamps i) es g) s

  -- The loop over the fresh groups, with the number of findings written.
  unfoldable pub emit_all : ℕ → ℕ → List Entry → List Recurrent → Store → Result ℕ × Store
  emit_all i n es [] s = (ok n, s)
  emit_all i n es (g ∷ gs) s = elim (write_finding i es g s).0 [
    | ok w ↦ emit_all (suc i) (counted_write n w) es gs (write_finding i es g s).1
    | thrown e ↦ (thrown e, (write_finding i es g s).1)
  ]

  unfoldable pub emitted : List LogLine → List Recurrent → Result ℕ × Store → Result Emitted × Store
  emitted log rs (thrown e, s) = (thrown e, s)
  emitted log rs (ok n, s) = (
    ok (record {
      checked_groups = length rs;
      findings_emitted = n;
      recurrent = rs;
      entries_scanned = length log;
    }),
    s,
  )

  -- On the log that `readDecisionLogEntries` gives; in a dry run nothing is written.
  unfoldable pub check_and_emit : Bool → ℕ → ℕ → List LogLine → Store → Result Emitted × Store
  check_and_emit dry_run now threshold log s =
      let rs = find_recurrent_groups x now threshold log in
      let fresh = collapse_fresh_by_key x (existing_keys (read_registry s)) rs in
      emitted log rs (if dry_run then (ok 0, s) else emit_all 0 0 (read_registry s) fresh s)
