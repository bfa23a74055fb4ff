-- ===== src/Registry/Batch.antt =====
-- `metaStateBatch` of tools/learning-loop-mastra/core/meta-state.js: the operations are planned one by one,
-- and the lines that they ask for are appended when all of them passed. The code plans on the array that
-- `readRegistry` has in its cache; the plan here is a copy, and the files are what is modelled.
pub mod Plan
pub mod Commit
pub mod Growth
pub mod Visible
pub mod Atomic
pub mod Refining
pub mod Steps
pub mod View
pub mod Bounds
pub mod Uncountable
use learning_loop_template.Base.{
  ℕ, String, Bool, Option, none, some, List, [], ◌∷◌, ◌++◌, map, Text, codes, if◌then◌else◌, suc,
  length, ltb,
}
use learning_loop_template.Json.{str, arr, nil, obj, bare, field, Json}
use learning_loop_template.Registry.Entry.{Entry, active, change_log}
use learning_loop_template.Registry.Projection.{Store, GateLine, read_registry}
use learning_loop_template.Registry.Files.{Disk, ids_of}
use learning_loop_template.Registry.Host.{Host}
use learning_loop_template.Registry.Citations.{Stamp}
use learning_loop_template.Registry.Ops.{BatchOp}
use learning_loop_template.Registry.Envelope.{
  EnvelopeError, Built, built, not_built, build_envelope,
}
use learning_loop_template.Registry.Batch.Plan.{
  BatchReason, unknown_op_type, batch_size_exceeded, BatchPlan, Planned, planned, rejected, plan_op,
}
use learning_loop_template.Registry.Batch.Commit.{
  BatchOutcome, replied, envelope_thrown, collision_thrown, refused_batch, has_id, commit,
}

-- The plan at the start of a batch.
abbrev pub start_plan : Store → BatchPlan
start_plan s = record {
  entries = read_registry s;
  ids = ids_of (read_registry s);
  pending = [];
  citations = [];
  change_logs = [];
  gate_log = s.gate_log;
}

pub data Planning : Type 0 where
  all_planned : BatchPlan → Planning
  stopped : ℕ → BatchReason → List GateLine → Planning

pub record EnvelopeArgs : Type 0 where
  pub envelope_kind : String
  pub envelope_target : Text

-- The change-log line of an envelope.
abbrev pub auto_emit_entry : Stamp → Text → Json → Entry
auto_emit_entry st target envelope = record {
  id = st.fresh_id;
  entry_kind = some change_log;
  status = some active;
  version = some 0;
  created_at = some st.now;
  last_verified_at = none;
  affected_system = none;
  resolved_at = none;
  resolved_by = none;
  resolution = none;
  archived_at = none;
  archived_by = none;
  archived_reason = none;
  tombstone_kind = none;
  accepted_at = none;
  accepted_by = none;
  accepted_reason = none;
  shipped_in_plan = none;
  shipped_at = none;
  evidence_code_ref = none;
  evidence_test = none;
  code_fingerprint = none;
  subtype = none;
  recurrence_key = none;
  content =
      ("change_dimension", str (codes "mechanical"))
      ∷ ("change_target", str target)
      ∷ (
        "change_diff",
        obj (field "added" (arr nil) (field "removed" (arr nil) (field "changed" (arr nil) bare))),
      )
      ∷ (
        "reason",
        str (
            codes
              "Auto-emitted by meta_state_batch envelope pass-through (loop-design-operation-envelope-on-change-log)."),
      )
      ∷ ("operation_envelope", envelope)
      ∷ [];
}

-- `stamps i` has the clock and the random id for operation `i`, and for the emitted line after the last.
module _ (h : Host) (stamps : ℕ → Stamp) where
  unfoldable pub plan_ops : ℕ → List BatchOp → BatchPlan → Planning
  plan_ops i [] p = all_planned p
  plan_ops i (op ∷ ops) p = elim (plan_op h (stamps i) op p) [
    | planned q ↦ plan_ops (suc i) ops q
    | rejected r log ↦ stopped i r log
  ]

module _ (h : Host) (fails : Disk) (stamps : ℕ → Stamp) where
  unfoldable pub emit_built : List BatchOp → BatchPlan → Text → Built → Store → BatchOutcome × Store
  emit_built ops p target (not_built x) s = (envelope_thrown x, record s { gate_log = p.gate_log })
  emit_built ops p target (built v) s =
      let st = stamps (length ops) in
      if has_id st.fresh_id p.entries
      then (collision_thrown, record s { gate_log = p.gate_log })
      else commit fails (length ops) p (some (auto_emit_entry st target v)) s

  unfoldable pub finish_batch :
      Option EnvelopeArgs → List BatchOp → Planning → Store → BatchOutcome × Store
  finish_batch envelope ops (stopped i r log) s =
      (replied (refused_batch i r), record s { gate_log = log })
  finish_batch none ops (all_planned p) s = commit fails (length ops) p none s
  finish_batch (some a) ops (all_planned p) s =
      emit_built ops p a.envelope_target
        (build_envelope h.stringify h.sha256 a.envelope_kind a.envelope_target ops (read_registry s)
          p.entries)
        s

  -- `limit` is `BATCH_SIZE_LIMIT`.
  unfoldable pub meta_state_batch :
      ℕ → List BatchOp → Option EnvelopeArgs → Store → BatchOutcome × Store
  meta_state_batch limit ops envelope s =
      if ltb limit (length ops)
      then (replied (refused_batch 0 batch_size_exceeded), s)
      else finish_batch envelope ops (plan_ops h stamps 0 ops (start_plan s)) s
