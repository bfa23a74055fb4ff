-- ===== src/Registry/Batch/Commit.antt =====
-- The appends of a batch whose operations all passed, and their rollback
-- (tools/learning-loop-mastra/core/meta-state.js, `metaStateBatch`).
use learning_loop_template.Base.{
  ℕ, ◌+◌, String, Bool, not, Option, none, some, List, [], ◌∷◌, map, if◌then◌else◌, str_eq, suc,
  length, is_set, any_of,
}
use learning_loop_template.Registry.Entry.{Entry}
use learning_loop_template.Registry.Projection.{Store, current}
use learning_loop_template.Registry.Lifecycle.Step.{Error, Result, ok, thrown}
use learning_loop_template.Registry.Files.{
  Disk, append_line, append_citation, append_change_log, restore_snapshot,
}
use learning_loop_template.Registry.Envelope.{EnvelopeError}
use learning_loop_template.Registry.Batch.Plan.{
  BatchReason, unknown_op_type, append_failed, citation_append_failed, change_log_append_failed,
  auto_emit_append_failed, change_log_not_visible, BatchPlan,
}

-- A reply; `failed_at` is `none` for null, and `reason` for a success.
pub record BatchReply : Type 0 where
  pub applied : ℕ
  pub failed_at : Option ℕ
  pub reason : Option BatchReason

abbrev pub all_applied : ℕ → BatchReply
all_applied n = record { applied = n; failed_at = none; reason = none }

abbrev pub applied_before : ℕ → BatchReason → ℕ
applied_before i unknown_op_type = i
applied_before i _ = 0

-- The reply for a batch that stops at operation `i`.
abbrev pub refused_batch : ℕ → BatchReason → BatchReply
refused_batch i r = record { applied = applied_before i r; failed_at = some i; reason = some r }

-- The reply for a batch that fails while it appends.
abbrev pub failed_batch : BatchReason → BatchReply
failed_batch r = record { applied = 0; failed_at = none; reason = some r }

-- A reply, or an error thrown.
pub data BatchOutcome : Type 0 where
  replied : BatchReply → BatchOutcome
  envelope_thrown : EnvelopeError → BatchOutcome
  collision_thrown : BatchOutcome

abbrev pub has_id : String → List Entry → Bool
has_id id = any_of (λ e. str_eq e.id id)

-- Appends until one fails; the store is the one that it leaves.
unfoldable pub append_all :
    (Bool → Entry → Store → Result Store) → Disk → ℕ → List Entry → Store → Option Error × Store
append_all step fails n [] s = (none, s)
append_all step fails n (t ∷ ts) s = elim (step (fails n) t s) [
  | ok s' ↦ append_all step fails (suc n) ts s'
  | thrown e ↦ (some e, s)
]

-- The table alone is restored where its appends fail.
abbrev pub restore_table : Store → Store → Store
restore_table before s = record s { meta_state = before.meta_state }

-- `assertWriteVisible`, for the ids of the appended change logs.
unfoldable pub check_visible : ℕ → List String → Store → Store → BatchOutcome × Store
check_visible n expected before s =
    if any_of (λ id. not (is_set (current s id))) expected
    then (replied (failed_batch change_log_not_visible), restore_snapshot before s)
    else (replied (all_applied n), s)

-- `n` is the number of operations, `before` the store of the snapshots.
module _ (fails : Disk) (n : ℕ) (p : BatchPlan) (auto : Option Entry) (before : Store) where
  abbrev pub log_ids : List String
  log_ids = map (λ e. e.id) p.change_logs

  unfoldable pub after_emit : Entry → Result Store → Store → BatchOutcome × Store
  after_emit t (thrown e) s =
      (replied (failed_batch auto_emit_append_failed), restore_snapshot before s)
  after_emit t (ok s') s = check_visible n (t.id ∷ log_ids) before s'

  unfoldable pub emit_auto : Option Entry → Store → BatchOutcome × Store
  emit_auto none s = check_visible n log_ids before s
  emit_auto (some t) s =
      after_emit t
        (append_change_log (fails (length p.pending + length p.citations + length p.change_logs)) t
          s)
        s

  unfoldable pub after_change_logs : Option Error × Store → BatchOutcome × Store
  after_change_logs (some e, s) =
      (replied (failed_batch change_log_append_failed), restore_snapshot before s)
  after_change_logs (none, s) = emit_auto auto s

  unfoldable pub after_citations : Option Error × Store → BatchOutcome × Store
  after_citations (some e, s) =
      (replied (failed_batch citation_append_failed), restore_snapshot before s)
  after_citations (none, s) =
      after_change_logs
        (append_all append_change_log fails (length p.pending + length p.citations) p.change_logs s)

  unfoldable pub after_table : Option Error × Store → BatchOutcome × Store
  after_table (some e, s) = (replied (failed_batch append_failed), restore_table before s)
  after_table (none, s) =
      after_citations (append_all append_citation fails (length p.pending) p.citations s)

unfoldable pub commit : Disk → ℕ → BatchPlan → Option Entry → Store → BatchOutcome × Store
commit fails n p auto s =
    after_table fails n p auto s
      (append_all append_line fails 0 p.pending (record s { gate_log = p.gate_log }))
