-- ===== src/Registry/Lifecycle/Step.antt =====
-- One lifecycle operation on the store (tools/learning-loop-mastra/core/meta-state.js), and the guarded append of
-- core/registry-append-atomic.js. An operation runs as one step, since the code holds the registry
-- lock; `now` is the text of `new Date().toISOString()`. In Archive, Accept and Restore, `broken` says
-- whether the append fails in the file system.
use learning_loop_template.Base.{
  ℕ, String, ◌&&◌, Option, none, [], ◌∷◌, ◌++◌, if◌then◌else◌, Text, is_set,
}
use learning_loop_template.Registry.Entry.{
  Entry, Kind, Status, Tombstone, is_change_log, is_citation,
}
use learning_loop_template.Registry.Projection.{Store, Reason, violated}

-- The errors that the operations throw.
pub data Error : Type 0 where
  change_log_immutable_error change_log_leak citation_leak : Error
  io_error invalid_entry schema_version_skew invalid_entry_error : Error
  rule_id_exists rule_promotion_requires_rule_entry auto_emit_id_collision : Error

pub data Result {ℓ} (A : Type ℓ) : Type ℓ where
  ok : A → Result A
  thrown : Error → Result A

-- A structured refusal; `none` stands for a key that the reply does not have.
pub record Refusal : Type 0 where
  pub reason : Reason
  pub id : String
  pub entry_kind : Option Kind
  pub current_status : Option Status
  pub current_version : Option ℕ
  pub tombstone_kind : Option Tombstone
  pub shipped_in_plan : Option String
  pub shipped_at : Option Text

pub data Reply {ℓ} (A : Type ℓ) : Type ℓ where
  done : A → Reply A
  refused : Refusal → Reply A

abbrev pub refusal : Reason → String → Refusal
refusal r id = record {
  reason = r;
  id = id;
  entry_kind = none;
  current_status = none;
  current_version = none;
  tombstone_kind = none;
  shipped_in_plan = none;
  shipped_at = none;
}

-- An operation: its reply or the error thrown, and the store that it leaves.
abbrev pub Op : Type 0 → Type 0
Op A = Store → Result (Reply A) × Store

-- `trueAppendAtomic` on `meta-state.jsonl`, behind its two leak guards.
unfoldable pub true_append : Store → Entry → Result Store
true_append s t =
    if is_set s.change_log && is_change_log t.entry_kind
    then thrown change_log_leak
    else if is_citation t.entry_kind
    then thrown citation_leak
    else ok (record s { meta_state = s.meta_state ++ t ∷ [] })

abbrev pub appending : {A : Type 0} → Result Store → A → Op A
appending (ok s') a s = (ok (done a), s')
appending (thrown e) a s = (thrown e, s)

abbrev pub refuse : {A : Type 0} → Refusal → Op A
refuse r s = (ok (refused r), s)

-- The gate-log line of `emitViolation`.
abbrev pub log_violation : Reason → String → Option Kind → Option Status → Store → Store
log_violation r i k st s = record s {
  gate_log =
      s.gate_log
      ++ violated (record { reason_code = r; id = i; entry_kind = k; current_status = st }) ∷ [];
}
