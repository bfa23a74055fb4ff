-- ===== src/Registry/Batch/Plan.antt =====
-- One operation of a batch against the plan so far (tools/learning-loop-mastra/core/meta-state.js,
-- `metaStateBatch`). An operation that the code throws at is rejected.
use Prim.Native.String.{◌++◌ as str_append}
use learning_loop_template.Base.{
  ℕ, String, Bool, not, ◌&&◌, Option, none, some, List, [], ◌∷◌, ◌++◌, Text, codes, if◌then◌else◌,
  str_eq, suc, is_set, any_of, get_or,
}
use learning_loop_template.Json.{Json}
use learning_loop_template.Registry.Entry.{
  Entry, archived, archive_tombstone, delete_tombstone, version_of, is_change_log, is_rule,
  is_archived, change_log,
}
use learning_loop_template.Registry.Projection.{
  Reason, GateLine, violated, find_entry, caller_supplied_envelope, change_log_immutable,
  entry_kind_immutable, already_archived,
}
use learning_loop_template.Registry.Entry.{Kind}
use learning_loop_template.Registry.Patch.{Change, get_content, is_denied, without}
use learning_loop_template.Registry.Fields.{entries_equal}
use learning_loop_template.Registry.References.{resolve_structural_ri, changed_dangling}
use learning_loop_template.Registry.Files.{versioned, warn_structural_ri}
use learning_loop_template.Registry.Host.{Host}
use learning_loop_template.Registry.Citations.{Stamp, rule_supersession_citation}
use learning_loop_template.Registry.Writes.{has_rule}
use learning_loop_template.Registry.Refine.{
  kind_kept, cleaned, names_supersedes, supersedes_of, is_truthy, Refined, invalid,
  supersedes_missing, refined, refine, next_version,
}
use learning_loop_template.Registry.Update.{mismatched}
use learning_loop_template.Registry.Ops.{
  BatchOp, write_op, update_op, delete_op, archive_op, unknown_op,
}

-- The reasons of a failed batch.
pub data BatchReason : Type 0 where
  batch_size_exceeded unknown_op_type denied_field op_validation_failed op_rule_id_exists
        op_not_found :
      BatchReason
  op_version_mismatch op_change_log_immutable op_supersedes_required op_already_archived :
      BatchReason
  append_failed citation_append_failed change_log_append_failed auto_emit_append_failed
        change_log_not_visible :
      BatchReason

-- `entries` is the registry as the operations so far leave it, `ids` is `inBatchIds`; the three lists
-- hold the lines to append.
pub record BatchPlan : Type 0 where
  pub entries : List Entry
  pub ids : List Text
  pub pending : List Entry
  pub citations : List Entry
  pub change_logs : List Entry
  pub gate_log : List GateLine

pub data Planned : Type 0 where
  planned : BatchPlan → Planned
  rejected : BatchReason → List GateLine → Planned

-- A refusal of `assertinvariant`.
abbrev pub log_refusal : Reason → String → Option Kind → BatchPlan → List GateLine
log_refusal r id k p =
    p.gate_log
    ++ violated (record { reason_code = r; id = id; entry_kind = k; current_status = none }) ∷ []

-- `entries[idx] = t` at the first entry of the id.
unfoldable pub set_entry : String → Entry → List Entry → List Entry
set_entry id t [] = []
set_entry id t (e ∷ es) = if str_eq e.id id then t ∷ es else e ∷ set_entry id t es

-- A line for an entry that is there.
abbrev pub plan_line : String → Entry → BatchPlan → BatchPlan
plan_line id t p = record p { entries = set_entry id t p.entries; pending = p.pending ++ t ∷ [] }

abbrev pub forges_envelope : Entry → Bool
forges_envelope e =
    is_change_log e.entry_kind && is_set (get_content "operation_envelope" e.content)

-- The entry has passed the checks: a change log waits for its own file.
unfoldable pub plan_new : Entry → BatchPlan → BatchPlan
plan_new d p =
    let ids' = codes d.id ∷ p.ids in
    let log = warn_structural_ri d.id (resolve_structural_ri ids' d) p.gate_log in
    if is_change_log d.entry_kind
    then record p { ids = ids'; gate_log = log; change_logs = p.change_logs ++ d ∷ [] }
    else record p {
      ids = ids';
      gate_log = log;
      pending = p.pending ++ versioned d ∷ [];
      entries = p.entries ++ versioned d ∷ [];
    }

unfoldable pub plan_parsed : Option Entry → BatchPlan → Planned
plan_parsed none p = rejected op_validation_failed p.gate_log
plan_parsed (some d) p =
    if is_rule d.entry_kind && has_rule d.id p.entries
    then rejected op_rule_id_exists p.gate_log
    else planned (plan_new d p)

unfoldable pub plan_write : Host → Entry → BatchPlan → Planned
plan_write h e p =
    if forges_envelope e
    then rejected denied_field (log_refusal caller_supplied_envelope "" (some change_log) p)
    else plan_parsed (h.parse_entry e) p

-- The citation of the rule that a refinement supersedes.
unfoldable pub due_citations : Stamp → Entry → Option Json → List Entry
due_citations st e none = []
due_citations st e (some v) =
    if is_rule e.entry_kind && is_truthy v then rule_supersession_citation st e.id v ∷ [] else []

unfoldable pub plan_refined :
    Host → Stamp → String → Entry → Option Json → Refined → BatchPlan → Planned
plan_refined h st id e supersedes invalid p = rejected op_validation_failed p.gate_log
plan_refined h st id e supersedes supersedes_missing p = rejected op_supersedes_required p.gate_log
plan_refined h st id e supersedes (refined q) p =
    if entries_equal h.stringify q e
    then planned p
    else planned (record (plan_line id (next_version e q) p) {
      citations = p.citations ++ due_citations st e supersedes;
      gate_log = warn_structural_ri q.id (changed_dangling p.ids q e) p.gate_log;
    })

abbrev plan_patch : Host → Stamp → String → Entry → List Change → Option Json → BatchPlan → Planned
plan_patch h st id e cs supersedes p =
    plan_refined h st id e supersedes (refine h e cs supersedes) p

unfoldable pub plan_update :
    Host → Stamp → String → List Change → Option ℕ → Option Entry → BatchPlan → Planned
plan_update h st id patch expected none p = rejected op_not_found p.gate_log
plan_update h st id patch expected (some e) p =
    if mismatched expected e
    then rejected op_version_mismatch p.gate_log
    else if is_change_log e.entry_kind
    then rejected op_change_log_immutable (log_refusal change_log_immutable id e.entry_kind p)
    else if not (kind_kept e.entry_kind patch)
    then rejected denied_field (log_refusal entry_kind_immutable id none p)
    else if any_of is_denied patch
    then rejected denied_field p.gate_log
    else if is_rule e.entry_kind && names_supersedes (cleaned patch)
    then plan_patch h st id e (without "supersedes" (cleaned patch)) (supersedes_of (cleaned patch))
        p
    else plan_patch h st id e (cleaned patch) none p

abbrev pub batch_delete_line : Stamp → Option String → Option String → Entry → Entry
batch_delete_line st reason by e = record e {
  status = some archived;
  archived_at = some st.now;
  archived_by = some (get_or by "operator");
  archived_reason = some (str_append "deleted: " (get_or reason "no reason given"));
  tombstone_kind = some delete_tombstone;
  version = some (suc (version_of e));
}

unfoldable pub plan_delete :
    Stamp → String → Option String → Option String → Option Entry → BatchPlan → Planned
plan_delete st id reason by none p = rejected op_not_found p.gate_log
plan_delete st id reason by (some e) p =
    if is_change_log e.entry_kind
    then rejected op_change_log_immutable (log_refusal change_log_immutable id e.entry_kind p)
    else planned (plan_line id (batch_delete_line st reason by e) p)

abbrev pub batch_archive_line : Stamp → Option String → Option String → Entry → Entry
batch_archive_line st reason by e = record e {
  status = some archived;
  archived_at = some st.now;
  archived_by = some (get_or by "operator");
  archived_reason = some (get_or reason "batch_archive");
  tombstone_kind = some archive_tombstone;
  version = some (suc (version_of e));
}

unfoldable pub plan_archive :
    Stamp → String → Option String → Option String → Option Entry → BatchPlan → Planned
plan_archive st id reason by none p = rejected op_not_found p.gate_log
plan_archive st id reason by (some e) p =
    if is_archived e.status
    then rejected op_already_archived (log_refusal already_archived id none p)
    else planned (plan_line id (batch_archive_line st reason by e) p)

unfoldable pub plan_op : Host → Stamp → BatchOp → BatchPlan → Planned
plan_op h st (write_op e) p = plan_write h e p
plan_op h st (update_op id patch expected) p =
    plan_update h st id patch expected (find_entry id p.entries) p
plan_op h st (delete_op id reason by) p = plan_delete st id reason by (find_entry id p.entries) p
plan_op h st (archive_op id reason by) p = plan_archive st id reason by (find_entry id p.entries) p
plan_op h st (unknown_op name) p = rejected unknown_op_type p.gate_log
