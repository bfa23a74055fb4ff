-- ===== src/Runtime/Tools.antt =====
-- The tools runtime_state_pause, runtime_state_resume and runtime_state_stop
-- (tools/learning-loop-mastra/tools/handlers/runtime-state-*-tool.js). `preflight` is the result of
-- `hasSurfacePreflightMarker`, `now` the time stamp of the row.
pub mod Reading
pub mod Laws
use text.Mathlib.Text.{starts_with}
use learning_loop_template.Base.{
  ℕ, String, Bool, true, false, not, Option, none, some, if◌then◌else◌,
}
use learning_loop_template.Runtime.Row.{
  RowKind, budget_state, RowStatus, initial, active, paused, stopped, Durability, durable,
  ephemeral, Row,
}
use learning_loop_template.Runtime.Append.{Sidecar, Error, Result, ok, thrown, append_ledger_event}
use learning_loop_template.Runtime.Tracking.{read_budget_tracking_state, is_surface_paused}

-- The texts that the tools return, and an error that escapes.
pub data ToolReply : Type 0 where
  preflight_required corrupt_state confirm_required already_stopped : ToolReply
  already_paused already_active stopped_already not_tracked : ToolReply
  invalid_transition : RowStatus → ToolReply
  written : Option RowStatus → Option ℕ → ToolReply
  raised : Error → ToolReply

-- `surface.startsWith("gate-verb:") ? "ephemeral" : "durable"`
abbrev pub durability_of : String → Durability
durability_of surface = if starts_with surface "gate-verb:" then ephemeral else durable

-- The row that the tools append; `action` is the text of its metadata.
abbrev pub lifecycle_row : String → String → RowStatus → String → Row
lifecycle_row surface now st action = record {
  affected_system = surface;
  kind = some budget_state;
  id = some surface;
  source_ref = "local:meta-state:rule-runtime-state-budget-tracking";
  value = "null";
  delta = "null";
  timestamp = some now;
  status = some st;
  metadata = action;
  durability = some (durability_of surface);
  version = none;
  fingerprint = none;
}

abbrev reply_of : Result Row → ToolReply
reply_of (ok r) = written r.status r.version
reply_of (thrown e) = raised e

module _ (sha256 : String → String) where
  abbrev pub append_row : Row → Sidecar → ToolReply × Sidecar
  append_row r c = let (out, c') = append_ledger_event sha256 r c in (reply_of out, c')

  abbrev pub pause_row : String → String → Row
  pause_row surface now = lifecycle_row surface now paused "{\"lifecycle_action\":\"pause\"}"

  abbrev pub resume_row : String → String → Row
  resume_row surface now = lifecycle_row surface now active "{\"lifecycle_action\":\"resume\"}"

  abbrev pub stop_row : String → String → Row
  stop_row surface now = lifecycle_row surface now stopped "{\"lifecycle_action\":\"stop\"}"

  unfoldable pub pause_checked : String → String → Result Bool → Sidecar → ToolReply × Sidecar
  pause_checked surface now (thrown e) c = (raised e, c)
  pause_checked surface now (ok true) c = (already_paused, c)
  pause_checked surface now (ok false) c = append_row (pause_row surface now) c

  unfoldable pub pause_from :
      String → String → Result (Option RowStatus) → Sidecar → ToolReply × Sidecar
  unfolding pause_checked
  pause_from surface now (thrown e) c = (corrupt_state, c)
  pause_from surface now (ok (some stopped)) c = (already_stopped, c)
  pause_from surface now (ok _) c = pause_checked surface now (is_surface_paused surface c) c

  unfoldable pub runtime_state_pause : Bool → String → String → Sidecar → ToolReply × Sidecar
  unfolding pause_from
  runtime_state_pause preflight surface now c =
      if not preflight
      then (preflight_required, c)
      else pause_from surface now (read_budget_tracking_state surface c) c

  unfoldable pub resume_from :
      String → String → Result (Option RowStatus) → Sidecar → ToolReply × Sidecar
  resume_from surface now (thrown e) c = (corrupt_state, c)
  resume_from surface now (ok (some stopped)) c = (already_stopped, c)
  resume_from surface now (ok (some active)) c = (already_active, c)
  resume_from surface now (ok (some paused)) c = append_row (resume_row surface now) c
  resume_from surface now (ok (some st)) c = (invalid_transition st, c)
  resume_from surface now (ok none) c = (not_tracked, c)

  unfoldable pub runtime_state_resume : Bool → String → String → Sidecar → ToolReply × Sidecar
  unfolding resume_from
  runtime_state_resume preflight surface now c =
      if not preflight
      then (preflight_required, c)
      else resume_from surface now (read_budget_tracking_state surface c) c

  unfoldable pub stop_from :
      String → String → Result (Option RowStatus) → Sidecar → ToolReply × Sidecar
  stop_from surface now (thrown e) c = (corrupt_state, c)
  stop_from surface now (ok (some stopped)) c = (stopped_already, c)
  stop_from surface now (ok _) c = append_row (stop_row surface now) c

  unfoldable pub runtime_state_stop : Bool → Bool → String → String → Sidecar → ToolReply × Sidecar
  unfolding stop_from
  runtime_state_stop preflight confirm surface now c =
      if not preflight
      then (preflight_required, c)
      else if not confirm
      then (confirm_required, c)
      else stop_from surface now (read_budget_tracking_state surface c) c
