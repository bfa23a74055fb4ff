-- ===== src/Registry/Lifecycle/Accept.antt =====
-- `acceptEntry` and `shipLoopDesign` of tools/learning-loop-mastra/core/meta-state.js.
use learning_loop_template.Base.{
  ℕ, suc, String, Bool, true, false, not, Option, none, some, ◌==◌, if◌then◌else◌, Text,
}
use learning_loop_template.Registry.Entry.{
  Entry, Status, archived, accepted, active, inactive, resolved, version_of, is_finding,
  is_loop_design, is_archived, is_accepted,
}
use learning_loop_template.Registry.Projection.{
  not_found, not_a_finding, already_accepted, already_terminal, not_a_loop_design, version_mismatch,
  already_shipped, invalid_status, current,
}
use learning_loop_template.Registry.Files.{append_line}
use learning_loop_template.Registry.Lifecycle.Step.{refusal, Op, appending, refuse, log_violation}

pub record Accepted : Type 0 where
  pub id : String
  pub status : Status
  pub accepted_at : Text
  pub accepted_by : Option String
  pub accepted_reason : Option String
  pub version : ℕ

-- `...(reason !== undefined && reason !== null && { accepted_reason: reason })`
abbrev pub overriding : Option String → Option String → Option String
overriding none old = old
overriding (some r) old = some r

abbrev pub accept_line : Text → Option String → Option String → Entry → Entry
accept_line now by reason e = record e {
  status = some accepted;
  accepted_at = some now;
  accepted_by = by;
  accepted_reason = overriding reason e.accepted_reason;
  version = some (suc (version_of e));
}

-- `TERMINAL_STATUSES.has(e.status ?? null)`
abbrev pub is_terminal : Option Status → Bool
is_terminal (some resolved) = true
is_terminal (some accepted) = true
is_terminal _ = false

unfoldable pub accept_found :
    Bool → Text → String → Option String → Option String → Entry → Op Accepted
accept_found broken now id by reason e s =
    if not (is_finding e.entry_kind)
    then refuse (record (refusal not_a_finding id) { entry_kind = e.entry_kind }) s
    else if is_accepted e.status
    then refuse
        (record (refusal already_accepted id) {
          current_status = some accepted;
          current_version = some (version_of e);
        })
        s
    else if is_archived e.status
    then refuse
        (record (refusal already_terminal id) {
          current_status = some archived;
          current_version = some (version_of e);
        })
        s
    else if is_terminal e.status
    then refuse (record (refusal already_terminal id) { current_status = e.status })
        (log_violation already_terminal id none e.status s)
    else appending (append_line broken (accept_line now by reason e) s)
        (record {
          id = id;
          status = accepted;
          accepted_at = now;
          accepted_by = by;
          accepted_reason = reason;
          version = suc (version_of e);
        })
        s

unfoldable pub accept_entry : Bool → Text → String → Option String → Option String → Op Accepted
accept_entry broken now id by reason s = elim (current s id) [
  | none ↦ refuse (refusal not_found id) s
  | some e ↦ accept_found broken now id by reason e s
]

pub record Shipped : Type 0 where
  pub id : String
  pub status : Status
  pub shipped_in_plan : String
  pub shipped_at : Text
  pub version : ℕ

abbrev pub ship_line : Text → String → Entry → Entry
ship_line now plan e = record e {
  status = some inactive;
  shipped_in_plan = some plan;
  shipped_at = some now;
  version = some (suc (version_of e));
}

-- `expectedVersion !== undefined && currentVersion !== expectedVersion`
abbrev pub is_mismatch : Option ℕ → ℕ → Bool
is_mismatch none v = false
is_mismatch (some w) v = not (v == w)

abbrev pub is_inactive : Option Status → Bool
is_inactive (some inactive) = true
is_inactive _ = false

abbrev pub is_active : Option Status → Bool
is_active (some active) = true
is_active _ = false

unfoldable pub ship_found : Bool → Text → String → String → Option ℕ → Entry → Op Shipped
ship_found broken now id plan expected e s =
    if not (is_loop_design e.entry_kind)
    then refuse (record (refusal not_a_loop_design id) { entry_kind = e.entry_kind }) s
    else if is_mismatch expected (version_of e)
    then refuse (record (refusal version_mismatch id) { current_version = some (version_of e) }) s
    else if is_inactive e.status
    then refuse
        (record (refusal already_shipped id) {
          shipped_in_plan = e.shipped_in_plan;
          shipped_at = e.shipped_at;
        })
        s
    else if not (is_active e.status)
    then refuse (record (refusal invalid_status id) { current_status = e.status }) s
    else appending (append_line broken (ship_line now plan e) s)
        (record {
          id = id;
          status = inactive;
          shipped_in_plan = plan;
          shipped_at = now;
          version = suc (version_of e);
        })
        s

unfoldable pub ship_loop_design : Bool → Text → String → String → Option ℕ → Op Shipped
ship_loop_design broken now id plan expected s = elim (current s id) [
  | none ↦ refuse (refusal not_found id) s
  | some e ↦ ship_found broken now id plan expected e s
]
