-- ===== src/Tests/Runtime.antt =====
-- A sidecar with one tracked surface, and the theorems on the runtime state at it.
use learning_loop_template.Base.{
  ℕ, ◌<◌, String, ◌≡◌, refl, true, false, none, some, List, [], ◌∷◌, inl, inr, arith, select,
  any_of, text_lt, text_eq,
}
use learning_loop_template.Runtime.Row.{
  Row, RowKind, ledger_event, budget_state, RowStatus, active, paused, stopped, durable, verify_row,
  with_fingerprint, version_of,
}
use learning_loop_template.Runtime.Append.{
  Sidecar, kind_status_mismatch, ok, assert_kind_conditional_status, stamped,
}
use learning_loop_template.Runtime.Append.Written.{stamped-above}
use learning_loop_template.Runtime.Row.{verify_row-with_fingerprint}
use learning_loop_template.Runtime.Tracking.{
  collapse_from, set_latest, replaces, newest, read_budget_tracking_state,
}
use learning_loop_template.Runtime.Dispatch.{
  existing, appended, find_event, merged_rows, dispatch_row, append_or_find, append_or_find_twice,
}
use learning_loop_template.Runtime.Tools.Laws.{
  Call, pause, resume, stop, call, calls, IsDurable, outcome, after, calls_stopped, call_corrupt,
  calls_lem,
}

-- Any function may stand for the digest.
abbrev digest : String → String
digest s = s

abbrev row : RowKind → String → RowStatus → ℕ → Row
row k id st v = record {
  affected_system = "vnstock";
  kind = some k;
  id = some id;
  source_ref = "local:plan";
  value = "null";
  delta = "null";
  timestamp = some "2026-01-02T00:00:00Z";
  status = some st;
  metadata = "{}";
  durability = some durable;
  version = some v;
  fingerprint = none;
}

abbrev tracked : RowStatus → Sidecar
tracked st = record {
  committed = record {
    rows = row budget_state "vnstock" active 0 ∷ row budget_state "vnstock" st 1 ∷ [];
    malformed = 0;
  };
  session_local = record { rows = []; malformed = 0 };
}

abbrev corrupt : Sidecar
corrupt = record (tracked active) { committed = record { rows = []; malformed = 1 } }

read_tracked :
    (read_budget_tracking_state "vnstock" (tracked active) ≡ ok (some active))
    × (read_budget_tracking_state "vnstock" (tracked stopped) ≡ ok (some stopped))
unfolding read_budget_tracking_state collapse_from set_latest replaces newest select any_of text_lt
    text_eq
read_tracked = (refl, refl)

tracked-IsDurable : IsDurable digest "vnstock" (tracked active)
unfolding select
tracked-IsDurable = record { named = refl; plain = refl; alone = refl }

abbrev script : List Call
script =
    pause true "t1"
    ∷ stop true false "t2"
    ∷ resume true "t3"
    ∷ resume true "t4"
    ∷ pause true "t5"
    ∷ []

calls_lem_example :
    read_budget_tracking_state "vnstock" (calls digest "vnstock" script (tracked active))
    ≡ ok (some paused)
unfolding outcome after
calls_lem_example =
    calls_lem digest "vnstock" script (tracked active) (some active) tracked-IsDurable
      read_tracked.0

calls_stopped_example : calls digest "vnstock" script (tracked stopped) ≡ tracked stopped
calls_stopped_example = calls_stopped digest "vnstock" script (tracked stopped) read_tracked.1

call_corrupt_example : call digest "vnstock" (pause true "t1") corrupt ≡ corrupt
call_corrupt_example = call_corrupt digest "vnstock" (pause true "t1") corrupt (omega arith)

abbrev paused_row : Row
paused_row = row budget_state "vnstock" paused 0

abbrev event : Row
event = row ledger_event "ledger-1" active 0

guard_at :
    (assert_kind_conditional_status paused_row.kind paused_row.status ≡ none)
    × ((assert_kind_conditional_status event.kind event.status ≡ none)
        × (assert_kind_conditional_status (some ledger_event) (some paused)
            ≡ some kind_status_mismatch))
unfolding assert_kind_conditional_status
guard_at = (refl, (refl, refl))

stamped-above_example : 1 < version_of (stamped digest paused_row (tracked active))
stamped-above_example =
    stamped-above digest paused_row (tracked active) (row budget_state "vnstock" active 1)
      (inr (inl refl)) refl

verify_row-with_fingerprint_example :
    verify_row digest (record (with_fingerprint digest event) {
      status = some paused;
      version = some 9;
      durability = none;
    })
    ≡ true
verify_row-with_fingerprint_example =
    verify_row-with_fingerprint digest event (some paused) (some 9) none

no_event : find_event "ledger-1" (merged_rows (tracked active)) ≡ none
unfolding find_event
no_event = refl

append_or_find_twice_example :
    let (out, c') = append_or_find digest event "ledger-1" (tracked active) in
    (out ≡ ok (appended (dispatch_row digest event (tracked active))))
    × (append_or_find digest event "ledger-1" c'
        ≡ (ok (existing (dispatch_row digest event (tracked active))), c'))
append_or_find_twice_example =
    append_or_find_twice digest event "ledger-1" (tracked active) event guard_at.1.0 guard_at.1.0
      refl refl no_event
