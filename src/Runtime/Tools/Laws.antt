-- ===== src/Runtime/Tools/Laws.antt =====
-- The tracking lifecycle as the tools drive it.
use mathlib.Core.Path.{subst}
use text.Mathlib.Text.{starts_with}
use learning_loop_template.Base.{
  ◌<◌, String, ◌≡◌, refl, sym, ap, ◌∙◌, Bool, true, false, Option, none, some, List, [], ◌∷◌, arith,
  str_eq, eq_refl, select,
}
use learning_loop_template.Runtime.Row.{
  RowStatus, initial, active, paused, stopped, other_status, Row, version_of,
}
use learning_loop_template.Runtime.Append.{
  Sidecar, ok, is_lifecycle, assert_kind_conditional_status, append_ledger_event,
  next_version-Above, stamped, Above, add_row,
}
use learning_loop_template.Runtime.Tracking.{
  is_surface_row, is_paused, read_budget_tracking_state, is_surface_paused,
}
use learning_loop_template.Runtime.Tools.{
  lifecycle_row, append_row, pause_from, pause_checked, runtime_state_pause, resume_from,
  runtime_state_resume, stop_from, runtime_state_stop,
}
use learning_loop_template.Runtime.Tools.Reading.{read-add_committed}

-- A call of one of the tools.
pub data Call : Type 0 where
  pause : Bool → String → Call
  resume : Bool → String → Call
  stop : Bool → Bool → String → Call

module _ (sha256 : String → String) (surface : String) where
  unfoldable pub call : Call → Sidecar → Sidecar
  call (pause preflight now) c = (runtime_state_pause sha256 preflight surface now c).1
  call (resume preflight now) c = (runtime_state_resume sha256 preflight surface now c).1
  call (stop preflight confirm now) c =
      (runtime_state_stop sha256 preflight confirm surface now c).1

  unfoldable pub calls : List Call → Sidecar → Sidecar
  calls [] c = c
  calls (k ∷ ks) c = calls ks (call k c)

  call_stopped :
      (k : Call) (c : Sidecar)
      → read_budget_tracking_state surface c ≡ ok (some stopped)
      → call k c ≡ c
  unfolding call runtime_state_pause runtime_state_resume runtime_state_stop resume_from stop_from
      pause_from
  call_stopped (pause false now) c h = refl
  call_stopped (pause true now) c h = ap (λ r. (pause_from sha256 surface now r c).1) h
  call_stopped (resume false now) c h = refl
  call_stopped (resume true now) c h = ap (λ r. (resume_from sha256 surface now r c).1) h
  call_stopped (stop false confirm now) c h = refl
  call_stopped (stop true false now) c h = refl
  call_stopped (stop true true now) c h = ap (λ r. (stop_from sha256 surface now r c).1) h

  -- A stopped surface stays stopped, and the sidecar as it is, whatever sequence of pause, resume and
  -- stop is called on it.
  pub calls_stopped :
      (ks : List Call) (c : Sidecar)
      → read_budget_tracking_state surface c ≡ ok (some stopped)
      → calls ks c ≡ c
  unfolding calls
  calls_stopped [] c h = refl
  calls_stopped (k ∷ ks) c h = rw (call_stopped k c h) (calls_stopped ks c h)

  -- Where the committed substrate has a line that does not parse, no tool writes anything.
  pub call_corrupt : (k : Call) (c : Sidecar) → 0 < c.committed.malformed → call k c ≡ c
  unfolding call runtime_state_pause runtime_state_resume runtime_state_stop resume_from stop_from
      pause_from read_budget_tracking_state
  call_corrupt (pause false now) c h = refl
  call_corrupt (pause true now) c h = ground arith
  call_corrupt (resume false now) c h = refl
  call_corrupt (resume true now) c h = ground arith
  call_corrupt (stop false confirm now) c h = refl
  call_corrupt (stop true false now) c h = refl
  call_corrupt (stop true true now) c h = ground arith

  -- A durable surface, one with no `gate-verb:` prefix, whose rows are all in the committed substrate.
  pub record IsDurable (c : Sidecar) : Type 0 where
    pub named : str_eq surface "" ≡ false
    pub plain : starts_with surface "gate-verb:" ≡ false
    pub alone : select (is_surface_row surface) c.session_local.rows ≡ []

  -- The automaton of the tools: the status of a tracked surface after a call.
  unfoldable pub after : Call → Option RowStatus → Option RowStatus
  after (pause true now) (some stopped) = some stopped
  after (pause true now) st = some paused
  after (resume true now) (some paused) = some active
  after (stop true true now) st = some stopped
  after k st = st

  abbrev pub Follows : Sidecar → Option RowStatus → Type 0
  Follows c st = (read_budget_tracking_state surface c ≡ ok st) × IsDurable c

  module _ (c : Sidecar) (now action : String) (st : RowStatus) (d : IsDurable c)
      (lives : is_lifecycle (some st) ≡ true) where
    abbrev recorded : Row
    recorded = stamped sha256 (lifecycle_row surface now st action) c

    append_row_lem :
        (append_row sha256 (lifecycle_row surface now st action) c).1
        ≡ record c { committed = add_row recorded c.committed }
    unfolding append_ledger_event assert_kind_conditional_status
    append_row_lem = rw (lives, d.plain) refl

    append_row-IsDurable : IsDurable (append_row sha256 (lifecycle_row surface now st action) c).1
    append_row-IsDurable =
        subst IsDurable (sym append_row_lem)
          (record { named = d.named; plain = d.plain; alone = d.alone })

    recorded-Above : Above (some surface) (version_of recorded) c.committed.rows
    recorded-Above = rw d.plain (next_version-Above 0 (some surface) c.committed.rows)

    append_row-read :
        (old : Option RowStatus)
        → read_budget_tracking_state surface c ≡ ok old
        → read_budget_tracking_state surface
            (append_row sha256 (lifecycle_row surface now st action) c).1
          ≡ ok (some st)
    append_row-read old readable =
        ap (read_budget_tracking_state surface) append_row_lem
        ∙ read-add_committed surface c recorded old readable (rw d.named refl) (eq_refl surface)
            lives d.alone recorded-Above

    append_row_ok :
        (old : Option RowStatus)
        → read_budget_tracking_state surface c ≡ ok old
        → Follows (append_row sha256 (lifecycle_row surface now st action) c).1 (some st)
    append_row_ok old readable = (append_row-read old readable, append_row-IsDurable)

  is_surface_paused_lem :
      (c : Sidecar) (st : Option RowStatus)
      → read_budget_tracking_state surface c ≡ ok st
      → is_surface_paused surface c ≡ ok (is_paused st)
  unfolding is_surface_paused
  is_surface_paused_lem c st h = rw (h, is_surface_paused) refl

  pause_running :
      (c : Sidecar) (now : String) (st : Option RowStatus)
      → IsDurable c
      → read_budget_tracking_state surface c ≡ ok st
      → is_paused st ≡ false
      → Follows (pause_checked sha256 surface now (is_surface_paused surface c) c).1 (some paused)
  unfolding pause_checked
  pause_running c now st d h runs =
      subst (λ r. Follows (pause_checked sha256 surface now r c).1 (some paused))
        (sym (is_surface_paused_lem c st h ∙ ap ok runs)) (append_row_ok c now _ paused d refl st h)

  pause-Follows :
      (c : Sidecar) (now : String) (st : Option RowStatus)
      → IsDurable c
      → read_budget_tracking_state surface c ≡ ok st
      → Follows (pause_from sha256 surface now (ok st) c).1 (after (pause true now) st)
  unfolding pause_from pause_checked after
  pause-Follows c now none d h = pause_running c now none d h refl
  pause-Follows c now (some initial) d h = pause_running c now (some initial) d h refl
  pause-Follows c now (some active) d h = pause_running c now (some active) d h refl
  pause-Follows c now (some paused) d h =
      subst (λ r. Follows (pause_checked sha256 surface now r c).1 (some paused))
        (sym (is_surface_paused_lem c (some paused) h)) (h, d)
  pause-Follows c now (some stopped) d h = (h, d)
  pause-Follows c now (some (other_status s)) d h =
      pause_running c now (some (other_status s)) d h refl

  resume-Follows :
      (c : Sidecar) (now : String) (st : Option RowStatus)
      → IsDurable c
      → read_budget_tracking_state surface c ≡ ok st
      → Follows (resume_from sha256 surface now (ok st) c).1 (after (resume true now) st)
  unfolding resume_from after
  resume-Follows c now none d h = (h, d)
  resume-Follows c now (some initial) d h = (h, d)
  resume-Follows c now (some active) d h = (h, d)
  resume-Follows c now (some paused) d h = append_row_ok c now _ active d refl (some paused) h
  resume-Follows c now (some stopped) d h = (h, d)
  resume-Follows c now (some (other_status s)) d h = (h, d)

  stop-Follows :
      (c : Sidecar) (now : String) (st : Option RowStatus)
      → IsDurable c
      → read_budget_tracking_state surface c ≡ ok st
      → Follows (stop_from sha256 surface now (ok st) c).1 (some stopped)
  unfolding stop_from
  stop-Follows c now none d h = append_row_ok c now _ stopped d refl none h
  stop-Follows c now (some initial) d h = append_row_ok c now _ stopped d refl (some initial) h
  stop-Follows c now (some active) d h = append_row_ok c now _ stopped d refl (some active) h
  stop-Follows c now (some paused) d h = append_row_ok c now _ stopped d refl (some paused) h
  stop-Follows c now (some stopped) d h = (h, d)
  stop-Follows c now (some (other_status s)) d h =
      append_row_ok c now _ stopped d refl (some (other_status s)) h

  call-Follows :
      (k : Call) (c : Sidecar) (st : Option RowStatus)
      → IsDurable c
      → read_budget_tracking_state surface c ≡ ok st
      → Follows (call k c) (after k st)
  unfolding call runtime_state_pause runtime_state_resume runtime_state_stop after
  call-Follows (pause false now) c st d h = (h, d)
  call-Follows (pause true now) c st d h =
      subst (λ r. Follows (pause_from sha256 surface now r c).1 (after (pause true now) st)) (sym h)
        (pause-Follows c now st d h)
  call-Follows (resume false now) c st d h = (h, d)
  call-Follows (resume true now) c st d h =
      subst (λ r. Follows (resume_from sha256 surface now r c).1 (after (resume true now) st))
        (sym h) (resume-Follows c now st d h)
  call-Follows (stop false confirm now) c st d h = (h, d)
  call-Follows (stop true false now) c st d h = (h, d)
  call-Follows (stop true true now) c st d h =
      subst (λ r. Follows (stop_from sha256 surface now r c).1 (some stopped)) (sym h)
        (stop-Follows c now st d h)

  unfoldable pub outcome : List Call → Option RowStatus → Option RowStatus
  outcome [] st = st
  outcome (k ∷ ks) st = outcome ks (after k st)

  -- The tools implement the automaton `after`: pausing pauses any surface but a stopped one, resuming
  -- makes a paused surface active and leaves any other, a confirmed stop stops, and a call without the
  -- preflight marker or the confirmation changes nothing. From a readable sidecar, after any sequence
  -- of calls on a durable surface of which the session-local substrate has no row, the reading does
  -- not fail and gives the status that the automaton reaches.
  pub calls_lem :
      (ks : List Call) (c : Sidecar) (st : Option RowStatus)
      → IsDurable c
      → read_budget_tracking_state surface c ≡ ok st
      → read_budget_tracking_state surface (calls ks c) ≡ ok (outcome ks st)
  unfolding calls outcome
  calls_lem [] c st d h = h
  calls_lem (k ∷ ks) c st d h =
      let (read, durable_still) = call-Follows k c st d h in
      calls_lem ks (call k c) (after k st) durable_still read
