-- ===== src/Gate/Observation.antt =====
-- Observations and their staleness (tools/learning-loop-mastra/core/observation-staleness.js,
-- core/inbound-state.js: `checkObservationStaleness`). Times are milliseconds.
use learning_loop_template.Base.{
  ℕ, ◌+◌, String, Bool, true, false, not, ◌&&◌, Option, none, some, List, [], ◌∷◌, ltb,
  if◌then◌else◌, str_eq,
}
use learning_loop_template.Runtime.Append.{Sidecar, ok, thrown}
use learning_loop_template.Runtime.Tracking.{is_surface_paused}

-- A time as text, with what `new Date(text).getTime()` gives, `none` for NaN.
pub record Stamp : Type 0 where
  pub text : String
  pub time : Option ℕ

pub record Observation : Type 0 where
  pub id : Option String
  pub constraint_type : Option String
  pub constraint : Option String
  pub status : Option String
  pub affected_system : String
  pub updated_at : Option Stamp

-- `field === value` for a field that may be missing.
abbrev pub is_text : Option String → String → Bool
is_text none v = false
is_text (some t) v = str_eq t v

-- `obs.status === "active"`
abbrev pub is_active : Observation → Bool
is_active o = is_text o.status "active"

abbrev pub observation_reference_time : Observation → Option ℕ
observation_reference_time o = elim o.updated_at [ none ↦ none | some s ↦ s.time ]

-- `obs.id || obs.constraint`
abbrev pub name_of : Observation → Option String
name_of o = elim o.id [
  | none ↦ o.constraint
  | some i ↦ if str_eq i "" then o.constraint else some i
]

-- `now - ref > window`, where `window` is `OBSERVATION_STALENESS_WINDOW_MS`.
unfoldable pub is_observation_stale_by_age : ℕ → Observation → ℕ → Bool
is_observation_stale_by_age window o now = elim (observation_reference_time o) [
  | none ↦ true
  | some t ↦ ltb (t + window) now
]

unfoldable pub is_observation_stale_by_marker : Observation → ℕ → Bool
is_observation_stale_by_marker o marker = elim (observation_reference_time o) [
  | none ↦ true
  | some t ↦ ltb t marker
]

-- The two texts of the reason, by what is filled in: the observation's name, its `updated_at` where
-- there is one, and the marker's timestamp.
pub data StaleReason : Type 0 where
  no_updated_at : Option String → String → StaleReason
  may_be_stale : Option String → Option Stamp → String → StaleReason

pub record Staleness : Type 0 where
  pub reason : StaleReason
  pub observation_id : Option String

abbrev stale_reason : Observation → String → StaleReason
stale_reason o marker = elim (observation_reference_time o) [
  | none ↦ no_updated_at (name_of o) marker
  | some t ↦ may_be_stale (name_of o) o.updated_at marker
]

-- The surface is paused; a corrupt sidecar counts as not paused.
abbrev pub is_skipped : Sidecar → Observation → Bool
is_skipped c o = elim (is_surface_paused o.affected_system c) [ ok p ↦ p | thrown e ↦ false ]

-- Is the observation the one that the loop stops at?
unfoldable pub is_outdated : Sidecar → ℕ → Observation → Bool
is_outdated c m o = is_active o && (not (is_skipped c o) && is_observation_stale_by_marker o m)

unfoldable pub first_stale : Sidecar → String → ℕ → List Observation → Option Staleness
first_stale c text m [] = none
first_stale c text m (o ∷ os) =
    if is_outdated c m o
    then some (record { reason = stale_reason o text; observation_id = name_of o })
    else first_stale c text m os

-- `none` is `{ stale: false }`. The marker is the result of `readLastOperatorMessage`.
unfoldable pub check_observation_staleness :
    Option Stamp → Sidecar → List Observation → Option Staleness
check_observation_staleness none c os = none
check_observation_staleness (some s) c os = elim s.time [
  | none ↦ none
  | some m ↦ first_stale c s.text m os
]
