-- ===== src/Gate/Policy.antt =====
-- The decision over observations (tools/learning-loop-mastra/core/command-constraint-policy.js). What
-- the interpretation of the command matched, and the observations read, are arguments.
use learning_loop_template.Base.{
  ℕ, String, Bool, true, false, not, ◌&&◌, ◌||◌, Option, none, some, List, [], ◌∷◌, if◌then◌else◌,
  str_eq,
}
use learning_loop_template.Runtime.Append.{Sidecar}
use learning_loop_template.Gate.Observation.{
  Stamp, Observation, is_text, is_active, is_observation_stale_by_age, StaleReason, Staleness,
  check_observation_staleness,
}

pub data Verdict : Type 0 where
  allow block escalate : Verdict

-- The texts of `reason`; `remediation` is that of `buildGateVerbRemediation`.
pub data Reason : Type 0 where
  side_effect_import : Reason
  no_observation : String → Reason
  remediation : String → Bool → Reason
  outdated : StaleReason → Reason

-- The result; a flag is false, and a text `none`, where the object lacks the key.
pub record Decision : Type 0 where
  pub decision : Verdict
  pub reason : Option Reason
  pub constraint_type : Option String
  pub hard_block : Bool
  pub observation_required : Bool
  pub inbound_gate : Bool
  pub observation_id : Option String

abbrev pub plain_ok : Decision
plain_ok = record {
  decision = allow;
  reason = none;
  constraint_type = none;
  hard_block = false;
  observation_required = false;
  inbound_gate = false;
  observation_id = none;
}

-- An active observation of the constraint.
unfoldable pub is_match : String → Observation → Bool
is_match c o = is_active o && (is_text o.constraint_type c || is_text o.constraint c)

unfoldable pub check_observation_exists : String → List Observation → Option Observation
check_observation_exists c [] = none
check_observation_exists c (o ∷ os) = if is_match c o then some o else check_observation_exists c os

abbrev pub import_constraint : String
import_constraint = "side-effect-import"

unfoldable pub make_gate_decision : String → Option Observation → Decision
make_gate_decision c found =
    if str_eq c import_constraint
    then record plain_ok {
      decision = block;
      reason = some side_effect_import;
      constraint_type = some c;
      hard_block = true;
    }
    else if str_eq c ""
    then plain_ok
    else elim found [
      | some o ↦ plain_ok
      | none ↦ record plain_ok {
        decision = block;
        reason = some (no_observation c);
        observation_required = true;
        constraint_type = some c;
      }
    ]

abbrev pub with_staleness : Option Staleness → Decision → Decision
with_staleness none d = d
with_staleness (some s) d = elim d.decision [
  | allow ↦ record d {
    inbound_gate = true;
    decision = escalate;
    reason = some (outdated s.reason);
    observation_id = s.observation_id;
  }
  | block ↦ record d { inbound_gate = true }
  | escalate ↦ record d { inbound_gate = true }
]

-- The observation that counts, and whether one was dropped for its age.
unfoldable pub unexpired : ℕ → ℕ → Option Observation → Option Observation × Bool
unexpired window now none = (none, false)
unexpired window now (some o) =
    if is_observation_stale_by_age window o now then (none, true) else (some o, false)

abbrev pub with_remediation : String → Bool → Decision → Decision
with_remediation c expired d =
    if d.observation_required then record d { reason = some (remediation c expired) } else d

unfoldable pub finish : Option Staleness → Decision → Decision
finish stale d = if d.hard_block then d else with_staleness stale d

abbrev pub is_allow : Verdict → Bool
is_allow allow = true
is_allow _ = false

-- The gate verb's decision replaces that of the constraint where it is stricter.
unfoldable pub fold_decisions : Option Decision → Decision → Decision
fold_decisions none g = g
fold_decisions (some d) g =
    if g.hard_block then g else if is_allow d.decision && not (is_allow g.decision) then g else d

module _ (window now : ℕ) (marker : Option Stamp) (c : Sidecar) (os : List Observation) where
  -- `evaluateObservationCandidate` with its defaults, for a constraint.
  unfoldable pub evaluate_constraint : String → Decision
  evaluate_constraint k =
      finish (check_observation_staleness marker c os)
        (make_gate_decision k (check_observation_exists k os))

  -- `evaluateObservationCandidate` with `ageBounded` and `remediation`, for a gate verb.
  unfoldable pub evaluate_gate_verb : String → Decision
  evaluate_gate_verb v =
      let (found, expired) = unexpired window now (check_observation_exists v os) in
      finish (check_observation_staleness marker c os)
        (with_remediation v expired (make_gate_decision v found))

  unfoldable pub constraint_result : Option String → Option Decision
  constraint_result none = none
  constraint_result (some k) = if str_eq k "" then none else some (evaluate_constraint k)

  unfoldable pub evaluate_command_constraint_policy :
      Option String → Option String → Option Decision
  evaluate_command_constraint_policy k none = constraint_result k
  evaluate_command_constraint_policy k (some v) =
      if str_eq v ""
      then constraint_result k
      else some (fold_decisions (constraint_result k) (evaluate_gate_verb v))
