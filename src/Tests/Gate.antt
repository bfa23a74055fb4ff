-- ===== src/Tests/Gate.antt =====
-- Observations of a gate verb, and the theorems on the gate's decisions at them.
use learning_loop_template.Base.{
  ℕ, ◌+◌, ◌≤◌, ◌≡◌, refl, true, false, Option, none, some, List, [], ◌∷◌, inl, Has, select, any_of,
}
use learning_loop_template.Runtime.Append.{Sidecar}
use learning_loop_template.Runtime.Tracking.{
  is_surface_paused, read_budget_tracking_state, collapse_from, newest,
}
use learning_loop_template.Gate.Observation.{
  Stamp, Observation, observation_reference_time, is_skipped, is_outdated,
  is_observation_stale_by_age, is_observation_stale_by_marker, first_stale,
  check_observation_staleness,
}
use learning_loop_template.Gate.Policy.{
  block, Decision, plain_ok, is_match, check_observation_exists, import_constraint,
  make_gate_decision, unexpired, finish, evaluate_constraint, evaluate_gate_verb, fold_decisions,
  constraint_result, evaluate_command_constraint_policy,
}
use learning_loop_template.Gate.Decision.{gate_verb-fresh, updated-since_message, import-blocked}

abbrev half_hour : ℕ
half_hour = 1800000

abbrev bash_allowance : Observation
bash_allowance = record {
  id = some "gate-verb:bash";
  constraint_type = none;
  constraint = some "gate-verb:bash";
  status = some "active";
  affected_system = "gate-verb:bash";
  updated_at = some (record { text = "1970-01-01T00:50:00Z"; time = some 3000000 });
}

abbrev docker_observation : Observation
docker_observation = record bash_allowance {
  id = some "docker";
  constraint_type = some "docker";
  constraint = none;
}

abbrev observations : List Observation
observations = docker_observation ∷ bash_allowance ∷ []

abbrev empty : Sidecar
empty = record {
  committed = record { rows = []; malformed = 0 };
  session_local = record { rows = []; malformed = 0 };
}

abbrev message : Option Stamp
message = some (record { text = "1970-01-01T00:40:00Z"; time = some 2400000 })

policy_at :
    evaluate_command_constraint_policy half_hour 4000000 message empty observations
      (some "docker")
      (some "gate-verb:bash")
    ≡ some plain_ok
unfolding evaluate_command_constraint_policy fold_decisions constraint_result evaluate_gate_verb
    finish make_gate_decision unexpired check_observation_exists is_match
    is_observation_stale_by_age check_observation_staleness first_stale is_outdated
    is_surface_paused read_budget_tracking_state any_of select is_observation_stale_by_marker
    evaluate_constraint collapse_from newest
policy_at = refl

gate_verb-fresh_example :
    (o : Observation) × (t : ℕ) × Has o observations
    × (is_match "gate-verb:bash" o ≡ true)
    × (observation_reference_time o ≡ some t)
    × (4000000 ≤ t + half_hour)
gate_verb-fresh_example =
    gate_verb-fresh half_hour 4000000 message empty observations (some "docker") "gate-verb:bash"
      plain_ok refl policy_at refl

docker-shown : is_skipped empty docker_observation ≡ false
unfolding is_surface_paused read_budget_tracking_state any_of select newest collapse_from
docker-shown = refl

updated-since_message_example :
    (t : ℕ) × (observation_reference_time docker_observation ≡ some t) × (2400000 ≤ t)
updated-since_message_example =
    updated-since_message half_hour 4000000 message empty observations (some "docker")
      (some "gate-verb:bash") plain_ok "1970-01-01T00:40:00Z" 2400000 docker_observation policy_at
      refl refl (inl refl) refl docker-shown

import-blocked_example :
    (d : Decision) × (evaluate_command_constraint_policy half_hour 4000000 message empty
        observations
        (some import_constraint)
        (some "gate-verb:bash")
      ≡ some d)
    × (d.decision ≡ block)
    × (d.hard_block ≡ true)
import-blocked_example =
    import-blocked half_hour 4000000 message empty observations (some "gate-verb:bash")
