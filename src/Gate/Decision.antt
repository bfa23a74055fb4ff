-- ===== src/Gate/Decision.antt =====
-- The decisions of `evaluateCommandConstraintPolicy` (tools/learning-loop-mastra/core/
-- command-constraint-policy.js).
use learning_loop_template.Base.{
  ℕ, ◌+◌, ◌≤◌, String, ◌≡◌, refl, ap, ◌∙◌, sym, true, false, Option, none, some, List, inl, inr,
  arith, str_eq, Has, Bool-cases, Option-cases,
}
use learning_loop_template.Runtime.Append.{Sidecar}
use learning_loop_template.Gate.Observation.{
  Stamp, Observation, is_active, observation_reference_time, is_skipped, is_outdated,
  is_observation_stale_by_age, is_observation_stale_by_marker, check_observation_staleness,
}
use learning_loop_template.Gate.Policy.{
  allow, block, Decision, is_match, check_observation_exists, import_constraint, make_gate_decision,
  finish, evaluate_constraint, evaluate_gate_verb, is_allow, fold_decisions, constraint_result,
  unexpired, with_remediation, evaluate_command_constraint_policy,
}
use learning_loop_template.Gate.Allowance.{
  fold-allow, fold-allow_left, evaluate_constraint-allow, evaluate_gate_verb-allow,
  make_gate_decision-hard, finish-hard, finish-hard_block, remediation-hard, remediation-allow,
  first_stale-none,
}

module _ (window now : ℕ) (marker : Option Stamp) (c : Sidecar) (os : List Observation) where
  abbrev policy : Option String → Option String → Option Decision
  policy = evaluate_command_constraint_policy window now marker c os

  -- A hard block of a gate verb blocks.
  evaluate_gate_verb-hard :
      (v : String)
      → (evaluate_gate_verb window now marker c os v).hard_block ≡ true
      → (evaluate_gate_verb window now marker c os v).decision ≡ block
  unfolding evaluate_gate_verb
  evaluate_gate_verb-hard v h =
      let (found, expired) = unexpired window now (check_observation_exists v os) in
      let st = check_observation_staleness marker c os in
      let g = make_gate_decision v found in
      let hard =
        sym (remediation-hard v expired g)
        ∙ (sym (finish-hard_block st (with_remediation v expired g)) ∙ h) in
      ap (λ (d : Decision). d.decision)
        (finish-hard st (with_remediation v expired g) (remediation-hard v expired g ∙ hard))
      ∙ (remediation-allow v expired g ∙ make_gate_decision-hard v found hard)

  policy-both :
      (k : Option String) (v : String)
      → str_eq v "" ≡ false
      → policy k (some v)
        ≡ some (
            fold_decisions
              (constraint_result window now marker c os k)
              (evaluate_gate_verb window now marker c os v))
  unfolding evaluate_command_constraint_policy
  policy-both k v named = rw named refl

  constraint_result-named :
      (k : String)
      → str_eq k "" ≡ false
      → constraint_result window now marker c os (some k)
        ≡ some (evaluate_constraint window now marker c os k)
  unfolding constraint_result
  constraint_result-named k named = rw named refl

  gate_verb_passes :
      (k : Option String) (v : String) (d : Decision)
      → str_eq v "" ≡ false
      → policy k (some v) ≡ some d
      → d.decision ≡ allow
      → is_allow (evaluate_gate_verb window now marker c os v).decision ≡ true
  gate_verb_passes k v d named run ok =
      let g = evaluate_gate_verb window now marker c os v in
      let od = constraint_result window now marker c os k in
      let same : some (fold_decisions od g) ≡ some d = sym (policy-both k v named) ∙ run in
      let fold : fold_decisions od g ≡ d = cc in fold-allow od g (rw (fold, ok) refl)

  fresh_time :
      (o : Observation)
      → is_observation_stale_by_age window o now ≡ false
      → (t : ℕ) × (observation_reference_time o ≡ some t) × (now ≤ t + window)
  unfolding is_observation_stale_by_age
  fresh_time o h = elim (Option-cases (observation_reference_time o)) [
    | inl missing ↦ absurd (ground arith)
    | inr (t, there) ↦ (t, there, ground arith)
  ]

  -- A command with a gate verb is let pass only where an active observation of the verb has a time, and
  -- is at most as old as the window.
  pub gate_verb-fresh :
      (k : Option String) (v : String) (d : Decision)
      → str_eq v "" ≡ false
      → evaluate_command_constraint_policy window now marker c os k (some v) ≡ some d
      → d.decision ≡ allow
      → (o : Observation) × (t : ℕ) × Has o os
        × (is_match v o ≡ true)
        × (observation_reference_time o ≡ some t)
        × (now ≤ t + window)
  gate_verb-fresh k v d named run ok =
      let ((o, here, matches, fresh), _) =
        evaluate_gate_verb-allow window now marker c os v named
          (gate_verb_passes k v d named run ok) in
      let (t, time, young) = fresh_time o fresh in (o, t, here, matches, time, young)

  constraint_passes :
      (k : String) (v : Option String) (d : Decision)
      → str_eq k "" ≡ false
      → policy (some k) v ≡ some d
      → d.decision ≡ allow
      → is_allow (evaluate_constraint window now marker c os k).decision ≡ true
  unfolding evaluate_command_constraint_policy
  constraint_passes k none d named run ok =
      let same : some (evaluate_constraint window now marker c os k) ≡ some d =
        sym (constraint_result-named k named) ∙ run in
      let step : evaluate_constraint window now marker c os k ≡ d = cc in rw (step, ok) refl
  constraint_passes k (some v) d named run ok = elim (Bool-cases (str_eq v "")) [
    | inl blank ↦
        let same : some (evaluate_constraint window now marker c os k) ≡ some d =
          sym (constraint_result-named k named) ∙ (rw blank at run) in
        let step : evaluate_constraint window now marker c os k ≡ d = cc in rw (step, ok) refl
    | inr other ↦
        let g = evaluate_gate_verb window now marker c os v in
        let a = evaluate_constraint window now marker c os k in
        let same : some (fold_decisions (some a) g) ≡ some d =
          ap (λ x. some (fold_decisions x g)) (sym (constraint_result-named k named))
          ∙ (sym (policy-both (some k) v other) ∙ run) in
        let fold : fold_decisions (some a) g ≡ d = cc in
        fold-allow_left a g (evaluate_gate_verb-hard v) (rw (fold, ok) refl)
  ]

  -- A command that matches a constraint is let pass only where there is an active observation of it.
  pub constraint-observed :
      (k : String) (v : Option String) (d : Decision)
      → str_eq k "" ≡ false
      → evaluate_command_constraint_policy window now marker c os (some k) v ≡ some d
      → d.decision ≡ allow
      → (o : Observation) × Has o os × (is_match k o ≡ true)
  constraint-observed k v d named run ok =
      (evaluate_constraint-allow window now marker c os k named
        (constraint_passes k v d named run ok)).0

  constraint_calm :
      (k : Option String) (d : Decision)
      → policy k none ≡ some d
      → d.decision ≡ allow
      → check_observation_staleness marker c os ≡ none
  unfolding evaluate_command_constraint_policy constraint_result
  constraint_calm none d run ok = cc
  constraint_calm (some k) d run ok = elim (Bool-cases (str_eq k "")) [
    | inl blank ↦ absurd (ground arith)
    | inr named ↦
        (evaluate_constraint-allow window now marker c os k named
          (constraint_passes k none d named run ok)).1
  ]

  calm :
      (k v : Option String) (d : Decision)
      → policy k v ≡ some d
      → d.decision ≡ allow
      → check_observation_staleness marker c os ≡ none
  unfolding evaluate_command_constraint_policy
  calm k none d run ok = constraint_calm k d run ok
  calm k (some v) d run ok = elim (Bool-cases (str_eq v "")) [
    | inl blank ↦ constraint_calm k d (rw blank at run) ok
    | inr named ↦
        (evaluate_gate_verb-allow window now marker c os v named
          (gate_verb_passes k v d named run ok)).1
  ]

  -- A command that matches anything is let pass only where every active observation of a surface that
  -- is not paused was updated no earlier than the operator's last message.
  pub updated-since_message :
      (k v : Option String) (d : Decision) (text : String) (m : ℕ) (o : Observation)
      → evaluate_command_constraint_policy window now marker c os k v ≡ some d
      → d.decision ≡ allow
      → marker ≡ some (record { text = text; time = some m })
      → Has o os
      → is_active o ≡ true
      → is_skipped c o ≡ false
      → (t : ℕ) × (observation_reference_time o ≡ some t) × (m ≤ t)
  unfolding check_observation_staleness is_outdated is_observation_stale_by_marker
  updated-since_message k v d text m o run ok at_m here live shown =
      let still = first_stale-none c text m os o (rw at_m at (calm k v d run ok)) here in
      elim (Option-cases (observation_reference_time o)) [
        | inl missing ↦ absurd (ground arith)
        | inr (t, there) ↦ (t, there, ground arith)
      ]

  import_decision :
      ((evaluate_constraint window now marker c os import_constraint).decision ≡ block)
      × ((evaluate_constraint window now marker c os import_constraint).hard_block ≡ true)
  unfolding evaluate_constraint make_gate_decision finish
  import_decision = (refl, refl)

  import_fold :
      (g : Decision)
      → (g.hard_block ≡ true → g.decision ≡ block)
      → ((fold_decisions
            (some (evaluate_constraint window now marker c os import_constraint))
            g).decision
          ≡ block)
        × ((fold_decisions
              (some (evaluate_constraint window now marker c os import_constraint))
              g).hard_block
            ≡ true)
  unfolding fold_decisions
  import_fold g hard =
      let stays : is_allow (evaluate_constraint window now marker c os import_constraint).decision
          ≡ false =
        rw import_decision.0 refl in
      elim (Bool-cases g.hard_block) [
        | inl stop ↦ rw stop (hard stop, refl)
        | inr soft ↦ rw (soft, stays) import_decision
      ]

  -- Where the constraint that the command matched is `side-effect-import`, the policy blocks hard,
  -- whatever observations there are and whatever gate verb the command matches.
  pub import-blocked :
      (v : Option String)
      → (d : Decision) × (evaluate_command_constraint_policy window now marker c os
            (some import_constraint)
            v
          ≡ some d)
        × (d.decision ≡ block)
        × (d.hard_block ≡ true)
  unfolding evaluate_command_constraint_policy
  import-blocked none = (
    evaluate_constraint window now marker c os import_constraint,
    constraint_result-named import_constraint refl,
    import_decision.0,
    import_decision.1,
  )
  import-blocked (some v) =
      let a = evaluate_constraint window now marker c os import_constraint in
      let g = evaluate_gate_verb window now marker c os v in
      elim (Bool-cases (str_eq v "")) [
        | inl blank ↦ rw blank (
          a,
          constraint_result-named import_constraint refl,
          import_decision.0,
          import_decision.1,
        )
        | inr named ↦
            let (b, h) = import_fold g (evaluate_gate_verb-hard v) in
            rw named (
              fold_decisions (some a) g,
              ap (λ x. some (fold_decisions x g)) (constraint_result-named import_constraint refl),
              b,
              h,
            )
      ]
