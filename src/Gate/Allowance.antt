-- ===== src/Gate/Allowance.antt =====
-- What it takes for the gate to let a command pass.
use learning_loop_template.Base.{
  ℕ, String, ◌≡◌, refl, ap, ◌∙◌, sym, Bool, true, false, Option, none, some, List, [], ◌∷◌, inl,
  inr, arith, str_eq, Has, Bool-cases,
}
use learning_loop_template.Runtime.Append.{Sidecar}
use learning_loop_template.Gate.Observation.{
  Stamp, Observation, is_outdated, is_observation_stale_by_age, first_stale, Staleness,
  check_observation_staleness,
}
use learning_loop_template.Gate.Policy.{
  block, Decision, is_match, check_observation_exists, make_gate_decision, unexpired,
  with_remediation, finish, evaluate_constraint, evaluate_gate_verb, is_allow, fold_decisions,
}

check_observation_exists-Has :
    (k : String) (os : List Observation) (o : Observation)
    → check_observation_exists k os ≡ some o
    → Has o os × (is_match k o ≡ true)
unfolding check_observation_exists
check_observation_exists-Has k [] o h = cc
check_observation_exists-Has k (x ∷ os) o h = elim (Bool-cases (is_match k x)) [
  | inl hit ↦ let same : x ≡ o = ground arith in (inl same, rw (← same) hit)
  | inr miss ↦
      let (there, good) =
        check_observation_exists-Has k os o (rw (miss, check_observation_exists) at h) in
      (inr there, good)
]

pub first_stale-none :
    (c : Sidecar) (text : String) (m : ℕ) (os : List Observation) (o : Observation)
    → first_stale c text m os ≡ none
    → Has o os
    → is_outdated c m o ≡ false
unfolding first_stale
first_stale-none c text m [] o h i = absurd i
first_stale-none c text m (x ∷ os) o h i = elim (Bool-cases (is_outdated c m x)) [
  | inl old ↦ absurd (ground arith)
  | inr fresh ↦ elim i [
    | inl same ↦ rw (← same) fresh
    | inr there ↦ first_stale-none c text m os o (rw (fresh, first_stale) at h) there
  ]
]

make_gate_decision-allow :
    (k : String) (found : Option Observation)
    → str_eq k "" ≡ false
    → is_allow (make_gate_decision k found).decision ≡ true
    → (o : Observation) × (found ≡ some o)
unfolding make_gate_decision
make_gate_decision-allow k none named h = absurd (ground arith)
make_gate_decision-allow k (some o) named h = (o, refl)

pub make_gate_decision-hard :
    (k : String) (found : Option Observation)
    → (make_gate_decision k found).hard_block ≡ true
    → (make_gate_decision k found).decision ≡ block
unfolding make_gate_decision
make_gate_decision-hard k none h = ground arith
make_gate_decision-hard k (some o) h = ground arith

finish-allow :
    (st : Option Staleness) (d : Decision)
    → d.hard_block ≡ false
    → is_allow (finish st d).decision ≡ true
    → (is_allow d.decision ≡ true) × (st ≡ none)
unfolding finish
finish-allow none d soft h = (ground arith, refl)
finish-allow (some s) d soft h = absurd (ground arith)

pub finish-hard : (st : Option Staleness) (d : Decision) → d.hard_block ≡ true → finish st d ≡ d
unfolding finish
finish-hard st d h = rw h

pub finish-hard_block :
    (st : Option Staleness) (d : Decision) → (finish st d).hard_block ≡ d.hard_block
unfolding finish
finish-hard_block none d = ground arith
finish-hard_block (some s) d = ground arith

pub remediation-allow :
    (k : String) (x : Bool) (d : Decision) → (with_remediation k x d).decision ≡ d.decision
remediation-allow k x d = elim (Bool-cases d.observation_required) [
  | inl r ↦ rw r refl
  | inr r ↦ rw r refl
]

pub remediation-hard :
    (k : String) (x : Bool) (d : Decision) → (with_remediation k x d).hard_block ≡ d.hard_block
remediation-hard k x d = elim (Bool-cases d.observation_required) [
  | inl r ↦ rw r refl
  | inr r ↦ rw r refl
]

pub fold-allow :
    (od : Option Decision) (g : Decision)
    → is_allow (fold_decisions od g).decision ≡ true
    → is_allow g.decision ≡ true
unfolding fold_decisions
fold-allow none g h = h
fold-allow (some d) g h = ground arith

pub block-refuses : (d : Decision) → d.decision ≡ block → is_allow d.decision ≡ true → ⊥
block-refuses d b h = let n : is_allow d.decision ≡ false = rw b refl in cc

-- Where a hard block blocks, the staleness test lets pass only what the decision let pass.
finish-allow_both :
    (st : Option Staleness) (g : Decision)
    → (g.hard_block ≡ true → g.decision ≡ block)
    → is_allow (finish st g).decision ≡ true
    → (is_allow g.decision ≡ true) × (st ≡ none)
finish-allow_both st g hard h = elim (Bool-cases g.hard_block) [
  | inl stop ↦ absurd (block-refuses g (hard stop) (rw (finish-hard st g stop) at h))
  | inr soft ↦ finish-allow st g soft h
]

pub fold-allow_left :
    (d g : Decision)
    → (g.hard_block ≡ true → g.decision ≡ block)
    → is_allow (fold_decisions (some d) g).decision ≡ true
    → is_allow d.decision ≡ true
unfolding fold_decisions
fold-allow_left d g hard h = elim (Bool-cases g.hard_block) [
  | inl stop ↦ absurd (block-refuses g (hard stop) (rw stop at h))
  | inr soft ↦ ground arith
]

unexpired-some :
    (window now : ℕ) (found : Option Observation) (o : Observation)
    → (unexpired window now found).0 ≡ some o
    → (found ≡ some o) × (is_observation_stale_by_age window o now ≡ false)
unfolding unexpired
unexpired-some window now none o h = cc
unexpired-some window now (some p) o h =
    elim (Bool-cases (is_observation_stale_by_age window p now)) [
      | inl old ↦ absurd (ground arith)
      | inr fresh ↦ let same : p ≡ o = ground arith in (ap some same, rw (← same) fresh)
    ]

module _ (window now : ℕ) (marker : Option Stamp) (c : Sidecar) (os : List Observation) where
  pub evaluate_constraint-allow :
      (k : String)
      → str_eq k "" ≡ false
      → is_allow (evaluate_constraint window now marker c os k).decision ≡ true
      → ((o : Observation) × Has o os × (is_match k o ≡ true))
        × (check_observation_staleness marker c os ≡ none)
  unfolding evaluate_constraint
  evaluate_constraint-allow k named h =
      let found = check_observation_exists k os in
      let (good, still) =
        finish-allow_both (check_observation_staleness marker c os) (make_gate_decision k found)
          (make_gate_decision-hard k found) h in
      let (o, there) = make_gate_decision-allow k found named good in
      let (in_list, matches) = check_observation_exists-Has k os o there in
      ((o, in_list, matches), still)

  pub evaluate_gate_verb-allow :
      (v : String)
      → str_eq v "" ≡ false
      → is_allow (evaluate_gate_verb window now marker c os v).decision ≡ true
      → ((o : Observation) × Has o os
          × (is_match v o ≡ true)
          × (is_observation_stale_by_age window o now ≡ false))
        × (check_observation_staleness marker c os ≡ none)
  unfolding evaluate_gate_verb
  evaluate_gate_verb-allow v named h =
      let (found, expired) = unexpired window now (check_observation_exists v os) in
      let g = make_gate_decision v found in
      let (good, still) =
        finish-allow_both (check_observation_staleness marker c os) (with_remediation v expired g)
          (λ hard.
            remediation-allow v expired g
            ∙ make_gate_decision-hard v found (sym (remediation-hard v expired g) ∙ hard))
          h in
      let (o, there) =
        make_gate_decision-allow v found named
          (ap is_allow (sym (remediation-allow v expired g)) ∙ good) in
      let (there', fresh) = unexpired-some window now (check_observation_exists v os) o there in
      let (in_list, matches) = check_observation_exists-Has v os o there' in
      ((o, in_list, matches, fresh), still)
