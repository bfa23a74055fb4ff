-- ===== src/Shell/Policy/VerbLaws.antt =====
-- Which word `resolveVerbIndex` picks, and what `basename` keeps.
use learning_loop_template.Base.{
  ℕ, suc, ◌+◌, ◌≡◌, ◌≢◌, refl, ap, ◌∙◌, Bool, true, false, Option, none, some, List, [], ◌∷◌, ◌++◌,
  arith, ◌⊎◌, inl, inr, Text, All, drop, get_elem?, length, Bool-cases, Option-cases,
}
use learning_loop_template.Shell.Policy.Verb.{
  has, command_prefixes, is_env_assignment, is_flag, pass_value, resolve_from, resolve_verb_index,
  last_slash, basename,
}

-- The word can be a verb: no command prefix, no assignment, no flag.
abbrev pub IsVerb : Text → Type 0
IsVerb v = (has command_prefixes v ≡ false) × (is_env_assignment v ≡ false) × (is_flag v ≡ false)

pass_value-IsVerb :
    (last : Option Text) (skip : Bool) (v : Text)
    → pass_value last skip v ≡ none
    → (skip ≡ false) × IsVerb v
unfolding pass_value
pass_value-IsVerb last true v h = cc
pass_value-IsVerb last false v h = ground arith

abbrev Picked : ℕ → List Text → ℕ → Type 0
Picked i vs n = (k : ℕ) × (v : Text) × (n ≡ i + k) × (get_elem? vs k ≡ some v) × IsVerb v

resolve_from-Picked :
    (vs : List Text) (i : ℕ) (last : Option Text) (skip : Bool) (n : ℕ)
    → resolve_from i last skip vs ≡ some n
    → Picked i vs n
unfolding resolve_from
resolve_from-Picked [] i last skip n h = cc
resolve_from-Picked (v ∷ vs) i last skip n h = elim (Option-cases (pass_value last skip v)) [
  | inl stop ↦
      let here : some i ≡ some n = rw (stop, resolve_from) at h in
      (0, v, ground arith, refl, (pass_value-IsVerb last skip v stop).1)
  | inr ((last', skip'), go) ↦
      let (k, w, e, found, good) =
        resolve_from-Picked vs (suc i) last' skip' n (rw (go, resolve_from) at h) in
      (suc k, w, omega arith, found, good)
]

-- The index found is that of a word which is no command prefix, assignment or flag; in particular it
-- lies within the words.
pub resolve_verb_index-IsVerb :
    (vs : List Text) (n : ℕ)
    → resolve_verb_index vs ≡ some n
    → (v : Text) × (get_elem? vs n ≡ some v) × IsVerb v
unfolding resolve_verb_index
resolve_verb_index-IsVerb vs n h =
    let (k, v, e, found, good) = resolve_from-Picked vs 0 none false n h in
    let same : n ≡ k = omega arith in (v, rw same found, good)

-- Words that are passed over wherever they stand before the verb: prefixes and assignments.
abbrev IsPassed : Text → Type 0
IsPassed v = (has command_prefixes v ≡ true) ⊎ (is_env_assignment v ≡ true)

pass_value-IsPassed :
    (last : Option Text) (v : Text)
    → IsPassed v
    → (last' : Option Text) × (pass_value last false v ≡ some (last', false))
unfolding pass_value
pass_value-IsPassed last v h = elim (Bool-cases (has command_prefixes v)) [
  | inl pre ↦ (some v, rw pre)
  | inr free ↦ elim (Bool-cases (is_env_assignment v)) [
    | inl env ↦ (last, rw (free, env))
    | inr bare ↦ absurd (ground arith)
  ]
]

pass_value-verb : (last : Option Text) (v : Text) → IsVerb v → pass_value last false v ≡ none
unfolding pass_value
pass_value-verb last v h = ground arith

resolve_from-passed :
    (ps : List Text) (v : Text) (rest : List Text) (i : ℕ) (last : Option Text)
    → All IsPassed ps
    → IsVerb v
    → resolve_from i last false (ps ++ v ∷ rest) ≡ some (i + length ps)
unfolding resolve_from
resolve_from-passed [] v rest i last h good =
    rw (pass_value-verb last v good, resolve_from) (ap some (omega arith))
resolve_from-passed (p ∷ ps) v rest i last h good =
    let (last', go) = pass_value-IsPassed last p h.0 in
    rw (go, resolve_from)
      (resolve_from-passed ps v rest (suc i) last' h.1 good ∙ ap some (omega arith))

-- Behind any prefixes and assignments, the first word that is none of prefix, assignment and flag is
-- the verb.
pub resolve_verb_index-passed :
    (ps : List Text) (v : Text) (rest : List Text)
    → All IsPassed ps
    → IsVerb v
    → resolve_verb_index (ps ++ v ∷ rest) ≡ some (length ps)
unfolding resolve_verb_index
resolve_verb_index-passed ps v rest h good =
    resolve_from-passed ps v rest 0 none h good ∙ ap some (omega arith)

-- There is no slash in the text.
abbrev pub NoSlash : Text → Type 0
NoSlash = All (λ c. c ≢ b'/')

last_slash-none : (p : Text) → last_slash p ≡ none → NoSlash p
unfolding last_slash
last_slash-none [] h = tt
last_slash-none (c ∷ cs) h = elim (Option-cases (last_slash cs)) [
  | inl none_left ↦ ((λ e. ground arith), last_slash-none cs none_left)
  | inr (i, there) ↦ absurd (ground arith)
]

-- The text is `before`, which is empty or ends in a slash, and `p` without any slash.
last_slash-split :
    (p : Text) (i : ℕ)
    → last_slash p ≡ some i
    → (before : Text) × (p ≡ (before ++ b'/' ∷ []) ++ drop (suc i) p) × NoSlash (drop (suc i) p)
unfolding last_slash
last_slash-split [] i h = cc
last_slash-split (c ∷ cs) i h = elim (Option-cases (last_slash cs)) [
  | inr (j, there) ↦
      let next : suc j ≡ i = ground arith in
      let (before, split, clean) = last_slash-split cs j there in
      (c ∷ before, rw (← next) (ap (◌∷◌ c) split), rw (← next) clean)
  | inl none_left ↦
      let here : c ≡ b'/' = ground arith in
      let first : i ≡ 0 = ground arith in
      ([], rw (first, here) refl, rw first (last_slash-none cs none_left))
]

-- `basename` has no slash, and is all of the path or what stands behind one of its slashes.
pub basename_lem :
    (p : Text)
    → NoSlash (basename p)
      × ((basename p ≡ p) ⊎ ((before : Text) × (p ≡ (before ++ b'/' ∷ []) ++ basename p)))
unfolding basename
basename_lem p = elim (Option-cases (last_slash p)) [
  | inl clean ↦ rw clean (last_slash-none p clean, inl refl)
  | inr (i, there) ↦
      let (before, split, free) = last_slash-split p i there in rw there (free, inr (before, split))
]
