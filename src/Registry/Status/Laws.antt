-- ===== src/Registry/Status/Laws.antt =====
-- How drift, the recommendation and the stored status go together.
use learning_loop_template.Base.{
  ℕ, ◌+◌, ◌≤◌, ◌≡◌, refl, sym, ap, ◌∙◌, Bool, true, false, not, ◌⊎◌, ◌↔◌, inl, inr, Option, none,
  some, ◌∷◌, arith, Text, Bool-cases, Option-cases,
}
use learning_loop_template.Registry.Entry.{
  Entry, Status, opened, resolved, accepted, archived, superseded, active, inactive, reported,
  stale, other_status, is_archived,
}
use learning_loop_template.Registry.Status.{
  is_open, is_terminal_raw, DerivationKind, mechanism_shipped, code_only, code_missing, no_signals,
  Recommendation, no_action, resolve, re_verify, Derived, reference_time, has_drifted, Context,
  is_stale_view, check_signal, compute_kind, compute_derived_status, compute_recommendation,
  compute_drift, assemble, derive_status,
}

derive_status-assemble :
    (x : Context) (now : ℕ) (e : Entry) (d : Derived)
    → derive_status x now e ≡ some d
    → (c t : Option Bool) × (d ≡ assemble x now e c t)
unfolding derive_status
derive_status-assemble x now e d h = elim (Option-cases (check_signal x e.evidence_code_ref)) [
  | inl thrown ↦ absurd (ground arith)
  | inr (c, there) ↦ elim (Option-cases (check_signal x e.evidence_test)) [
    | inl thrown ↦ absurd (ground arith)
    | inr (t, too) ↦
        let step : derive_status x now e ≡ some (assemble x now e c t) =
          rw (there, derive_status) (rw too refl) in
        (c, t, cc)
  ]
]

open-live : (st : Option Status) → is_archived st ≡ false → is_open st ≡ not (is_terminal_raw st)
unfolding is_open is_terminal_raw
open-live none h = refl
open-live (some opened) h = refl
open-live (some resolved) h = refl
open-live (some accepted) h = refl
open-live (some archived) h = cc
open-live (some superseded) h = refl
open-live (some active) h = refl
open-live (some inactive) h = refl
open-live (some reported) h = refl
open-live (some stale) h = refl
open-live (some (other_status s)) h = refl

abbrev IsAdvice : Recommendation → Type 0
IsAdvice r = (r ≡ resolve) ⊎ (r ≡ re_verify)

no_advice :
    (b old : Bool) (k : DerivationKind)
    → (k ≡ code_only) ⊎ (k ≡ code_missing) ⊎ (k ≡ no_signals)
    → IsAdvice (compute_recommendation b old k)
    → ⊥
unfolding compute_recommendation
no_advice false old k i h = elim h [ inl a ↦ cc | inr a ↦ cc ]
no_advice true old mechanism_shipped i h = elim i [
  | inl a ↦ cc
  | inr (inl a) ↦ cc
  | inr (inr a) ↦ cc
]
no_advice true old code_only i h = elim h [ inl a ↦ cc | inr a ↦ cc ]
no_advice true old code_missing i h = elim h [ inl a ↦ cc | inr a ↦ cc ]
no_advice true old no_signals i h = elim h [ inl a ↦ cc | inr a ↦ cc ]

advised :
    (k : DerivationKind) (st : Option Status) (old : Bool)
    → is_archived st ≡ false
    → (compute_drift (compute_derived_status k) st ≡ true)
      ↔ IsAdvice (compute_recommendation (is_open st) old k)
unfolding compute_drift compute_derived_status compute_recommendation
advised mechanism_shipped st old live = elim (Bool-cases (is_terminal_raw st)) [
  | inl ended ↦ rw (open-live st live, ended) ((λ h. cc), λ h. elim h [ inl a ↦ cc | inr a ↦ cc ])
  | inr runs ↦ elim (Bool-cases old) [
    | inl aged ↦ rw (open-live st live, runs, aged) ((λ h. inr refl), λ h. refl)
    | inr young ↦ rw (open-live st live, runs, young) ((λ h. inl refl), λ h. refl)
  ]
]
advised code_only st old live =
    ((λ h. cc), λ h. absurd (no_advice (is_open st) old code_only (inl refl) h))
advised code_missing st old live =
    ((λ h. cc), λ h. absurd (no_advice (is_open st) old code_missing (inr (inl refl)) h))
advised no_signals st old live =
    ((λ h. cc), λ h. absurd (no_advice (is_open st) old no_signals (inr (inr refl)) h))

-- The report of an entry that is not archived: it has drifted exactly where the advice is to resolve
-- the entry or to verify it again.
pub drift-advised :
    (x : Context) (now : ℕ) (e : Entry) (d : Derived)
    → derive_status x now e ≡ some d
    → is_archived e.status ≡ false
    → (d.drift ≡ true) ↔ ((d.recommendation ≡ resolve) ⊎ (d.recommendation ≡ re_verify))
unfolding assemble
drift-advised x now e d h live =
    let (c, t, same) = derive_status-assemble x now e d h in
    rw same (
      advised (compute_kind c x.test_passed e.evidence_code_ref e.evidence_test) e.status
        (is_stale_view x now e) live)

-- An archived entry whose test passed, with its code in place, is reported as drifted although no
-- action is advised.
pub archived-drifted :
    (x : Context) (now : ℕ) (e : Entry) (d : Derived)
    → derive_status x now e ≡ some d
    → e.status ≡ some archived
    → d.kind ≡ mechanism_shipped
    → (d.drift ≡ true) × (d.recommendation ≡ no_action)
unfolding assemble compute_drift compute_derived_status compute_recommendation is_open
    is_terminal_raw
archived-drifted x now e d h gone shipped =
    let (c, t, same) = derive_status-assemble x now e d h in
    let k : compute_kind c x.test_passed e.evidence_code_ref e.evidence_test ≡ mechanism_shipped =
      ap (λ (y : Derived). y.kind) (sym same) ∙ shipped in
    rw (same, k, gone) (refl, refl)

-- A stale view stays stale as time goes by.
pub is_stale_view-later :
    (x : Context) (now later : ℕ) (e : Entry)
    → is_stale_view x now e ≡ true
    → now ≤ later
    → is_stale_view x later e ≡ true
unfolding is_stale_view
is_stale_view-later x now later e h wait = elim (Option-cases (reference_time x.get_time e)) [
  | inl missing ↦ absurd (ground arith)
  | inr (t, there) ↦ ground arith
]

reference_time-verified :
    (get_time : Text → Option ℕ) (c : ℕ) (cs : Text) (e : Entry)
    → e.last_verified_at ≡ some (c ∷ cs)
    → reference_time get_time e ≡ get_time (c ∷ cs)
unfolding reference_time
reference_time-verified get_time c cs e verified = rw (verified, reference_time) refl

-- An entry verified within the window, whose evidence has not drifted, is not stale, whenever it was
-- created.
pub is_stale_view-verified :
    (x : Context) (now c : ℕ) (cs : Text) (t : ℕ) (e : Entry)
    → e.last_verified_at ≡ some (c ∷ cs)
    → x.get_time (c ∷ cs) ≡ some t
    → now ≤ t + x.window
    → has_drifted x.index x.current e ≡ false
    → is_stale_view x now e ≡ false
unfolding is_stale_view
is_stale_view-verified x now c cs t e verified time recent same =
    let ref : reference_time x.get_time e ≡ some t =
      reference_time-verified x.get_time c cs e verified ∙ time in
    ground arith
