-- ===== src/Registry/Projection/Best.antt =====
-- One pass over a list of lines keeps the best line of an id (tools/learning-loop-mastra/core/meta-state.js, `collapseLatestById`).
use learning_loop_template.Base.{
  ℕ, ◌≤◌, ◌<◌, String, ◌≡◌, refl, sym, ap, ◌∙◌, ◌⊎◌, inl, inr, true, false, Option, none, some,
  List, [], ◌∷◌, ◌++◌, arith, if◌then◌else◌, str_eq, eq_refl, All, Bool-cases, Option-cases,
  All-append_left, All-append_right, Has,
}
use mathlib.Core.Path.{subst}
use learning_loop_template.Registry.Entry.{Entry, version_of}
use learning_loop_template.Registry.Projection.{replaces}
use learning_loop_template.Registry.Projection.Latest.{pick, best}

best-append :
    (id : String) (kept : Option Entry) (xs ys : List Entry)
    → best id kept (xs ++ ys) ≡ best id (best id kept xs) ys
unfolding best
best-append id kept [] ys = refl
best-append id kept (x ∷ xs) ys =
    best-append id (if str_eq x.id id then some (pick kept x) else kept) xs ys

pick_bounds :
    (o : Option Entry) (x : Entry)
    → (version_of x ≤ version_of (pick o x))
      × ((k : Entry) → o ≡ some k → version_of k ≤ version_of (pick o x))
unfolding replaces
pick_bounds none x = (omega arith, λ k h. cc)
pick_bounds (some p) x = (ground arith, λ k h. ground arith)

abbrev pub Under : String → ℕ → List Entry → Type 0
Under id n = All (λ x. str_eq x.id id ≡ true → version_of x ≤ n)

-- What is found has the highest version.
pub best_max :
    (id : String) (kept : Option Entry) (es : List Entry) (e : Entry)
    → best id kept es ≡ some e
    → Under id (version_of e) es × ((k : Entry) → kept ≡ some k → version_of k ≤ version_of e)
unfolding best
best_max id kept [] e h = (tt, λ k p. ground arith)
best_max id kept (x ∷ es) e h = elim (Bool-cases (str_eq x.id id)) [
  | inl same ↦
      let (rest, low) = best_max id (some (pick kept x)) es e (rw same at h) in
      let (here, kept_low) = pick_bounds kept x in
      let top = low (pick kept x) refl in
      ((λ _. omega arith, rest), λ k p. omega (arith, kept_low k p))
  | inr other ↦ let (rest, low) = best_max id kept es e (rw other at h) in ((λ p. cc, rest), low)
]

best_over :
    (id : String) (t : Entry) (es : List Entry)
    → All (λ x. str_eq x.id id ≡ true → version_of x < version_of t) es
    → best id (some t) es ≡ some t
unfolding best
best_over id t [] h = refl
best_over id t (x ∷ es) h = elim (Bool-cases (str_eq x.id id)) [
  | inl same ↦
      let smaller = h.0 same in
      let kept : replaces x t ≡ false = unfold replaces in ground arith in
      rw same (rw kept (best_over id t es h.1))
  | inr other ↦ rw other (best_over id t es h.1)
]

best-Under :
    (id : String) (n : ℕ) (kept : Option Entry) (es : List Entry)
    → Under id n es
    → ((k : Entry) → kept ≡ some k → version_of k ≤ n)
    → (k : Entry) → best id kept es ≡ some k
    → version_of k ≤ n
unfolding best
best-Under id n kept [] u low k h = low k h
best-Under id n kept (x ∷ es) u low k h = elim (Bool-cases (str_eq x.id id)) [
  | inl same ↦
      best-Under id n (some (pick kept x)) es u.1
        (λ j p. unfold replaces in pick_under kept x n (u.0 same) low j p) k (rw same at h)
  | inr other ↦ best-Under id n kept es u.1 low k (rw other at h)
]
  where
    pick_under :
        (o : Option Entry) (y : Entry) (m : ℕ)
        → version_of y ≤ m
        → ((j : Entry) → o ≡ some j → version_of j ≤ m)
        → (j : Entry) → some (pick o y) ≡ some j
        → version_of j ≤ m
    pick_under none y m hy ho j p = ground arith
    pick_under (some q) y m hy ho j p = elim (Bool-cases (replaces y q)) [
      | inl newer ↦ ground arith
      | inr older ↦ ground (arith, ho q)
    ]

-- A line above all others of its id is what is found.
pub best_top :
    (t : Entry) (n : ℕ) (xs ys : List Entry)
    → Under t.id n (xs ++ ys)
    → n < version_of t
    → best t.id none (xs ++ t ∷ ys) ≡ some t
best_top t n xs ys u h =
    best-append t.id none xs (t ∷ ys)
    ∙ (unfold best in
        rw (eq_refl t.id) (
          picks (best t.id none xs)
            (best-Under t.id n none xs (All-append_left _ xs ys u) (λ k p. cc))
          ∙ best_over t.id t ys (strict ys (All-append_right _ xs ys u))))
  where
    strict :
        (es : List Entry)
        → Under t.id n es
        → All (λ x. str_eq x.id t.id ≡ true → version_of x < version_of t) es
    strict [] v = tt
    strict (x ∷ es) v = (λ p. omega (arith, v.0 p), strict es v.1)

    picks :
        (o : Option Entry)
        → ((k : Entry) → o ≡ some k → version_of k ≤ n)
        → best t.id (some (pick o t)) ys ≡ best t.id (some t) ys
    picks none low = refl
    picks (some p) low =
        let kept : replaces t p ≡ true = unfold replaces in ground (arith, low p refl) in rw kept

pub best_other :
    (id : String) (t : Entry) (xs ys : List Entry)
    → str_eq t.id id ≡ false
    → best id none (xs ++ t ∷ ys) ≡ best id none (xs ++ ys)
unfolding best
best_other id t xs ys h = best-append id none xs (t ∷ ys) ∙ (rw h) ∙ sym (best-append id none xs ys)

pub best-some :
    (id : String) (k : Entry) (es : List Entry) → (e : Entry) × (best id (some k) es ≡ some e)
unfolding best
best-some id k [] = (k, refl)
best-some id k (x ∷ es) = elim (Bool-cases (str_eq x.id id)) [
  | inl same ↦ rw same (best-some id (pick (some k) x) es)
  | inr other ↦ rw other (best-some id k es)
]

-- Where nothing is found, no line has the id.
best-skips :
    (id : String) (kept : Option Entry) (es : List Entry)
    → best id none es ≡ none
    → best id kept es ≡ kept
unfolding best
best-skips id kept [] h = refl
best-skips id kept (x ∷ es) h = elim (Bool-cases (str_eq x.id id)) [
  | inl same ↦
      let (e, found) = best-some id x es in
      let gone : best id (some x) es ≡ none = rw same at h in absurd (cc)
  | inr other ↦ rw other (best-skips id kept es (rw other at h))
]

pub best_first :
    (t : Entry) (xs ys : List Entry)
    → best t.id none (xs ++ ys) ≡ none
    → best t.id none (xs ++ t ∷ ys) ≡ some t
unfolding best
best_first t xs ys h = elim (Option-cases (best t.id none xs)) [
  | inr (k, held) ↦
      let (e, found) = best-some t.id k ys in
      let gone : best t.id (some k) ys ≡ none =
        rw held at (sym (best-append t.id none xs ys) ∙ h) in
      absurd (cc)
  | inl free ↦
      let rest : best t.id none ys ≡ none = rw free at (sym (best-append t.id none xs ys) ∙ h) in
      let own : str_eq t.id t.id ≡ true = eq_refl t.id in
      best-append t.id none xs (t ∷ ys) ∙ (rw (free, own) (best-skips t.id (some t) ys rest))
]

-- What every line satisfies, the found line satisfies.
pub best_all {ℓ} :
    (P : Entry → Type ℓ) (id : String) (kept : Option Entry) (es : List Entry)
    → All P es
    → ((k : Entry) → kept ≡ some k → P k)
    → (k : Entry) → best id kept es ≡ some k
    → P k
unfolding best
best_all P id kept [] u low k h = low k h
best_all P id kept (x ∷ es) u low k h = elim (Bool-cases (str_eq x.id id)) [
  | inl same ↦ best_all P id (some (pick kept x)) es u.1 (picked kept low) k (rw same at h)
  | inr other ↦ best_all P id kept es u.1 low k (rw other at h)
]
  where
    picked :
        (o : Option Entry)
        → ((j : Entry) → o ≡ some j → P j)
        → (j : Entry) → some (pick o x) ≡ some j
        → P j
    picked none ho j p = subst P (cc) u.0
    picked (some q) ho j p = elim (Bool-cases (replaces x q)) [
      | inl newer ↦ let same : x ≡ j = ground arith in subst P same u.0
      | inr older ↦ let same : q ≡ j = ground arith in subst P same (ho q refl)
    ]

-- What is found is one of the lines.
pub best-Has :
    (id : String) (kept : Option Entry) (es : List Entry) (e : Entry)
    → best id kept es ≡ some e
    → (kept ≡ some e) ⊎ Has e es
unfolding best
best-Has id kept [] e h = inl h
best-Has id kept (x ∷ es) e h = elim (Bool-cases (str_eq x.id id)) [
  | inr other ↦ elim (best-Has id kept es e (rw other at h)) [
    | inl old ↦ inl old
    | inr there ↦ inr (inr there)
  ]
  | inl same ↦ elim (best-Has id (some (pick kept x)) es e (rw same at h)) [
    | inl old ↦ picked kept old
    | inr there ↦ inr (inr there)
  ]
]
  where
    picked : (o : Option Entry) → some (pick o x) ≡ some e → (o ≡ some e) ⊎ Has e (x ∷ es)
    picked none q = let same : x ≡ e = ground arith in inr (inl same)
    picked (some k) q = elim (Bool-cases (replaces x k)) [
      | inl newer ↦ let same : x ≡ e = ground arith in inr (inl same)
      | inr older ↦ let same : k ≡ e = ground arith in inl (ap some same)
    ]

-- A line of the id is enough for one to be found.
pub best-found :
    (id : String) (kept : Option Entry) (es : List Entry) (x : Entry)
    → Has x es
    → str_eq x.id id ≡ true
    → (e : Entry) × (best id kept es ≡ some e)
unfolding best
best-found id kept [] x h same = absurd h
best-found id kept (y ∷ es) x (inl here) same =
    let own : str_eq y.id id ≡ true = rw here same in rw own (best-some id (pick kept y) es)
best-found id kept (y ∷ es) x (inr later) same =
    best-found id (if str_eq y.id id then some (pick kept y) else kept) es x later same
