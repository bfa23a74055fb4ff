-- ===== src/Registry/Projection/Newest.antt =====
-- Which line `collapseLatestById` of tools/learning-loop-mastra/core/meta-state.js leaves for an id, in the
-- order of versions and creation times.
use learning_loop_template.Base.{
  ◌<◌, String, ◌≡◌, refl, sym, ◌∙◌, ◌⊎◌, inl, inr, true, false, Option, none, some, List, [], ◌∷◌,
  arith, ltb, str_eq, All, Has, Bool-cases, text_lt, text_lt_irrefl, text_lt_asymm,
  text_lt_weak_trans,
}
use learning_loop_template.Registry.Entry.{Entry, version_of}
use learning_loop_template.Registry.Projection.{
  Store, read_raw_lines, current, created_of, replaces,
}
use learning_loop_template.Registry.Projection.Latest.{pick, best}
use learning_loop_template.Registry.Projection.Found.{current-best, current-Has, current-id}

-- `x` has a lower version than `e`, or the same one and no later creation time.
abbrev pub IsNotAfter : Entry → Entry → Type 0
IsNotAfter x e =
    (version_of x < version_of e)
    ⊎ ((version_of x ≡ version_of e) × (text_lt (created_of e) (created_of x) ≡ false))

IsNotAfter-refl : (e : Entry) → IsNotAfter e e
IsNotAfter-refl e = inr (refl, text_lt_irrefl (created_of e))

IsNotAfter-trans : (x y e : Entry) → IsNotAfter x y → IsNotAfter y e → IsNotAfter x e
IsNotAfter-trans x y e (inl a) (inl b) = inl (omega arith)
IsNotAfter-trans x y e (inl a) (inr (b, t)) = inl (omega arith)
IsNotAfter-trans x y e (inr (a, t)) (inl b) = inl (omega arith)
IsNotAfter-trans x y e (inr (a, t)) (inr (b, u)) =
    inr (a ∙ b, text_lt_weak_trans (created_of e) (created_of y) (created_of x) u t)

replaced-IsNotAfter : (x k : Entry) → replaces x k ≡ true → IsNotAfter k x
unfolding replaces
replaced-IsNotAfter x k h = elim (Bool-cases (ltb (version_of k) (version_of x))) [
  | inl above ↦ inl (ground arith)
  | inr level ↦ inr (ground arith, text_lt_asymm (created_of k) (created_of x) (ground arith))
]

kept-IsNotAfter : (x k : Entry) → replaces x k ≡ false → IsNotAfter x k
unfolding replaces
kept-IsNotAfter x k h = elim (Bool-cases (ltb (version_of x) (version_of k))) [
  | inl below ↦ inl (ground arith)
  | inr level ↦ inr (ground arith, ground arith)
]

-- The line picked of two is after neither.
pick-IsNotAfter :
    (o : Option Entry) (x : Entry)
    → IsNotAfter x (pick o x) × ((k : Entry) → o ≡ some k → IsNotAfter k (pick o x))
pick-IsNotAfter none x = (IsNotAfter-refl x, λ k h. cc)
pick-IsNotAfter (some p) x = elim (Bool-cases (replaces x p)) [
  | inl newer ↦ rw newer (
    IsNotAfter-refl x,
    λ k h. replaced-IsNotAfter x k (let same : p ≡ k = ground arith in rw (← same) newer),
  )
  | inr older ↦ rw older (
    kept-IsNotAfter x p older,
    λ k h. let same : p ≡ k = ground arith in rw same (IsNotAfter-refl k),
  )
]

best-IsNotAfter :
    (id : String) (kept : Option Entry) (es : List Entry) (e : Entry)
    → best id kept es ≡ some e
    → All (λ x. str_eq x.id id ≡ true → IsNotAfter x e) es
      × ((k : Entry) → kept ≡ some k → IsNotAfter k e)
unfolding best
best-IsNotAfter id kept [] e h =
    (tt, λ k p. let same : k ≡ e = ground arith in rw same (IsNotAfter-refl e))
best-IsNotAfter id kept (x ∷ es) e h = elim (Bool-cases (str_eq x.id id)) [
  | inl own ↦
      let (rest, top) = best-IsNotAfter id (some (pick kept x)) es e (rw own at h) in
      let (here, held) = pick-IsNotAfter kept x in
      let low = top (pick kept x) refl in
      (
        (λ _. IsNotAfter-trans x (pick kept x) e here low, rest),
        λ k p. IsNotAfter-trans k (pick kept x) e (held k p) low,
      )
  | inr other ↦
      let (rest, top) = best-IsNotAfter id kept es e (rw other at h) in ((λ p. cc, rest), top)
]

-- The line found for an id is a line of the id in one of the three files, and every line of the id has
-- a lower version, or the same one and no later creation time.
pub current-latest :
    (s : Store) (id : String) (e : Entry)
    → current s id ≡ some e
    → Has e (read_raw_lines s)
      × (e.id ≡ id)
      × All (λ x. str_eq x.id id ≡ true → IsNotAfter x e) (read_raw_lines s)
current-latest s id e found = (
  current-Has s id e found,
  current-id s id e found,
  (best-IsNotAfter id none (read_raw_lines s) e (sym (current-best s id) ∙ found)).0,
)
