-- ===== src/Registry/Lifecycle/Candidates.antt =====
-- The line that `restoreEntry` goes back to is one of the lines that it may go back to.
use mathlib.Core.Path.{subst}
use learning_loop_template.Base.{
  ℕ, String, ◌≡◌, Bool, true, Option, none, some, List, [], ◌∷◌, arith, inl, inr, eq_iff, All,
  Bool-cases, select, ltb,
}
use learning_loop_template.Registry.Entry.{Entry, version_of}
use learning_loop_template.Registry.Projection.{
  Store, read_registry_all_versions, read_raw_lines, insert_sorted, sort_by, version_before,
}
use learning_loop_template.Registry.Projection.Found.{IsRead, raw_lines-IsRead}
use learning_loop_template.Registry.Lifecycle.Restore.{is_candidate, pre_tombstone}

-- The lines that `restoreEntry` looks at are read lines, and the one it picks is a candidate.
select-All {ℓ} :
    (P : Entry → Type ℓ) (p : Entry → Bool) (es : List Entry)
    → All P es
    → All (λ x. P x × (p x ≡ true)) (select p es)
unfolding select
select-All P p [] h = tt
select-All P p (x ∷ es) h = elim (Bool-cases (p x)) [
  | inl good ↦ rw good ((h.0, good), select-All P p es h.1)
  | inr bad ↦ rw bad (select-All P p es h.1)
]

pre_tombstone-All {ℓ} :
    (P : Entry → Type ℓ) (es : List Entry) (found : Option Entry)
    → All P es
    → ((k : Entry) → found ≡ some k → P k)
    → (k : Entry) → pre_tombstone found es ≡ some k
    → P k
unfolding pre_tombstone
pre_tombstone-All P [] found h low k e = low k e
pre_tombstone-All P (x ∷ es) none h low k e =
    pre_tombstone-All P es (some x) h.1 (λ j p. let same : x ≡ j = ground arith in subst P same h.0)
      k e
pre_tombstone-All P (x ∷ es) (some p) h low k e =
    elim (Bool-cases (ltb (version_of p) (version_of x))) [
      | inl newer ↦
          pre_tombstone-All P es (some x) h.1
            (λ j q. let same : x ≡ j = ground arith in subst P same h.0) k (rw newer at e)
      | inr older ↦ pre_tombstone-All P es (some p) h.1 low k (rw older at e)
    ]

module _ (before : Entry → Entry → Bool) where
  insert_sorted-All {ℓ} :
      (P : Entry → Type ℓ) (e : Entry) (es : List Entry)
      → P e
      → All P es
      → All P (insert_sorted before e es)
  unfolding insert_sorted
  insert_sorted-All P e [] h hs = (h, tt)
  insert_sorted-All P e (p ∷ ps) h hs = elim (Bool-cases (before p e)) [
    | inl later ↦ rw later (hs.0, insert_sorted-All P e ps h hs.1)
    | inr here ↦ rw here (h, hs)
  ]

  sort_by-All {ℓ} : (P : Entry → Type ℓ) (es : List Entry) → All P es → All P (sort_by before es)
  unfolding sort_by
  sort_by-All P [] h = tt
  sort_by-All P (e ∷ es) h = insert_sorted-All P e (sort_by before es) h.0 (sort_by-All P es h.1)

-- The line before a tombstone, as `restoreEntry` looks for it.
abbrev pub found_before : Store → String → ℕ → Option Entry
found_before s id v = pre_tombstone none (select (is_candidate id v) (read_registry_all_versions s))

-- What every read line satisfies, the line found satisfies; and it is a candidate.
pub found_before-All {ℓ} :
    (P : Entry → Type ℓ) (s : Store) (id : String) (v : ℕ) (p : Entry)
    → All P (read_raw_lines s)
    → found_before s id v ≡ some p
    → P p × (is_candidate id v p ≡ true)
unfolding read_registry_all_versions
found_before-All P s id v p all h =
    pre_tombstone-All (λ x. P x × (is_candidate id v x ≡ true)) _ none
      (select-All P (is_candidate id v) (read_registry_all_versions s)
        (sort_by-All version_before P (read_raw_lines s) all))
      (λ k e. cc) p h

pub found_before-IsRead :
    (s : Store) (id : String) (v : ℕ) (p : Entry)
    → found_before s id v ≡ some p
    → IsRead p × (is_candidate id v p ≡ true)
found_before-IsRead s id v p h = found_before-All IsRead s id v p (raw_lines-IsRead s) h

pub is_candidate-id : (id : String) (v : ℕ) (p : Entry) → is_candidate id v p ≡ true → p.id ≡ id
unfolding is_candidate
is_candidate-id id v p h = ground (arith, eq_iff p.id id)
