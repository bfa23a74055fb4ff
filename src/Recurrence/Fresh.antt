-- ===== src/Recurrence/Fresh.antt =====
-- The groups that are collapsed by their recurrence key.
use learning_loop_template.Base.{
  ◌≡◌, refl, false, List, [], ◌∷◌, map, Text, text_eq, any_of, All, Bool-cases, inl, inr,
}
use learning_loop_template.Recurrence.{Tracker}
use learning_loop_template.Recurrence.Report.{
  Recurrent, key_of_report, add_fresh, collapse_from, collapse_fresh_by_key,
}

module _ (x : Tracker) where
  -- No two groups have one recurrence key.
  abbrev pub IsOncePerKey : List Recurrent → Type 0
  IsOncePerKey [] = Unit
  IsOncePerKey (f ∷ fs) =
      All (λ g. text_eq (key_of_report x f) (key_of_report x g) ≡ false) fs × IsOncePerKey fs

  -- The recurrence key of the group is none of these.
  abbrev pub IsNew : List Text → Recurrent → Type 0
  IsNew existing f = any_of (text_eq (key_of_report x f)) existing ≡ false

-- The keys of the map are there once.
abbrev IsMap : List (Text × Recurrent) → Type 0
IsMap [] = Unit
IsMap (f ∷ fs) = All (λ g. text_eq f.0 g.0 ≡ false) fs × IsMap fs

-- Every group is held under its own recurrence key.
abbrev IsTagged : Tracker → List (Text × Recurrent) → Type 0
IsTagged x = All (λ f. key_of_report x f.1 ≡ f.0)

module _ (x : Tracker) (k : Text) (g : Recurrent) where
  add_fresh-All {ℓ} :
      (P : Text → Type ℓ) (fs : List (Text × Recurrent))
      → P k
      → All (λ f. P f.0) fs
      → All (λ f. P f.0) (add_fresh x k g fs)
  unfolding add_fresh
  add_fresh-All P [] new all = (new, tt)
  add_fresh-All P ((j, prior) ∷ fs) new (now, later) = elim (Bool-cases (text_eq j k)) [
    | inl own ↦ rw own (now, later)
    | inr other ↦ rw other (now, add_fresh-All P fs new later)
  ]

  add_fresh-IsMap : (fs : List (Text × Recurrent)) → IsMap fs → IsMap (add_fresh x k g fs)
  unfolding add_fresh
  add_fresh-IsMap [] once = (tt, tt)
  add_fresh-IsMap ((j, prior) ∷ fs) (apart, once) = elim (Bool-cases (text_eq j k)) [
    | inl own ↦ rw own (apart, once)
    | inr other ↦
        rw other (add_fresh-All (λ i. text_eq j i ≡ false) fs other apart, add_fresh-IsMap fs once)
  ]

  -- Merging keeps the fields that the key is made of.
  add_fresh-IsTagged :
      (fs : List (Text × Recurrent))
      → key_of_report x g ≡ k
      → IsTagged x fs
      → IsTagged x (add_fresh x k g fs)
  unfolding add_fresh
  add_fresh-IsTagged [] new all = (new, tt)
  add_fresh-IsTagged ((j, prior) ∷ fs) new (now, later) = elim (Bool-cases (text_eq j k)) [
    | inl own ↦ rw own (now, later)
    | inr other ↦ rw other (now, add_fresh-IsTagged fs new later)
  ]

module _ (x : Tracker) where
  groups-All {ℓ} :
      (P : Text → Type ℓ) (fs : List (Text × Recurrent))
      → IsTagged x fs
      → All (λ f. P f.0) fs
      → All (λ g. P (key_of_report x g)) (map (λ f. f.1) fs)
  groups-All P [] tags all = tt
  groups-All P ((k, g) ∷ fs) (tag, tags) (now, later) = (rw tag now, groups-All P fs tags later)

  groups-IsOncePerKey :
      (fs : List (Text × Recurrent)) → IsTagged x fs → IsMap fs → IsOncePerKey x (map (λ f. f.1) fs)
  groups-IsOncePerKey [] tags once = tt
  groups-IsOncePerKey ((k, g) ∷ fs) (tag, tags) (apart, once) = (
    groups-All (λ i. text_eq (key_of_report x g) i ≡ false) fs tags (rw tag apart),
    groups-IsOncePerKey fs tags once,
  )

module _ (x : Tracker) (existing : List Text) where
  abbrev IsFresh : List (Text × Recurrent) → Type 0
  IsFresh fs = IsTagged x fs × IsMap fs × All (λ f. any_of (text_eq f.0) existing ≡ false) fs

  collapse_from-IsFresh :
      (gs : List Recurrent) (fs : List (Text × Recurrent))
      → IsFresh fs
      → IsFresh (collapse_from x existing fs gs)
  unfolding collapse_from
  collapse_from-IsFresh [] fs all = all
  collapse_from-IsFresh (g ∷ gs) fs (tags, once, new) =
      let k = key_of_report x g in
      elim (Bool-cases (any_of (text_eq k) existing)) [
        | inl held ↦ rw held (collapse_from-IsFresh gs fs (tags, once, new))
        | inr free ↦ rw free (
            collapse_from-IsFresh gs (add_fresh x k g fs) (
              add_fresh-IsTagged x k g fs refl tags,
              add_fresh-IsMap x k g fs once,
              add_fresh-All x k g (λ i. any_of (text_eq i) existing ≡ false) fs free new,
            ))
      ]

  -- The groups that `collapseFreshByKey` returns have distinct recurrence keys, and none of the keys
  -- that it is given as existing.
  pub collapse_fresh_by_key-IsOncePerKey :
      (gs : List Recurrent)
      → IsOncePerKey x (collapse_fresh_by_key x existing gs)
        × All (IsNew x existing) (collapse_fresh_by_key x existing gs)
  unfolding collapse_fresh_by_key
  collapse_fresh_by_key-IsOncePerKey gs =
      let (tags, once, new) = collapse_from-IsFresh gs [] (tt, tt, tt) in
      let fs = collapse_from x existing [] gs in
      (
        groups-IsOncePerKey x fs tags once,
        groups-All x (λ i. any_of (text_eq i) existing ≡ false) fs tags new,
      )
