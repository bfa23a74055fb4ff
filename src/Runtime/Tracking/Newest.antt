-- ===== src/Runtime/Tracking/Newest.antt =====
-- The row of an id that is read last, with the highest version, is the newest one.
use learning_loop_template.Base.{
  ℕ, suc, ◌+◌, ◌≤◌, ◌<◌, ◌≡◌, refl, ap, ◌∙◌, true, false, Option, none, some, List, [], ◌∷◌, ◌++◌,
  arith, inl, inr, ltb, if◌then◌else◌, All, Bool-cases, length,
}
use learning_loop_template.Runtime.Row.{Row, version_of}
use learning_loop_template.Runtime.Append.{same_id}
use learning_loop_template.Runtime.Tracking.{
  Latest, replaces, has_id, set_latest, collapse_from, newest,
}

-- The row comes out last: it is above the rows of its id, and behind all others in the list.
pub collapse-append :
    (idx : ℕ) (by_id : List Latest) (rs : List Row) (r : Row)
    → has_id r ≡ true
    → collapse_from idx by_id (rs ++ r ∷ [])
      ≡ set_latest (idx + length rs) r (collapse_from idx by_id rs)
unfolding collapse_from
collapse-append idx by_id [] r h = rw h (ap (λ n. set_latest n r by_id) (omega arith))
collapse-append idx by_id (x ∷ rs) r h =
    collapse-append (suc idx) (if has_id x then set_latest idx x by_id else by_id) rs r h
    ∙ ap
        (λ n.
          set_latest n r
            (collapse_from (suc idx) (if has_id x then set_latest idx x by_id else by_id) rs))
        (omega arith)

-- The kept rows satisfy what all rows do, and their places come before `n`.
abbrev pub Placed {ℓ} : (Row → Type ℓ) → ℕ → List Latest → Type ℓ
Placed P n = All (λ l. P l.row × (l.file_idx < n))

Placed-le {ℓ} :
    (P : Row → Type ℓ) (n m : ℕ) (ls : List Latest) → n ≤ m → Placed P n ls → Placed P m ls
Placed-le P n m [] h p = tt
Placed-le P n m (l ∷ ls) h p = ((p.0.0, omega (arith, p.0.1)), Placed-le P n m ls h p.1)

set_latest-Placed {ℓ} :
    (P : Row → Type ℓ) (n : ℕ) (r : Row) (ls : List Latest)
    → P r
    → Placed P n ls
    → Placed P (suc n) (set_latest n r ls)
unfolding set_latest
set_latest-Placed P n r [] h p = ((h, omega arith), tt)
set_latest-Placed P n r (l ∷ ls) h p = elim (Bool-cases (same_id l.row.id r.id)) [
  | inr other ↦ rw other ((p.0.0, omega (arith, p.0.1)), set_latest-Placed P n r ls h p.1)
  | inl same ↦ elim (Bool-cases (replaces n r l)) [
    | inl new ↦ rw (same, new) ((h, omega arith), Placed-le P n (suc n) ls (omega arith) p.1)
    | inr old ↦
        rw (same, old) ((p.0.0, omega (arith, p.0.1)), Placed-le P n (suc n) ls (omega arith) p.1)
  ]
]

pub collapse-Placed {ℓ} :
    (P : Row → Type ℓ) (n : ℕ) (ls : List Latest) (rs : List Row)
    → Placed P n ls
    → All P rs
    → Placed P (n + length rs) (collapse_from n ls rs)
unfolding collapse_from
collapse-Placed P n ls [] p h = Placed-le P n (n + 0) ls (omega arith) p
collapse-Placed P n ls (r ∷ rs) p h =
    Placed-le P (suc n + length rs) (n + suc (length rs)) _ (omega arith)
      (collapse-Placed P (suc n) (if has_id r then set_latest n r ls else ls) rs step h.1)
  where
    step : Placed P (suc n) (if has_id r then set_latest n r ls else ls)
    step = elim (Bool-cases (has_id r)) [
      | inl kept ↦ rw kept (set_latest-Placed P n r ls h.0 p)
      | inr dropped ↦ rw dropped (Placed-le P n (suc n) ls (omega arith) p)
    ]

newest_keeps :
    (b : Latest) (ls : List Latest) (n : ℕ)
    → b.file_idx ≡ n
    → All (λ l. l.file_idx < n) ls
    → newest (some b) ls ≡ some b
unfolding newest
newest_keeps b [] n e h = refl
newest_keeps b (l ∷ ls) n e h =
    let stays : ltb b.file_idx l.file_idx ≡ false = ground (arith, h.0) in
    rw stays (newest_keeps b ls n e h.1)

Placed-idx {ℓ} :
    (P : Row → Type ℓ) (n : ℕ) (ls : List Latest) → Placed P n ls → All (λ l. l.file_idx < n) ls
Placed-idx P n [] p = tt
Placed-idx P n (l ∷ ls) p = (p.0.1, Placed-idx P n ls p.1)

abbrev pub entry : ℕ → Row → Latest
entry n r = record { row = r; file_idx = n }

pub newest-set_latest :
    (n : ℕ) (r : Row) (ls : List Latest) (best : Option Latest)
    → ((b : Latest) → best ≡ some b → b.file_idx < n)
    → Placed (λ x. same_id x.id r.id ≡ true → version_of x < version_of r) n ls
    → newest best (set_latest n r ls) ≡ some (entry n r)
unfolding newest set_latest
newest-set_latest n r [] none low p = refl
newest-set_latest n r [] (some b) low p =
    let up : ltb b.file_idx n ≡ true = ground (arith, low b refl) in rw up
newest-set_latest n r (l ∷ ls) none low p = elim (Bool-cases (same_id l.row.id r.id)) [
  | inr other ↦ rw other (newest-set_latest n r ls (some l) (λ b e. ground (arith, p.0.1)) p.1)
  | inl same ↦
      let new : replaces n r l ≡ true = unfold replaces in ground (arith, p.0.0 same) in
      rw (same, new) (newest_keeps (entry n r) ls n refl (Placed-idx _ n ls p.1))
]
newest-set_latest n r (l ∷ ls) (some b) low p = elim (Bool-cases (same_id l.row.id r.id)) [
  | inr other ↦ rw other (
      newest-set_latest n r ls (some (if ltb b.file_idx l.file_idx then l else b))
        (λ k e. ground (arith, p.0.1, low b refl)) p.1)
  | inl same ↦
      let new : replaces n r l ≡ true = unfold replaces in ground (arith, p.0.0 same) in
      let up : ltb b.file_idx n ≡ true = ground (arith, low b refl) in
      rw (same, new, up) (newest_keeps (entry n r) ls n refl (Placed-idx _ n ls p.1))
]
