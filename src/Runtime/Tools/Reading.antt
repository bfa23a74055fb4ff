-- ===== src/Runtime/Tools/Reading.antt =====
-- What is read after a row of the surface has been appended.
use learning_loop_template.Base.{
  ◌+◌, ◌<◌, String, ◌≡◌, refl, sym, ap, ◌∙◌, Bool, true, false, not, ◌||◌, Option, none, List, [],
  ◌∷◌, ◌++◌, arith, inl, inr, ltb, All, append-nil, Bool-cases, select, any_of, length,
}
use learning_loop_template.Runtime.Row.{Row, RowStatus, version_of}
use learning_loop_template.Runtime.Append.{Sidecar, ok, same_id, is_lifecycle, Above, add_row}
use learning_loop_template.Runtime.Tracking.{
  has_id, collapse_from, newest, is_surface_row, surface_rows, status_of,
  read_budget_tracking_state,
}
use learning_loop_template.Runtime.Tracking.Newest.{
  collapse-append, collapse-Placed, newest-set_latest,
}

select-append {ℓ} :
    {A : Type ℓ} (p : A → Bool) (xs ys : List A) → select p (xs ++ ys) ≡ select p xs ++ select p ys
unfolding select
select-append p [] ys = refl
select-append p (x ∷ xs) ys = elim (Bool-cases (p x)) [
  | inl keep ↦ rw keep (ap (◌∷◌ x) (select-append p xs ys))
  | inr leave ↦ rw leave (select-append p xs ys)
]

any_of-append {ℓ} :
    {A : Type ℓ} (p : A → Bool) (xs ys : List A)
    → any_of p (xs ++ ys) ≡ (any_of p xs || any_of p ys)
unfolding any_of
any_of-append p [] ys = refl
any_of-append p (x ∷ xs) ys = ground (arith, any_of-append p xs ys)

pub select-All {ℓ κ} :
    {A : Type ℓ} (P : A → Type κ) (p : A → Bool) (xs : List A) → All P xs → All P (select p xs)
unfolding select
select-All P p [] h = tt
select-All P p (x ∷ xs) h = elim (Bool-cases (p x)) [
  | inl keep ↦ rw keep (h.0, select-All P p xs h.1)
  | inr leave ↦ rw leave (select-All P p xs h.1)
]

-- The last row, above the rows of its id, is the newest.
newest-last :
    (rs : List Row) (r : Row)
    → has_id r ≡ true
    → Above r.id (version_of r) rs
    → status_of (newest none (collapse_from 0 [] (rs ++ r ∷ []))) ≡ r.status
newest-last rs r named above =
    ap (λ ls. status_of (newest none ls)) (collapse-append 0 [] rs r named)
    ∙ ap status_of (
        newest-set_latest (0 + length rs) r (collapse_from 0 [] rs) none (λ b e. cc)
          (collapse-Placed (λ x. same_id x.id r.id ≡ true → version_of x < version_of r) 0 [] rs tt
            above))

-- What the reading requires of the sidecar before the row is appended.
pub read_ok :
    (surface : String) (c : Sidecar) (st : Option RowStatus)
    → read_budget_tracking_state surface c ≡ ok st
    → (ltb 0 c.committed.malformed ≡ false)
      × (any_of (λ r. not (is_lifecycle r.status)) (surface_rows surface c) ≡ false)
unfolding read_budget_tracking_state
read_ok surface c st h = ground arith

module _ (surface : String) (c : Sidecar) (r : Row) (st : Option RowStatus)
    (readable : read_budget_tracking_state surface c ≡ ok st) (named : has_id r ≡ true)
    (own : is_surface_row surface r ≡ true) (lives : is_lifecycle r.status ≡ true) where
  read_last :
      (c' : Sidecar)
      → surface_rows surface c' ≡ surface_rows surface c ++ r ∷ []
      → c'.committed.malformed ≡ c.committed.malformed
      → Above r.id (version_of r) (surface_rows surface c)
      → read_budget_tracking_state surface c' ≡ ok r.status
  unfolding read_budget_tracking_state any_of
  read_last c' rows clean above =
      let (whole, valid) = read_ok surface c st readable in
      let still : any_of (λ x. not (is_lifecycle x.status)) (surface_rows surface c ++ r ∷ [])
          ≡ false =
        any_of-append (λ x. not (is_lifecycle x.status)) (surface_rows surface c) (r ∷ [])
        ∙ (rw (valid, lives)) in
      rw (clean, whole, rows, still) (ap ok (newest-last (surface_rows surface c) r named above))

  -- After a row of the surface is appended to the committed substrate, its status is read, if the
  -- session-local substrate holds no row of the surface.
  pub read-add_committed :
      select (is_surface_row surface) c.session_local.rows ≡ []
      → Above r.id (version_of r) c.committed.rows
      → read_budget_tracking_state surface (record c { committed = add_row r c.committed })
        ≡ ok r.status
  unfolding select
  read-add_committed alone above =
      read_last (record c { committed = add_row r c.committed })
        (select-append p (c.committed.rows ++ r ∷ []) c.session_local.rows
          ∙ (rw (alone, append-nil)
              (select-append p c.committed.rows (r ∷ []) ∙ (rw own (sym both)))))
        refl (rw (split) (select-All _ p c.committed.rows above))
    where
      p : Row → Bool
      p = is_surface_row surface

      split : surface_rows surface c ≡ select p c.committed.rows
      split = select-append p c.committed.rows c.session_local.rows ∙ (rw (alone, append-nil))

      both : surface_rows surface c ++ r ∷ [] ≡ select p c.committed.rows ++ r ∷ []
      both = ap (λ rs. rs ++ r ∷ []) split
