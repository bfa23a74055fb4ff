-- ===== src/Runtime/Tracking.antt =====
-- The reading of the tracking lifecycle (tools/learning-loop-mastra/core/runtime-state.js:
-- `collapseLatestById`, `readBudgetTrackingState`; core/runtime-tracking.js: `isSurfacePaused`).
pub mod Newest
use learning_loop_template.Base.{
  ℕ, zero, suc, ◌+◌, ◌≤◌, ◌<◌, String, ◌≡◌, ◌≢◌, refl, sym, ap, ◌∙◌, Bool, true, false, not, ◌&&◌,
  ◌||◌, Option, none, some, List, [], ◌∷◌, ◌++◌, arith, ◌⊎◌, inl, inr, ltb, leb, ◌==◌,
  if◌then◌else◌, str_eq, eq_iff, eq_refl, All, Bool-cases, Option-cases, select, any_of, text_lt,
  text_eq, length,
}
use learning_loop_template.Runtime.Row.{
  RowKind, budget_state, RowStatus, paused, stopped, Row, version_of, timestamp_key,
}
use learning_loop_template.Runtime.Append.{
  Substrate, Sidecar, Error, budget_tracking_corrupt, Result, ok, thrown, same_id, is_lifecycle,
  Above,
}

-- An entry of `byId`: the row that is kept for its id, and its place in the list.
pub record Latest : Type 0 where
  pub row : Row
  pub file_idx : ℕ

-- Does the row at `idx` replace `prior`?
unfoldable pub replaces : ℕ → Row → Latest → Bool
replaces idx r prior =
    ltb (version_of prior.row) (version_of r)
    || (version_of r == version_of prior.row
        && (text_lt (timestamp_key prior.row) (timestamp_key r)
            || (text_eq (timestamp_key r) (timestamp_key prior.row) && leb prior.file_idx idx)))

-- `typeof id !== "string" || id === ""`
abbrev pub has_id : Row → Bool
has_id r = elim r.id [ none ↦ false | some i ↦ not (str_eq i "") ]

unfoldable pub set_latest : ℕ → Row → List Latest → List Latest
set_latest idx r [] = record { row = r; file_idx = idx } ∷ []
set_latest idx r (p ∷ ps) =
    if same_id p.row.id r.id
    then (if replaces idx r p then record { row = r; file_idx = idx } else p) ∷ ps
    else p ∷ set_latest idx r ps

unfoldable pub collapse_from : ℕ → List Latest → List Row → List Latest
collapse_from idx by_id [] = by_id
collapse_from idx by_id (r ∷ rs) =
    collapse_from (suc idx) (if has_id r then set_latest idx r by_id else by_id) rs

-- `collapseLatestById`
abbrev pub collapse_latest_by_id : List Row → List Latest
collapse_latest_by_id = collapse_from 0 []

-- The head after the sort by descending `fileIdx`, which no two entries share.
unfoldable pub newest : Option Latest → List Latest → Option Latest
newest best [] = best
newest none (x ∷ xs) = newest (some x) xs
newest (some b) (x ∷ xs) = newest (some (if ltb b.file_idx x.file_idx then x else b)) xs

abbrev pub is_budget : Option RowKind → Bool
is_budget (some budget_state) = true
is_budget _ = false

abbrev pub is_surface_row : String → Row → Bool
is_surface_row surface r = is_budget r.kind && str_eq r.affected_system surface

abbrev pub status_of : Option Latest → Option RowStatus
status_of none = none
status_of (some l) = l.row.status

-- The rows of the surface in the merged reading, the committed ones first.
abbrev pub surface_rows : String → Sidecar → List Row
surface_rows surface c = select (is_surface_row surface) (c.committed.rows ++ c.session_local.rows)

unfoldable pub read_budget_tracking_state : String → Sidecar → Result (Option RowStatus)
read_budget_tracking_state surface c =
    if ltb 0 c.committed.malformed
    then thrown budget_tracking_corrupt
    else if any_of (λ r. not (is_lifecycle r.status)) (surface_rows surface c)
    then thrown budget_tracking_corrupt
    else ok (status_of (newest none (collapse_latest_by_id (surface_rows surface c))))

abbrev pub is_paused : Option RowStatus → Bool
is_paused (some paused) = true
is_paused (some stopped) = true
is_paused _ = false

-- `isSurfacePaused`
unfoldable pub is_surface_paused : String → Sidecar → Result Bool
is_surface_paused surface c = elim (read_budget_tracking_state surface c) [
  | ok st ↦ ok (is_paused st)
  | thrown e ↦ thrown e
]
