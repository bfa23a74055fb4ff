-- ===== src/Registry/Lifecycle/Run.antt =====
-- Sequences of lifecycle operations, in the order in which they take the registry lock.
use learning_loop_template.Base.{
  ℕ, String, Bool, ◌≡◌, refl, false, Option, List, [], ◌∷◌, inl, inr, str_eq, Text, Option-cases,
}
use learning_loop_template.Registry.Projection.{Store, current}
use learning_loop_template.Registry.Projection.Append.{current-with_line_other, current-same_files}
use learning_loop_template.Registry.Lifecycle.Archive.{archive_entry, delete_entry}
use learning_loop_template.Registry.Lifecycle.Accept.{accept_entry, ship_loop_design}
use learning_loop_template.Registry.Lifecycle.Restore.{restore_entry}
use learning_loop_template.Registry.Lifecycle.Effect.{
  Effect, unchanged, appended, archive_found-Effect, delete_found-Effect, accept_found-Effect,
  ship_found-Effect, restore_found-Effect,
}

-- A command says whether its append fails in the file system.
pub data Command : Type 0 where
  archive : Bool → Text → String → Option String → Option String → Command
  delete : Bool → Text → String → Option String → Command
  accept : Bool → Text → String → Option String → Option String → Command
  restore : Bool → Text → String → Option String → Command
  ship : Bool → Text → String → String → Option ℕ → Command

abbrev pub target : Command → String
target (archive _ _ id _ _) = id
target (delete _ _ id _) = id
target (accept _ _ id _ _) = id
target (restore _ _ id _) = id
target (ship _ _ id _ _) = id

-- The store after one operation, whether it replied or threw.
unfoldable pub step : Command → Store → Store
unfolding archive_entry delete_entry accept_entry restore_entry ship_loop_design
step (archive broken now id reason by) s = (archive_entry broken now id reason by s).1
step (delete broken now id reason) s = (delete_entry broken now id reason s).1
step (accept broken now id by reason) s = (accept_entry broken now id by reason s).1
step (restore broken now id reason) s = (restore_entry broken now id reason s).1
step (ship broken now id plan expected) s = (ship_loop_design broken now id plan expected s).1

unfoldable pub run : List Command → Store → Store
run [] s = s
run (c ∷ cs) s = run cs (step c s)

-- Every operation has the effect that its target allows.
pub step-Effect : (c : Command) (s : Store) → Effect s (target c) (step c s)
unfolding step
step-Effect (archive broken now id reason by) s = elim (Option-cases (current s id)) [
  | inl missing ↦ rw (missing, step) (unchanged refl refl refl)
  | inr (e, found) ↦ rw (found, step) (archive_found-Effect s id e found broken now reason by)
]
step-Effect (delete broken now id reason) s = elim (Option-cases (current s id)) [
  | inl missing ↦ rw (missing, step) (unchanged refl refl refl)
  | inr (e, found) ↦ rw (found, step) (delete_found-Effect s id e found broken now reason)
]
step-Effect (accept broken now id by reason) s = elim (Option-cases (current s id)) [
  | inl missing ↦ rw (missing, step) (unchanged refl refl refl)
  | inr (e, found) ↦ rw (found, step) (accept_found-Effect s id e found broken now by reason)
]
step-Effect (restore broken now id reason) s = elim (Option-cases (current s id)) [
  | inl missing ↦ rw (missing, step) (unchanged refl refl refl)
  | inr (e, found) ↦ rw (found, step) (restore_found-Effect s id e found broken now reason)
]
step-Effect (ship broken now id plan expected) s = elim (Option-cases (current s id)) [
  | inl missing ↦ rw (missing, step) (unchanged refl refl refl)
  | inr (e, found) ↦ rw (found, step) (ship_found-Effect s id e found broken now plan expected)
]

-- An operation does not touch what is found for another id.
pub step-current_other :
    (c : Command) (s : Store) (id : String)
    → str_eq (target c) id ≡ false
    → current (step c s) id ≡ current s id
step-current_other c s id other = go (step c s) (step-Effect c s)
  where
    go : (s' : Store) → Effect s (target c) s' → current s' id ≡ current s id
    go s' (unchanged m l x) = current-same_files s s' id m l x
    go s' (appended e t found same v read eq) =
        rw eq (current-with_line_other s t id (rw same other))
