-- ===== src/Registry/Projection/Append.antt =====
-- One more line in `meta-state.jsonl`: how the reading of the registry changes.
use learning_loop_template.Base.{
  ◌<◌, String, ◌≡◌, refl, sym, ap, ◌∙◌, false, none, some, List, [], ◌∷◌, ◌++◌, map, str_eq,
  append_assoc, All, All-append, All-append_left, All-append_right, Has, Has-middle,
}
use mathlib.Core.Path.{subst}
use mathlib.Core.List.{map-append}
use learning_loop_template.Registry.Entry.{Entry, version_of, read_line, with_defaults}
use learning_loop_template.Registry.Projection.{
  Store, lines_of, read_raw_lines, read_registry, current,
}
use learning_loop_template.Registry.Projection.Found.{current-best, IsRead, current_max}
use learning_loop_template.Registry.Projection.Best.{Under, best_top, best_other, best_first}

-- `s` after `trueAppendAtomic` on `meta-state.jsonl`.
abbrev pub with_line : Store → Entry → Store
with_line s t = record s { meta_state = s.meta_state ++ t ∷ [] }

pub version_of-read_line : (t : Entry) → version_of (read_line t) ≡ version_of t
unfolding read_line with_defaults
version_of-read_line t = refl

pub id_read_line : (t : Entry) → (read_line t).id ≡ t.id
unfolding read_line with_defaults
id_read_line t = refl

module _ (s : Store) (t : Entry) where
  before_line : List Entry
  before_line = map read_line s.meta_state

  after_line : List Entry
  after_line = map read_line (lines_of s.change_log ++ s.citations)

  raw_split : read_raw_lines s ≡ before_line ++ after_line
  unfolding read_raw_lines before_line after_line
  raw_split = map-append read_line s.meta_state (lines_of s.change_log ++ s.citations)

  raw_with_line : read_raw_lines (with_line s t) ≡ before_line ++ read_line t ∷ after_line
  unfolding read_raw_lines before_line after_line
  raw_with_line =
      ap (map read_line) (append_assoc s.meta_state (t ∷ []) (lines_of s.change_log ++ s.citations))
      ∙ map-append read_line s.meta_state (t ∷ (lines_of s.change_log ++ s.citations))

  pub with_line-Has :
      (e : Entry) → Has e (read_raw_lines s) → Has e (read_raw_lines (with_line s t))
  with_line-Has e h =
      rw raw_with_line (Has-middle e (read_line t) before_line after_line (rw raw_split at h))

  pub with_line-All {ℓ} :
      (P : Entry → Type ℓ)
      → All P (read_raw_lines s)
      → P (read_line t)
      → All P (read_raw_lines (with_line s t))
  with_line-All P all new =
      let split = subst (All P) raw_split all in
      rw raw_with_line (
        All-append P before_line (read_line t ∷ after_line)
          (All-append_left P before_line after_line split)
          (new, All-append_right P before_line after_line split))

  -- The new line, with a version above the one found, becomes the current line of its id, as it is
  -- read.
  pub current-appended :
      (id : String) (e : Entry)
      → current s id ≡ some e
      → t.id ≡ id
      → version_of e < version_of t
      → current (with_line s t) id ≡ some (read_line t)
  current-appended id e found same above =
      let own : (read_line t).id ≡ id = id_read_line t ∙ same in
      current-best (with_line s t) id
      ∙ (rw (raw_with_line, ← own)
          (best_top (read_line t) (version_of e) before_line after_line
            (subst (Under (read_line t).id (version_of e)) raw_split
              (rw own (current_max s id e found)))
            (rw (version_of-read_line t) above)))

  -- The first line of an id becomes its current line, as it is read.
  pub current-appended_fresh :
      (id : String)
      → current s id ≡ none
      → t.id ≡ id
      → current (with_line s t) id ≡ some (read_line t)
  current-appended_fresh id none_yet same =
      let own : (read_line t).id ≡ id = id_read_line t ∙ same in
      current-best (with_line s t) id
      ∙ (rw (raw_with_line, ← own)
          (best_first (read_line t) before_line after_line
            (rw (← own) at (rw raw_split at (sym (current-best s id) ∙ none_yet)))))

  -- No other id is affected.
  pub current-with_line_other :
      (id : String) → str_eq t.id id ≡ false → current (with_line s t) id ≡ current s id
  current-with_line_other id other =
      current-best (with_line s t) id
      ∙ (rw (raw_with_line, current-best s id, raw_split)
          (best_other id (read_line t) before_line after_line (rw (id_read_line t) other)))

  -- A line that the reading leaves as it is.
  pub current-with_line_self :
      IsRead t
      → (id : String) (e : Entry) → current s id ≡ some e
      → t.id ≡ id
      → version_of e < version_of t
      → current (with_line s t) id ≡ some t
  current-with_line_self read id e found same above =
      current-appended id e found same above ∙ ap some read

-- Only the three files are read.
pub current-same_files :
    (s s' : Store) (id : String)
    → s'.meta_state ≡ s.meta_state
    → s'.change_log ≡ s.change_log
    → s'.citations ≡ s.citations
    → current s' id ≡ current s id
unfolding current read_registry read_raw_lines
current-same_files s s' id m l c = rw (m, l, c)
