-- ===== src/Registry/Projection/Found.antt =====
-- The line that is found for an id: the first of the highest version and, among those, of the latest
-- creation time.
use learning_loop_template.Base.{
  String, ◌≡◌, refl, sym, ◌∙◌, inl, inr, true, none, some, List, [], ◌∷◌, ◌++◌, map, arith, eq_refl,
  All, Has, is_set,
}
use learning_loop_template.Registry.Entry.{Entry, version_of, read_line}
use learning_loop_template.Registry.Projection.{
  Store, lines_of, read_raw_lines, read_registry, current, created_before,
}
use learning_loop_template.Registry.Projection.Latest.{best, find-sort-collapse, find_entry-id}
use learning_loop_template.Registry.Projection.Best.{
  Under, best_max, best_all, best-Has, best-found,
}

-- What the sorted projection of the registry holds for an id is what one pass over the lines of the
-- three files keeps: the line of the highest version, among those the one of the latest creation
-- time, and among those the first.
pub current-best : (s : Store) (id : String) → current s id ≡ best id none (read_raw_lines s)
unfolding current read_registry
current-best s id = find-sort-collapse created_before id (read_raw_lines s)

-- A line that `readRawLines` leaves as it is.
abbrev pub IsRead : Entry → Type 0
IsRead e = read_line e ≡ e

pub read_line-IsRead : (e : Entry) → IsRead (read_line e)
unfolding read_line
read_line-IsRead e = ground arith

pub map-IsRead : (es : List Entry) → All IsRead (map read_line es)
map-IsRead [] = tt
map-IsRead (e ∷ es) = (read_line-IsRead e, map-IsRead es)

pub raw_lines-IsRead : (s : Store) → All IsRead (read_raw_lines s)
unfolding read_raw_lines
raw_lines-IsRead s = map-IsRead (s.meta_state ++ (lines_of s.change_log ++ s.citations))

module _ (s : Store) (id : String) (e : Entry) (found : current s id ≡ some e) where
  is_best : best id none (read_raw_lines s) ≡ some e
  is_best = sym (current-best s id) ∙ found

  pub current-Has : Has e (read_raw_lines s)
  current-Has = elim (best-Has id none (read_raw_lines s) e is_best) [
    | inl never ↦ cc
    | inr there ↦ there
  ]

  pub current-id : e.id ≡ id
  unfolding current
  current-id = find_entry-id id (read_registry s) e found

  pub current-IsRead : IsRead e
  unfolding read_raw_lines
  current-IsRead = best_all IsRead id none (read_raw_lines s) (map-IsRead _) (λ k p. cc) e is_best

  -- The line found for an id has the highest version of its lines.
  pub current_max : Under id (version_of e) (read_raw_lines s)
  current_max = (best_max id none (read_raw_lines s) e is_best).0

-- Every line of the three files has a current line of its id.
pub current-line :
    (s : Store) (x : Entry) → Has x (read_raw_lines s) → is_set (current s x.id) ≡ true
current-line s x here =
    let (e, found) = best-found x.id none (read_raw_lines s) x here (eq_refl x.id) in
    let now : current s x.id ≡ some e = current-best s x.id ∙ found in rw now refl
