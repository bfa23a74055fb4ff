-- ===== src/Registry/Projection/Latest.antt =====
-- The reading of the registry against its specification: per id, the line with the highest version.
use learning_loop_template.Base.{
  String, ◌≡◌, refl, ap, ◌∙◌, inl, inr, Bool, Option, none, some, List, [], ◌∷◌, arith,
  if◌then◌else◌, str_eq, eq_iff, Bool-cases,
}
use learning_loop_template.Registry.Entry.{Entry}
use learning_loop_template.Registry.Projection.{
  replaces, merge, collapse_from, insert_sorted, sort_by, find_entry,
}

-- The line that stays when `e` is read after `kept`.
abbrev pub pick : Option Entry → Entry → Entry
pick none e = e
pick (some p) e = if replaces e p then e else p

-- The specification: one pass over the lines of one id.
unfoldable pub best : String → Option Entry → List Entry → Option Entry
best id kept [] = kept
best id kept (e ∷ es) = best id (if str_eq e.id id then some (pick kept e) else kept) es

pub find_entry-id :
    (id : String) (es : List Entry) (e : Entry) → find_entry id es ≡ some e → e.id ≡ id
unfolding find_entry
find_entry-id id [] e h = cc
find_entry-id id (x ∷ es) e h = ground (arith, eq_iff x.id id, find_entry-id id es e)

find_entry-cons :
    (id : String) (e : Entry) (xs ys : List Entry)
    → find_entry id xs ≡ find_entry id ys
    → find_entry id (e ∷ xs) ≡ find_entry id (e ∷ ys)
unfolding find_entry
find_entry-cons id e xs ys h = rw h

find-merge :
    (id : String) (e : Entry) (es : List Entry)
    → find_entry id (merge e es)
      ≡ (if str_eq e.id id then some (pick (find_entry id es) e) else find_entry id es)
unfolding find_entry merge
find-merge id e [] = ground arith
find-merge id e (p ∷ ps) =
    ground (arith, find-merge id e ps, eq_iff p.id e.id, eq_iff p.id id, eq_iff e.id id)

find-collapse :
    (id : String) (kept es : List Entry)
    → find_entry id (collapse_from kept es) ≡ best id (find_entry id kept) es
unfolding collapse_from best
find-collapse id kept [] = refl
find-collapse id kept (e ∷ es) =
    find-collapse id (merge e kept) es ∙ ap (λ o. best id o es) (find-merge id e kept)

-- No id occurs twice.
abbrev Distinct : List Entry → Type 0
Distinct [] = Unit
Distinct (e ∷ es) = (find_entry e.id es ≡ none) × Distinct es

merge-Distinct : (e : Entry) (es : List Entry) → Distinct es → Distinct (merge e es)
unfolding merge find_entry
merge-Distinct e [] d = (refl, tt)
merge-Distinct e (p ∷ ps) d = elim (Bool-cases (str_eq p.id e.id)) [
  | inl same ↦ rw same (ground (arith, eq_iff p.id e.id, d.0), d.1)
  | inr other ↦ rw other (
    rw (find-merge p.id e ps) (ground (arith, eq_iff p.id e.id, eq_iff e.id p.id, d.0)),
    merge-Distinct e ps d.1,
  )
]

collapse-Distinct : (kept es : List Entry) → Distinct kept → Distinct (collapse_from kept es)
unfolding collapse_from
collapse-Distinct kept [] d = d
collapse-Distinct kept (e ∷ es) d = collapse-Distinct (merge e kept) es (merge-Distinct e kept d)

module _ (before : Entry → Entry → Bool) where
  find-insert_sorted :
      (id : String) (e : Entry) (es : List Entry)
      → find_entry e.id es ≡ none
      → find_entry id (insert_sorted before e es) ≡ find_entry id (e ∷ es)
  unfolding find_entry insert_sorted
  find-insert_sorted id e [] h = refl
  find-insert_sorted id e (p ∷ ps) h =
      ground (arith, find-insert_sorted id e ps, eq_iff p.id e.id, eq_iff p.id id, eq_iff e.id id)

  find-sort_by :
      (id : String) (es : List Entry)
      → Distinct es
      → find_entry id (sort_by before es) ≡ find_entry id es
  unfolding sort_by
  find-sort_by id [] d = refl
  find-sort_by id (e ∷ es) d =
      find-insert_sorted id e (sort_by before es) (find-sort_by e.id es d.1 ∙ d.0)
      ∙ find_entry-cons id e (sort_by before es) es (find-sort_by id es d.1)

-- Sorting and the map by id do not change what is found for an id.
pub find-sort-collapse :
    (before : Entry → Entry → Bool) (id : String) (es : List Entry)
    → find_entry id (sort_by before (collapse_from [] es)) ≡ best id none es
find-sort-collapse before id es =
    find-sort_by before id (collapse_from [] es) (collapse-Distinct [] es tt)
    ∙ find-collapse id [] es
    ∙ (unfold find_entry in refl)
