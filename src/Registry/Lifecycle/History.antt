-- ===== src/Registry/Lifecycle/History.antt =====
-- What any sequence of the five lifecycle operations keeps of the registry.
use learning_loop_template.Base.{
  ℕ, suc, ◌+◌, ◌≤◌, String, ◌≡◌, refl, sym, ap, ◌∙◌, true, false, some, List, [], ◌∷◌, ◌++◌, arith,
  inl, inr, str_eq, eq_iff, eq_refl, All, Bool-cases, append-nil, append_assoc, length,
  length-append, if◌then◌else◌,
}
use learning_loop_template.Registry.Entry.{Entry, version_of}
use learning_loop_template.Registry.Projection.{Store, current}
use learning_loop_template.Registry.Projection.Append.{
  current-with_line_self, current-with_line_other, current-same_files,
}
use learning_loop_template.Registry.Lifecycle.Effect.{Effect, unchanged, appended}
use learning_loop_template.Registry.Lifecycle.Run.{
  Command, target, step, run, step-Effect, step-current_other,
}

-- The registry's files only grow: `lines` is what `meta-state.jsonl` has gained.
pub record Grown (s s' : Store) (lines : List Entry) : Type 0 where
  pub meta_state_grown : s'.meta_state ≡ s.meta_state ++ lines
  pub change_log_kept : s'.change_log ≡ s.change_log
  pub citations_kept : s'.citations ≡ s.citations

Effect-Grown :
    (s s' : Store) (id : String)
    → Effect s id s'
    → (lines : List Entry) × Grown s s' lines × (length lines ≤ 1)
Effect-Grown s s' id (unchanged m l c) = (
  [],
  record {
    meta_state_grown = m ∙ sym (append-nil s.meta_state);
    change_log_kept = l;
    citations_kept = c;
  },
  omega arith,
)
Effect-Grown s s' id (appended e t found same v read eq) = (
  t ∷ [],
  record {
    meta_state_grown = ap (λ (x : Store). x.meta_state) eq;
    change_log_kept = ap (λ (x : Store). x.change_log) eq;
    citations_kept = ap (λ (x : Store). x.citations) eq;
  },
  omega arith,
)

Grown-trans :
    (s t u : Store) (xs ys : List Entry) → Grown s t xs → Grown t u ys → Grown s u (xs ++ ys)
Grown-trans s t u xs ys g h = record {
  meta_state_grown =
      h.meta_state_grown ∙ ap (λ m. m ++ ys) g.meta_state_grown ∙ append_assoc s.meta_state xs ys;
  change_log_kept = h.change_log_kept ∙ g.change_log_kept;
  citations_kept = h.citations_kept ∙ g.citations_kept;
}

-- Whatever archivals, deletions, acceptances, restorations and shippings run, in whatever order, and
-- whichever of their appends fail: `meta-state.jsonl` keeps every line that it had, in place, and gains at most one line for each of
-- them; `change-log.jsonl` and `citations.jsonl` stay as they were.
pub run_append_only :
    (cs : List Command) (s : Store)
    → (lines : List Entry) × Grown s (run cs s) lines × (length lines ≤ length cs)
unfolding run
run_append_only [] s = (
  [],
  record {
    meta_state_grown = sym (append-nil s.meta_state);
    change_log_kept = refl;
    citations_kept = refl;
  },
  omega arith,
)
run_append_only (c ∷ cs) s =
    let (xs, g, short) = Effect-Grown s (step c s) (target c) (step-Effect c s) in
    let (ys, h, rest) = run_append_only cs (step c s) in
    (
      xs ++ ys,
      Grown-trans s (step c s) (run cs (step c s)) xs ys g h,
      omega (arith, length-append {0} xs ys),
    )

-- Archivals, deletions, acceptances, restorations and shippings of other ids leave the current line of an id as it is.
pub run-current_other :
    (cs : List Command) (s : Store) (id : String)
    → All (λ c. str_eq (target c) id ≡ false) cs
    → current (run cs s) id ≡ current s id
unfolding run
run-current_other [] s id h = refl
run-current_other (c ∷ cs) s id h =
    run-current_other cs (step c s) id h.1 ∙ step-current_other c s id h.0

-- The number of lines of an id.
unfoldable pub lines_with : String → List Entry → ℕ
lines_with id [] = 0
lines_with id (e ∷ es) = (if str_eq e.id id then 1 else 0) + lines_with id es

lines_with-append :
    (id : String) (xs ys : List Entry)
    → lines_with id (xs ++ ys) ≡ lines_with id xs + lines_with id ys
unfolding lines_with
lines_with-append id [] ys = omega arith
lines_with-append id (x ∷ xs) ys = omega (arith, lines_with-append id xs ys)

lines_with-own : (id : String) (t : Entry) → str_eq t.id id ≡ true → lines_with id (t ∷ []) ≡ 1
unfolding lines_with
lines_with-own id t h = rw h

lines_with-other : (id : String) (t : Entry) → str_eq t.id id ≡ false → lines_with id (t ∷ []) ≡ 0
unfolding lines_with
lines_with-other id t h = rw h

-- The current line of an id is still there, with a version that counts the lines added.
abbrev pub Counted : String → Store → Entry → Store → Type 0
Counted id s e s' =
    (e' : Entry) × (current s' id ≡ some e')
    × (version_of e' + lines_with id s.meta_state ≡ version_of e + lines_with id s'.meta_state)

step-Counted :
    (c : Command) (s : Store) (id : String) (e : Entry)
    → current s id ≡ some e
    → Counted id s e (step c s)
step-Counted c s id e found = go (step c s) (step-Effect c s)
  where
    go : (s' : Store) → Effect s (target c) s' → Counted id s e s'
    go s' (unchanged m l x) = (e, current-same_files s s' id m l x ∙ found, rw m)
    go s' (appended k t known same v read eq) = elim (Bool-cases (str_eq (target c) id)) [
      | inl own ↦
          let same_id : target c ≡ id = (eq_iff (target c) id).0 own in
          let one : str_eq t.id id ≡ true = rw (same, same_id, eq_refl id) in
          let known' : current s (target c) ≡ some e = rw same_id found in
          let old : k ≡ e = ground arith in
          let next : version_of t ≡ suc (version_of e) =
            v ∙ ap (λ (x : Entry). suc (version_of x)) old in
          (
            t,
            rw eq (current-with_line_self s t read id e found (same ∙ same_id) (omega arith)),
            rw eq (
                omega (arith, lines_with-append id s.meta_state (t ∷ []), lines_with-own id t one)),
          )
      | inr other ↦
          let apart : str_eq t.id id ≡ false = rw (same) other in
          (
            e,
            rw eq (current-with_line_other s t id apart ∙ found),
            rw eq (
                omega
                  (arith, lines_with-append id s.meta_state (t ∷ []), lines_with-other id t apart)),
          )
    ]

-- Whatever archivals, deletions, acceptances, restorations and shippings run, and whichever of their
-- appends fail, the current line of an
-- id never vanishes, and its version goes up by exactly one for each line of that id that they add.
pub run-Counted :
    (cs : List Command) (s : Store) (id : String) (e : Entry)
    → current s id ≡ some e
    → Counted id s e (run cs s)
unfolding run
run-Counted [] s id e found = (e, found, refl)
run-Counted (c ∷ cs) s id e found =
    let (k, known, count) = step-Counted c s id e found in
    let (e', last, more) = run-Counted cs (step c s) id k known in (e', last, omega arith)
