-- ===== src/Registry/Lifecycle/RoundTrip.antt =====
-- Archiving an entry and restoring it gives back the entry.
use learning_loop_template.Base.{
  ℕ, suc, ◌≤◌, ◌<◌, String, ◌≡◌, refl, ap, ◌∙◌, Bool, true, false, Option, none, some, List, [],
  ◌∷◌, arith, ◌⊎◌, inl, inr, if◌then◌else◌, Text, All, Bool-cases, select, Has, str_eq, eq_iff, ltb,
}
use learning_loop_template.Registry.Entry.{Entry, version_of, is_archived}
use learning_loop_template.Registry.Projection.{
  Store, current, read_registry_all_versions, read_raw_lines, insert_sorted, sort_by,
  version_before,
}
use learning_loop_template.Registry.Projection.Append.{with_line, with_line-Has, with_line-All}
use learning_loop_template.Registry.Projection.Found.{
  IsRead, current-id, current-IsRead, current-Has,
}
use learning_loop_template.Registry.Lifecycle.Archive.{archive_line, archive_entry}
use learning_loop_template.Registry.Lifecycle.Restore.{
  restore_line, restore_from, restore_found, restore_entry, is_candidate, pre_tombstone,
}
use learning_loop_template.Registry.Lifecycle.Candidates.{found_before, found_before-All}
use learning_loop_template.Registry.Lifecycle.Replies.{
  is_mutable, archive_ran, read_back, append_line-mutable,
}
use learning_loop_template.Registry.Lifecycle.Effect.{same_source-IsRead}

Has-select :
    (p : Entry → Bool) (e : Entry) (es : List Entry) → p e ≡ true → Has e es → Has e (select p es)
unfolding select
Has-select p e [] good h = absurd h
Has-select p e (x ∷ es) good (inl here) =
    let taken : p x ≡ true = rw here good in rw taken (inl here)
Has-select p e (x ∷ es) good (inr there) = elim (Bool-cases (p x)) [
  | inl keep ↦ rw keep (inr (Has-select p e es good there))
  | inr leave ↦ rw leave (Has-select p e es good there)
]

module _ (before : Entry → Entry → Bool) where
  Has-insert_sorted :
      (e x : Entry) (es : List Entry) → (x ≡ e) ⊎ Has e es → Has e (insert_sorted before x es)
  unfolding insert_sorted
  Has-insert_sorted e x [] h = h
  Has-insert_sorted e x (p ∷ ps) h = elim (Bool-cases (before p x)) [
    | inr here ↦ rw here h
    | inl later ↦ rw later (elim h [
      | inl new ↦ inr (Has-insert_sorted e x ps (inl new))
      | inr (inl first) ↦ inl first
      | inr (inr rest) ↦ inr (Has-insert_sorted e x ps (inr rest))
    ])
  ]

  Has-sort_by : (e : Entry) (es : List Entry) → Has e es → Has e (sort_by before es)
  unfolding sort_by
  Has-sort_by e [] h = absurd h
  Has-sort_by e (x ∷ es) (inl here) = Has-insert_sorted e x (sort_by before es) (inl here)
  Has-sort_by e (x ∷ es) (inr there) =
      Has-insert_sorted e x (sort_by before es) (inr (Has-sort_by e es there))

-- The loop over the candidates finds a line at least as high as each of them.
pre_tombstone-some :
    (p : Entry) (es : List Entry)
    → (k : Entry) × (pre_tombstone (some p) es ≡ some k) × (version_of p ≤ version_of k)
unfolding pre_tombstone
pre_tombstone-some p [] = (p, refl, omega arith)
pre_tombstone-some p (x ∷ es) = elim (Bool-cases (ltb (version_of p) (version_of x))) [
  | inl newer ↦
      let (k, found, high) = pre_tombstone-some x es in
      let less : version_of p < version_of x = ground arith in (k, rw newer found, omega arith)
  | inr older ↦ let (k, found, high) = pre_tombstone-some p es in (k, rw older found, high)
]

pre_tombstone-high :
    (found : Option Entry) (es : List Entry) (e : Entry)
    → Has e es
    → (k : Entry) × (pre_tombstone found es ≡ some k) × (version_of e ≤ version_of k)
unfolding pre_tombstone
pre_tombstone-high none [] e h = absurd h
pre_tombstone-high (some p) [] e h = absurd h
pre_tombstone-high none (x ∷ es) e (inl here) = rw (← here) (pre_tombstone-some x es)
pre_tombstone-high none (x ∷ es) e (inr there) = pre_tombstone-high (some x) es e there
pre_tombstone-high (some p) (x ∷ es) e (inr there) =
    pre_tombstone-high (some (if ltb (version_of p) (version_of x) then x else p)) es e there
pre_tombstone-high (some p) (x ∷ es) e (inl here) =
    elim (Bool-cases (ltb (version_of p) (version_of x))) [
      | inl newer ↦ rw newer (rw (← here) (pre_tombstone-some x es))
      | inr older ↦
          let (k, found, high) = pre_tombstone-some p es in
          let less : version_of x ≤ version_of p = ground arith in
          (k, rw older found, rw (← here) (omega arith))
    ]

found_before-high :
    (s : Store) (id : String) (v : ℕ) (e : Entry)
    → Has e (read_raw_lines s)
    → is_candidate id v e ≡ true
    → (k : Entry) × (found_before s id v ≡ some k) × (version_of e ≤ version_of k)
unfolding read_registry_all_versions
found_before-high s id v e here good =
    pre_tombstone-high none (select (is_candidate id v) (read_registry_all_versions s)) e (
      Has-select (is_candidate id v) e (read_registry_all_versions s) good
        (Has-sort_by version_before e (read_raw_lines s) here))

-- No other line of the id has the version of `e`.
abbrev pub IsOnly : String → Entry → Store → Type 0
IsOnly id e s =
    All (λ x. str_eq x.id id ≡ true → version_of x ≡ version_of e → x ≡ e) (read_raw_lines s)

module _ (s : Store) (id : String) (e : Entry) (found : current s id ≡ some e) where
  e_id : str_eq e.id id ≡ true
  e_id = (eq_iff e.id id).1 (current-id s id e found)

  -- In the archived store, the line before the tombstone is `e`.
  found_before-archived :
      (t : Entry)
      → IsRead t
      → version_of t ≡ suc (version_of e)
      → is_archived e.status ≡ false
      → IsOnly id e s
      → found_before (with_line s t) id (suc (version_of e)) ≡ some e
  found_before-archived t read next live only =
      let good : is_candidate id (suc (version_of e)) e ≡ true =
        unfold is_candidate in ground (arith, e_id) in
      let (k, there, high) =
        found_before-high (with_line s t) id (suc (version_of e)) e
          (with_line-Has s t e (current-Has s id e found)) good in
      let (same, cand) =
        found_before-All (λ x. str_eq x.id id ≡ true → version_of x ≡ version_of e → x ≡ e)
          (with_line s t) id (suc (version_of e)) k
          (with_line-All s t _ only (rw read (λ _ v. absurd (omega arith)))) there in
      let (k_id, low) = parts k cand in there ∙ ap some (same k_id (omega arith))
    where
      parts :
          (k : Entry)
          → is_candidate id (suc (version_of e)) k ≡ true
          → (str_eq k.id id ≡ true) × (version_of k ≤ version_of e)
      parts k c = unfold is_candidate in ground arith

  -- Archiving a live entry and restoring it, where the appends work, gives back the entry as it was, two versions on and with
  -- no archive marks, where no other line of the id has its version.
  pub restore-archive :
      (now later : Text) (reason by why : Option String)
      → is_mutable e ≡ true
      → is_archived e.status ≡ false
      → IsOnly id e s
      → current (restore_entry false later id why (archive_entry false now id reason by s).1).1 id
        ≡ some (restore_line (suc (version_of e)) e)
  unfolding restore_entry restore_found restore_from
  restore-archive now later reason by why free live only =
      let t = archive_line now reason by e in
      let read = same_source-IsRead e t (current-IsRead s id e found) refl refl in
      let back : current (with_line s t) id ≡ some t =
        read_back s id e found t refl refl refl refl in
      let r = restore_line (suc (version_of e)) e in
      rw (archive_ran s id e found now reason by free live) (
        rw (back, restore_entry)
          (rw
            (
              found_before-archived t read refl live only,
              append_line-mutable (with_line s t) r free,
            )
            (read_back (with_line s t) id t back r refl refl refl refl)))
