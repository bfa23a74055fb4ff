-- ===== src/Registry/Lifecycle/Effect.antt =====
-- What any lifecycle operation may do to the store.
use learning_loop_template.Base.{
  ℕ, suc, String, Bool, true, false, ◌≡◌, refl, ap, ◌∙◌, Option, some, List, arith, ◌⊎◌, inl, inr,
  ◌&&◌, Text, Bool-cases, Option-cases, is_set,
}
use learning_loop_template.Registry.Entry.{
  Entry, version_of, read_line, is_change_log, is_citation, is_finding, is_loop_design, is_archived,
  is_accepted,
}
use learning_loop_template.Registry.Projection.{Store, GateLine, current}
use learning_loop_template.Registry.Projection.Append.{with_line}
use learning_loop_template.Registry.Projection.Found.{IsRead, current-id, current-IsRead}
use learning_loop_template.Registry.Lifecycle.Candidates.{
  found_before, found_before-IsRead, is_candidate-id,
}
use learning_loop_template.Registry.Files.{append_line}
use learning_loop_template.Registry.Lifecycle.Step.{
  Error, io_error, change_log_leak, citation_leak, ok, thrown, true_append, appending,
}
use learning_loop_template.Registry.Lifecycle.Archive.{
  archive_line, archive_found, delete_line, delete_found,
}
use learning_loop_template.Registry.Lifecycle.Accept.{
  accept_line, accept_found, ship_line, ship_found, is_terminal, is_mismatch, is_inactive,
  is_active,
}
use learning_loop_template.Registry.Lifecycle.Restore.{
  restore_line, restore_from, restore_found, is_delete,
}

-- The registry's files stay as they are, or `meta-state.jsonl` gets one more line, of the id and
-- with the version after that of the current line.
pub data Effect (s : Store) (id : String) (s' : Store) : Type 0 where
  unchanged :
      s'.meta_state ≡ s.meta_state
      → s'.change_log ≡ s.change_log
      → s'.citations ≡ s.citations
      → Effect s id s'
  appended :
      (e t : Entry)
      → current s id ≡ some e
      → t.id ≡ id
      → version_of t ≡ suc (version_of e)
      → IsRead t
      → s' ≡ with_line s t
      → Effect s id s'

-- A line made from a read line by changing neither its kind nor its system is itself as read.
pub same_source-IsRead :
    (e t : Entry)
    → IsRead e
    → t.entry_kind ≡ e.entry_kind
    → t.affected_system ≡ e.affected_system
    → IsRead t
unfolding read_line
same_source-IsRead e t h k a = ground (arith, ap (λ (x : Entry). x.entry_kind) h)

append_line-cases :
    (broken : Bool) (s : Store) (t : Entry)
    → (append_line broken t s ≡ ok (with_line s t))
      ⊎ ((x : Error) × (append_line broken t s ≡ thrown x))
unfolding append_line true_append
append_line-cases true s t = inr (io_error, refl)
append_line-cases false s t =
    elim (Bool-cases (is_set s.change_log && is_change_log t.entry_kind)) [
      | inl leak ↦ inr (change_log_leak, rw leak)
      | inr fine ↦ elim (Bool-cases (is_citation t.entry_kind)) [
        | inl cited ↦ inr (citation_leak, rw (fine, cited))
        | inr plain ↦ inl (rw (fine, plain))
      ]
    ]

-- Only the gate log may change.
pub logged-Effect :
    (s : Store) (id : String) (g : List GateLine) → Effect s id (record s { gate_log = g })
logged-Effect s id g = unchanged refl refl refl

module _ (s : Store) (id : String) (e : Entry) (found : current s id ≡ some e) (broken : Bool) where
  -- An append of a changed copy of a read line `p` with the id.
  pub appending-Effect :
      {A : Type 0} (p t : Entry) (a : A)
      → IsRead p
      → p.id ≡ id
      → t.id ≡ p.id
      → t.entry_kind ≡ p.entry_kind
      → t.affected_system ≡ p.affected_system
      → version_of t ≡ suc (version_of e)
      → Effect s id (appending (append_line broken t s) a s).1
  appending-Effect p t a r same i k y v = elim (append_line-cases broken s t) [
    | inl fine ↦ rw fine (appended e t found (i ∙ same) v (same_source-IsRead p t r k y) refl)
    | inr (x, bad) ↦ rw bad (unchanged refl refl refl)
  ]

  own-Effect :
      {A : Type 0} (t : Entry) (a : A)
      → t.id ≡ e.id
      → t.entry_kind ≡ e.entry_kind
      → t.affected_system ≡ e.affected_system
      → version_of t ≡ suc (version_of e)
      → Effect s id (appending (append_line broken t s) a s).1
  own-Effect t a = appending-Effect e t a (current-IsRead s id e found) (current-id s id e found)

  pub archive_found-Effect :
      (now : Text) (reason by : Option String)
      → Effect s id (archive_found broken now id reason by e s).1
  unfolding archive_found
  archive_found-Effect now reason by = elim (Bool-cases (is_change_log e.entry_kind)) [
    | inl log ↦ rw log (unchanged refl refl refl)
    | inr fine ↦ elim (Bool-cases (is_archived e.status)) [
      | inl gone ↦ rw (fine, gone) (unchanged refl refl refl)
      | inr live ↦ rw (fine, live) (own-Effect (archive_line now reason by e) _ refl refl refl refl)
    ]
  ]

  pub delete_found-Effect :
      (now : Text) (reason : Option String) → Effect s id (delete_found broken now id reason e s).1
  unfolding delete_found
  delete_found-Effect now reason = elim (Bool-cases (is_change_log e.entry_kind)) [
    | inl log ↦ rw log (unchanged refl refl refl)
    | inr fine ↦ rw fine (own-Effect (delete_line now reason e) _ refl refl refl refl)
  ]

  pub accept_found-Effect :
      (now : Text) (by reason : Option String)
      → Effect s id (accept_found broken now id by reason e s).1
  unfolding accept_found
  accept_found-Effect now by reason = elim (Bool-cases (is_finding e.entry_kind)) [
    | inr other ↦ rw other (unchanged refl refl refl)
    | inl finding ↦ elim (Bool-cases (is_accepted e.status)) [
      | inl again ↦ rw (finding, again) (unchanged refl refl refl)
      | inr fresh ↦ elim (Bool-cases (is_archived e.status)) [
        | inl gone ↦ rw (finding, fresh, gone) (unchanged refl refl refl)
        | inr live ↦ elim (Bool-cases (is_terminal e.status)) [
          | inl closed ↦ rw (finding, fresh, live, closed) (unchanged refl refl refl)
          | inr runs ↦
              rw (finding, fresh, live, runs)
                (own-Effect (accept_line now by reason e) _ refl refl refl refl)
        ]
      ]
    ]
  ]

  pub ship_found-Effect :
      (now : Text) (plan : String) (expected : Option ℕ)
      → Effect s id (ship_found broken now id plan expected e s).1
  unfolding ship_found
  ship_found-Effect now plan expected = elim (Bool-cases (is_loop_design e.entry_kind)) [
    | inr other ↦ rw other (unchanged refl refl refl)
    | inl design ↦ elim (Bool-cases (is_mismatch expected (version_of e))) [
      | inl stale ↦ rw (design, stale) (unchanged refl refl refl)
      | inr same ↦ elim (Bool-cases (is_inactive e.status)) [
        | inl again ↦ rw (design, same, again) (unchanged refl refl refl)
        | inr fresh ↦ elim (Bool-cases (is_active e.status)) [
          | inr other ↦ rw (design, same, fresh, other) (unchanged refl refl refl)
          | inl live ↦
              rw (design, same, fresh, live)
                (own-Effect (ship_line now plan e) _ refl refl refl refl)
        ]
      ]
    ]
  ]

  pub restore_found-Effect :
      (now : Text) (reason : Option String) → Effect s id (restore_found broken now id reason e s).1
  unfolding restore_found restore_from
  restore_found-Effect now reason = elim (Bool-cases (is_archived e.status)) [
    | inr live ↦ rw live (unchanged refl refl refl)
    | inl gone ↦ elim (Bool-cases (is_delete e.tombstone_kind)) [
      | inl deleted ↦ rw (gone, deleted) (unchanged refl refl refl)
      | inr kept ↦
          rw (gone, kept)
            (elim (Option-cases (found_before s id (version_of e))) [
              | inl nothing ↦ rw nothing (unchanged refl refl refl)
              | inr (p, line) ↦
                  let (read, good) = found_before-IsRead s id (version_of e) p line in
                  rw line (
                    appending-Effect p (restore_line (version_of e) p) _ read
                      (is_candidate-id id (version_of e) p good) refl refl refl refl)
            ])
    ]
  ]
