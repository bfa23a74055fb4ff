-- ===== src/Registry/Lifecycle/Replies.antt =====
-- What each lifecycle operation replies, and what is read back after it.
use learning_loop_template.Base.{
  suc, String, ◌≡◌, ◌≢◌, refl, ◌∙◌, Bool, true, false, not, ◌&&◌, Option, none, some, List, arith,
  ◌⊎◌, inl, inr, Text, Bool-cases,
}
use learning_loop_template.Registry.Entry.{
  Entry, archived, accepted, version_of, is_change_log, is_citation, is_finding, is_archived,
  is_accepted, delete_tombstone,
}
use learning_loop_template.Registry.Projection.{
  Store, GateLine, current, already_terminal, delete_not_restorable, not_a_finding,
  already_accepted,
}
use learning_loop_template.Registry.Projection.Append.{
  with_line, current-with_line_self, current-same_files,
}
use learning_loop_template.Registry.Projection.Found.{current-id, current-IsRead}
use learning_loop_template.Registry.Files.{append_line}
use learning_loop_template.Registry.Lifecycle.Step.{
  Result, ok, Reply, done, refused, Refusal, refusal, true_append, log_violation,
}
use learning_loop_template.Registry.Lifecycle.Archive.{
  archive_line, archive_found, archive_entry, delete_line, delete_found, delete_entry,
}
use learning_loop_template.Registry.Lifecycle.Accept.{
  Accepted, accept_line, accept_found, accept_entry, is_terminal,
}
use learning_loop_template.Registry.Lifecycle.Restore.{restore_found, restore_entry}
use learning_loop_template.Registry.Lifecycle.Effect.{same_source-IsRead}

-- Lines of these kinds may be appended to `meta-state.jsonl`.
abbrev pub is_mutable : Entry → Bool
is_mutable e = not (is_change_log e.entry_kind) && not (is_citation e.entry_kind)

pub append_line-mutable :
    (s : Store) (t : Entry) → is_mutable t ≡ true → append_line false t s ≡ ok (with_line s t)
unfolding append_line true_append
append_line-mutable s t h = ground arith

module _ (s : Store) (id : String) (e : Entry) (found : current s id ≡ some e) where
  -- What is read back after a changed copy of the current line is appended.
  pub read_back :
      (t : Entry)
      → t.id ≡ e.id
      → t.entry_kind ≡ e.entry_kind
      → t.affected_system ≡ e.affected_system
      → version_of t ≡ suc (version_of e)
      → current (with_line s t) id ≡ some t
  read_back t i k y v =
      current-with_line_self s t (same_source-IsRead e t (current-IsRead s id e found) k y) id e
        found (i ∙ current-id s id e found) (omega arith)

  pub archive_ran :
      (now : Text) (reason by : Option String)
      → is_mutable e ≡ true
      → is_archived e.status ≡ false
      → archive_entry false now id reason by s ≡ (
        ok (done (record { id = id; archived_at = now })),
        with_line s (archive_line now reason by e),
      )
  unfolding archive_entry archive_found
  archive_ran now reason by free live =
      let writable : is_change_log e.entry_kind ≡ false = ground arith in
      rw (found, archive_entry)
        (rw (writable, live, append_line-mutable s (archive_line now reason by e) free))

  -- Archiving an entry that is neither archived nor a change-log or citation, where the append works,
  -- replies its id and the time as done, and the tombstone, with the next version, is what is then read for the id.
  pub archive_entry_live :
      (now : Text) (reason by : Option String)
      → is_mutable e ≡ true
      → is_archived e.status ≡ false
      → ((archive_entry false now id reason by s).0
          ≡ ok (done (record { id = id; archived_at = now })))
        × (current (archive_entry false now id reason by s).1 id
            ≡ some (archive_line now reason by e))
  archive_entry_live now reason by free live =
      rw (archive_ran now reason by free live)
        (refl, read_back (archive_line now reason by e) refl refl refl refl)

  -- Deleting an entry that is no change-log or citation, where the append works, replies its id as done,
  -- archived or not; what is then read for the id is a tombstone that `restoreEntry` refuses, with nothing written.
  pub delete_entry_final :
      (now later : Text) (reason why : Option String)
      → is_mutable e ≡ true
      → let s' = (delete_entry false now id reason s).1 in
        ((delete_entry false now id reason s).0 ≡ ok (done (record { id = id })))
        × (current s' id ≡ some (delete_line now reason e))
        × (restore_entry false later id why s' ≡ (
          ok (
              refused (record (refusal delete_not_restorable id) {
                tombstone_kind = some delete_tombstone;
              })),
          s',
        ))
  unfolding delete_entry delete_found restore_entry restore_found
  delete_entry_final now later reason why free =
      let writable : is_change_log e.entry_kind ≡ false = ground arith in
      let t = delete_line now reason e in
      rw (found, delete_entry)
        (rw (writable, append_line-mutable s t free)
          (
            refl,
            read_back t refl refl refl refl,
            rw (read_back t refl refl refl refl, restore_entry),
          ))

  -- A finding that is neither terminal nor archived is accepted where the append works: it reads back as
  -- accepted.
  pub accept_entry_open :
      (now : Text) (by reason : Option String)
      → is_finding e.entry_kind ≡ true
      → is_terminal e.status ≡ false
      → is_archived e.status ≡ false
      → current (accept_entry false now id by reason s).1 id ≡ some (accept_line now by reason e)
  unfolding accept_entry accept_found
  accept_entry_open now by reason kind runs live =
      let fresh : is_accepted e.status ≡ false = ground arith in
      let free : is_mutable e ≡ true = ground arith in
      let t = accept_line now by reason e in
      rw (found, accept_entry)
        (rw (kind, fresh, live, runs, append_line-mutable s t free)
          (read_back t refl refl refl refl))

  -- A refusal changes no more than the gate log.
  abbrev Refuses : {A : Type 0} → Result (Reply A) × Store → Type 0
  Refuses {A} out =
      (r : Refusal) × (g : List GateLine) × (out ≡ (ok (refused r), record s { gate_log = g }))

  accept_found-Refuses :
      (broken : Bool) (now : Text) (by reason : Option String)
      → (is_finding e.entry_kind ≡ false)
        ⊎ (is_terminal e.status ≡ true)
        ⊎ (is_archived e.status ≡ true)
      → Refuses (accept_found broken now id by reason e s)
  unfolding accept_found
  accept_found-Refuses broken now by reason bar = elim (Bool-cases (is_finding e.entry_kind)) [
    | inr other ↦
        (record (refusal not_a_finding id) { entry_kind = e.entry_kind }, s.gate_log, rw other)
    | inl finding ↦ elim (Bool-cases (is_accepted e.status)) [
      | inl again ↦ (
        record (refusal already_accepted id) {
          current_status = some accepted;
          current_version = some (version_of e);
        },
        s.gate_log,
        rw (finding, again),
      )
      | inr fresh ↦ elim (Bool-cases (is_archived e.status)) [
        | inl gone ↦ (
          record (refusal already_terminal id) {
            current_status = some archived;
            current_version = some (version_of e);
          },
          s.gate_log,
          rw (finding, fresh, gone),
        )
        | inr live ↦ elim (Bool-cases (is_terminal e.status)) [
          | inl closed ↦ (
            record (refusal already_terminal id) { current_status = e.status },
            (log_violation already_terminal id none e.status s).gate_log,
            rw (finding, fresh, live, closed),
          )
          | inr runs ↦ absurd (ground arith)
        ]
      ]
    ]
  ]

  -- `acceptEntry` refuses an entry that is no finding, or is resolved or accepted, or is archived, and
  -- the entry reads back as it was: an archived finding is not revived.
  pub accept_entry_closed :
      (broken : Bool) (now : Text) (by reason : Option String)
      → (is_finding e.entry_kind ≡ false)
        ⊎ (is_terminal e.status ≡ true)
        ⊎ (is_archived e.status ≡ true)
      → ((a : Accepted) → (accept_entry broken now id by reason s).0 ≢ ok (done a))
        × (current (accept_entry broken now id by reason s).1 id ≡ some e)
  unfolding accept_entry
  accept_entry_closed broken now by reason bar =
      let (r, g, out) = accept_found-Refuses broken now by reason bar in
      rw (found, accept_entry)
        (rw out
          ((λ a. cc), current-same_files s (record s { gate_log = g }) id refl refl refl ∙ found))
