-- ===== src/Runtime/Dispatch.antt =====
-- `appendOrFindDispatchLedgerEvent` of tools/learning-loop-mastra/core/runtime-state.js, one step under
-- the registry lock.
use learning_loop_template.Base.{
  String, ◌≡◌, refl, ap, ◌∙◌, Bool, true, false, ◌&&◌, Option, none, some, List, [], ◌∷◌, ◌++◌, inl,
  inr, arith, Bool-cases, if◌then◌else◌, eq_refl, append_assoc,
}
use learning_loop_template.Runtime.Row.{RowKind, ledger_event, Row, with_fingerprint}
use learning_loop_template.Runtime.Append.{
  Sidecar, Result, ok, thrown, same_id, add_row, assert_kind_conditional_status, next_version,
}

-- `{ appended: true, row }` and `{ appended: false, existing }`
pub data Dispatched : Type 0 where
  appended existing : Row → Dispatched

abbrev pub is_ledger : Option RowKind → Bool
is_ledger (some ledger_event) = true
is_ledger _ = false

-- `rows.find((r) => r && r.id === ledgerId && r.kind === "ledger-event")`
unfoldable pub find_event : String → List Row → Option Row
find_event ledger_id [] = none
find_event ledger_id (r ∷ rs) =
    if same_id r.id (some ledger_id) && is_ledger r.kind then some r else find_event ledger_id rs

-- `readRuntimeStateRows`: the committed rows, then the local ones.
abbrev pub merged_rows : Sidecar → List Row
merged_rows c = c.committed.rows ++ c.session_local.rows

module _ (sha256 : String → String) where
  abbrev pub dispatch_row : Row → Sidecar → Row
  dispatch_row r c =
      with_fingerprint sha256 (record r { version = some (next_version r.id (merged_rows c)) })

  unfoldable pub append_or_find_from : Row → Option Row → Sidecar → Dispatched × Sidecar
  append_or_find_from r (some e) c = (existing e, c)
  append_or_find_from r none c =
      (appended (dispatch_row r c), record c { committed = add_row (dispatch_row r c) c.committed })

  unfoldable pub append_or_find : Row → String → Sidecar → Result Dispatched × Sidecar
  unfolding append_or_find_from
  append_or_find r ledger_id c = elim (assert_kind_conditional_status r.kind r.status) [
    | some e ↦ (thrown e, c)
    | none ↦
        (let (out, c') = append_or_find_from r (find_event ledger_id (merged_rows c)) c in
          (ok out, c'))
  ]

find_event-append :
    (l : String) (xs ys : List Row)
    → find_event l xs ≡ none
    → find_event l (xs ++ ys) ≡ find_event l ys
unfolding find_event
find_event-append l [] ys h = refl
find_event-append l (x ∷ xs) ys h = elim (Bool-cases (same_id x.id (some l) && is_ledger x.kind)) [
  | inl hit ↦ absurd (ground arith)
  | inr miss ↦ rw miss (find_event-append l xs ys (ground arith))
]

find_event-prefix :
    (l : String) (xs ys : List Row) → find_event l (xs ++ ys) ≡ none → find_event l xs ≡ none
unfolding find_event
find_event-prefix l [] ys h = refl
find_event-prefix l (x ∷ xs) ys h = elim (Bool-cases (same_id x.id (some l) && is_ledger x.kind)) [
  | inl hit ↦ absurd (ground arith)
  | inr miss ↦ rw miss (find_event-prefix l xs ys (ground arith))
]

find_event-here :
    (l : String) (r : Row) (ys : List Row)
    → same_id r.id (some l) ≡ true
    → is_ledger r.kind ≡ true
    → find_event l (r ∷ ys) ≡ some r
unfolding find_event
find_event-here l r ys i k = rw (i, k) refl

module _ (sha256 : String → String) (r : Row) (ledger_id : String) (c : Sidecar) where
  find_event-added :
      r.id ≡ some ledger_id
      → is_ledger r.kind ≡ true
      → find_event ledger_id (merged_rows c) ≡ none
      → find_event ledger_id
          (merged_rows (record c { committed = add_row (dispatch_row sha256 r c) c.committed }))
        ≡ some (dispatch_row sha256 r c)
  find_event-added named kind fresh =
      ap (find_event ledger_id)
        (append_assoc c.committed.rows (dispatch_row sha256 r c ∷ []) c.session_local.rows)
      ∙ find_event-append ledger_id c.committed.rows
          (dispatch_row sha256 r c ∷ c.session_local.rows)
          (find_event-prefix ledger_id c.committed.rows c.session_local.rows fresh)
      ∙ find_event-here ledger_id (dispatch_row sha256 r c) c.session_local.rows
          (rw (named) (eq_refl ledger_id)) kind

  append_or_find-found :
      (again w : Row) (c' : Sidecar)
      → assert_kind_conditional_status again.kind again.status ≡ none
      → find_event ledger_id (merged_rows c') ≡ some w
      → append_or_find sha256 again ledger_id c' ≡ (ok (existing w), c')
  unfolding append_or_find append_or_find_from
  append_or_find-found again w c' valid there = rw (valid, append_or_find) (rw there refl)

  append_or_find-fresh :
      assert_kind_conditional_status r.kind r.status ≡ none
      → find_event ledger_id (merged_rows c) ≡ none
      → append_or_find sha256 r ledger_id c ≡ (
        ok (appended (dispatch_row sha256 r c)),
        record c { committed = add_row (dispatch_row sha256 r c) c.committed },
      )
  unfolding append_or_find append_or_find_from
  append_or_find-fresh valid fresh = rw (valid, append_or_find) (rw fresh refl)

  -- A dispatch row is committed once: where no ledger event has the id, the first call appends one,
  -- and a second call, with any other row for the id that passes the guard, finds it and writes nothing.
  pub append_or_find_twice :
      (again : Row)
      → assert_kind_conditional_status r.kind r.status ≡ none
      → assert_kind_conditional_status again.kind again.status ≡ none
      → r.id ≡ some ledger_id
      → is_ledger r.kind ≡ true
      → find_event ledger_id (merged_rows c) ≡ none
      → let (out, c') = append_or_find sha256 r ledger_id c in
        (out ≡ ok (appended (dispatch_row sha256 r c)))
        × (append_or_find sha256 again ledger_id c' ≡ (ok (existing (dispatch_row sha256 r c)), c'))
  append_or_find_twice again valid valid_again named kind fresh =
      rw (append_or_find-fresh valid fresh)
        (refl, append_or_find-found again _ _ valid_again (find_event-added named kind fresh))
