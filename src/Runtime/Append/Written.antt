-- ===== src/Runtime/Append/Written.antt =====
-- What `appendLedgerEvent` (tools/learning-loop-mastra/core/runtime-state.js) writes, and what it refuses.
use learning_loop_template.Base.{
  ◌<◌, String, ◌≡◌, refl, true, none, some, inl, inr, Bool-cases, Has, Has-All, eq_refl,
  if◌then◌else◌,
}
use learning_loop_template.Runtime.Row.{Row, version_of, verify_row, compute_fingerprint}
use learning_loop_template.Runtime.Append.{
  Substrate, Sidecar, Error, ok, thrown, same_id, destination, is_ephemeral, stamped,
  append_ledger_event, add_row, assert_kind_conditional_status, next_version, next_version-Above,
}

module _ (sha256 : String → String) (r : Row) (c : Sidecar) where
  -- The other substrate than the row's.
  abbrev pub spared : Sidecar → Substrate
  spared d = if is_ephemeral r.durability then d.committed else d.session_local

  -- A row whose kind and status agree is appended as the last row of its substrate, with a version
  -- and a fingerprint that verifies; the other substrate stays as it was.
  pub append_ledger_event_ok :
      assert_kind_conditional_status r.kind r.status ≡ none
      → ((append_ledger_event sha256 r c).0 ≡ ok (stamped sha256 r c))
        × (destination r (append_ledger_event sha256 r c).1
            ≡ add_row (stamped sha256 r c) (destination r c))
        × (spared (append_ledger_event sha256 r c).1 ≡ spared c)
        × (verify_row sha256 (stamped sha256 r c) ≡ true)
  unfolding append_ledger_event verify_row compute_fingerprint
  append_ledger_event_ok h = elim (Bool-cases (is_ephemeral r.durability)) [
    | inl local ↦ rw (h, append_ledger_event) (rw local (refl, refl, refl, eq_refl _))
    | inr durable ↦ rw (h, append_ledger_event) (rw durable (refl, refl, refl, eq_refl _))
  ]

  -- Where the kind of a row and its status disagree, or the kind is unknown, `appendLedgerEvent` throws
  -- the error and writes nothing.
  pub append_ledger_event_thrown :
      (e : Error)
      → assert_kind_conditional_status r.kind r.status ≡ some e
      → append_ledger_event sha256 r c ≡ (thrown e, c)
  unfolding append_ledger_event
  append_ledger_event_thrown e h = rw (h, append_ledger_event) refl

  -- The version that `appendLedgerEvent` gives the row written is above that of every row of its id in its substrate.
  pub stamped-above :
      (x : Row)
      → Has x (destination r c).rows
      → same_id x.id r.id ≡ true
      → version_of x < version_of (stamped sha256 r c)
  stamped-above x here same =
      Has-All
        (λ y. same_id y.id r.id ≡ true → version_of y < next_version r.id (destination r c).rows) x
        (destination r c).rows (next_version-Above 0 r.id (destination r c).rows) here same
