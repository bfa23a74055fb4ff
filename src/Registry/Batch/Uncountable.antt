-- ===== src/Registry/Batch/Uncountable.antt =====
-- A batch with an envelope on a registry that has a citation.
use learning_loop_template.Base.{
  ℕ, ◌≡◌, ◌≢◌, refl, String, Bool, true, false, not, some, List, [], ◌∷◌, if◌then◌else◌, Text,
  length, Bool-cases, Option-cases, inl, inr, ltb, Has, any_of, str_eq, text_eq, suc,
}
use learning_loop_template.Registry.Entry.{Entry, citation}
use learning_loop_template.Registry.Projection.{Store, read_registry, current}
use learning_loop_template.Registry.Files.{Disk}
use learning_loop_template.Registry.Host.{Host}
use learning_loop_template.Registry.Citations.{Stamp}
use learning_loop_template.Registry.Writes.Prepared.{find_entry-Has}
use learning_loop_template.Registry.Ops.{BatchOp}
use learning_loop_template.Registry.Envelope.Tally.{
  Counts, Counted, counted, uncounted, CountFault, count_status, count_kind, kind_step, status_step,
  count_entry, count_from, count_registry, normalize_legacy_status, empty_counts, Counted-cases,
}
use learning_loop_template.Registry.Envelope.Shape.{operation_envelope_kinds, has_control, has_dots}
use learning_loop_template.Registry.Envelope.{
  EnvelopeError, not_countable, unknown_envelope_kind, empty_target, long_target, control_in_target,
  dots_in_target, kind_op_incompatible, Built, not_built, assemble, missing_ops, build_compatible,
  build_envelope,
}
use learning_loop_template.Registry.Batch.{
  EnvelopeArgs, Planning, all_planned, stopped, start_plan, plan_ops, emit_built, finish_batch,
  meta_state_batch,
}
use learning_loop_template.Registry.Batch.Commit.{
  replied, envelope_thrown, all_applied, refused_batch,
}
use learning_loop_template.Registry.Batch.Plan.{batch_size_exceeded}

citation-uncounted :
    (e : Entry) (c d : Counts) → e.entry_kind ≡ some citation → count_entry e c ≢ counted d
unfolding count_entry status_step kind_step count_kind
citation-uncounted e c d kind h =
    elim (Option-cases
      (count_status (normalize_legacy_status e.status) (record c { total = suc c.total }))) [
        | inl never ↦ let z : uncounted _ ≡ counted d = rw never at h in cc
        | inr (x, made) ↦ let z : uncounted _ ≡ counted d = rw (made, kind) at h in cc
      ]

registry-uncounted :
    (x : Entry) (es : List Entry) (c d : Counts)
    → Has x es
    → x.entry_kind ≡ some citation
    → count_from c es ≢ counted d
unfolding count_from
registry-uncounted x [] c d here kind h = here
registry-uncounted x (e ∷ es) c d (inl here) kind h = elim (Counted-cases (count_entry e c)) [
  | inl (f, never) ↦ let z : uncounted f ≡ counted d = rw (never, count_from) at h in cc
  | inr (y, made) ↦ citation-uncounted e c y (rw here kind) made
]
registry-uncounted x (e ∷ es) c d (inr later) kind h = elim (Counted-cases (count_entry e c)) [
  | inl (f, never) ↦ let z : uncounted f ≡ counted d = rw (never, count_from) at h in cc
  | inr (y, made) ↦ registry-uncounted x es y d later kind (rw (made, count_from) at h)
]

abbrev Refuses : Built → Type 0
Refuses b = (e : EnvelopeError) × (b ≡ not_built e)

guarded :
    (b : Bool) (e : EnvelopeError) (r : Built) → Refuses r → Refuses (if b then not_built e else r)
guarded true e r rest = (e, refl)
guarded false e r rest = rest

module _ (h : Host) (x : Entry) (pre : List Entry) (here : Has x pre)
    (kind : x.entry_kind ≡ some citation) where
  pre-uncounted : (r : Counted) → count_registry pre ≡ r → (f : CountFault) × (r ≡ uncounted f)
  unfolding count_registry
  pre-uncounted (uncounted f) m = (f, refl)
  pre-uncounted (counted d) m = absurd (registry-uncounted x pre empty_counts d here kind m)

  build_compatible-Refuses :
      (ms : List String) (k : String) (t : Text) (ops : List BatchOp) (post : List Entry)
      → Refuses (build_compatible h.stringify h.sha256 ms k t ops pre post)
  unfolding build_compatible assemble
  build_compatible-Refuses (m ∷ ms) k t ops post = (kind_op_incompatible (m ∷ ms), refl)
  build_compatible-Refuses [] k t ops post =
      let (f, never) = pre-uncounted (count_registry pre) refl in (not_countable f, rw never refl)

  build_envelope-Refuses :
      (k : String) (t : Text) (ops : List BatchOp) (post : List Entry)
      → Refuses (build_envelope h.stringify h.sha256 k t ops pre post)
  unfolding build_envelope
  build_envelope-Refuses k t ops post =
      guarded (not (any_of (str_eq k) operation_envelope_kinds)) unknown_envelope_kind _ (
        guarded (text_eq t []) empty_target _ (
          guarded (ltb 200 (length t)) long_target _ (
            guarded (has_control t) control_in_target _ (
              guarded (has_dots t) dots_in_target _
                (build_compatible-Refuses (missing_ops k ops) k t ops post)))))

module _ (h : Host) (fails : Disk) (stamps : ℕ → Stamp) (s : Store) (id : String) (x : Entry)
    (found : current s id ≡ some x) (kind : x.entry_kind ≡ some citation) where
  finish_batch_refused :
      (a : EnvelopeArgs) (ops : List BatchOp) (r : Planning) (n : ℕ)
      → (finish_batch h fails stamps (some a) ops r s).0 ≢ replied (all_applied n)
  unfolding finish_batch emit_built current
  finish_batch_refused a ops (stopped i y log) n p = cc
  finish_batch_refused a ops (all_planned q) n p =
      let (e, never) =
        build_envelope-Refuses h x (read_registry s) (find_entry-Has id (read_registry s) x found)
          kind a.envelope_kind a.envelope_target ops q.entries in
      let z : envelope_thrown e ≡ replied (all_applied n) = rw never at p in cc

  -- While the registry has a citation as the current line of some id, no batch with an envelope
  -- succeeds.
  pub meta_state_batch_refused :
      (limit : ℕ) (ops : List BatchOp) (a : EnvelopeArgs) (n : ℕ)
      → (meta_state_batch h fails stamps limit ops (some a) s).0 ≢ replied (all_applied n)
  unfolding meta_state_batch
  meta_state_batch_refused limit ops a n p = elim (Bool-cases (ltb limit (length ops))) [
    | inl long ↦
        let z : replied (refused_batch 0 batch_size_exceeded) ≡ replied (all_applied n) =
          rw long at p in
        cc
    | inr short ↦
        finish_batch_refused a ops (plan_ops h stamps 0 ops (start_plan s)) n (rw short at p)
  ]
