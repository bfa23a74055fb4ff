-- ===== src/Registry/Batch/Atomic.antt =====
-- A batch leaves the table and the citations as they were, or with every line that it planned.
use learning_loop_template.Base.{
  ℕ, ◌≡◌, ◌≢◌, refl, sym, ◌∙◌, String, Bool, false, not, Option, none, some, List, [], ◌∷◌, ◌++◌,
  length, is_set, any_of, Bool-cases, inl, inr, append-nil, ltb,
}
use learning_loop_template.Json.{Json}
use learning_loop_template.Registry.Entry.{Entry}
use learning_loop_template.Registry.Projection.{Store, GateLine, lines_of, read_registry, current}
use learning_loop_template.Registry.Lifecycle.Step.{Error, Result, ok, thrown}
use learning_loop_template.Registry.Files.{Disk, append_change_log, restore_snapshot}
use learning_loop_template.Registry.Host.{Host}
use learning_loop_template.Registry.Citations.{Stamp}
use learning_loop_template.Registry.Ops.{BatchOp}
use learning_loop_template.Registry.Envelope.{Built, built, not_built, build_envelope}
use learning_loop_template.Registry.Batch.Plan.{
  BatchReason, BatchPlan, append_failed, change_log_not_visible,
}
use learning_loop_template.Registry.Batch.Visible.{appended-visible, emitted-visible}
use learning_loop_template.Registry.Batch.Commit.{
  BatchReply, all_applied, failed_batch, BatchOutcome, replied, envelope_thrown, collision_thrown,
  has_id, check_visible, after_emit, emit_auto, after_change_logs, after_citations, after_table,
  commit,
}
use learning_loop_template.Registry.Batch.Growth.{
  Grown, Grown-trans, Progress, TableAdds, CitationAdds, LogAdds, append_change_log-LogAdds,
  table_progress, citation_progress, log_progress,
}
use learning_loop_template.Registry.Writes.Prepared.{SameFiles}
use learning_loop_template.Registry.Batch.{
  start_plan, Planning, all_planned, stopped, EnvelopeArgs, auto_emit_entry, plan_ops, emit_built,
  finish_batch, meta_state_batch,
}

advised :
    (s : Store) (log : List GateLine) (ts : List Entry) (o : Option Error × Store)
    → Progress TableAdds ts (record s { gate_log = log }) o
    → Progress TableAdds ts s o
advised s log ts (none, s') g = g
advised s log ts (some e, s') g = g

-- The table and the citations are as before; the change log may have lines more.
abbrev pub RolledBack : Store → Store → Type 0
RolledBack s s' =
    (s'.meta_state ≡ s.meta_state)
    × (s'.citations ≡ s.citations)
    × ((ls : List Entry) × (lines_of s'.change_log ≡ lines_of s.change_log ++ ls))

abbrev pub lines_of_auto : Option Entry → List Entry
lines_of_auto none = []
lines_of_auto (some t) = t ∷ []

module _ (h : Host) (stamps : ℕ → Stamp) (fails : Disk) (ops : List BatchOp) (s : Store) where
  -- The emitted change log: none without an envelope, else the one with the envelope that is built
  -- from the operations, the registry before them and the planned one.
  abbrev pub Emits : Option EnvelopeArgs → BatchPlan → Option Entry → Type 0
  Emits none p auto = auto ≡ none
  Emits (some a) p auto =
      (v : Json) × (build_envelope h.stringify h.sha256 a.envelope_kind a.envelope_target ops
          (read_registry s) p.entries
        ≡ built v)
      × (auto ≡ some (auto_emit_entry (stamps (length ops)) a.envelope_target v))

  -- The reply is a success, and the lines that the plan of the operations asks for, with the emitted
  -- change log of the envelope, are the new lines of the three files; or the reply has a reason, and
  -- the table and the citations are as before; or an error is thrown and no file is changed.
  pub data AllOrNothing (envelope : Option EnvelopeArgs) : BatchOutcome × Store → Type 0 where
    landed :
        (p : BatchPlan) (auto : Option Entry) (s' : Store)
        → plan_ops h stamps 0 ops (start_plan s) ≡ all_planned p
        → Emits envelope p auto
        → Grown p.pending (p.change_logs ++ lines_of_auto auto) p.citations s s'
        → AllOrNothing envelope (replied (all_applied (length ops)), s')
    rolled_back :
        (r : BatchReply) (x : BatchReason) (s' : Store)
        → r.reason ≡ some x
        → (r.failed_at ≡ none → x ≢ change_log_not_visible)
        → RolledBack s s'
        → AllOrNothing envelope (replied r, s')
    threw_envelope :
        (x : _) (s' : Store) → SameFiles s s' → AllOrNothing envelope (envelope_thrown x, s')
    threw_collision : (s' : Store) → SameFiles s s' → AllOrNothing envelope (collision_thrown, s')

  module _ (envelope : Option EnvelopeArgs) (p : BatchPlan)
      (made : plan_ops h stamps 0 ops (start_plan s) ≡ all_planned p) where
    failed_restored :
        (x : BatchReason) (ms ls cs : List Entry) (s' : Store)
        → x ≢ change_log_not_visible
        → Grown ms ls cs s s'
        → AllOrNothing envelope (replied (failed_batch x), restore_snapshot s s')
    failed_restored x ms ls cs s' other (m, l, c) =
        rolled_back _ x _ refl (λ n. other) (refl, refl, (ls, l))

    module _ (auto : Option Entry) (emits : Emits envelope p auto) where
      check_visible-AllOrNothing :
          (ids : List String) (s' : Store)
          → any_of (λ id. not (is_set (current s' id))) ids ≡ false
          → Grown p.pending (p.change_logs ++ lines_of_auto auto) p.citations s s'
          → AllOrNothing envelope (check_visible (length ops) ids s s')
      unfolding check_visible
      check_visible-AllOrNothing ids s' seen g = rw seen (landed p auto s' made emits g)

    after_emit-AllOrNothing :
        (t : Entry) (b : Bool) (s' : Store) (r : Result Store)
        → Emits envelope p (some t)
        → append_change_log b t s' ≡ r
        → Grown p.pending p.change_logs p.citations s s'
        → AllOrNothing envelope (after_emit fails (length ops) p (some t) s t r s')
    unfolding after_emit
    after_emit-AllOrNothing t b s' (thrown e) emits h g = failed_restored _ _ _ _ s' (λ q. cc) g
    after_emit-AllOrNothing t b s' (ok s'') emits h g =
        let all : Grown p.pending (p.change_logs ++ t ∷ []) p.citations s s'' =
          rw (append-nil p.pending, append-nil p.citations) at
            (Grown-trans p.pending p.change_logs p.citations [] (t ∷ []) [] s s' s'' g
              (append_change_log-LogAdds b t s' s'' h)) in
        check_visible-AllOrNothing (some t) emits _ s''
          (emitted-visible s'' (lines_of s.change_log) p.change_logs t all.1) all

    emit_auto-AllOrNothing :
        (auto : Option Entry) (s' : Store)
        → Emits envelope p auto
        → Grown p.pending p.change_logs p.citations s s'
        → AllOrNothing envelope (emit_auto fails (length ops) p auto s auto s')
    unfolding emit_auto
    emit_auto-AllOrNothing none s' emits g =
        check_visible-AllOrNothing none emits _ s'
          (appended-visible s' (lines_of s.change_log) p.change_logs g.1)
          (rw (append-nil p.change_logs) g)
    emit_auto-AllOrNothing (some t) s' emits g = after_emit-AllOrNothing t _ s' _ emits refl g

    after_change_logs-AllOrNothing :
        (auto : Option Entry) (s1 : Store) (o : Option Error × Store)
        → Emits envelope p auto
        → Grown p.pending [] p.citations s s1
        → Progress LogAdds p.change_logs s1 o
        → AllOrNothing envelope (after_change_logs fails (length ops) p auto s o)
    unfolding after_change_logs
    after_change_logs-AllOrNothing auto s1 (none, s') emits g more =
        emit_auto-AllOrNothing auto s' emits (
          rw (append-nil p.pending, append-nil p.citations) at
            (Grown-trans p.pending [] p.citations [] p.change_logs [] s s1 s' g more))
    after_change_logs-AllOrNothing auto s1 (some e, s') emits g (us, more) =
        failed_restored _ _ _ _ s' (λ q. cc)
          (Grown-trans p.pending [] p.citations [] us [] s s1 s' g more)

    after_citations-AllOrNothing :
        (auto : Option Entry) (s1 : Store) (o : Option Error × Store)
        → Emits envelope p auto
        → Grown p.pending [] [] s s1
        → Progress CitationAdds p.citations s1 o
        → AllOrNothing envelope (after_citations fails (length ops) p auto s o)
    unfolding after_citations
    after_citations-AllOrNothing auto s1 (none, s') emits g more =
        after_change_logs-AllOrNothing auto s' _ emits
          (rw (append-nil p.pending) at
            (Grown-trans p.pending [] [] [] [] p.citations s s1 s' g more))
          (log_progress fails _ p.change_logs s')
    after_citations-AllOrNothing auto s1 (some e, s') emits g (us, more) =
        failed_restored _ _ _ _ s' (λ q. cc) (Grown-trans p.pending [] [] [] [] us s s1 s' g more)

    after_table-AllOrNothing :
        (auto : Option Entry) (o : Option Error × Store)
        → Emits envelope p auto
        → Progress TableAdds p.pending s o
        → AllOrNothing envelope (after_table fails (length ops) p auto s o)
    unfolding after_table
    after_table-AllOrNothing auto (none, s') emits g =
        after_citations-AllOrNothing auto s' _ emits g (citation_progress fails _ p.citations s')
    after_table-AllOrNothing auto (some e, s') emits (us, g) =
        let (m, l, c) = g in
        rolled_back _ append_failed _ refl (λ n q. cc) (refl, c ∙ append-nil _, ([], l))

    commit-AllOrNothing :
        (auto : Option Entry)
        → Emits envelope p auto
        → AllOrNothing envelope (commit fails (length ops) p auto s)
    unfolding commit
    commit-AllOrNothing auto emits = after_table-AllOrNothing auto _ emits (
        advised s p.gate_log p.pending _
          (table_progress fails 0 p.pending (record s { gate_log = p.gate_log })))

  module _ (a : EnvelopeArgs) (p : BatchPlan)
      (made : plan_ops h stamps 0 ops (start_plan s) ≡ all_planned p) where
    emit_built-AllOrNothing :
        (b : Built)
        → build_envelope h.stringify h.sha256 a.envelope_kind a.envelope_target ops
            (read_registry s)
            p.entries
          ≡ b
        → AllOrNothing (some a) (emit_built h fails stamps ops p a.envelope_target b s)
    unfolding emit_built
    emit_built-AllOrNothing (not_built x) found = threw_envelope x _ (refl, refl, refl)
    emit_built-AllOrNothing (built v) found =
        elim (Bool-cases (has_id (stamps (length ops)).fresh_id p.entries)) [
          | inl taken ↦ rw taken (threw_collision _ (refl, refl, refl))
          | inr free ↦ rw free (commit-AllOrNothing (some a) p made _ (v, found, refl))
        ]

  finish_batch-AllOrNothing :
      (envelope : Option EnvelopeArgs) (r : Planning)
      → plan_ops h stamps 0 ops (start_plan s) ≡ r
      → AllOrNothing envelope (finish_batch h fails stamps envelope ops r s)
  unfolding finish_batch
  finish_batch-AllOrNothing envelope (stopped i x log) made =
      rolled_back _ x _ refl (λ n. cc) (refl, refl, ([], sym (append-nil _)))
  finish_batch-AllOrNothing none (all_planned p) made = commit-AllOrNothing none p made none refl
  finish_batch-AllOrNothing (some a) (all_planned p) made = emit_built-AllOrNothing a p made _ refl

  -- A batch succeeds, and then the lines that its operations ask for, with the change log of the
  -- envelope where one is given, are the new lines of the three files; or it fails with a reason, and
  -- then the table and the citations are as before, and the change log is as before or longer; or it
  -- throws, and then no file is changed. A failure that names no operation is never for a change log
  -- that is not visible.
  pub meta_state_batch-AllOrNothing :
      (limit : ℕ) (envelope : Option EnvelopeArgs)
      → AllOrNothing envelope (meta_state_batch h fails stamps limit ops envelope s)
  unfolding meta_state_batch
  meta_state_batch-AllOrNothing limit envelope = elim (Bool-cases (ltb limit (length ops))) [
    | inl long ↦ rw long (rolled_back _ _ _ refl (λ n q. cc) (refl, refl, ([], sym (append-nil _))))
    | inr short ↦ rw short (finish_batch-AllOrNothing envelope _ refl)
  ]
