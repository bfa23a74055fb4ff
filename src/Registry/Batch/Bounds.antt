-- ===== src/Registry/Batch/Bounds.antt =====
-- How far a batch grows the table.
use learning_loop_template.Base.{
  ℕ, ◌+◌, ◌≤◌, ◌≡◌, Option, List, ◌++◌, length, length-append, arith, Bool-cases, inl, inr, ltb,
}
use learning_loop_template.Registry.Projection.{Store}
use learning_loop_template.Registry.Files.{Disk}
use learning_loop_template.Registry.Host.{Host}
use learning_loop_template.Registry.Citations.{Stamp}
use learning_loop_template.Registry.Ops.{BatchOp}
use learning_loop_template.Registry.Batch.{EnvelopeArgs, meta_state_batch, start_plan}
use learning_loop_template.Registry.Batch.Commit.{BatchOutcome}
use learning_loop_template.Registry.Batch.Atomic.{
  AllOrNothing, landed, rolled_back, threw_envelope, threw_collision, meta_state_batch-AllOrNothing,
}
use learning_loop_template.Registry.Batch.View.{plan_ops_bound}

module _ (h : Host) (fails : Disk) (stamps : ℕ → Stamp) (ops : List BatchOp) (s : Store) where
  outcome_bound :
      (envelope : Option EnvelopeArgs) (r : BatchOutcome × Store)
      → AllOrNothing h stamps fails ops s envelope r
      → length r.1.meta_state ≤ length s.meta_state + length ops
  outcome_bound envelope r (landed p auto s' made emits g) =
      let planned = plan_ops_bound h stamps 0 ops (start_plan s) p made in
      let lines : s'.meta_state ≡ s.meta_state ++ p.pending = g.0 in
      rw lines (omega (arith, length-append s.meta_state p.pending))
  outcome_bound envelope r (rolled_back x y s' why shown back) = rw back.0 (omega arith)
  outcome_bound envelope r (threw_envelope x s' same) = rw same.0 (omega arith)
  outcome_bound envelope r (threw_collision s' same) = rw same.0 (omega arith)

  -- A batch never adds more lines to the table than its limit, since each operation adds at most one and
  -- a batch of more operations than the limit is refused.
  pub meta_state_batch_bound :
      (limit : ℕ) (envelope : Option EnvelopeArgs)
      → length (meta_state_batch h fails stamps limit ops envelope s).1.meta_state
        ≤ length s.meta_state + limit
  unfolding meta_state_batch
  meta_state_batch_bound limit envelope = elim (Bool-cases (ltb limit (length ops))) [
    | inl long ↦ rw (long, meta_state_batch) (omega arith)
    | inr short ↦
        let grown =
          outcome_bound envelope _
            (meta_state_batch-AllOrNothing h stamps fails ops s limit envelope) in
        ground arith
  ]
