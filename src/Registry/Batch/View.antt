-- ===== src/Registry/Batch/View.antt =====
-- The view that a batch keeps of the registry, against the registry with the planned lines; and how many
-- lines a batch adds.
use learning_loop_template.Base.{
  ℕ, ◌+◌, ◌≤◌, ◌≡◌, refl, Option, String, none, some, List, [], ◌∷◌, ◌++◌, suc, length,
  length-append, arith, inl, inr, ◌⊎◌,
}
use learning_loop_template.Registry.Entry.{Entry, read_line}
use learning_loop_template.Registry.Projection.{Store, find_entry, current}
use learning_loop_template.Registry.Host.{Host}
use learning_loop_template.Registry.Citations.{Stamp}
use learning_loop_template.Registry.Ops.{
  BatchOp, write_op, update_op, delete_op, archive_op, unknown_op,
}
use learning_loop_template.Registry.Batch.Plan.{BatchPlan, Planned, planned, rejected, plan_op}
use learning_loop_template.Registry.Batch.Steps.{
  PlanStep, same_table, next_line, new_line, plan_op-PlanStep,
}
use learning_loop_template.Registry.Batch.{all_planned, stopped, plan_ops}

-- `s` with more lines in `meta-state.jsonl`.
abbrev pub with_lines : Store → List Entry → Store
with_lines s ts = record s { meta_state = s.meta_state ++ ts }

-- An entry as a reading of its line gives it.
abbrev pub as_read : Option Entry → Option Entry
as_read none = none
as_read (some e) = some (read_line e)

-- An entry looked up in the plan is, as it is read, the current one of the registry with the planned
-- lines.
abbrev pub IsView : Store → BatchPlan → Type 0
IsView s p = (id : String) → as_read (find_entry id p.entries) ≡ current (with_lines s p.pending) id

-- A write is of an id that the plan does not have.
abbrev pub IsFreshWrite : BatchOp → BatchPlan → Type 0
IsFreshWrite (write_op e) p = find_entry e.id p.entries ≡ none
IsFreshWrite (update_op id cs v) p = Unit
IsFreshWrite (delete_op id reason by) p = Unit
IsFreshWrite (archive_op id reason by) p = Unit
IsFreshWrite (unknown_op name) p = Unit

PlanStep-length :
    (h : Host) (op : BatchOp) (p q : BatchPlan)
    → PlanStep h op p q
    → length q.pending ≤ suc (length p.pending)
PlanStep-length h op p q (same_table es ts) = rw ts (omega arith)
PlanStep-length h op p q (next_line id e t found above same es ts) =
    rw ts (omega (arith, length-append p.pending (t ∷ [])))
PlanStep-length h op p q (new_line e d made same es ts) =
    rw ts (omega (arith, length-append p.pending (d ∷ [])))

Planned-cases :
    (r : Planned)
    → ((q : BatchPlan) × (r ≡ planned q)) ⊎ ((x : _) × (log : _) × (r ≡ rejected x log))
Planned-cases (planned q) = inl (q, refl)
Planned-cases (rejected x log) = inr (x, log, refl)

module _ (h : Host) (stamps : ℕ → Stamp) where
  -- At its turn, each write is of an id that is not there.
  unfoldable pub FreshWrites : ℕ → List BatchOp → BatchPlan → Type 0
  FreshWrites i [] p = Unit
  FreshWrites i (op ∷ ops) p =
      IsFreshWrite op p
      × ((q : BatchPlan) → plan_op h (stamps i) op p ≡ planned q → FreshWrites (suc i) ops q)

  pub plan_ops_bound :
      (i : ℕ) (ops : List BatchOp) (p q : BatchPlan)
      → plan_ops h stamps i ops p ≡ all_planned q
      → length q.pending ≤ length p.pending + length ops
  unfolding plan_ops
  plan_ops_bound i [] p q made = let same : p ≡ q = ground arith in rw (← same) (omega arith)
  plan_ops_bound i (op ∷ ops) p q made = elim (Planned-cases (plan_op h (stamps i) op p)) [
    | inr (x, log, bad) ↦
        let z : stopped i x log ≡ all_planned q = rw (bad, plan_ops) at made in absurd (cc)
    | inl (r, step) ↦
        let one = PlanStep-length h op p r (plan_op-PlanStep h (stamps i) p r op step) in
        let rest = plan_ops_bound (suc i) ops r q (rw (step, plan_ops) at made) in omega arith
  ]
