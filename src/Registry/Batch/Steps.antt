-- ===== src/Registry/Batch/Steps.antt =====
-- What one operation of a batch does to the plan (tools/learning-loop-mastra/core/meta-state.js, `metaStateBatch`).
use learning_loop_template.Base.{
  ℕ, ◌<◌, ◌≡◌, refl, sym, ap, String, false, ◌&&◌, Option, none, some, List, [], ◌∷◌, ◌++◌,
  if◌then◌else◌, any_of, arith, Bool-cases, inl, inr,
}
use learning_loop_template.Json.{Json}
use learning_loop_template.Registry.Entry.{Entry, version_of, is_change_log, is_rule, is_archived}
use learning_loop_template.Registry.Projection.{find_entry}
use learning_loop_template.Registry.Patch.{Change, is_key, is_denied, without}
use learning_loop_template.Registry.Fields.{entries_equal}
use learning_loop_template.Registry.Files.{versioned}
use learning_loop_template.Registry.Host.{Host, IsSound}
use learning_loop_template.Registry.Citations.{Stamp}
use learning_loop_template.Registry.Writes.{has_rule}
use learning_loop_template.Registry.Refine.{
  kind_kept, cleaned, names_supersedes, supersedes_of, Refined, invalid, supersedes_missing,
  refined, refine, next_version,
}
use learning_loop_template.Registry.Update.{mismatched}
use learning_loop_template.Registry.Update.Applied.{names, any_of-select, cleaned-names}
use learning_loop_template.Registry.Batch.Refining.{refine-id, undenied-names, id-is_denied}
use learning_loop_template.Registry.Ops.{
  BatchOp, write_op, update_op, delete_op, archive_op, unknown_op,
}
use learning_loop_template.Registry.Batch.Plan.{
  BatchPlan, planned, rejected, set_entry, plan_line, forges_envelope, plan_new, plan_parsed,
  plan_write, plan_refined, plan_update, batch_delete_line, plan_delete, batch_archive_line,
  plan_archive, plan_op,
}

-- An operation leaves the planned table; or it adds the next version of an entry that is there; or it
-- is a write and adds a new entry.
pub data PlanStep (h : Host) (op : BatchOp) (p q : BatchPlan) : Type 0 where
  same_table : q.entries ≡ p.entries → q.pending ≡ p.pending → PlanStep h op p q
  next_line :
      (id : String) (e t : Entry)
      → find_entry id p.entries ≡ some e
      → version_of e < version_of t
      → (IsSound h → t.id ≡ e.id)
      → q.entries ≡ set_entry id t p.entries
      → q.pending ≡ p.pending ++ t ∷ []
      → PlanStep h op p q
  new_line :
      (e d : Entry)
      → op ≡ write_op e
      → (IsSound h → d.id ≡ e.id)
      → q.entries ≡ p.entries ++ d ∷ []
      → q.pending ≡ p.pending ++ d ∷ []
      → PlanStep h op p q

module _ (h : Host) (st : Stamp) (p q : BatchPlan) where
  plan_refined-PlanStep :
      (op : BatchOp) (id : String) (e : Entry) (supersedes : Option Json) (cs : List Change)
      (r : Refined)
      → find_entry id p.entries ≡ some e
      → names "id" cs ≡ false
      → refine h e cs supersedes ≡ r
      → plan_refined h st id e supersedes r p ≡ planned q
      → PlanStep h op p q
  unfolding plan_refined
  plan_refined-PlanStep op id e supersedes cs invalid found own made pass = cc
  plan_refined-PlanStep op id e supersedes cs supersedes_missing found own made pass = cc
  plan_refined-PlanStep op id e supersedes cs (refined x) found own made pass =
      elim (Bool-cases (entries_equal h.stringify x e)) [
        | inl same ↦
            let z : planned p ≡ planned q = rw same at pass in
            let equal : p ≡ q = ground arith in
            same_table (ap (λ y. y.entries) (sym equal)) (ap (λ y. y.pending) (sym equal))
        | inr changed ↦
            let z : planned _ ≡ planned q = rw changed at pass in
            let t : Entry = next_version e x in
            next_line id e t found (omega arith)
              (λ sound. refine-id h sound e supersedes cs x own made) (ground arith) (ground arith)
      ]

  plan_patch-PlanStep :
      (op : BatchOp) (id : String) (e : Entry) (patch : List Change)
      → find_entry id p.entries ≡ some e
      → any_of is_denied patch ≡ false
      → (if is_rule e.entry_kind && names_supersedes (cleaned patch)
          then plan_refined h st id e
              (supersedes_of (cleaned patch))
              (refine h e (without "supersedes" (cleaned patch)) (supersedes_of (cleaned patch)))
              p
          else plan_refined h st id e none (refine h e (cleaned patch) none) p)
        ≡ planned q
      → PlanStep h op p q
  unfolding without
  plan_patch-PlanStep op id e patch found fine pass =
      let no_id = cleaned-names "id" patch (undenied-names "id" id-is_denied patch fine) in
      elim (Bool-cases (is_rule e.entry_kind && names_supersedes (cleaned patch))) [
        | inl named ↦
            plan_refined-PlanStep op id e (supersedes_of (cleaned patch))
              (without "supersedes" (cleaned patch)) _ found (any_of-select (is_key "id") _ _ no_id)
              refl (rw named at pass)
        | inr plain ↦
            plan_refined-PlanStep op id e none (cleaned patch) _ found no_id refl (rw plain at pass)
      ]

  plan_update-PlanStep :
      (op : BatchOp) (id : String) (patch : List Change) (expected : Option ℕ) (o : Option Entry)
      → find_entry id p.entries ≡ o
      → plan_update h st id patch expected o p ≡ planned q
      → PlanStep h op p q
  unfolding plan_update is_denied without
  plan_update-PlanStep op id patch expected none found pass = cc
  plan_update-PlanStep op id patch expected (some e) found pass =
      elim (Bool-cases (mismatched expected e)) [
        | inl a ↦ let z : rejected _ _ ≡ planned q = rw a at pass in absurd (cc)
        | inr a ↦ elim (Bool-cases (is_change_log e.entry_kind)) [
          | inl b ↦ let z : rejected _ _ ≡ planned q = rw (a, b) at pass in absurd (cc)
          | inr b ↦ elim (Bool-cases (kind_kept e.entry_kind patch)) [
            | inr c ↦ let z : rejected _ _ ≡ planned q = rw (a, b, c) at pass in absurd (cc)
            | inl c ↦ elim (Bool-cases (any_of is_denied patch)) [
              | inl d ↦ let z : rejected _ _ ≡ planned q = rw (a, b, c, d) at pass in absurd (cc)
              | inr d ↦ plan_patch-PlanStep op id e patch found d (rw (a, b, c, d) at pass)
            ]
          ]
        ]
      ]

  replace_line :
      (op : BatchOp) (id : String) (e t : Entry)
      → find_entry id p.entries ≡ some e
      → version_of e < version_of t
      → (IsSound h → t.id ≡ e.id)
      → planned (plan_line id t p) ≡ planned q
      → PlanStep h op p q
  replace_line op id e t found above same z =
      next_line id e t found above same (ground arith) (ground arith)

  plan_delete-PlanStep :
      (op : BatchOp) (id : String) (reason by : Option String) (o : Option Entry)
      → find_entry id p.entries ≡ o
      → plan_delete st id reason by o p ≡ planned q
      → PlanStep h op p q
  unfolding plan_delete
  plan_delete-PlanStep op id reason by none found pass = cc
  plan_delete-PlanStep op id reason by (some e) found pass =
      elim (Bool-cases (is_change_log e.entry_kind)) [
        | inl a ↦ let z : rejected _ _ ≡ planned q = rw a at pass in absurd (cc)
        | inr a ↦
            replace_line op id e (batch_delete_line st reason by e) found (omega arith)
              (λ sound. refl) (rw a at pass)
      ]

  plan_archive-PlanStep :
      (op : BatchOp) (id : String) (reason by : Option String) (o : Option Entry)
      → find_entry id p.entries ≡ o
      → plan_archive st id reason by o p ≡ planned q
      → PlanStep h op p q
  unfolding plan_archive
  plan_archive-PlanStep op id reason by none found pass = cc
  plan_archive-PlanStep op id reason by (some e) found pass =
      elim (Bool-cases (is_archived e.status)) [
        | inl a ↦ let z : rejected _ _ ≡ planned q = rw a at pass in absurd (cc)
        | inr a ↦
            replace_line op id e (batch_archive_line st reason by e) found (omega arith)
              (λ sound. refl) (rw a at pass)
      ]

  plan_new-PlanStep :
      (e d : Entry)
      → (IsSound h → d.id ≡ e.id)
      → planned (plan_new d p) ≡ planned q
      → PlanStep h (write_op e) p q
  unfolding plan_new
  plan_new-PlanStep e d same z = elim (Bool-cases (is_change_log d.entry_kind)) [
    | inl log ↦
        let made : planned _ ≡ planned q = rw log at z in same_table (ground arith) (ground arith)
    | inr table ↦
        let made : planned _ ≡ planned q = rw table at z in
        new_line e (versioned d) refl same (ground arith) (ground arith)
  ]

  plan_parsed-PlanStep :
      (e : Entry) (o : Option Entry)
      → h.parse_entry e ≡ o
      → plan_parsed o p ≡ planned q
      → PlanStep h (write_op e) p q
  unfolding plan_parsed
  plan_parsed-PlanStep e none parsed pass = cc
  plan_parsed-PlanStep e (some d) parsed pass =
      elim (Bool-cases (is_rule d.entry_kind && has_rule d.id p.entries)) [
        | inl a ↦ let z : rejected _ _ ≡ planned q = rw a at pass in absurd (cc)
        | inr a ↦ plan_new-PlanStep e d (λ sound. sound.entry_id e d parsed) (rw a at pass)
      ]

  plan_write-PlanStep : (e : Entry) → plan_write h e p ≡ planned q → PlanStep h (write_op e) p q
  unfolding plan_write
  plan_write-PlanStep e pass = elim (Bool-cases (forges_envelope e)) [
    | inl a ↦ let z : rejected _ _ ≡ planned q = rw a at pass in absurd (cc)
    | inr a ↦ plan_parsed-PlanStep e _ refl (rw a at pass)
  ]

  pub plan_op-PlanStep : (op : BatchOp) → plan_op h st op p ≡ planned q → PlanStep h op p q
  unfolding plan_op
  plan_op-PlanStep (write_op e) pass = plan_write-PlanStep e pass
  plan_op-PlanStep (update_op id patch expected) pass =
      plan_update-PlanStep _ id patch expected _ refl pass
  plan_op-PlanStep (delete_op id reason by) pass = plan_delete-PlanStep _ id reason by _ refl pass
  plan_op-PlanStep (archive_op id reason by) pass = plan_archive-PlanStep _ id reason by _ refl pass
  plan_op-PlanStep (unknown_op name) pass = cc
