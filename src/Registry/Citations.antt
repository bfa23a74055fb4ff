-- ===== src/Registry/Citations.antt =====
-- The citations that a promotion or a refinement of a rule appends with it
-- (tools/learning-loop-mastra/core/meta-state.js).
use learning_loop_template.Base.{String, none, some, [], ◌∷◌, Text, codes}
use learning_loop_template.Json.{Json, str}
use learning_loop_template.Registry.Entry.{Entry, citation, active}
use learning_loop_template.Registry.Projection.{Store}
use learning_loop_template.Registry.Lifecycle.Step.{Result, ok, thrown}
use learning_loop_template.Registry.Files.{restore_snapshot}

-- A fresh id and the time, as the code takes them from the clock and the random generator.
pub record Stamp : Type 0 where
  pub fresh_id : String
  pub now : Text

abbrev pub rule_citation : String → Stamp → String → Json → Entry
rule_citation rationale st source target = record {
  id = st.fresh_id;
  entry_kind = some citation;
  status = some active;
  version = none;
  created_at = none;
  last_verified_at = none;
  affected_system = none;
  resolved_at = none;
  resolved_by = none;
  resolution = none;
  archived_at = none;
  archived_by = none;
  archived_reason = none;
  tombstone_kind = none;
  accepted_at = none;
  accepted_by = none;
  accepted_reason = none;
  shipped_in_plan = none;
  shipped_at = none;
  evidence_code_ref = none;
  evidence_test = none;
  code_fingerprint = none;
  subtype = none;
  recurrence_key = none;
  content =
      ("source", str (codes source))
      ∷ ("target", target)
      ∷ ("rationale", str (codes rationale))
      ∷ ("recorded_at", str st.now)
      ∷ ("recorded_by", str (codes "operator"))
      ∷ [];
}

-- `makeRuleOriginCitation`
abbrev pub rule_origin_citation : Stamp → String → String → Entry
rule_origin_citation st source target = rule_citation "origin" st source (str (codes target))

-- `makeRuleSupersessionCitation`: the target is the patch's value, checked by no schema.
abbrev pub rule_supersession_citation : Stamp → String → Json → Entry
rule_supersession_citation = rule_citation "supersedes"

-- The second append, whose failure restores the first file.
unfoldable pub cite_or_restore {ℓ} :
    {A : Type ℓ} → A → Store → Store → Result Store → Result A × Store
cite_or_restore a before s (ok s') = (ok a, s')
cite_or_restore a before s (thrown e) = (thrown e, restore_snapshot before s)
