-- ===== src/Registry/Envelope/Shape.antt =====
-- The kinds and targets of an envelope (tools/learning-loop-mastra/core/operation-envelope.js).
use learning_loop_template.Base.{
  ℕ, String, Bool, false, ◌&&◌, ◌||◌, List, [], ◌∷◌, Text, any_of, leb, ◌==◌,
}

-- `OPERATION_ENVELOPE_KINDS`
abbrev pub operation_envelope_kinds : List String
operation_envelope_kinds =
    "migration" ∷ "sweep" ∷ "closeout" ∷ "consolidation" ∷ "backfill" ∷ "archive-wave"
    ∷ "escalation-batch" ∷ "manual-batch" ∷ []

abbrev is_control : ℕ → Bool
is_control c = leb c 31 || c == 127

-- `/[\x00-\x1f\x7f]/`
unfoldable pub has_control : Text → Bool
has_control = any_of is_control

-- `/\.\./`
unfoldable pub has_dots : Text → Bool
has_dots [] = false
has_dots (c ∷ []) = false
has_dots (c ∷ d ∷ cs) = (c == 46 && d == 46) || has_dots (d ∷ cs)
