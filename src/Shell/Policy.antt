-- ===== src/Shell/Policy.antt =====
-- The policy view of tools/learning-loop-mastra/core/shell-parse.js: `classifyPolicyTokens`,
-- `resolveVerbIndex`, `finalizeSegment`, `basename`.
pub mod Verb
pub mod VerbLaws
pub mod Laws
use mathlib.Core.List.{flatten}
use learning_loop_template.Base.{
  ℕ, zero, suc, Bool, true, false, not, ◌&&◌, ◌||◌, Option, none, some, List, [], ◌∷◌, ◌++◌, map,
  leb, ◌==◌, if◌then◌else◌, Text, codes, text_eq, any_of, select, drop, get_elem?, ◌≡◌, refl,
}
use learning_loop_template.Shell.Tokenizer.{Token, word, op, tokenize}
use learning_loop_template.Shell.Policy.Verb.{resolve_verb_index, basename, has}

abbrev pub logical_ops : List Text
logical_ops = codes ";" ∷ codes "&&" ∷ codes "||" ∷ codes "&" ∷ []

abbrev pub redirect_ops : List Text
redirect_ops =
    codes ">"
    ∷ codes ">>"
    ∷ codes "<"
    ∷ codes "<<"
    ∷ codes "<<<"
    ∷ codes ">>>"
    ∷ codes "&>"
    ∷ codes "&>>"
    ∷ codes ">&"
    ∷ codes "|&"
    ∷ codes "<&"
    ∷ []

abbrev pub pipe_ops : List Text
pipe_ops = codes "|" ∷ []

pub record RawSegment : Type 0 where
  pub tokens : List (Text × Bool)
  pub joining_op : Option Text
  pub has_redirect : Bool

abbrev pub new_segment : RawSegment
new_segment = record { tokens = []; joining_op = none; has_redirect = false }

-- Does the operator end a segment?
unfoldable pub is_separator : Text → Bool
unfolding has
is_separator o = has logical_ops o || has pipe_ops o

-- The loop over the tokens; `cur` is the segment that is being built.
unfoldable pub split_segments : RawSegment → List Token → List RawSegment
unfolding has is_separator
split_segments cur [] = cur ∷ []
split_segments cur (op o ∷ ts) =
    let ended = record cur { joining_op = some o } ∷ split_segments new_segment ts in
    let going =
      split_segments (if has redirect_ops o then record cur { has_redirect = true } else cur) ts in
    if is_separator o then ended else going
split_segments cur (word v q ∷ ts) =
    split_segments (record cur { tokens = cur.tokens ++ (v, q) ∷ [] }) ts

pub record Segment : Type 0 where
  pub verb : Option Text
  pub args : List Text
  pub quoted_data_args : List Text
  pub has_redirect : Bool
  pub joining_op : Option Text
  pub pipe_target : Option Text

-- `tokens[verbIdx]`, which is there.
abbrev value_at : List (Text × Bool) → ℕ → Text
value_at ts i = elim (get_elem? ts i) [ none ↦ [] | some (v, _) ↦ v ]

unfoldable pub finalize_at : RawSegment → Option ℕ → Segment
finalize_at seg none = record {
  verb = none;
  args = [];
  quoted_data_args = [];
  has_redirect = seg.has_redirect;
  joining_op = seg.joining_op;
  pipe_target = none;
}
finalize_at seg (some i) = record {
  verb = some (basename (value_at seg.tokens i));
  args = map (λ t. t.0) (drop (suc i) seg.tokens);
  quoted_data_args = map (λ t. t.0) (select (λ t. t.1) (drop (suc i) seg.tokens));
  has_redirect = seg.has_redirect;
  joining_op = seg.joining_op;
  pipe_target = none;
}

unfoldable pub finalize_segment : RawSegment → Segment
unfolding finalize_at resolve_verb_index basename select
finalize_segment seg = finalize_at seg (resolve_verb_index (map (λ t. t.0) seg.tokens))

abbrev pub is_pipe : Option Text → Bool
is_pipe none = false
is_pipe (some o) = has pipe_ops o

-- `if (next.verb)`: neither null nor empty
abbrev pub target_of : Option Text → Option Text
target_of (some (c ∷ cs)) = some (c ∷ cs)
target_of _ = none

abbrev wired : Segment → Segment → Segment
wired s next = elim (target_of next.verb) [ none ↦ s | some v ↦ record s { pipe_target = some v } ]

-- The loop that sets `pipeTarget`.
unfoldable pub wire_pipes : List Segment → List Segment
wire_pipes [] = []
wire_pipes (s ∷ []) = s ∷ []
wire_pipes (s ∷ next ∷ rest) =
    (if is_pipe s.joining_op then wired s next else s) ∷ wire_pipes (next ∷ rest)

abbrev pub is_exec : Option Text → Bool
is_exec none = false
is_exec (some v) = text_eq v (codes "exec")

pub record PolicyView : Type 0 where
  pub segments : List Segment
  pub contains_exec : Bool

-- `classifyPolicyTokens` on a string; the empty string is falsy.
unfoldable pub classify_policy_tokens : Text → PolicyView
unfolding tokenize split_segments finalize_segment wire_pipes any_of text_eq
classify_policy_tokens [] = record { segments = []; contains_exec = false }
classify_policy_tokens (c ∷ cs) =
    let segments =
      wire_pipes (map finalize_segment (split_segments new_segment (tokenize (c ∷ cs)))) in
    record { segments = segments; contains_exec = any_of (λ s. is_exec s.verb) segments }

-- Test: a flag value of `sudo` is not the verb, and a pipe names the next verb.
policy_test :
    let view =
      classify_policy_tokens
        (codes "sudo -u root X=1 /bin/cat 'a b' c | nice -n 5 bash; exec ls") in
    (map (λ s. s.verb) view.segments
      ≡ some (codes "cat") ∷ some (codes "bash") ∷ some (codes "exec") ∷ [])
    × (map (λ s. s.pipe_target) view.segments ≡ some (codes "bash") ∷ none ∷ none ∷ [])
    × (map (λ s. s.quoted_data_args) view.segments ≡ (codes "a b" ∷ []) ∷ [] ∷ [] ∷ [])
    × (view.contains_exec ≡ true)
unfolding classify_policy_tokens
policy_test = (refl, refl, refl, refl)
