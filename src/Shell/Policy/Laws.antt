-- ===== src/Shell/Policy/Laws.antt =====
-- What the policy view keeps of the tokens.
use learning_loop_template.Base.{
  ℕ, ◌≡◌, ◌≢◌, refl, ap, ◌∙◌, Bool, true, Option, none, some, List, [], ◌∷◌, ◌++◌, map, arith, inl,
  inr, ◌↔◌, if◌then◌else◌, Text, All, append_assoc, Bool-cases,
}
use learning_loop_template.Shell.Tokenizer.{Token, word, op, tokenize}
use learning_loop_template.Shell.Policy.Verb.{has, resolve_verb_index}
use learning_loop_template.Shell.Policy.{
  RawSegment, new_segment, is_separator, redirect_ops, split_segments, Segment, finalize_segment,
  finalize_at, is_pipe, wired, wire_pipes, classify_policy_tokens,
}

-- The words among the tokens, and the operators that end a segment.
unfoldable pub words_of : List Token → List (Text × Bool)
words_of [] = []
words_of (word v q ∷ ts) = (v, q) ∷ words_of ts
words_of (op o ∷ ts) = words_of ts

unfoldable pub separators_of : List Token → List Text
separators_of [] = []
separators_of (word v q ∷ ts) = separators_of ts
separators_of (op o ∷ ts) = let rest = separators_of ts in if is_separator o then o ∷ rest else rest

unfoldable pub words_in : List RawSegment → List (Text × Bool)
words_in [] = []
words_in (s ∷ ss) = s.tokens ++ words_in ss

split-words :
    (ts : List Token) (cur : RawSegment)
    → words_in (split_segments cur ts) ≡ cur.tokens ++ words_of ts
unfolding split_segments words_in words_of
split-words [] cur = refl
split-words (word v q ∷ ts) cur =
    split-words ts (record cur { tokens = cur.tokens ++ (v, q) ∷ [] })
    ∙ append_assoc cur.tokens ((v, q) ∷ []) (words_of ts)
split-words (op o ∷ ts) cur = elim (Bool-cases (is_separator o)) [
  | inl ends ↦ rw ends (ap (λ w. cur.tokens ++ w) (split-words ts new_segment))
  | inr goes ↦ rw goes (elim (Bool-cases (has redirect_ops o)) [
    | inl redirect ↦ rw redirect (split-words ts (record cur { has_redirect = true }))
    | inr other ↦ rw other (split-words ts cur)
  ])
]

split-joining :
    (ts : List Token) (cur : RawSegment)
    → cur.joining_op ≡ none
    → map (λ s. s.joining_op) (split_segments cur ts) ≡ map some (separators_of ts) ++ none ∷ []
unfolding split_segments separators_of
split-joining [] cur h = rw h
split-joining (word v q ∷ ts) cur h =
    split-joining ts (record cur { tokens = cur.tokens ++ (v, q) ∷ [] }) h
split-joining (op o ∷ ts) cur h = elim (Bool-cases (is_separator o)) [
  | inl ends ↦ rw ends (ap (◌∷◌ (some o)) (split-joining ts new_segment refl))
  | inr goes ↦ rw goes (elim (Bool-cases (has redirect_ops o)) [
    | inl redirect ↦ rw redirect (split-joining ts (record cur { has_redirect = true }) h)
    | inr other ↦ rw other (split-joining ts cur h)
  ])
]

-- Splitting loses, adds and moves no word: the segments hold the words of the command in order. There
-- is one segment more than there are separators, and each segment but the last is joined to the next
-- by its separator.
pub split_segments_lem :
    (ts : List Token)
    → (words_in (split_segments new_segment ts) ≡ words_of ts)
      × (map (λ s. s.joining_op) (split_segments new_segment ts)
          ≡ map some (separators_of ts) ++ none ∷ [])
split_segments_lem ts = (split-words ts new_segment, split-joining ts new_segment refl)

-- A pipe target is set by a pipe alone, and is the next segment's verb; the last has none.
abbrev pub IsWired : List Segment → Type 0
IsWired [] = Unit
IsWired (s ∷ []) = s.pipe_target ≡ none
IsWired (s ∷ n ∷ rest) =
    ((t : Text)
      → (s.pipe_target ≡ some t) ↔ ((is_pipe s.joining_op ≡ true) × (n.verb ≡ some t) × (t ≢ [])))
    × IsWired (n ∷ rest)

abbrev Unwired : List Segment → Type 0
Unwired = All (λ s. s.pipe_target ≡ none)

abbrev link : Segment → Segment → Segment
link s n = if is_pipe s.joining_op then wired s n else s

link_keeps : (s n : Segment) → ((link s n).verb ≡ s.verb) × ((link s n).joining_op ≡ s.joining_op)
link_keeps s n = ground arith

target_verb :
    (s n : Segment) (t : Text)
    → is_pipe s.joining_op ≡ true
    → n.verb ≡ some t
    → t ≢ []
    → (link s n).pipe_target ≡ some t
target_verb s n [] p v h = absurd (h refl)
target_verb s n (c ∷ cs) p v h = ground arith

link_target :
    (s n : Segment) (t : Text)
    → s.pipe_target ≡ none
    → ((link s n).pipe_target ≡ some t)
      ↔ ((is_pipe s.joining_op ≡ true) × (n.verb ≡ some t) × (t ≢ []))
link_target s n t h = (ground arith, λ g. target_verb s n t g.0 g.1 g.2)

wire-IsWired : (ss : List Segment) → Unwired ss → IsWired (wire_pipes ss)
unfolding wire_pipes
wire-IsWired [] h = tt
wire-IsWired (s ∷ []) h = h.0
wire-IsWired (s ∷ n ∷ []) h = ((λ t. rw (link_keeps s n).1 (link_target s n t h.0)), h.1.0)
wire-IsWired (s ∷ n ∷ m ∷ rest) h = (
  (λ t. rw ((link_keeps s n).1, (link_keeps n m).0) (link_target s n t h.0)),
  wire-IsWired (n ∷ m ∷ rest) h.1,
)

finalize-Unwired : (ss : List RawSegment) → Unwired (map finalize_segment ss)
unfolding finalize_segment
finalize-Unwired [] = tt
finalize-Unwired (s ∷ ss) = (go (resolve_verb_index (map (λ t. t.0) s.tokens)), finalize-Unwired ss)
  where
    go : (i : Option ℕ) → (finalize_at s i).pipe_target ≡ none
    go none = refl
    go (some i) = refl

-- The policy view of any command: a segment's pipe target is set exactly when a real pipe joins it
-- to the next segment and that has a verb that is not empty, and is that verb.
pub classify-IsWired : (command : Text) → IsWired (classify_policy_tokens command).segments
unfolding classify_policy_tokens
classify-IsWired [] = tt
classify-IsWired (c ∷ cs) =
    wire-IsWired _ (finalize-Unwired (split_segments new_segment (tokenize (c ∷ cs))))
