-- ===== src/Recurrence.antt =====
-- The groups of recurring gate decisions (tools/learning-loop-mastra/core/recurrence-tracker.js).
pub mod Groups
pub mod Report
pub mod Fresh
pub mod Backed
pub mod Emit
use learning_loop_template.Base.{
  ℕ, ◌+◌, ◌-◌, String, Bool, true, false, not, ◌&&◌, ◌||◌, Option, none, some, List, [], ◌∷◌, ◌++◌,
  map, Text, codes, if◌then◌else◌, text_eq, text_lt, any_of, select, length, ltb, leb, is_set,
}

-- A line of the decision log, as far as the tracker reads it; `none` for a missing or null field.
pub record LogLine : Type 0 where
  pub ts : Text
  pub decision : Option Text
  pub event_source : Option Text
  pub event : Option Text
  pub error_code : Option Text
  pub candidate_kind : Option Text
  pub match_origin : Option Text
  pub rule_id : Option Text
  pub command_prefix : Option Text
  pub session_id : Option Text
  pub session_id_tier : Option Text

-- What the tracker calls: the parsing of dates, `normalizePrefixForKey`, and the recurrence key of an
-- interpreted prefix and a rule.
pub record Tracker : Type 0 where
  pub get_time : Text → Option ℕ
  pub normalize : Option Text → Text
  pub request_key : Text → Text → Text

abbrev pub opt_is : Option Text → String → Bool
opt_is none k = false
opt_is (some t) k = text_eq t (codes k)

-- `v ?? ""`
abbrev pub or_empty : Option Text → Text
or_empty none = []
or_empty (some t) = t

-- Is the text there and not empty?
abbrev pub is_filled : Option Text → Bool
is_filled none = false
is_filled (some t) = not (text_eq t [])

unfoldable pub is_unexpected_match : LogLine → Bool
is_unexpected_match e =
    opt_is e.event_source "bash-gate-evaluator"
    && opt_is e.candidate_kind "unexpected-match"
    && opt_is e.match_origin "inert-data"

unfoldable pub is_delivery_failure : LogLine → Bool
is_delivery_failure e =
    opt_is e.event_source "rule-delivery"
    && opt_is e.event "delivery-failure"
    && is_filled e.error_code

abbrev pub colons : Text
colons = codes "::"

unfoldable pub producer_scope : LogLine → Text
producer_scope e =
    if is_delivery_failure e
    then or_empty e.event_source ++ colons ++ or_empty e.event ++ colons ++ or_empty e.error_code
    else codes "legacy"

unfoldable pub is_groupable : LogLine → Bool
is_groupable e =
    is_filled e.rule_id
    && (opt_is e.rule_id "toolchain-failure" || is_delivery_failure e || is_unexpected_match e)

unfoldable pub identity_key : LogLine → Text
identity_key e =
    e.ts
    ++ colons
    ++ or_empty e.command_prefix
    ++ colons
    ++ or_empty e.rule_id
    ++ colons
    ++ or_empty e.decision
    ++ colons
    ++ or_empty e.session_id

unfoldable pub provenance_signature : LogLine → Text
provenance_signature e =
    or_empty e.event_source
    ++ codes "|"
    ++ or_empty e.match_origin
    ++ codes "|"
    ++ or_empty e.candidate_kind

-- Do lines of one identity differ in their signatures?
unfoldable pub is_contested : List LogLine → LogLine → Bool
is_contested raw e =
    any_of
      (λ x.
        text_eq (identity_key x) (identity_key e)
        && not (text_eq (provenance_signature x) (provenance_signature e)))
      raw

abbrev pub unclassified : LogLine → LogLine
unclassified e = record e {
  candidate_kind = some (codes "unclassified");
  match_origin = some (codes "unknown");
}

-- The first line of each identity, unclassified where others contest its signature.
unfoldable pub first_lines : List LogLine → List Text → List LogLine → List LogLine
first_lines raw seen [] = []
first_lines raw seen (e ∷ es) =
    let next = first_lines raw (identity_key e ∷ seen) es in
    let same = first_lines raw seen es in
    if any_of (text_eq (identity_key e)) seen
    then same
    else (if is_contested raw e then unclassified e else e) ∷ next

module _ (x : Tracker) where
  abbrev pub earlier : LogLine → LogLine → Bool
  earlier a b = elim (x.get_time a.ts) [
    | none ↦ false
    | some s ↦ elim (x.get_time b.ts) [ none ↦ false | some t ↦ ltb s t ]
  ]

  unfoldable pub insert_by_time : LogLine → List LogLine → List LogLine
  insert_by_time e [] = e ∷ []
  insert_by_time e (p ∷ ps) =
      let rest = insert_by_time e ps in if earlier p e then p ∷ rest else e ∷ p ∷ ps

  unfoldable pub sort_by_time : List LogLine → List LogLine
  unfolding insert_by_time
  sort_by_time [] = []
  sort_by_time (e ∷ es) = insert_by_time e (sort_by_time es)

  -- `readDecisionLogEntries` on the lines of all surfaces, whose time stamps parse.
  unfoldable pub read_decision_log : List LogLine → List LogLine
  read_decision_log raw = sort_by_time (first_lines raw [] raw)

-- A group of the map, with its key.
pub record Group : Type 0 where
  pub group_key : Text
  pub rule_id : Text
  pub prefix : Text
  pub session_id : Text
  pub producer : Option Text
  pub event : Option Text
  pub error_code : Option Text
  pub entries : List LogLine

-- The entry goes to the group of its key, or to a new one behind the others.
unfoldable pub add_to_group : Group → LogLine → List Group → List Group
add_to_group new e [] = new ∷ []
add_to_group new e (g ∷ gs) =
    if text_eq g.group_key new.group_key
    then record g { entries = g.entries ++ e ∷ [] } ∷ gs
    else g ∷ add_to_group new e gs

module _ (x : Tracker) where
  unfoldable pub session_key : LogLine → Text
  session_key e =
      producer_scope e
      ++ colons
      ++ or_empty e.rule_id
      ++ colons
      ++ x.normalize e.command_prefix
      ++ colons
      ++ or_empty e.session_id

  abbrev pub new_group : LogLine → Group
  new_group e = record {
    group_key = session_key e;
    rule_id = or_empty e.rule_id;
    prefix = x.normalize e.command_prefix;
    session_id = or_empty e.session_id;
    producer = e.event_source;
    event = e.event;
    error_code = e.error_code;
    entries = e ∷ [];
  }

  abbrev pub is_counted : LogLine → Bool
  is_counted e = is_groupable e && is_filled e.session_id

  unfoldable pub add_session_entry : LogLine → List Group → List Group
  add_session_entry e gs = if is_counted e then add_to_group (new_group e) e gs else gs

  unfoldable pub session_groups_from : List Group → List LogLine → List Group
  session_groups_from gs [] = gs
  session_groups_from gs (e ∷ es) = session_groups_from (add_session_entry e gs) es

  abbrev pub session_groups : List LogLine → List Group
  session_groups = session_groups_from []
