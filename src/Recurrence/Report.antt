-- ===== src/Recurrence/Report.antt =====
-- The report of recurring groups (tools/learning-loop-mastra/core/recurrence-tracker.js). The samples of
-- commands, which are hashes for display, are left out.
use learning_loop_template.Base.{
  ℕ, ◌+◌, Bool, true, false, not, ◌&&◌, ◌||◌, Option, none, some, List, [], ◌∷◌, ◌++◌, map, Text,
  codes, if◌then◌else◌, text_eq, text_lt, any_of, select, length, ltb, leb, get_or,
}
use learning_loop_template.Recurrence.{
  LogLine, Tracker, opt_is, or_empty, is_filled, is_delivery_failure, producer_scope, is_groupable,
  Group, add_to_group, session_groups, colons,
}

abbrev pub recurrence_threshold_n : ℕ
recurrence_threshold_n = 3

abbrev pub fallback_tier_span_ms : ℕ
fallback_tier_span_ms = 86400000

abbrev pub cross_session_threshold_n : ℕ
cross_session_threshold_n = 5

abbrev pub cross_session_min_real_sessions : ℕ
cross_session_min_real_sessions = 2

-- `sessions` is `none` for a group of one session.
pub record Recurrent : Type 0 where
  pub rule_id : Text
  pub prefix : Text
  pub session_id : Text
  pub producer : Option Text
  pub event : Option Text
  pub error_code : Option Text
  pub count : ℕ
  pub first_ts : Text
  pub last_ts : Text
  pub sessions : Option ℕ
  pub cross_session_slow_burn : Bool
  pub delivery_failure : Bool

abbrev pub ts_of : Option LogLine → Text
ts_of none = []
ts_of (some e) = e.ts

abbrev pub first_of : List LogLine → Option LogLine
first_of [] = none
first_of (e ∷ es) = some e

abbrev pub last_of : List LogLine → Option LogLine
last_of [] = none
last_of (e ∷ []) = some e
last_of (e ∷ f ∷ es) = last_of (f ∷ es)

module _ (x : Tracker) where
  -- `last - first <= span`; NaN compares as false.
  abbrev pub within_span : Option ℕ → Option ℕ → Bool
  within_span (some s) (some t) = leb t (s + fallback_tier_span_ms)
  within_span _ _ = false

  unfoldable pub passes_fallback_span_bound : List LogLine → Bool
  passes_fallback_span_bound es =
      not (any_of (λ e. opt_is e.session_id_tier "fallback") es)
      || within_span (x.get_time (ts_of (first_of es))) (x.get_time (ts_of (last_of es)))

  unfoldable pub is_recurrent : ℕ → Group → Bool
  is_recurrent threshold g =
      not (ltb (length g.entries) threshold) && passes_fallback_span_bound g.entries

  abbrev pub recurrent_of : Group → Recurrent
  recurrent_of g = record {
    rule_id = g.rule_id;
    prefix = g.prefix;
    session_id = g.session_id;
    producer = g.producer;
    event = g.event;
    error_code = g.error_code;
    count = length g.entries;
    first_ts = ts_of (first_of g.entries);
    last_ts = ts_of (last_of g.entries);
    sessions = none;
    cross_session_slow_burn = false;
    delivery_failure = any_of is_delivery_failure g.entries;
  }

  unfoldable pub session_report : ℕ → List LogLine → List Recurrent
  session_report threshold log =
      map recurrent_of (select (is_recurrent threshold) (session_groups x log))

  -- `recurrenceKeyFor`
  unfoldable pub recurrence_key_for : Text → Text → Option Text → Option Text → Option Text → Text
  recurrence_key_for prefix rule_id producer event error_code =
      let base = x.request_key prefix rule_id in
      if not (opt_is producer "rule-delivery")
      then base
      else base
        ++ colons
        ++ null_text producer
        ++ colons
        ++ null_text event
        ++ colons
        ++ null_text error_code
    where
      null_text : Option Text → Text
      null_text none = codes "null"
      null_text (some t) = t

  abbrev pub key_of_report : Recurrent → Text
  key_of_report r = recurrence_key_for r.prefix r.rule_id r.producer r.event r.error_code

  -- `timestamp >= now - CROSS_SESSION_WINDOW_MS`, for a date that parses
  abbrev pub in_window : ℕ → Option ℕ → Bool
  in_window now none = false
  in_window now (some t) = leb now (t + 604800000)

  -- `withinWindowFiredKeys`
  unfoldable pub fired_keys : ℕ → List Recurrent → List Text
  fired_keys now rs = map key_of_report (select (λ r. in_window now (x.get_time r.last_ts)) rs)

  abbrev pub cross_group : LogLine → Group
  cross_group e = record {
    group_key =
        producer_scope e ++ colons ++ or_empty e.rule_id ++ colons ++ x.normalize e.command_prefix;
    rule_id = or_empty e.rule_id;
    prefix = x.normalize e.command_prefix;
    session_id = [];
    producer = e.event_source;
    event = e.event;
    error_code = e.error_code;
    entries = e ∷ [];
  }

  unfoldable pub add_cross_session_entry : ℕ → LogLine → List Group → List Group
  add_cross_session_entry now e gs =
      if is_filled e.rule_id && is_filled e.session_id && in_window now (x.get_time e.ts)
      then add_to_group (cross_group e) e gs
      else gs

  unfoldable pub cross_groups_from : ℕ → List Group → List LogLine → List Group
  cross_groups_from now gs [] = gs
  cross_groups_from now gs (e ∷ es) = cross_groups_from now (add_cross_session_entry now e gs) es

  -- `realSessions` of a group, which the code adds to with each entry
  unfoldable pub real_sessions : List LogLine → List Text
  real_sessions [] = []
  real_sessions (e ∷ es) =
      let rest = real_sessions es in
      if opt_is e.session_id_tier "real" && not (any_of (text_eq (or_empty e.session_id)) rest)
      then or_empty e.session_id ∷ rest
      else rest

  -- The first entry of the latest time stamp, among those of real sessions.
  unfoldable pub latest_real : Option LogLine → List LogLine → Option LogLine
  latest_real best [] = best
  latest_real none (e ∷ es) =
      latest_real (if opt_is e.session_id_tier "real" then some e else none) es
  latest_real (some b) (e ∷ es) =
      latest_real (some (if opt_is e.session_id_tier "real" && text_lt b.ts e.ts then e else b)) es

  abbrev session_of : Option LogLine → Text
  session_of none = []
  session_of (some e) = or_empty e.session_id

  unfoldable pub latest_real_session_id : List LogLine → Text
  latest_real_session_id es = elim (latest_real none es) [
    | some e ↦ or_empty e.session_id
    | none ↦ session_of (last_of es)
  ]

  unfoldable pub is_cross_session : List Text → Group → Bool
  is_cross_session fired g =
      not (ltb (length g.entries) cross_session_threshold_n)
      && not (ltb (length (real_sessions g.entries)) cross_session_min_real_sessions)
      && not (
          any_of (text_eq (recurrence_key_for g.prefix g.rule_id g.producer g.event g.error_code))
            fired)

  abbrev pub cross_session_of : Group → Recurrent
  cross_session_of g = record (recurrent_of g) {
    session_id = latest_real_session_id g.entries;
    sessions = some (length (real_sessions g.entries));
    cross_session_slow_burn = true;
  }

  -- `findCrossSessionGroups`
  unfoldable pub cross_session_report : ℕ → List LogLine → List Recurrent → List Recurrent
  cross_session_report now log recurrent = map cross_session_of (
      select (is_cross_session (fired_keys now recurrent))
        (cross_groups_from now [] (select is_groupable log)))

  -- `findRecurrentGroups` on the log that `readDecisionLogEntries` gives
  unfoldable pub find_recurrent_groups : ℕ → ℕ → List LogLine → List Recurrent
  find_recurrent_groups now threshold log =
      let single = session_report threshold log in single ++ cross_session_report now log single

  abbrev earliest : Text → Text → Text
  earliest a b = if text_lt a b then a else b

  abbrev latest : Text → Text → Text
  latest a b = if text_lt b a then a else b

  abbrev pub merged : Recurrent → Recurrent → Recurrent
  merged prior g = record prior {
    count = prior.count + g.count;
    first_ts = earliest prior.first_ts g.first_ts;
    last_ts = latest prior.last_ts g.last_ts;
    sessions = some (get_or prior.sessions 1 + 1);
  }

  unfoldable pub add_fresh : Text → Recurrent → List (Text × Recurrent) → List (Text × Recurrent)
  add_fresh k g [] = (k, g) ∷ []
  add_fresh k g ((j, prior) ∷ rest) =
      let added = add_fresh k g rest in
      if text_eq j k then (j, merged prior g) ∷ rest else (j, prior) ∷ added

  unfoldable pub collapse_from :
      List Text → List (Text × Recurrent) → List Recurrent → List (Text × Recurrent)
  collapse_from existing fresh [] = fresh
  collapse_from existing fresh (g ∷ gs) =
      collapse_from existing
        (if any_of (text_eq (key_of_report g)) existing
          then fresh
          else add_fresh (key_of_report g) g fresh)
        gs

  -- `collapseFreshByKey`: the values of the map
  unfoldable pub collapse_fresh_by_key : List Text → List Recurrent → List Recurrent
  collapse_fresh_by_key existing gs = map (λ f. f.1) (collapse_from existing [] gs)
