-- ===== src/Recurrence/Backed.antt =====
-- What stands behind a reported group.
use learning_loop_template.Base.{
  ℕ, ◌≤◌, ◌≡◌, refl, true, ap, ◌∙◌, List, [], ◌∷◌, map, select, length, All, All-Has, Has, arith,
  Bool-cases, text_eq, inl, inr,
}
use learning_loop_template.Recurrence.{
  LogLine, Tracker, Group, or_empty, add_to_group, session_key, new_group, is_counted,
  add_session_entry, session_groups_from, session_groups,
}
use learning_loop_template.Recurrence.Groups.{belongs, session_groups-lines}
use learning_loop_template.Recurrence.Report.{
  Recurrent, ts_of, first_of, last_of, is_recurrent, recurrent_of, session_report,
}

module _ (x : Tracker) (log : List LogLine) where
  -- A counted line of the log has the key, the rule, the prefix, the session and the producer of the
  -- group.
  abbrev IsFounded : Group → Type 0
  IsFounded g =
      (e : LogLine) × Has e log
      × (is_counted x e ≡ true)
      × (g.group_key ≡ session_key x e)
      × (g.rule_id ≡ or_empty e.rule_id)
      × (g.prefix ≡ x.normalize e.command_prefix)
      × (g.session_id ≡ or_empty e.session_id)
      × (g.producer ≡ e.event_source)
      × (g.event ≡ e.event)
      × (g.error_code ≡ e.error_code)

  add_to_group-IsFounded :
      (new : Group) (e : LogLine) (gs : List Group)
      → IsFounded new
      → All IsFounded gs
      → All IsFounded (add_to_group new e gs)
  unfolding add_to_group
  add_to_group-IsFounded new e [] here all = (here, tt)
  add_to_group-IsFounded new e (g ∷ gs) here (now, later) =
      elim (Bool-cases (text_eq g.group_key new.group_key)) [
        | inl own ↦ rw own (now, later)
        | inr other ↦ rw other (now, add_to_group-IsFounded new e gs here later)
      ]

  session_groups_from-IsFounded :
      (gs : List Group) (es : List LogLine)
      → ((e : LogLine) → Has e es → Has e log)
      → All IsFounded gs
      → All IsFounded (session_groups_from x gs es)
  unfolding session_groups_from add_session_entry
  session_groups_from-IsFounded gs [] part all = all
  session_groups_from-IsFounded gs (e ∷ es) part all = elim (Bool-cases (is_counted x e)) [
    | inr idle ↦ rw idle (session_groups_from-IsFounded gs es (λ f there. part f (inr there)) all)
    | inl counts ↦
        let founder : IsFounded (new_group x e) =
          (e, part e (inl refl), counts, refl, refl, refl, refl, refl, refl, refl) in
        rw counts (
          session_groups_from-IsFounded (add_to_group (new_group x e) e gs) es
            (λ f there. part f (inr there))
            (add_to_group-IsFounded (new_group x e) e gs founder all))
  ]

  -- The report names the rule, the prefix, the session and the producer of a counted line of the log;
  -- its count is the number of the lines that count for the key of that line, its time stamps are those
  -- of the first and the last of them, and the count reaches the threshold.
  abbrev pub IsBacked : ℕ → Recurrent → Type 0
  IsBacked threshold r =
      (e : LogLine) × Has e log
      × (is_counted x e ≡ true)
      × (r.rule_id ≡ or_empty e.rule_id)
      × (r.prefix ≡ x.normalize e.command_prefix)
      × (r.session_id ≡ or_empty e.session_id)
      × (r.producer ≡ e.event_source)
      × (r.event ≡ e.event)
      × (r.error_code ≡ e.error_code)
      × (r.count ≡ length (select (belongs x (session_key x e)) log))
      × (r.first_ts ≡ ts_of (first_of (select (belongs x (session_key x e)) log)))
      × (r.last_ts ≡ ts_of (last_of (select (belongs x (session_key x e)) log)))
      × (threshold ≤ r.count)

  module _ (threshold : ℕ) where
    abbrev IsWhole : Group → Type 0
    IsWhole g = g.entries ≡ select (belongs x g.group_key) log

    recurrent_of-IsBacked :
        (g : Group)
        → IsFounded g
        → IsWhole g
        → threshold ≤ length g.entries
        → IsBacked threshold (recurrent_of x g)
    recurrent_of-IsBacked g (e, there, counts, key, rule, prefix, session, from, event, code) whole
          enough =
        let lines : g.entries ≡ select (belongs x (session_key x e)) log =
          whole ∙ ap (λ k. select (belongs x k) log) key in
        (
          e,
          there,
          counts,
          rule,
          prefix,
          session,
          from,
          event,
          code,
          ap (λ es. length es) lines,
          ap (λ es. ts_of (first_of es)) lines,
          ap (λ es. ts_of (last_of es)) lines,
          enough,
        )

    reported-IsBacked :
        (gs : List Group)
        → All IsFounded gs
        → All IsWhole gs
        → All (IsBacked threshold) (map (recurrent_of x) (select (is_recurrent x threshold) gs))
    unfolding select is_recurrent
    reported-IsBacked [] founded whole = tt
    reported-IsBacked (g ∷ gs) (founder, founders) (now, later) =
        elim (Bool-cases (is_recurrent x threshold g)) [
          | inr other ↦ rw other (reported-IsBacked gs founders later)
          | inl enough ↦
              let above : threshold ≤ length g.entries = ground arith in
              rw enough
                (recurrent_of-IsBacked g founder now above, reported-IsBacked gs founders later)
        ]

    -- Every group that is reported for one session has the rule, prefix, session, producer, event and
    -- error code of a counted line of the log; its count is the number of the counted lines with the
    -- session key of that line, its time stamps are those of the first and the last of them, and the
    -- count reaches the threshold.
    pub session_report-IsBacked : All (IsBacked threshold) (session_report x threshold log)
    unfolding session_report
    session_report-IsBacked =
        reported-IsBacked (session_groups x log)
          (session_groups_from-IsFounded [] log (λ e there. there) tt)
          (All-Has IsWhole (session_groups x log) (session_groups-lines x log))
