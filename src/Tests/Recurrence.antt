-- ===== src/Tests/Recurrence.antt =====
-- The recurrence tracker at a log of three failures in one session.
use learning_loop_template.Base.{
  ℕ, false, select, any_of, text_eq, none, some, List, [], ◌∷◌, ◌++◌, codes, All,
}
use learning_loop_template.Recurrence.{
  LogLine, Tracker, or_empty, session_groups_from, add_session_entry, add_to_group, is_groupable,
  is_delivery_failure, is_unexpected_match, session_key, producer_scope,
}
use learning_loop_template.Recurrence.Emit.{Printer, check_and_emit, existing_keys}
use learning_loop_template.Recurrence.Emit.OnePerKey.{FreshIds, check_and_emit-OnePerKey}
use learning_loop_template.Registry.Citations.{Stamp}
use learning_loop_template.Registry.Projection.{
  read_registry, sort_by, collapse_from as collapse_lines, read_raw_lines,
}
use learning_loop_template.Registry.Writes.Absent.OnePerKey.{OnePerKey}
use learning_loop_template.Tests.Host.{host, host-IsSound, works, stamp}
use learning_loop_template.Tests.Writes.{no_entries, nothing_found, OnePerKey-no_entries}
use learning_loop_template.Recurrence.Backed.{IsBacked, session_report-IsBacked}
use learning_loop_template.Recurrence.Report.{
  find_recurrent_groups, session_report, is_recurrent, passes_fallback_span_bound,
  cross_session_report, cross_groups_from, add_cross_session_entry, fired_keys, is_cross_session,
  real_sessions, recurrence_key_for, collapse_fresh_by_key, collapse_from, add_fresh,
}
use learning_loop_template.Recurrence.Fresh.{
  IsOncePerKey, IsNew, collapse_fresh_by_key-IsOncePerKey,
}

abbrev tracker : Tracker
tracker = record { get_time = λ t. some 1000; normalize = or_empty; request_key = λ p r. r ++ p }

abbrev failure : LogLine
failure = record {
  ts = codes "2026-01-02T00:00:00Z";
  decision = some (codes "block");
  event_source = none;
  event = none;
  error_code = none;
  candidate_kind = none;
  match_origin = none;
  rule_id = some (codes "toolchain-failure");
  command_prefix = some (codes "pnpm test");
  session_id = some (codes "s1");
  session_id_tier = some (codes "real");
}

abbrev log : List LogLine
log = failure ∷ failure ∷ failure ∷ []

session_report-IsBacked_example : All (IsBacked tracker log 3) (session_report tracker 3 log)
session_report-IsBacked_example = session_report-IsBacked tracker log 3

collapse_fresh_by_key-IsOncePerKey_example :
    IsOncePerKey tracker
      (collapse_fresh_by_key tracker [] (find_recurrent_groups tracker 2000 3 log))
    × All
        (IsNew tracker [])
        (collapse_fresh_by_key tracker [] (find_recurrent_groups tracker 2000 3 log))
collapse_fresh_by_key-IsOncePerKey_example =
    collapse_fresh_by_key-IsOncePerKey tracker [] (find_recurrent_groups tracker 2000 3 log)

abbrev printer : Printer
printer = record { decimal = λ n. n ∷ []; string_of = λ t. "toolchain-failure pnpm test" }

abbrev stamps : ℕ → Stamp
stamps i = stamp

new_ids :
    FreshIds tracker printer host host-IsSound
      (λ i. works)
      stamps
      0
      (read_registry no_entries)
      (collapse_fresh_by_key tracker
        (existing_keys (read_registry no_entries))
        (find_recurrent_groups tracker 2000 3 log))
      no_entries
unfolding FreshIds find_recurrent_groups session_report session_groups_from add_session_entry
    add_to_group is_groupable is_delivery_failure is_unexpected_match session_key producer_scope
    is_recurrent passes_fallback_span_bound select cross_session_report cross_groups_from
    add_cross_session_entry fired_keys is_cross_session real_sessions any_of text_eq
    recurrence_key_for collapse_fresh_by_key collapse_from add_fresh existing_keys read_registry
    sort_by collapse_lines read_raw_lines
new_ids = (nothing_found "meta-9", tt)

check_and_emit-OnePerKey_example :
    OnePerKey
      (check_and_emit tracker printer host (λ i. works) stamps false 2000 3 log no_entries).1
check_and_emit-OnePerKey_example =
    check_and_emit-OnePerKey tracker printer host host-IsSound (λ i. works) stamps false 2000 3 log
      no_entries new_ids OnePerKey-no_entries
