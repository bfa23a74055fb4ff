-- ===== src/Registry/Writes/Absent.antt =====
-- `writeEntryIfAbsent` of tools/learning-loop-mastra/core/meta-state.js.
pub mod OnePerKey
use learning_loop_template.Base.{
  ℕ, String, Bool, true, false, not, ◌&&◌, Option, none, some, List, if◌then◌else◌, str_eq,
}
use learning_loop_template.Registry.Entry.{Entry, is_finding, is_archived}
use learning_loop_template.Registry.Projection.{Store, write_if_absent_identity, read_registry}
use learning_loop_template.Registry.Lifecycle.Step.{Result, ok, thrown}
use learning_loop_template.Registry.Files.{Disk, append_line, versioned}
use learning_loop_template.Registry.Host.{Host}
use learning_loop_template.Registry.Writes.{opt_str_eq, find_where, settle, prepare_write_entry}

-- A finding that is not archived and holds the key.
unfoldable pub is_recurring : Option String → Entry → Bool
is_recurring key e =
    is_finding e.entry_kind
    && opt_str_eq e.subtype (some "recurring-false-positive")
    && opt_str_eq e.recurrence_key key
    && not (is_archived e.status)

pub data Written : Type 0 where
  written : Written
  suppressed_by : Entry → Written

unfoldable pub write_unless : Disk → Option Entry → Entry → Store → Result Written × Store
write_unless fails (some e) d s = (ok (suppressed_by e), s)
write_unless fails none d s = settle written (append_line (fails 0) (versioned d) s) s

unfoldable pub write_absent_prepared : Disk → Result Entry → Store → Result Written × Store
write_absent_prepared fails (thrown e) s = (thrown e, s)
write_absent_prepared fails (ok d) s =
    write_unless fails (find_where (is_recurring d.recurrence_key) (read_registry s)) d s

unfoldable pub write_entry_if_absent : Host → Disk → Entry → Store → Result Written × Store
write_entry_if_absent h fails e s =
    let (r, s') = prepare_write_entry h true write_if_absent_identity e s in
    write_absent_prepared fails r s'
