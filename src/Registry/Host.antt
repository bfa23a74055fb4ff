-- ===== src/Registry/Host.antt =====
-- What the writes of the registry take from outside: the zod schemas, JSON printing, SHA-256, and the kinds that
-- the worktree's `.loop-version` allows.
use learning_loop_template.Base.{Bool, Option, some, Text, ◌≡◌}
use learning_loop_template.Json.{Json}
use learning_loop_template.Registry.Entry.{Entry, Kind}

-- A schema gives the parsed data, or `none` where it refuses.
pub record Host : Type 0 where
  pub parse_entry : Entry → Option Entry
  pub parse_rule : Entry → Option Entry
  pub stringify : Json → Text
  pub sha256 : Text → Text
  pub is_supported : Kind → Bool

-- What the schemas promise: what passes has the id that it had.
pub record IsSound (h : Host) : Type 0 where
  pub entry_id : (e d : Entry) → h.parse_entry e ≡ some d → d.id ≡ e.id
  pub rule_id : (e d : Entry) → h.parse_rule e ≡ some d → d.id ≡ e.id
