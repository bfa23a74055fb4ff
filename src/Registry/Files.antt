-- ===== src/Registry/Files.antt =====
-- Appends to the three files, the snapshots that a failed mutation restores, and the lines of the gate
-- log (tools/learning-loop-mastra/core/meta-state.js, core/registry-append-atomic.js).
use learning_loop_template.Base.{
  ℕ, String, Bool, not, some, List, [], ◌∷◌, ◌++◌, map, Text, codes, if◌then◌else◌,
}
use learning_loop_template.Registry.Entry.{Entry, version_of, is_citation}
use learning_loop_template.Registry.Projection.{Store, Ref, GateLine, dangling_refs, lines_of}
use learning_loop_template.Registry.Lifecycle.Step.{
  citation_leak, io_error, Result, ok, thrown, true_append,
}

-- `fails n`: the n-th append of the operation fails in the file system, and writes nothing.
abbrev pub Disk : Type 0
Disk = ℕ → Bool

unfoldable pub append_line : Bool → Entry → Store → Result Store
append_line broken t s = if broken then thrown io_error else true_append s t

-- `{ ...entry, version: entry.version ?? 0 }`
abbrev pub versioned : Entry → Entry
versioned e = record e { version = some (version_of e) }

-- `appendChangeLogEntryAtomic`
unfoldable pub append_change_log : Bool → Entry → Store → Result Store
append_change_log broken t s =
    if is_citation t.entry_kind
    then thrown citation_leak
    else if broken
    then thrown io_error
    else ok (record s { change_log = some (lines_of s.change_log ++ t ∷ []) })

-- `appendCitationEntryAtomic`
unfoldable pub append_citation : Bool → Entry → Store → Result Store
append_citation broken t s =
    if not (is_citation t.entry_kind)
    then thrown citation_leak
    else if broken
    then thrown io_error
    else ok (record s { citations = s.citations ++ t ∷ [] })

-- `restoreMutationSnapshot` of the two files that a mutation takes a snapshot of.
abbrev pub restore_snapshot : Store → Store → Store
restore_snapshot before s = record s {
  meta_state = before.meta_state;
  citations = before.citations;
}

-- `warnStructuralRI`
unfoldable pub warn_structural_ri : String → List Ref → List GateLine → List GateLine
warn_structural_ri id [] log = log
warn_structural_ri id (r ∷ rs) log = log ++ dangling_refs id (r ∷ rs) ∷ []

abbrev pub ids_of : List Entry → List Text
ids_of = map (λ e. codes e.id)
