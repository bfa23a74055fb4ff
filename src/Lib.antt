-- ===== src/Lib.antt =====
-- The core of the learning loop: the registry of findings, rules and designs, the tracker that files
-- recurring gate decisions as findings, the parsing of shell commands for the gates, the policy of the
-- command gate, and the runtime-state sidecar with the tools that drive it. The operations that write
-- run under one lock on the project's root; the tracker writes to the registry, the registry and the
-- sidecar share no state, the gate reads the sidecar, and the shell parser has no state.
--
-- Base: names of the libraries, comparisons, JavaScript strings as lists of UTF-16 code units,
-- lists. Json: JSON values, and in Json.Canonical the comparison of
-- tools/learning-loop-mastra/core/canonical-compare.js.
--
-- Registry (tools/learning-loop-mastra/core/meta-state.js,
-- tools/learning-loop-mastra/core/registry-append-atomic.js,
-- tools/learning-loop-mastra/core/operation-invariant.js).
--   Entry is a line: the fields that the operations read or write, a missing or null field as
--   `none`, and the fields only carried along as JSON values by their names. Projection has the files
--   as lists of lines (Store) and the readings `readRegistry` (read_registry) and `readRegistryAllVersions`
--   (read_registry_all_versions); Latest, Found, Newest and Append relate them to one pass over the
--   lines, to the order of versions and creation times, and to the append of a line. Lifecycle has `trueAppendAtomic` (Step.true_append), `archiveEntry`
--   and `deleteEntry` (Archive), `acceptEntry` and `shipLoopDesign` (Accept) and `restoreEntry`
--   (Restore). An operation is a function from a store to a reply, or the error thrown, and the
--   store that it leaves; the time is an argument, and so is whether the append fails in the file
--   system. Run has sequences of operations in the order in which they take the lock. Effect and
--   Candidates carry the proofs of History, Replies and RoundTrip.
--
--   Files has the appends to the three files and `restoreMutationSnapshot`; an append may fail, and
--   then writes nothing: `fails n` (Disk) says whether the n-th append of an operation does. Host has
--   what the writes take from outside, the zod schemas, `JSON.stringify`, SHA-256 and the kinds that
--   `.loop-version` allows, and in IsSound that the schemas keep the id of an entry. Patch has a patch as a list of
--   changes and its spreading over an entry; Fields an entry as a JSON object; References the checks
--   of tools/learning-loop-mastra/core/entry/relationship-graph.js that the writes log, and Inverse its
--   `inverseRefs` and `buildInverseIndexes`; Citations the citations of a promotion and of a
--   supersession. Writes has `writeEntry`, Writes.Absent `writeEntryIfAbsent`, Writes.Promotion `writeRuleWithOriginCitationAtomic`; Update has
--   `updateEntry`, and Refine the patching of an entry that it shares with batches. A fresh id and the
--   time are arguments (Stamp).
--
--   Batch has `metaStateBatch`, of operations as in Ops: Batch.Plan plans one operation, Batch.Commit
--   appends the planned lines and rolls back; Growth, Visible, Atomic, Refining, Steps, View,
--   Bounds and Uncountable carry the proofs. Envelope has `buildEnvelope`, Envelope.Tally
--   `countRegistry` and Envelope.Validation `validateEnvelope`
--   (tools/learning-loop-mastra/core/operation-envelope.js). Names that every JavaScript object
--   inherits, such as `constructor`, are left out where the code tests a key with `in`.
--
--   Status has `isOpen`, `isStaleView` and `deriveStatus`
--   (tools/learning-loop-mastra/core/constants.js, tools/learning-loop-mastra/core/stale-view.js,
--   tools/learning-loop-mastra/core/derive-status.js). The hashes found for the entry, the existence
--   of its evidence files and the parsing of dates are arguments.
--
-- Recurrence (tools/learning-loop-mastra/core/recurrence-tracker.js): the decision log, its groups of
-- one session, and in Report `findRecurrentGroups`, with the groups across sessions, and
-- `collapseFreshByKey`. The parsing of dates, `normalizePrefixForKey` and the key of an interpreted
-- prefix are arguments (Tracker); the time stamps of the log are taken to parse where it is sorted.
-- Emit has `buildFinding` and `checkAndEmit`, whose findings go to the registry by
-- `writeEntryIfAbsent`; each write has its own clock, random id and disk. Groups, Backed, Fresh and
-- Emit.OnePerKey carry the proofs.
--
-- Shell (tools/learning-loop-mastra/core/shell-parse.js).
--   Tokenizer is `tokenize`, its loop a recursion on the text with the local variables as a record;
--   where the code advances by two or three characters the record counts the ones to skip. Policy is
--   `classifyPolicyTokens`, Policy.Verb is `resolveVerbIndex` and `basename`.
--
-- Runtime (tools/learning-loop-mastra/core/runtime-state.js,
-- tools/learning-loop-mastra/core/runtime-tracking.js, and in
-- tools/learning-loop-mastra/tools/handlers the files runtime-state-pause-tool.js,
-- runtime-state-resume-tool.js and runtime-state-stop-tool.js).
--   Row has a row and its fingerprint, over any digest function; Append has the two substrates and
--   `appendLedgerEvent`; Dispatch has `appendOrFindDispatchLedgerEvent`; Tracking has
--   `readBudgetTrackingState` and `isSurfacePaused`; Tools has the three handlers.
--
-- Gate (tools/learning-loop-mastra/core/command-constraint-policy.js,
-- tools/learning-loop-mastra/core/observation-staleness.js,
-- tools/learning-loop-mastra/core/inbound-state.js).
--   Observation has the tests on the age of an observation and `checkObservationStaleness`; Policy
--   has `makeGateDecision`, `evaluateObservationCandidate` and `evaluateCommandConstraintPolicy`.
--   What the interpretation of the command matched, the observations and the operator's last message
--   are arguments; whether a surface is paused is read from the Runtime sidecar. Times are
--   milliseconds since 1970, and `now - ref > window` is written as `ref + window < now`.
--
-- Tests has the theorems at concrete inputs.
--
-- Every loop is a structural recursion, so nothing runs on fuel. Versions are natural numbers
-- without a bound; a version above 2^53, where JavaScript numbers lose precision, is out of scope.
--
-- Not modelled: JSON parsing and printing, the file system and the lock; an operation is one step.
-- A failing append that leaves part of a line is not modelled. The cache of the registry is not modelled: a
-- reading here is one of the files. The code's agrees with that except after `metaStateBatch` throws
-- while it builds the envelope or meets an id collision, since it has then changed the cached array
-- and does not invalidate it. An `evidence_code_ref` of a rule that is null counts as missing. Also
-- left out are the rest of the gates on commands, writes and
-- inbound prompts, the drift report, the normalisation of recurring prefixes,
-- and the delivery of rules.
pub mod Base
pub mod Gate
pub mod Json
pub mod Recurrence
pub mod Registry
pub mod Runtime
pub mod Shell
pub mod Tests
