-- ===== src/Registry/Lifecycle.antt =====
-- The lifecycle operations of tools/learning-loop-mastra/core/meta-state.js and their laws.
pub mod Step
pub mod Archive
pub mod Restore
pub mod Accept
pub mod Effect
pub mod Candidates
pub mod Run
pub mod History
pub mod Replies
pub mod RoundTrip
