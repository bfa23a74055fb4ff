-- ===== src/Runtime.antt =====
-- The runtime-state sidecar of tools/learning-loop-mastra/core/runtime-state.js and the tools that
-- drive its tracking lifecycle.
pub mod Row
pub mod Append
pub mod Tracking
pub mod Dispatch
pub mod Tools
