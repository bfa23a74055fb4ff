-- ===== src/Gate.antt =====
-- The command-constraint gate of tools/learning-loop-mastra/core/command-constraint-policy.js.
pub mod Observation
pub mod Policy
pub mod Allowance
pub mod Decision
