-- ===== src/Shell.antt =====
-- The shell tokenizer and the policy view of tools/learning-loop-mastra/core/shell-parse.js.
pub mod Tokenizer
pub mod Policy
