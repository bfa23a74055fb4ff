-- ===== src/Registry.antt =====
-- The registry of core/meta-state.js.
pub mod Entry
pub mod Projection
pub mod Lifecycle
pub mod Patch
pub mod Fields
pub mod References
pub mod Inverse
pub mod Files
pub mod Host
pub mod Citations
pub mod Writes
pub mod Refine
pub mod Update
pub mod Ops
pub mod Envelope
pub mod Batch
pub mod Status
