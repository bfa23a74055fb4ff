-- ===== src/Tests.antt =====
-- Tests of the development at concrete inputs.
mod Gate
mod Registry
mod Recurrence
mod Runtime
mod Shell
mod Status
mod Host
mod Inverse
mod Writes
mod Batch
