-- ===== src/Runtime.antt =====
-- src/fp/runtime: the engines over the stores.
pub mod Revise
pub mod Sessions
pub mod Activities
pub mod Backpressure
pub mod Streams
pub mod Idempotency
pub mod Dispatch
pub mod Compaction
pub mod Governance
