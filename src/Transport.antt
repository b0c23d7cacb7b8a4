-- ===== src/Transport.antt =====
-- src/fp/transport: how a client protects itself from a remote that fails.
pub mod Breaker
pub mod JsonRpc
