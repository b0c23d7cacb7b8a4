-- ===== src/Observability.antt =====
-- src/fp/observability: counters, and the count of the tokens of a payload.
pub mod Metrics
pub mod Tokens
