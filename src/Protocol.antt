-- ===== src/Protocol.antt =====
-- src/fp/protocol: the errors, the data model and its checks, and the normalisation of states.
pub mod Errors
pub mod Json
pub mod Wire
pub mod Models
pub mod Normalize
pub mod Rules
