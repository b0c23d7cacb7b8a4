-- ===== src/Stores.antt =====
-- src/fp/stores: the generic in-memory stores, their interfaces, and the stores of the runtime.
pub mod Paging
pub mod Kv
pub mod Grouped
pub mod Interfaces
pub mod Memory
pub mod Events
pub mod Stored
