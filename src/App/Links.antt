-- ===== src/App/Links.antt =====
-- The references between the objects of the server's stores, and that no step breaks one.
pub mod Participants
pub mod Parts
pub mod Invariant
