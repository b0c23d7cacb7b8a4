-- ===== src/Federation.antt =====
-- src/fp/federation: the cards of servers, and the directory that publishes them.
pub mod Cards
pub mod Directory
