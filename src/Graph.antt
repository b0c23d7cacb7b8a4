-- ===== src/Graph.antt =====
-- src/fp/graph: the registries of entities, organizations and memberships, and the relations between
-- entities.
pub mod Entities
pub mod Organizations
pub mod Memberships
pub mod Relations
