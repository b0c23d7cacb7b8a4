-- ===== src/Tests.antt =====
-- Runs of the models on small inputs, for the theorems that have conditions.
pub mod Samples
pub mod Sessions
pub mod Activities
pub mod Stores
pub mod Streams
pub mod Graph
pub mod Guards
pub mod Deployment
pub mod Server
pub mod Federation
pub mod Transport
