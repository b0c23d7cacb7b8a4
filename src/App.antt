-- ===== src/App.antt =====
-- src/fp/app: the server, which puts the registries, the engines and the stores together.
pub mod State
pub mod Graph
pub mod Sessions
pub mod Start
pub mod AsyncStart
pub mod Activities
pub mod Economy
pub mod Handshake
pub mod Events
pub mod Quiet
pub mod Calls
pub mod Effects
pub mod Steps
pub mod Links
pub mod Reachable
pub mod Decisions
pub mod Frames
pub mod Retry
