-- ===== src/App/Effects.antt =====
-- What each call of the server does to the stores whose objects refer to each other, as steps.
pub mod Graph
pub mod Sessions
pub mod Policy
pub mod Economy
pub mod Starting
pub mod AsyncStarting
pub mod Activities
pub mod Admission
pub mod Other
