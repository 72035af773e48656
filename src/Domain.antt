-- ===== src/Domain.antt =====
-- The north-domain crate: pure requirement business behaviour.
pub mod Status
pub mod Role
pub mod Assessment
pub mod Requirement
pub mod Packet
pub mod Repository
