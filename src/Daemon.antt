-- ===== src/Daemon.antt =====
-- The north-daemon crate: the journal of events, and the scheduling of runtime work.
pub mod Exec
pub mod Control
pub mod Journal
pub mod Coordination
pub mod Inspection
pub mod Scheduler
