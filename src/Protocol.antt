-- ===== src/Protocol.antt =====
-- The north-protocol crate (crates/north-protocol/src/lib.rs): wire types and their validation.
pub mod Checks
pub mod Command
pub mod Event
pub mod Reconcile
pub mod Frame
pub mod Codec
