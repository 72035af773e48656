-- ===== src/Tests.antt =====
-- Tests of the definitions, and the theorems at concrete inputs.
mod Net
mod Identity
mod Requirement
mod Packet
mod Limiter
mod Protocol
mod Scheduler
mod Journal
mod Intake
mod Coordination
mod Repository
mod Context
mod Inspection
