-- ===== src/Server.antt =====
-- source/AsyncServer.cpp: the accept loop with the connection limit, and the order of the shutdown.
pub mod Accept
pub mod Shutdown
pub mod Configuration
pub mod Construction
pub mod PluginLimits
pub mod Readiness
pub mod MemoryStatus
pub mod MemoryFields
pub mod MemoryTimer
pub mod Workers
pub mod Allocator
pub mod Fleet
pub mod FleetSteps
