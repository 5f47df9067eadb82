-- ===== src/Server.antt =====
-- The server process (server/).
pub mod State
pub mod Clock
pub mod Connect
pub mod Store
pub mod Membership
pub mod Links
pub mod Heartbeat
pub mod Stabilize
pub mod Step
pub mod Interleaved
pub mod Invariant
pub mod Replica
pub mod Shutdown
pub mod Printing
pub mod Startup
pub mod Blacklist
