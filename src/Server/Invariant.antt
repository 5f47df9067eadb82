-- ===== src/Server/Invariant.antt =====
-- The well-formedness of a server's state (server/).
pub mod MemberList
pub mod StoreEntries
pub mod Defs
pub mod Handlers
pub mod Rounds
pub mod Calls
pub mod Events
