-- ===== src/Live.antt =====
-- Live events: the in-memory state of the runs that are in progress.
pub mod Bus
pub mod Keys
pub mod Guard
pub mod Stale
mod Examples
