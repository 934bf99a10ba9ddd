-- ===== src/Quarantine.antt =====
-- Quarantine: muted tests, their expiry, and how a quarantine softens the merge gate.
pub mod Lifecycle
pub mod Display
pub mod Table
pub mod Sweep
pub mod Auto
pub mod Gate
mod Examples
