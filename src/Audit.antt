-- ===== src/Audit.antt =====
-- The tamper-evident audit log: canonical JSON, the hash chain, and its verification.
pub mod Json
pub mod Chain
pub mod Export
mod Examples
