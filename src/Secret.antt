-- ===== src/Secret.antt =====
-- backend/src/crypto.ts: secrets that are stored encrypted.
pub mod Envelope
pub mod Rotation
mod Examples
