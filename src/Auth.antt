-- ===== src/Auth.antt =====
-- backend/src/auth.ts and the session routes of backend/src/routes/auth.ts: tokens, cookies, and the
-- gate that every request passes.
pub mod Token
pub mod Gate
pub mod Laws
pub mod Sessions
pub mod Login
pub mod Session
pub mod Rotation
pub mod Claims
mod Examples
