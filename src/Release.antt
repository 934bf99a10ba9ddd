-- ===== src/Release.antt =====
-- backend/src/routes/releases.ts: the test sessions of a release, the rules that tell whether it is
-- ready, and its checklist up to the sign-off.
pub mod Data
pub mod Testing
pub mod Results
pub mod Sessions
pub mod Deferrals
pub mod Readiness
pub mod Checklist
pub mod Signatures
pub mod Steps
pub mod Reach
pub mod Rules
pub mod SignOff
pub mod Tested
mod Examples
