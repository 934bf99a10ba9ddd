-- ===== src/Run.antt =====
-- Runs: the data model, the ship-gate status, the tables and the upload.
pub mod Data
pub mod Status
pub mod Store
pub mod Merge
pub mod Upload
pub mod Badge
mod Examples
