-- ===== src/Normalize.antt =====
-- The normalizers: report formats of test runners, turned into the run of Run/Data.
pub mod Tally
pub mod Mochawesome
mod Examples
mod Samples
pub mod Playwright
pub mod Jest
pub mod Webdriverio
