-- ===== src/Triage.antt =====
-- Error triage: groups, their priority, recurrence and automatic closing.
pub mod Group
pub mod Priority
pub mod Recurrence
pub mod Autoclose
mod Examples
