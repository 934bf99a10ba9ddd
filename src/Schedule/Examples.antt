-- ===== src/Schedule/Examples.antt =====
-- A weekly report at concrete times, and the theorems at these inputs.
use project_flakey.Prelude.{true, none}
use project_flakey.Schedule.{ScheduledReport, weekly}

-- Mondays at 6, never sent.
abbrev monday : ScheduledReport
monday = record {
  id = 1;
  org_id = 1;
  active = true;
  cadence = weekly;
  day_of_week = 1;
  hour_utc = 6;
  last_sent_at = none;
}
