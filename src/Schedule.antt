-- ===== src/Schedule.antt =====
-- backend/src/scheduled-reports.ts: which reports a tick sends. Times are epoch milliseconds, and one
-- `now` stands for the process's and the database's. Whether a delivery succeeds is a parameter; the
-- advisory lock makes a tick one step, and the contents of a report are left out.
mod Examples
use project_flakey.Prelude.{
  ℕ, ◌+◌, ◌*◌, ◌/◌, ◌%◌, ◌≤◌, ◌<◌, ◌≡◌, refl, Bool, true, ◌&&◌, Option, none, some, List, [], ◌∷◌,
  map, ◌==◌, leb, ltb, if◌then◌else◌, arith,
}

pub data Cadence : Type 0 where
  daily weekly : Cadence

pub record ScheduledReport : Type 0 where
  pub id : ℕ
  pub org_id : ℕ
  pub active : Bool
  pub cadence : Cadence
  pub day_of_week : ℕ
  pub hour_utc : ℕ
  pub last_sent_at : Option ℕ

-- The UTC calendar day, as a number of days since the epoch.
abbrev pub day_of : ℕ → ℕ
day_of t = t / 86400000

-- getUTCHours
abbrev pub hour_of : ℕ → ℕ
hour_of t = t % 86400000 / 3600000

-- getUTCDay; the epoch was a Thursday
abbrev pub weekday_of : ℕ → ℕ
weekday_of t = (t / 86400000 + 4) % 7

-- DAILY_NOT_SENT_TODAY_SQL
abbrev pub not_sent_today : Option ℕ → ℕ → Bool
not_sent_today none now = true
not_sent_today (some last) now = ltb (day_of last) (day_of now)

-- WEEKLY_NOT_SENT_THIS_WEEK_SQL
abbrev pub not_sent_this_week : Option ℕ → ℕ → Bool
not_sent_this_week none now = true
not_sent_this_week (some last) now = ltb (last + 518400000) now

-- The part of the WHERE clause that depends on the cadence.
abbrev pub in_window : ScheduledReport → Cadence → ℕ → Bool
in_window r daily now = not_sent_today r.last_sent_at now
in_window r weekly now = r.day_of_week == weekday_of now && not_sent_this_week r.last_sent_at now

-- WHERE active = true AND hour_utc <= $1 AND ...
unfoldable pub is_due : ScheduledReport → ℕ → Bool
is_due r now = r.active && leb r.hour_utc (hour_of now) && in_window r r.cadence now

abbrev pub stamp : ℕ → ScheduledReport → ScheduledReport
stamp now r = record r { last_sent_at = some now }

-- One report of the loop: it is stamped when its delivery succeeded.
unfoldable pub tick_report : (ScheduledReport → Bool) → ℕ → ScheduledReport → ScheduledReport
tick_report delivers now r = if is_due r now && delivers r then stamp now r else r

unfoldable pub run_scheduled_reports :
    (ScheduledReport → Bool) → ℕ → List ScheduledReport → List ScheduledReport
run_scheduled_reports delivers now reports = map (tick_report delivers now) reports

-- The days after which a cadence comes round.
abbrev pub period : Cadence → ℕ
period daily = 1
period weekly = 7

window_opens :
    (r : ScheduledReport) (c : Cadence) (last now : ℕ)
    → r.last_sent_at ≡ some last
    → day_of now ≡ day_of last + period c
    → (c ≡ weekly → weekday_of now ≡ r.day_of_week)
    → in_window r c now ≡ true
window_opens r daily last now was day weekday = rw was (ground arith)
window_opens r weekly last now was day weekday =
    let late : last + 518400000 < now = omega arith in
    let same = weekday refl in rw was (ground arith)

-- A report that was sent in some UTC day is due again in the day that its cadence names, 1 or 7 days
-- later, from its hour on, however late in the day it was sent before. This asks that the report is
-- active and, where it is weekly, that the day is its weekday.
pub is_due_next :
    (r : ScheduledReport) (last now : ℕ)
    → r.active ≡ true
    → r.last_sent_at ≡ some last
    → day_of now ≡ day_of last + period r.cadence
    → (r.cadence ≡ weekly → weekday_of now ≡ r.day_of_week)
    → r.hour_utc ≤ hour_of now
    → is_due r now ≡ true
unfolding is_due
is_due_next r last now on was day weekday hour =
    let open_ = window_opens r r.cadence last now was day weekday in rw (on, open_) (ground arith)
