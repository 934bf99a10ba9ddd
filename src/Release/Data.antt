-- ===== src/Release/Data.antt =====
-- backend/src/routes/releases.ts: the tables of releases, as far as the handlers read and write them.
-- The columns that are only shown (descriptions, dates, assignments, evidence) are left out.
use project_flakey.Prelude.{ℕ, String, Bool, true, false, Option, List, str_eq, ◌||◌}

-- STATUSES
pub data ReleaseStatus : Type 0 where
  draft in_progress signed_off released cancelled : ReleaseStatus

pub record Release : Type 0 where
  pub id : ℕ
  pub version : String
  pub status : ReleaseStatus
  pub signed_off_by : Option ℕ
  pub signed_off_at : Option ℕ

-- The two rules, and any other text.
pub data AutoRule : Type 0 where
  critical_tests_passing manual_regression_executed unknown : AutoRule

-- A row of release_checklist_items.
pub record Item : Type 0 where
  pub id : ℕ
  pub release_id : ℕ
  pub label : String
  pub required : Bool
  pub auto_rule : Option AutoRule
  pub checked : Bool
  pub checked_by : Option ℕ
  pub checked_at : Option ℕ

pub data SessionStatus : Type 0 where
  active completed : SessionStatus

-- A row of release_test_sessions; `active` is 'in_progress'.
pub record Session : Type 0 where
  pub id : ℕ
  pub release_id : ℕ
  pub session_number : ℕ
  pub label : Option String
  pub failures_only : Bool
  pub status : SessionStatus
  pub completed_at : Option ℕ

-- SESSION_RESULT_STATUSES
pub data ResultStatus : Type 0 where
  not_run passed failed blocked skipped : ResultStatus

pub record Step : Type 0 where
  pub status : String
  pub comment : String

-- A row of release_test_session_results.
pub record Result : Type 0 where
  pub session_id : ℕ
  pub manual_test_id : ℕ
  pub status : ResultStatus
  pub notes : Option String
  pub step_results : List Step
  pub run_by : Option ℕ
  pub run_at : Option ℕ
  pub accepted_as_known_issue : Bool
  pub known_issue_ref : Option String
  pub accepted_by : Option ℕ
  pub accepted_at : Option ℕ
  pub filed_bug : Option (String × String)

-- A row of release_manual_tests.
pub record Link : Type 0 where
  pub release_id : ℕ
  pub manual_test_id : ℕ

-- A row of manual_tests; `is_high` is that its priority is high or critical.
pub record ManualTest : Type 0 where
  pub id : ℕ
  pub status : ResultStatus
  pub is_high : Bool

-- A row of runs, with whether live_events holds a 'run.aborted' of it.
pub record RunRow : Type 0 where
  pub id : ℕ
  pub failed : ℕ
  pub is_finished : Bool
  pub is_aborted : Bool

-- A row of release_runs.
pub record RunLink : Type 0 where
  pub release_id : ℕ
  pub run_id : ℕ

-- The tables; `runs` is in the order of created_at, newest first, and `next_id` is the sequence of
-- release_test_sessions.
pub record Tables : Type 0 where
  pub releases : List Release
  pub items : List Item
  pub sessions : List Session
  pub next_id : ℕ
  pub results : List Result
  pub links : List Link
  pub manual_tests : List ManualTest
  pub runs : List RunRow
  pub run_links : List RunLink

abbrev pub is_active : SessionStatus → Bool
is_active active = true
is_active completed = false

abbrev pub is_failed : ResultStatus → Bool
is_failed failed = true
is_failed _ = false

abbrev pub is_blocked : ResultStatus → Bool
is_blocked blocked = true
is_blocked _ = false

abbrev pub is_not_run : ResultStatus → Bool
is_not_run not_run = true
is_not_run _ = false

-- status IN ('failed', 'blocked')
abbrev pub is_failure : ResultStatus → Bool
is_failure s = is_failed s || is_blocked s

-- What a handler answers: a refusal with its status code, the number of tests that a new session is
-- seeded with, whether recording a result completed the session, or plain success.
pub data Reply : Type 0 where
  refused : ℕ → Reply
  seeded : ℕ → Reply
  recorded : Bool → Reply
  ok : Reply

-- `req.user!.orgRole === "viewer"`
abbrev pub is_viewer : String → Bool
is_viewer role = str_eq role "viewer"
