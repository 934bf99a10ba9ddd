-- ===== src/Run/Data.antt =====
-- backend/src/types.ts: the normalized run that every report format is turned into.
-- Times are epoch milliseconds; `none` stands for a missing or empty time string. Durations and
-- counts are the non-negative integers to which the normalizers coerce them. The optional fields
-- that the modelled code only stores (video_path, test_code, command_log, metadata,
-- failure_context) are left out.
use project_flakey.Prelude.{ℕ, ◌+◌, ◌≡◌, String, Bool, true, false, Option, List}

pub record RunMeta : Type 0 where
  pub suite_name : String
  pub branch : String
  pub commit_sha : String
  pub ci_run_id : String
  pub started_at : Option ℕ
  pub finished_at : Option ℕ
  pub reporter : String
  pub release : Option String
  pub environment : Option String

pub record Stats : Type 0 where
  pub total : ℕ
  pub passed : ℕ
  pub failed : ℕ
  pub skipped : ℕ
  pub pending : ℕ
  pub duration_ms : ℕ

pub data TestStatus : Type 0 where
  passed failed skipped pending : TestStatus

pub record TestError : Type 0 where
  pub message : String
  pub stack : Option String

pub record NormalizedTest : Type 0 where
  pub title : String
  pub full_title : String
  pub status : TestStatus
  pub duration_ms : ℕ
  pub error : Option TestError
  pub screenshot_paths : List String

pub record NormalizedSpec : Type 0 where
  pub file_path : String
  pub title : String
  pub stats : Stats
  pub tests : List NormalizedTest

pub record NormalizedRun : Type 0 where
  pub meta : RunMeta
  pub stats : Stats
  pub specs : List NormalizedSpec

-- `a === b` on statuses
abbrev pub same_status : TestStatus → TestStatus → Bool
same_status passed passed = true
same_status failed failed = true
same_status skipped skipped = true
same_status pending pending = true
same_status _ _ = false

-- `t => t.status === s`
abbrev pub has_status : TestStatus → NormalizedTest → Bool
has_status s t = same_status t.status s

-- Every test is counted under exactly one outcome.
abbrev pub IsBalanced : Stats → Type 0
IsBalanced s = s.total ≡ s.passed + s.failed + s.skipped + s.pending
