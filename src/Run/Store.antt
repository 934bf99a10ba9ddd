-- ===== src/Run/Store.antt =====
-- The tables that an upload writes: runs, specs, tests, error_groups, releases, release_runs
-- (backend/migrations). `next` values are the serial columns; a run's `aborted` flag stands for
-- the EXISTS query on live_events. Columns that the modelled code only stores are left out.
use project_flakey.Prelude.{
  ℕ, String, Bool, Option, none, some, List, [], map, ◌==◌, find, max, if◌then◌else◌,
}
use project_flakey.Run.Data.{Stats, TestStatus}
use project_flakey.Triage.Group.{ErrorGroup}

pub record RunRow : Type 0 where
  pub id : ℕ
  pub org_id : ℕ
  pub suite_name : String
  pub branch : String
  pub commit_sha : String
  pub ci_run_id : String
  pub reporter : String
  pub environment : String
  pub started_at : Option ℕ
  pub finished_at : Option ℕ
  pub stats : Stats
  pub created_at : ℕ
  pub aborted : Bool

pub record SpecRow : Type 0 where
  pub id : ℕ
  pub run_id : ℕ
  pub file_path : String
  pub title : String
  pub stats : Stats

pub record TestRow : Type 0 where
  pub spec_id : ℕ
  pub title : String
  pub full_title : String
  pub status : TestStatus
  pub duration_ms : ℕ
  pub error_message : Option String
  pub error_stack : Option String
  pub screenshot_paths : List String
  pub snapshot_path : Option String

pub record Release : Type 0 where
  pub id : ℕ
  pub org_id : ℕ
  pub version : String

pub record Db : Type 0 where
  pub runs : List RunRow
  pub specs : List SpecRow
  pub tests : List TestRow
  pub groups : List ErrorGroup
  pub releases : List Release
  pub release_runs : List (ℕ × ℕ)
  pub next_run : ℕ
  pub next_spec : ℕ
  pub next_release : ℕ

abbrev pub empty_db : Db
empty_db = record {
  runs = [];
  specs = [];
  tests = [];
  groups = [];
  releases = [];
  release_runs = [];
  next_run = 1;
  next_spec = 1;
  next_release = 1;
}

-- UPDATE runs SET … WHERE id = $1
abbrev pub update_run : ℕ → (RunRow → RunRow) → List RunRow → List RunRow
update_run id f = map (λ r. if r.id == id then f r else r)

abbrev pub run_by_id : ℕ → List RunRow → Option RunRow
run_by_id id = find (λ r. r.id == id)

-- GREATEST, which ignores NULL
abbrev pub greatest : Option ℕ → Option ℕ → Option ℕ
greatest none b = b
greatest (some a) none = some a
greatest (some a) (some b) = some (max a b)
