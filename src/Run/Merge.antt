-- ===== src/Run/Merge.antt =====
-- backend/src/run-merge.ts: shards of one CI run are merged onto one row of runs.
pub mod Shards
pub mod Laws
use project_flakey.Prelude.{
  ℕ, ◌+◌, String, Bool, true, false, ◌&&◌, not, Option, none, some, List, [], ◌∷◌, ◌++◌, map, ◌==◌,
  str_eq, find, sum_by, keep, if◌then◌else◌,
}
use project_flakey.Prelude.Text.{trim}
use project_flakey.Run.Data.{RunMeta, Stats, NormalizedRun}
use project_flakey.Run.Store.{RunRow, SpecRow, Db, update_run, greatest}

-- `meta.environment ?? ""`
abbrev pub or_empty : Option String → String
or_empty none = ""
or_empty (some s) = s

-- The key of the partial unique index uniq_runs_ci_run (migration 035).
abbrev pub has_key : ℕ → String → String → RunRow → Bool
has_key org suite ci r =
    r.org_id == org && str_eq r.suite_name suite && str_eq r.ci_run_id ci && not (str_eq ci "")

-- The row of the INSERT.
abbrev pub new_row : Db → ℕ → ℕ → NormalizedRun → RunRow
new_row db org now run = record {
  id = db.next_run;
  org_id = org;
  suite_name = run.meta.suite_name;
  branch = run.meta.branch;
  commit_sha = run.meta.commit_sha;
  ci_run_id = run.meta.ci_run_id;
  reporter = run.meta.reporter;
  environment = trim (or_empty run.meta.environment);
  started_at = run.meta.started_at;
  finished_at = run.meta.finished_at;
  stats = run.stats;
  created_at = now;
  aborted = false;
}

abbrev pub insert_run : Db → ℕ → ℕ → NormalizedRun → Db × ℕ × Bool
insert_run db org now run = (
  record db { runs = new_row db org now run ∷ db.runs; next_run = db.next_run + 1 },
  db.next_run,
  false,
)

-- DO UPDATE SET: finished_at and environment only
abbrev pub merge_row : NormalizedRun → RunRow → RunRow
merge_row run r =
    let environment = trim (or_empty run.meta.environment) in
    record r {
      finished_at = greatest r.finished_at run.meta.finished_at;
      environment =
          if str_eq r.environment "" && not (str_eq environment "")
          then environment
          else r.environment;
    }

-- The result is the new database, the run's id, and whether it merged into an existing row.
unfoldable pub find_or_create_run : Db → ℕ → ℕ → NormalizedRun → Db × ℕ × Bool
find_or_create_run db org now run =
    if str_eq run.meta.ci_run_id ""
    then insert_run db org now run
    else elim (find (has_key org run.meta.suite_name run.meta.ci_run_id) db.runs) [
      | none ↦ insert_run db org now run
      | some r ↦ (record db { runs = update_run r.id (merge_row run) db.runs }, r.id, true)
    ]

abbrev pub of_run : ℕ → SpecRow → Bool
of_run id s = s.run_id == id

-- COALESCE(SUM(…), 0) over the run's specs
unfoldable pub sum_specs : ℕ → List SpecRow → Stats
sum_specs id specs =
    let mine = keep (of_run id) specs in
    record {
      total = sum_by (λ s. s.stats.total) mine;
      passed = sum_by (λ s. s.stats.passed) mine;
      failed = sum_by (λ s. s.stats.failed) mine;
      skipped = sum_by (λ s. s.stats.skipped) mine;
      pending = sum_by (λ s. s.stats.pending) mine;
      duration_ms = sum_by (λ s. s.stats.duration_ms) mine;
    }

unfoldable pub recalculate_run_stats : Db → ℕ → Db
recalculate_run_stats db id = record db {
  runs = update_run id (λ r. record r { stats = sum_specs id db.specs }) db.runs;
}
