-- ===== src/Run/Examples.antt =====
-- Runs at concrete data: two shards of one CI run, the badge, and the theorems at these inputs.
use project_flakey.Prelude.{
  ℕ, ◌+◌, ◌≡◌, refl, String, true, false, none, some, List, [], ◌∷◌, map, keep, arith, ◌↔◌, ◌≢◌,
}
use project_flakey.Prelude.Text.{trim}
use project_flakey.Run.Data.{RunMeta, Stats, passed, NormalizedTest, NormalizedSpec, NormalizedRun}
use project_flakey.Run.Status.{ShipStatus, classify_run_status, classify_run_status-IsBalanced}
use project_flakey.Run.Store.{RunRow, Db, empty_db, run_by_id}
use project_flakey.Run.Merge.{find_or_create_run, recalculate_run_stats, sum_specs}
use project_flakey.Run.Merge.Laws.{IsKeyed}
use project_flakey.Run.Merge.Shards.{
  IsSameRun, find_or_create_run-merges, merge_order, finished_at_of,
}
use project_flakey.Run.Upload.{of_spec, replace_tests, write_specs, attach_release, upload}
use project_flakey.Run.Upload.Balance.{IsBalancedDb, IsBalancedRun, upload-IsBalancedDb}
use project_flakey.Run.Upload.Fresh.{AreRows}
use project_flakey.Run.Upload.Tables.{
  IsOf, IsTotalled, upload-IsKeyed, upload-totals, replace_tests-of_spec,
}
use project_flakey.Run.Upload.Overlay.{stats_at, last_stats, stats_at-write_specs}
use project_flakey.Run.Badge.{latest, Org, badge, run_badge, run_status, ok, green, grey}
use project_flakey.Run.Badge.Agreement.{badge-agrees}
use project_flakey.Triage.Recurrence.{failing_fingerprints, record_error_recurrence}

abbrev meta_at : ℕ → RunMeta
meta_at t = record {
  suite_name = "web";
  branch = "main";
  commit_sha = "c0ffee";
  ci_run_id = "ci-1";
  started_at = some 10;
  finished_at = some t;
  reporter = "jest";
  release = some " 1.2 ";
  environment = none;
}

abbrev counts : ℕ → ℕ → Stats
counts p f = record {
  total = p + f;
  passed = p;
  failed = f;
  skipped = 0;
  pending = 0;
  duration_ms = 7;
}

abbrev a_test : NormalizedTest
a_test = record {
  title = "logs in";
  full_title = "auth > logs in";
  status = passed;
  duration_ms = 7;
  error = none;
  screenshot_paths = [];
}

abbrev spec_of : String → Stats → NormalizedSpec
spec_of file s = record { file_path = file; title = file; stats = s; tests = a_test ∷ [] }

abbrev shard : ℕ → String → Stats → NormalizedRun
shard t file s = record { meta = meta_at t; stats = s; specs = spec_of file s ∷ [] }

abbrev shard_a : NormalizedRun
shard_a = shard 100 "a.spec.ts" (counts 1 0)

abbrev shard_b : NormalizedRun
shard_b = shard 90 "b.spec.ts" (counts 2 0)

abbrev after_a : Db
after_a = (upload (λ s. s) empty_db 1 1000 shard_a).db

abbrev after_b : Db
after_b = (upload (λ s. s) after_a 1 1001 shard_b).db

run_all : Unit {0}
unfolding upload write_specs find_or_create_run recalculate_run_stats sum_specs attach_release trim
    record_error_recurrence failing_fingerprints badge run_badge run_status latest
    classify_run_status
run_all = tt

merged_totals :
    ((upload (λ s. s) after_a 1 1001 shard_b).merged ≡ true)
    × (finished_at_of 1 after_b ≡ some 100)
    × (map (λ (r : RunRow). r.stats.total) after_b.runs ≡ 3 ∷ [])
unfolding run_all
merged_totals = (refl, refl, refl)

abbrev web : List Org
web = record { id = 1; slug = "acme" } ∷ []

signals :
    ((badge web after_b "acme" "web").color ≡ green)
    × ((badge web after_b "acme" "other").color ≡ grey)
    × ((badge web empty_db "nobody" "web").color ≡ grey)
unfolding run_all
signals = (refl, refl, refl)

empty-IsKeyed : IsKeyed empty_db
empty-IsKeyed = record { ids_below = tt; ids = tt; keys = tt }

empty-IsBalancedDb : IsBalancedDb empty_db
empty-IsBalancedDb = record { runs = tt; specs = tt }

shard_a-IsBalancedRun : IsBalancedRun shard_a
shard_a-IsBalancedRun = record { own = refl; specs = (refl, tt) }

shard_b-IsBalancedRun : IsBalancedRun shard_b
shard_b-IsBalancedRun = record { own = refl; specs = (refl, tt) }

same_run : IsSameRun shard_a shard_b
same_run = record { suite = refl; ci = refl; tagged = refl }

classify_run_status-IsBalanced_example :
    ((counts 3 0).failed ≡ 0)
    × ((counts 3 0).pending ≡ 0)
    × ((counts 3 0).total ≡ (counts 3 0).passed + (counts 3 0).skipped)
unfolding classify_run_status
classify_run_status-IsBalanced_example =
    classify_run_status-IsBalanced (counts 3 0) false (some 5) refl refl

find_or_create_run-merges_example :
    let first = find_or_create_run empty_db 1 1000 shard_a in
    ((find_or_create_run first.0 1 1001 shard_b).1 ≡ first.1)
    × ((find_or_create_run first.0 1 1001 shard_b).2 ≡ true)
find_or_create_run-merges_example =
    find_or_create_run-merges empty_db 1 1000 1001 shard_a shard_b same_run

-- The shards meet a row that is already there: the one that an earlier upload left.
merge_order_example :
    let ab = (find_or_create_run (find_or_create_run after_a 1 5 shard_a).0 1 6 shard_b).0 in
    let ba = (find_or_create_run (find_or_create_run after_a 1 5 shard_b).0 1 6 shard_a).0 in
    (finished_at_of 1 ab ≡ some 100) × (finished_at_of 1 ba ≡ finished_at_of 1 ab)
unfolding run_all
merge_order_example =
    merge_order after_a 1 5 6 shard_a shard_b
      (upload-IsKeyed (λ s. s) empty_db 1 1000 shard_a empty-IsKeyed) same_run refl

upload-IsBalancedDb_example : IsBalancedDb after_b
upload-IsBalancedDb_example =
    upload-IsBalancedDb (λ s. s) after_a 1 1001 shard_b shard_b-IsBalancedRun
      (upload-IsBalancedDb (λ s. s) empty_db 1 1000 shard_a shard_a-IsBalancedRun
        empty-IsBalancedDb)

upload-IsKeyed_example : IsKeyed after_a
upload-IsKeyed_example = upload-IsKeyed (λ s. s) empty_db 1 1000 shard_a empty-IsKeyed

upload-totals_example :
    (r : RunRow) × (run_by_id (upload (λ s. s) after_a 1 1001 shard_b).run_id after_b.runs ≡ some r)
    × IsOf 1 shard_b r
    × IsTotalled (upload (λ s. s) after_a 1 1001 shard_b).run_id r.stats after_b.specs
upload-totals_example =
    upload-totals (λ s. s) after_a 1 1001 shard_b
      (upload-IsKeyed (λ s. s) empty_db 1 1000 shard_a empty-IsKeyed) merged_totals.0

replace_tests-of_spec_example :
    AreRows 1
      (keep (of_spec 1) after_a.tests)
      (a_test ∷ [])
      (keep (of_spec 1) (replace_tests after_a 1 (spec_of "a.spec.ts" (counts 1 0))).tests)
    × ((other : ℕ)
        → other ≢ 1
        → keep (of_spec other) (replace_tests after_a 1 (spec_of "a.spec.ts" (counts 1 0))).tests
          ≡ keep (of_spec other) after_a.tests)
replace_tests-of_spec_example = replace_tests-of_spec after_a 1 (spec_of "a.spec.ts" (counts 1 0))

stats_at-write_specs_example :
    ((file : String)
      → stats_at 1 file (write_specs after_a 1 (spec_of "a.spec.ts" (counts 4 1) ∷ []))
        ≡ last_stats file (stats_at 1 file after_a) (spec_of "a.spec.ts" (counts 4 1) ∷ []))
    × ((j : ℕ) (file : String)
        → j ≢ 1
        → stats_at j file (write_specs after_a 1 (spec_of "a.spec.ts" (counts 4 1) ∷ []))
          ≡ stats_at j file after_a)
unfolding run_all
stats_at-write_specs_example =
    stats_at-write_specs after_a 1 (spec_of "a.spec.ts" (counts 4 1) ∷ [])
      (record { below = (omega arith, tt); ids = (tt, tt) })

badge-agrees_example :
    ((badge web after_b "acme" "web").color ≡ green)
    ↔ ((r : RunRow) × (run_status after_b 1 none (some "web") ≡ ok ShipStatus.passed r))
badge-agrees_example = badge-agrees web after_b "acme" "web" refl refl
