-- ===== src/Triage/Examples.antt =====
-- Error groups at concrete data, and the theorems on triage at these inputs.
use project_flakey.Prelude.{
  ℕ, ◌≡◌, refl, String, false, Option, none, some, List, [], ◌∷◌, map, any, str_eq, Distinct,
}
use project_flakey.Prelude.Js.{nat, infinity}
use project_flakey.Run.Data.{Stats, failed, NormalizedTest, NormalizedRun}
use project_flakey.Triage.Group.{GroupStatus, open_, fixed, ErrorGroup}
use project_flakey.Triage.Priority.{critical, medium, DerivedPrioritySignals, derive_error_priority}
use project_flakey.Triage.Recurrence.{failing_fingerprints, record_error_recurrence}
use project_flakey.Triage.Recurrence.Laws.{fails_with, failing_fingerprints_exact}
use project_flakey.Triage.Autoclose.{autoclose_stale_error_groups}
use project_flakey.Triage.Autoclose.Exactness.{swept, autoclose-eq-swept}

abbrev mild : DerivedPrioritySignals
mild = record { occurrence_count = nat 6; affected_runs = nat 3; flaky_rate = some (nat 70) }

abbrev severe : DerivedPrioritySignals
severe = record { occurrence_count = infinity; affected_runs = nat 12; flaky_rate = none }

mild_band : derive_error_priority mild ≡ medium
unfolding derive_error_priority
mild_band = refl

severe_band : derive_error_priority severe ≡ critical
unfolding derive_error_priority
severe_band = refl

abbrev broken : NormalizedTest
broken = record {
  title = "pays";
  full_title = "shop > pays";
  status = failed;
  duration_ms = 3;
  error = some (record { message = "timeout"; stack = none });
  screenshot_paths = [];
}

abbrev one_failed : Stats
one_failed = record { total = 2; passed = 0; failed = 2; skipped = 0; pending = 0; duration_ms = 6 }

abbrev red_run : NormalizedRun
red_run = record {
  meta = record {
    suite_name = "web";
    branch = "main";
    commit_sha = "c0ffee";
    ci_run_id = "ci-1";
    started_at = none;
    finished_at = none;
    reporter = "jest";
    release = none;
    environment = none;
  };
  stats = one_failed;
  specs =
      record {
        file_path = "shop.ts";
        title = "shop";
        stats = one_failed;
        tests = broken ∷ broken ∷ [];
      }
      ∷ [];
}

red_run_fingerprints : failing_fingerprints (λ s. s) red_run ≡ "timeout|web" ∷ []
unfolding failing_fingerprints
red_run_fingerprints = refl

failing_fingerprints_exact_example :
    ((f : String)
      → any (str_eq f) (failing_fingerprints (λ s. s) red_run)
        ≡ any (λ s. any (fails_with (λ s. s) "web" f) s.tests) red_run.specs)
    × Distinct (λ a b. str_eq a b ≡ false) (failing_fingerprints (λ s. s) red_run)
failing_fingerprints_exact_example = failing_fingerprints_exact (λ s. s) red_run

abbrev group_of : GroupStatus → String → ErrorGroup
group_of s fp = record {
  org_id = 1;
  fingerprint = fp;
  status = s;
  recurrence_count = 0;
  last_recurred_at = none;
  updated_at = 5;
}

abbrev groups : List ErrorGroup
groups = group_of fixed "timeout|web" ∷ group_of open_ "other|web" ∷ []

reported : (record_error_recurrence 9 1 ("timeout|web" ∷ []) groups).1 ≡ "timeout|web" ∷ []
unfolding record_error_recurrence
reported = refl

-- The clock of the sweep and when each fingerprint failed last.
abbrev failed_last : String → Option ℕ
failed_last fp = some 5

autoclose-eq-swept_example :
    autoclose_stale_error_groups failed_last 1 (some (nat 2)) 172800006 groups
    ≡ map (swept failed_last 1 (some (nat 2)) 172800006) groups
autoclose-eq-swept_example = autoclose-eq-swept failed_last 1 (some (nat 2)) 172800006 groups
