-- ===== src/Normalize/Examples.antt =====
-- A mochawesome report at concrete data, and the theorems at it.
use project_flakey.Prelude.{◌≡◌, refl, true, false, none, some, [], ◌∷◌}
use project_flakey.Prelude.Js.{nan, nat}
use project_flakey.Run.Data.{RunMeta}
use project_flakey.Run.Upload.Balance.{IsBalancedRun}
use project_flakey.Normalize.Mochawesome.{
  MochawesomeTest, suite, no_suites, more_suites, MochawesomeReport, parse_mochawesome,
  parse_result, result_tests, collect_tests, normalize_test, report_size,
  parse_mochawesome-IsBalancedRun, parse_mochawesome-report_size,
}
use project_flakey.Normalize.Tally.{run_stats, spec_stats}

abbrev passes : MochawesomeTest
passes = record {
  title = some "adds";
  full_title = none;
  pass = true;
  fail = false;
  pending = false;
  duration = nat 4;
  err = none;
}

abbrev fails : MochawesomeTest
fails = record {
  title = some "divides";
  full_title = none;
  pass = false;
  fail = true;
  pending = false;
  duration = nan;
  err = some (record { message = some "by zero"; estack = none });
}

abbrev report : MochawesomeReport
report = record {
  start = some 10;
  end = some 20;
  results =
      record {
        file = some "math.cy.ts";
        full_file = none;
        title = none;
        suites =
            more_suites
              (suite (some "math") (passes ∷ [])
                (more_suites (suite (some "division") (fails ∷ []) no_suites) no_suites))
              no_suites;
        tests = [];
      }
      ∷ [];
}

abbrev meta : RunMeta
meta = record {
  suite_name = "web";
  branch = "main";
  commit_sha = "c0ffee";
  ci_run_id = "";
  started_at = none;
  finished_at = none;
  reporter = "";
  release = none;
  environment = none;
}

one_failed : (parse_mochawesome report meta 99).stats.failed ≡ 1
unfolding parse_mochawesome parse_result result_tests collect_tests normalize_test run_stats
    spec_stats
one_failed = refl

parse_mochawesome-IsBalancedRun_example : IsBalancedRun (parse_mochawesome report meta 99)
parse_mochawesome-IsBalancedRun_example = parse_mochawesome-IsBalancedRun report meta 99

parse_mochawesome-report_size_example :
    (parse_mochawesome report meta 99).stats.total ≡ report_size report.results
parse_mochawesome-report_size_example = parse_mochawesome-report_size report meta 99
