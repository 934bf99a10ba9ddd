-- ===== src/Normalize/Samples.antt =====
-- Reports of playwright, jest and webdriverio at concrete data, and the theorems at them.
use project_flakey.Prelude.{◌≡◌, refl, none, some, [], ◌∷◌, sum_by}
use project_flakey.Prelude.Js.{nan, nat, at}
use project_flakey.Prelude.Split.{starts_with, same_char}
use project_flakey.Run.Data.{RunMeta}
use project_flakey.Run.Upload.Balance.{IsBalancedRun}
use project_flakey.Normalize.Playwright
use project_flakey.Normalize.Playwright.{
  PlaywrightReport, PlaywrightResult, PlaywrightSpec, suite, no_suites, more_suites,
  parse_playwright,
}
use project_flakey.Normalize.Playwright.Laws.{suites_results, parse_playwright-results}
use project_flakey.Normalize.Jest
use project_flakey.Normalize.Jest.{
  JestReport, JestTest, JestSuite, parse_jest, suite_size, parse_jest-results, strip_root,
}
use project_flakey.Normalize.Webdriverio
use project_flakey.Normalize.Webdriverio.{
  WdioTest, SuiteHead, WdioSuites, WdioReport, parse_webdriver_io,
}
use project_flakey.Normalize.Webdriverio.Size.{report_size, parse_webdriver_io-size}

abbrev meta : RunMeta
meta = record {
  suite_name = "web";
  branch = "main";
  commit_sha = "c0ffee";
  ci_run_id = "";
  started_at = none;
  finished_at = none;
  reporter = "";
  release = none;
  environment = none;
}

abbrev passes : PlaywrightResult
passes = record {
  status = Playwright.has_passed;
  duration = nat 4;
  error = none;
  errors = [];
  attachments = [];
}

abbrev times_out : PlaywrightResult
times_out = record passes { status = Playwright.timed_out; duration = nan }

-- The first test passes at its second attempt, the second has no result, and the third times out.
abbrev playwright_report : PlaywrightReport
playwright_report = record {
  suites =
      more_suites
        (suite "cart.spec.ts" (some "cart.spec.ts")
          (record { title = "adds"; file = none; tests = (times_out ∷ passes ∷ []) ∷ [] ∷ [] } ∷ [])
          (more_suites
            (suite "empty" none
              (record {
                title = "removes";
                file = some "cart.spec.ts";
                tests = (times_out ∷ []) ∷ [];
              }
                ∷ [])
              no_suites)
            no_suites))
        no_suites;
  start_time = at 10;
  duration = none;
}

parse_playwright-results_example :
    ((parse_playwright playwright_report meta 99).stats.total
      ≡ suites_results playwright_report.suites)
    × IsBalancedRun (parse_playwright playwright_report meta 99)
parse_playwright-results_example = parse_playwright-results playwright_report meta 99

abbrev fails : JestTest
fails = record {
  ancestor_titles = "math" ∷ [];
  title = "divides";
  full_name = "";
  status = Jest.has_failed;
  duration = nan;
  failure_messages = "by zero" ∷ [];
}

abbrev broken : JestSuite
broken = record {
  test_file_path = "/ci/src/cart.test.ts";
  test_results = [];
  runtime = none;
  test_exec_error = some ("SyntaxError", "at line 1");
}

abbrev jest_report : JestReport
jest_report = record {
  test_results =
      broken
      ∷ record broken { test_results = fails ∷ []; test_exec_error = none; runtime = some (nat 7) }
      ∷ [];
  start_time = some 10;
}

relative : strip_root "/ci/src/cart.test.ts" ≡ "src/cart.test.ts"
unfolding strip_root starts_with same_char
relative = refl

parse_jest-results_example :
    ((parse_jest (λ s. s) jest_report meta 99).stats.total
      ≡ sum_by suite_size jest_report.test_results)
    × IsBalancedRun (parse_jest (λ s. s) jest_report meta 99)
parse_jest-results_example = parse_jest-results (λ s. s) jest_report meta 99

abbrev wdio_test : WdioTest
wdio_test = record {
  name = "";
  title = "opens";
  full_title = "";
  state = Webdriverio.unknown;
  duration = nan;
  error = some (record { message = none; stack = none });
}

abbrev page : SuiteHead
page = record { name = "page"; title = ""; file = ""; duration = none }

abbrev wdio_suites : WdioSuites
wdio_suites =
    Webdriverio.more_suites
      (Webdriverio.suite page (wdio_test ∷ []) (
        Webdriverio.more_suites
          (Webdriverio.suite (record page { name = "menu" }) (wdio_test ∷ []) Webdriverio.no_suites)
          Webdriverio.no_suites))
      Webdriverio.no_suites

-- The report's own suites do not count, since it has a spec.
abbrev wdio_report : WdioReport
wdio_report = record {
  specs = record { filename = ""; file = "page.e2e.ts"; suites = wdio_suites } ∷ [];
  suites = wdio_suites;
  start = some 10;
  end = none;
}

parse_webdriver_io-size_example :
    ((parse_webdriver_io wdio_report meta 99).stats.total
      ≡ report_size wdio_report.specs wdio_report.suites)
    × IsBalancedRun (parse_webdriver_io wdio_report meta 99)
parse_webdriver_io-size_example = parse_webdriver_io-size wdio_report meta 99
