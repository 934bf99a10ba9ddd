-- ===== src/Normalize/Webdriverio.antt =====
-- backend/src/normalizers/webdriverio.ts. A duration is the Number to which the code coerces it, a
-- missing text the empty one, as the code's `||` reads it; `now` is the time of parsing. The metadata
-- are left out, as in Run/Data.
pub mod Size
use project_flakey.Prelude.{
  ℕ, String, Option, none, some, List, [], ◌∷◌, ◌++◌, map, str_eq, if◌then◌else◌, sum_by,
}
use project_flakey.Prelude.Js.{Number, clamp}
use project_flakey.Prelude.Split.{split, take_chars, last_piece}
use project_flakey.Run.Data.{
  RunMeta, TestStatus, passed, failed, skipped, pending, TestError, NormalizedTest, NormalizedSpec,
  NormalizedRun,
}
use project_flakey.Normalize.Tally.{spec_stats, counted_stats}
use Prim.Native.String.{◌++◌ as cat}

pub data WdioStatus : Type 0 where
  has_passed has_failed is_pending was_skipped unknown : WdioStatus

pub record WdioError : Type 0 where
  pub message : Option String
  pub stack : Option String

pub record WdioTest : Type 0 where
  pub name : String
  pub title : String
  pub full_title : String
  pub state : WdioStatus
  pub duration : Number
  pub error : Option WdioError

-- What a suite says of itself, beside its tests and suites.
pub record SuiteHead : Type 0 where
  pub name : String
  pub title : String
  pub file : String
  pub duration : Option Number

mutual
  pub data WdioSuite : Type 0 where
    suite : SuiteHead → List WdioTest → WdioSuites → WdioSuite

  pub data WdioSuites : Type 0 where
    no_suites : WdioSuites
    more_suites : WdioSuite → WdioSuites → WdioSuites

pub record WdioSpec : Type 0 where
  pub filename : String
  pub file : String
  pub suites : WdioSuites

pub record WdioReport : Type 0 where
  pub specs : List WdioSpec
  pub suites : WdioSuites
  pub start : Option ℕ
  pub end : Option ℕ

unfoldable pub map_status : WdioStatus → TestStatus
map_status has_passed = passed
map_status has_failed = failed
map_status is_pending = pending
map_status was_skipped = skipped
map_status unknown = skipped

-- `a || b` on texts
abbrev pub or_filled : String → String → String
or_filled s d = if str_eq s "" then d else s

abbrev or_else {ℓ} : {A : Type ℓ} → Option A → A → A
or_else none d = d
or_else (some x) d = x

abbrev cut_stack : Option String → Option String
cut_stack none = none
cut_stack (some s) = some (take_chars 2000 s)

unfoldable pub error_of : Option WdioError → Option TestError
error_of none = none
error_of (some e) = some (record {
  message = take_chars 500 (or_else e.message "Unknown error");
  stack = cut_stack e.stack;
})

abbrev joined : String → String → String
joined prefix title = cat prefix (cat " > " title)

unfoldable pub parse_test : String → WdioTest → NormalizedTest
parse_test prefix t =
    let title = or_filled t.name (or_filled t.title "Unknown test") in
    record {
      title = title;
      full_title = or_filled t.full_title (joined prefix title);
      status = map_status t.state;
      duration_ms = clamp t.duration;
      error = error_of t.error;
      screenshot_paths = [];
    }

abbrev pub full_prefix : String → String → String
full_prefix parent name = if str_eq parent "" then name else joined parent name

unfoldable mutual
  pub collect_tests : WdioSuite → String → List NormalizedTest
  collect_tests (suite head tests children) parent =
      let prefix = full_prefix parent (or_filled head.name head.title) in
      map (parse_test prefix) tests ++ collect_nested children prefix

  pub collect_nested : WdioSuites → String → List NormalizedTest
  collect_nested no_suites prefix = []
  collect_nested (more_suites s ss) prefix = collect_tests s prefix ++ collect_nested ss prefix

abbrev pub head_of : WdioSuite → SuiteHead
head_of (suite head tests children) = head

abbrev duration_or : Option Number → ℕ → ℕ
duration_or none summed = summed
duration_or (some d) summed = clamp d

unfoldable pub parse_suite_to_spec : WdioSuite → String → NormalizedSpec
parse_suite_to_spec s file_path =
    let tests = collect_tests s "" in
    let head = head_of s in
    let base = or_filled (last_piece (split "/" file_path)) file_path in
    record {
      file_path = file_path;
      title = or_filled head.name (or_filled head.title base);
      stats = record (spec_stats tests) {
        duration_ms = duration_or head.duration (sum_by (λ t. t.duration_ms) tests);
      };
      tests = tests;
    }

-- The suites of one spec file.
unfoldable pub specs_in : WdioSuites → String → List NormalizedSpec
specs_in no_suites file_path = []
specs_in (more_suites s ss) file_path = parse_suite_to_spec s file_path ∷ specs_in ss file_path

unfoldable pub standard_specs : List WdioSpec → List NormalizedSpec
standard_specs [] = []
standard_specs (r ∷ rs) =
    specs_in r.suites (or_filled r.filename (or_filled r.file "unknown")) ++ standard_specs rs

unfoldable pub flat_specs : WdioSuites → List NormalizedSpec
flat_specs no_suites = []
flat_specs (more_suites s ss) =
    let head = head_of s in
    parse_suite_to_spec s (or_filled head.file (or_filled head.name "unknown")) ∷ flat_specs ss

unfoldable pub report_specs : List WdioSpec → WdioSuites → List NormalizedSpec
report_specs [] ss = flat_specs ss
report_specs (r ∷ rs) ss = standard_specs (r ∷ rs)

unfoldable pub parse_webdriver_io : WdioReport → RunMeta → ℕ → NormalizedRun
parse_webdriver_io report meta now =
    let specs = report_specs report.specs report.suites in
    record {
      meta = record meta {
        started_at = some (or_else meta.started_at (or_else report.start now));
        finished_at = some (or_else meta.finished_at (or_else report.end now));
        reporter = "webdriverio";
      };
      stats = counted_stats specs;
      specs = specs;
    }
