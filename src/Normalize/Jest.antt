-- ===== src/Normalize/Jest.antt =====
-- backend/src/normalizers/jest.ts. `strip` removes the ANSI codes of a message, as the code's regular
-- expression does; a duration is the Number to which the code coerces it; `now` is the time of
-- parsing. The metadata are left out, as in Run/Data.
use project_flakey.Prelude.{
  ℕ, ◌+◌, ◌≡◌, refl, String, ◌||◌, Option, none, some, List, [], ◌∷◌, ◌++◌, map, str_eq,
  if◌then◌else◌, arith, sum_by, All-image, length,
}
use project_flakey.Prelude.Js.{Number, clamp}
use project_flakey.Prelude.Split.{starts_with, split, take_chars, last_piece, first_piece}
use project_flakey.Run.Data.{
  RunMeta, TestStatus, passed, failed, skipped, pending, TestError, NormalizedTest, NormalizedSpec,
  NormalizedRun, IsBalanced,
}
use project_flakey.Run.Upload.Balance.{IsBalancedRun}
use project_flakey.Normalize.Tally.{
  spec_stats, run_stats, counted_stats, IsCounted, spec_stats-IsBalanced, counted_stats-IsBalanced,
}
use Prim.Native.String.{◌++◌ as cat}

pub data JestStatus : Type 0 where
  has_passed has_failed is_pending is_todo is_disabled was_skipped unknown : JestStatus

pub record JestTest : Type 0 where
  pub ancestor_titles : List String
  pub title : String
  pub full_name : String
  pub status : JestStatus
  pub duration : Number
  pub failure_messages : List String

pub record JestSuite : Type 0 where
  pub test_file_path : String
  pub test_results : List JestTest
  pub runtime : Option Number
  pub test_exec_error : Option (String × String)

-- `test_results` is empty where the report has none.
pub record JestReport : Type 0 where
  pub test_results : List JestSuite
  pub start_time : Option ℕ

unfoldable pub map_status : JestStatus → TestStatus
map_status has_passed = passed
map_status has_failed = failed
map_status is_pending = pending
map_status is_todo = pending
map_status is_disabled = pending
map_status was_skipped = skipped
map_status unknown = skipped

-- `a || b` on texts
abbrev or_filled : String → String → String
or_filled s d = if str_eq s "" then d else s

-- `ws.join(" > ")`
abbrev join_titles : List String → String
join_titles [] = ""
join_titles (w ∷ []) = w
join_titles (w ∷ v ∷ ws) = cat w (cat " > " (join_titles (v ∷ ws)))

-- The part of a path from its first directory of sources or tests on, if it has one.
root_of : String → Option String
root_of String.[] = none
root_of (String.◌∷◌ c s) =
    let path = String.◌∷◌ c s in
    let rest = root_of s in
    if starts_with "src/" path
      || starts_with "test/" path
      || starts_with "tests/" path
      || starts_with "__tests__" path
      || starts_with "spec/" path
    then some path
    else rest

unfoldable pub strip_root : String → String
unfolding root_of
strip_root path = elim (root_of path) [ none ↦ path | some p ↦ p ]

-- The test that stands for a suite that could not be run.
abbrev exec_test : String → String × String → NormalizedTest
exec_test path error = record {
  title = "Suite execution error";
  full_title = cat path " > Suite execution error";
  status = failed;
  duration_ms = 0;
  error = some (record { message = error.0; stack = some error.1 });
  screenshot_paths = [];
}

abbrev exec_tests : String → Option (String × String) → List NormalizedTest
exec_tests path none = []
exec_tests path (some e) = exec_test path e ∷ []

unfoldable pub with_exec_error : JestSuite → List NormalizedTest → List NormalizedTest
with_exec_error suite [] = exec_tests suite.test_file_path suite.test_exec_error
with_exec_error suite (t ∷ ts) = t ∷ ts

abbrev runtime_or : Option Number → ℕ → ℕ
runtime_or none summed = summed
runtime_or (some d) summed = clamp d

abbrev or_time : Option ℕ → ℕ → ℕ
or_time none d = d
or_time (some t) d = t

-- The tests for which a suite with the given results counts.
abbrev counted_tests : Option (String × String) → List JestTest → ℕ
counted_tests none [] = 0
counted_tests (some e) [] = 1
counted_tests error (t ∷ ts) = length (t ∷ ts)

unfoldable pub suite_size : JestSuite → ℕ
suite_size suite = counted_tests suite.test_exec_error suite.test_results

module _ (strip : String → String) where
  unfoldable pub error_of : List String → Option TestError
  error_of [] = none
  error_of (raw ∷ rest) =
      let clean = strip raw in
      some (record {
        message = take_chars 500 (or_filled (first_piece (split "\n" clean)) clean);
        stack = some (take_chars 2000 clean);
      })

  unfoldable pub parse_test : JestTest → NormalizedTest
  parse_test t = record {
    title = t.title;
    full_title = or_filled t.full_name (join_titles (t.ancestor_titles ++ t.title ∷ []));
    status = map_status t.status;
    duration_ms = clamp t.duration;
    error = error_of t.failure_messages;
    screenshot_paths = [];
  }

  unfoldable pub suite_tests : JestSuite → List NormalizedTest
  suite_tests suite = with_exec_error suite (map parse_test suite.test_results)

  unfoldable pub parse_suite : JestSuite → NormalizedSpec
  parse_suite suite =
      let tests = suite_tests suite in
      let path = strip_root suite.test_file_path in
      record {
        file_path = path;
        title = last_piece (split "/" path);
        stats = record (spec_stats tests) {
          duration_ms = runtime_or suite.runtime (sum_by (λ t. t.duration_ms) tests);
        };
        tests = tests;
      }

  unfoldable pub parse_jest : JestReport → RunMeta → ℕ → NormalizedRun
  parse_jest report meta now =
      let specs = map parse_suite report.test_results in
      let start = or_time report.start_time now in
      let stats = counted_stats specs in
      record {
        meta = record meta {
          started_at = some (or_time meta.started_at start);
          finished_at = some (or_time meta.finished_at (start + stats.duration_ms));
          reporter = "jest";
        };
        stats = stats;
        specs = specs;
      }

  parse_suite-IsCounted : (suite : JestSuite) → IsCounted (parse_suite suite)
  unfolding parse_suite spec_stats
  parse_suite-IsCounted suite = (spec_stats-IsBalanced (suite_tests suite), refl)

  length-parse_test : (ts : List JestTest) → length (map parse_test ts) ≡ length ts
  length-parse_test [] = refl
  length-parse_test (t ∷ ts) = let rest = length-parse_test ts in omega arith

  length-exec_tests :
      (path : String) (error : Option (String × String))
      → length (exec_tests path error) ≡ counted_tests error []
  length-exec_tests path none = refl
  length-exec_tests path (some e) = refl

  length-with_exec_error :
      (suite : JestSuite) (ts : List JestTest)
      → length (with_exec_error suite (map parse_test ts)) ≡ counted_tests suite.test_exec_error ts
  unfolding with_exec_error
  length-with_exec_error suite [] = length-exec_tests suite.test_file_path suite.test_exec_error
  length-with_exec_error suite (t ∷ ts) = length-parse_test (t ∷ ts)

  suites_total :
      (suites : List JestSuite)
      → sum_by (λ s. s.stats.total) (map parse_suite suites) ≡ sum_by suite_size suites
  unfolding parse_suite spec_stats suite_tests suite_size
  suites_total [] = refl
  suites_total (s ∷ ss) =
      let own = length-with_exec_error s s.test_results in let rest = suites_total ss in omega arith

  -- The total of the run that the parser makes is the number of the results of the report's suites, a
  -- suite without results that could not be run counting as one; and the counters of the run and of
  -- every spec balance, as the upload asks.
  pub parse_jest-results :
      (report : JestReport) (meta : RunMeta) (now : ℕ)
      → ((parse_jest report meta now).stats.total ≡ sum_by suite_size report.test_results)
        × IsBalancedRun (parse_jest report meta now)
  unfolding parse_jest parse_suite counted_stats run_stats
  parse_jest-results report meta now = (
    suites_total report.test_results,
    record {
      own =
          counted_stats-IsBalanced (map parse_suite report.test_results)
            (All-image IsCounted parse_suite parse_suite-IsCounted report.test_results);
      specs =
          All-image (λ s. IsBalanced s.stats) parse_suite
            (λ s. spec_stats-IsBalanced (suite_tests s)) report.test_results;
    },
  )
