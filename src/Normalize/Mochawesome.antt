-- ===== src/Normalize/Mochawesome.antt =====
-- backend/src/normalizers/mochawesome.ts. `now` is the time at which a report without times is
-- parsed; test_code is left out, as in Run/Data.
use project_flakey.Prelude.{
  ℕ, ◌+◌, ◌≡◌, refl, ap, String, Bool, Option, none, some, List, [], ◌∷◌, ◌++◌, map, str_eq, length,
  length-append, sum_by, suc, if◌then◌else◌, arith, All-image,
}
use project_flakey.Prelude.Js.{Number, clamp}
use project_flakey.Run.Data.{
  RunMeta, TestStatus, passed, failed, skipped, pending, TestError, NormalizedTest, NormalizedSpec,
  NormalizedRun, IsBalanced,
}
use project_flakey.Run.Upload.Balance.{IsBalancedRun}
use project_flakey.Normalize.Tally.{
  spec_stats, run_stats, spec_stats-IsBalanced, run_stats-IsBalanced,
}

pub record MochawesomeErr : Type 0 where
  pub message : Option String
  pub estack : Option String

-- A flag that is missing is false; a duration that is missing or no number is nan.
pub record MochawesomeTest : Type 0 where
  pub title : Option String
  pub full_title : Option String
  pub pass : Bool
  pub fail : Bool
  pub pending : Bool
  pub duration : Number
  pub err : Option MochawesomeErr

mutual
  pub data Suite : Type 0 where
    suite : Option String → List MochawesomeTest → Suites → Suite

  pub data Suites : Type 0 where
    no_suites : Suites
    more_suites : Suite → Suites → Suites

pub record MochawesomeResult : Type 0 where
  pub file : Option String
  pub full_file : Option String
  pub title : Option String
  pub suites : Suites
  pub tests : List MochawesomeTest

pub record MochawesomeReport : Type 0 where
  pub start : Option ℕ
  pub end : Option ℕ
  pub results : List MochawesomeResult

unfoldable pub get_status : MochawesomeTest → TestStatus
get_status t =
    if t.pass then passed else if t.fail then failed else if t.pending then pending else skipped

-- `s ?? d`
abbrev pub or_else : Option String → String → String
or_else none d = d
or_else (some s) d = s

-- `test.err?.message ? { message, stack } : undefined`
abbrev error_of : Option MochawesomeErr → Option TestError
error_of none = none
error_of (some e) = elim e.message [
  | none ↦ none
  | some m ↦ if str_eq m "" then none else some (record { message = m; stack = e.estack })
]

-- A test whose title is joined with that of its suite, if it has no full title.
unfoldable pub normalize_test : String → MochawesomeTest → NormalizedTest
unfolding get_status
normalize_test default_title t = record {
  title = or_else t.title "";
  full_title = or_else t.full_title default_title;
  status = get_status t;
  duration_ms = clamp t.duration;
  error = error_of t.err;
  screenshot_paths = [];
}

abbrev joined : String → String → String
joined s t = Prim.Native.String.◌++◌ s (Prim.Native.String.◌++◌ " > " t)

abbrev suite_title : String → Option String → String
suite_title parent title =
    if str_eq parent "" then or_else title "" else joined parent (or_else title "")

unfoldable mutual
  pub collect_tests : String → Suite → List NormalizedTest
  collect_tests parent (suite title tests children) =
      map (λ t. normalize_test (joined (suite_title parent title) (or_else t.title "")) t) tests
      ++ collect_all (suite_title parent title) children

  pub collect_all : String → Suites → List NormalizedTest
  collect_all parent no_suites = []
  collect_all parent (more_suites s ss) = collect_tests parent s ++ collect_all parent ss

-- `a || b` on texts
abbrev or_filled : Option String → String → String
or_filled none d = d
or_filled (some s) d = if str_eq s "" then d else s

abbrev file_of : MochawesomeResult → String
file_of r = or_else r.file (or_else r.full_file "")

unfoldable pub result_tests : MochawesomeResult → List NormalizedTest
result_tests r = map (λ t. normalize_test (or_else t.title "") t) r.tests ++ collect_all "" r.suites

unfoldable pub parse_result : MochawesomeResult → NormalizedSpec
parse_result r = record {
  file_path = file_of r;
  title = or_filled r.title (file_of r);
  stats = spec_stats (result_tests r);
  tests = result_tests r;
}

-- `a || b` on times
abbrev or_time : Option ℕ → Option ℕ → Option ℕ
or_time none d = d
or_time (some t) d = some t

unfoldable pub parse_mochawesome : MochawesomeReport → RunMeta → ℕ → NormalizedRun
parse_mochawesome raw meta now =
    let specs = map parse_result raw.results in
    record {
      meta = record meta {
        started_at = or_time meta.started_at (or_time raw.start (some now));
        finished_at = or_time meta.finished_at (or_time raw.end (some now));
        reporter = "mochawesome";
      };
      stats = run_stats specs;
      specs = specs;
    }

-- The tests that a report holds, at any depth.
mutual
  suite_size : Suite → ℕ
  suite_size (suite title tests children) = length tests + suites_size children

  suites_size : Suites → ℕ
  suites_size no_suites = 0
  suites_size (more_suites s ss) = suite_size s + suites_size ss

unfoldable pub report_size : List MochawesomeResult → ℕ
unfolding suite_size
report_size [] = 0
report_size (r ∷ rs) = length r.tests + suites_size r.suites + report_size rs

-- The run that the normalizer makes has balanced counters, its own and those of every spec, as the
-- upload asks.
pub parse_mochawesome-IsBalancedRun :
    (raw : MochawesomeReport) (meta : RunMeta) (now : ℕ)
    → IsBalancedRun (parse_mochawesome raw meta now)
unfolding parse_mochawesome parse_result
parse_mochawesome-IsBalancedRun raw meta now =
    let balanced =
      All-image (λ s. IsBalanced s.stats) parse_result (λ r. spec_stats-IsBalanced (result_tests r))
        raw.results in
    record { own = run_stats-IsBalanced (map parse_result raw.results) balanced; specs = balanced }

length-map :
    (f : MochawesomeTest → NormalizedTest) (ts : List MochawesomeTest)
    → length (map f ts) ≡ length ts
length-map f [] = refl
length-map f (t ∷ ts) = ap suc (length-map f ts)

mutual
  unfolding collect_tests suite_size

  length-collect_tests :
      (parent : String) (s : Suite) → length (collect_tests parent s) ≡ suite_size s
  length-collect_tests parent (suite title tests children) =
      let own =
        map (λ t. normalize_test (joined (suite_title parent title) (or_else t.title "")) t)
          tests in
      omega (
        arith,
        length-append own (collect_all (suite_title parent title) children),
        length-map (λ t. normalize_test (joined (suite_title parent title) (or_else t.title "")) t)
            tests,
        length-collect_all (suite_title parent title) children,
      )

  length-collect_all :
      (parent : String) (ss : Suites) → length (collect_all parent ss) ≡ suites_size ss
  length-collect_all parent no_suites = refl
  length-collect_all parent (more_suites s ss) = omega (
    arith,
    length-append (collect_tests parent s) (collect_all parent ss),
    length-collect_tests parent s,
    length-collect_all parent ss,
  )

length-result_tests :
    (r : MochawesomeResult) → length (result_tests r) ≡ length r.tests + suites_size r.suites
unfolding result_tests
length-result_tests r = omega (
  arith,
  length-append (map (λ t. normalize_test (or_else t.title "") t) r.tests)
      (collect_all "" r.suites),
  length-map (λ t. normalize_test (or_else t.title "") t) r.tests,
  length-collect_all "" r.suites,
)

totals-report_size :
    (rs : List MochawesomeResult)
    → sum_by (λ s. s.stats.total) (map parse_result rs) ≡ report_size rs
unfolding parse_result spec_stats report_size
totals-report_size [] = refl
totals-report_size (r ∷ rs) = omega (arith, length-result_tests r, totals-report_size rs)

-- The total of the run is the number of tests in the report, at any depth of its suites: none is
-- dropped and none is counted twice.
pub parse_mochawesome-report_size :
    (raw : MochawesomeReport) (meta : RunMeta) (now : ℕ)
    → (parse_mochawesome raw meta now).stats.total ≡ report_size raw.results
unfolding parse_mochawesome run_stats
parse_mochawesome-report_size raw meta now = totals-report_size raw.results
