-- ===== src/Normalize/Webdriverio/Size.antt =====
-- backend/src/normalizers/webdriverio.ts: the size of the run that parseWebdriverIO makes.
use project_flakey.Prelude.{
  ℕ, ◌+◌, ◌≡◌, refl, String, List, [], ◌∷◌, ◌++◌, map, arith, sum_by, length, length-append, All,
  All-imp,
}
use project_flakey.Run.Data.{RunMeta, NormalizedSpec, IsBalanced}
use project_flakey.Run.Upload.Balance.{IsBalancedRun}
use project_flakey.Normalize.Tally.{
  spec_stats, run_stats, counted_stats, IsCounted, spec_stats-IsBalanced, counted_stats-IsBalanced,
}
use project_flakey.Normalize.Webdriverio.{
  WdioTest, WdioSuite, WdioSuites, WdioSpec, WdioReport, suite, no_suites, more_suites, parse_test,
  or_filled, full_prefix, head_of, collect_tests, collect_nested, parse_suite_to_spec, specs_in,
  standard_specs, flat_specs, report_specs, parse_webdriver_io,
}

-- The tests below a suite, at any depth.
mutual
  suite_size : WdioSuite → ℕ
  suite_size (suite head tests children) = length tests + suites_size children

  pub suites_size : WdioSuites → ℕ
  suites_size no_suites = 0
  suites_size (more_suites s ss) = suite_size s + suites_size ss

-- The tests of a report, whose own suites count only where it lists no specs.
unfoldable pub report_size : List WdioSpec → WdioSuites → ℕ
report_size [] ss = suites_size ss
report_size (r ∷ rs) ss = sum_by (λ s. suites_size s.suites) (r ∷ rs)

length-parse_test :
    (prefix : String) (ts : List WdioTest) → length (map (parse_test prefix) ts) ≡ length ts
length-parse_test prefix [] = refl
length-parse_test prefix (t ∷ ts) = let rest = length-parse_test prefix ts in omega arith

mutual
  unfolding collect_tests collect_nested suite_size suites_size

  length-collect_tests :
      (s : WdioSuite) (parent : String) → length (collect_tests s parent) ≡ suite_size s
  length-collect_tests (suite head tests children) parent =
      let prefix = full_prefix parent (or_filled head.name head.title) in
      let both = length-append (map (parse_test prefix) tests) (collect_nested children prefix) in
      let own = length-parse_test prefix tests in
      let below = length-collect_nested children prefix in omega arith

  length-collect_nested :
      (ss : WdioSuites) (prefix : String) → length (collect_nested ss prefix) ≡ suites_size ss
  length-collect_nested no_suites prefix = refl
  length-collect_nested (more_suites s ss) prefix =
      let both = length-append (collect_tests s prefix) (collect_nested ss prefix) in
      let own = length-collect_tests s prefix in
      let rest = length-collect_nested ss prefix in omega arith

-- Specs whose counters are those of their tests, with so many tests in all.
abbrev Counts : List NormalizedSpec → ℕ → Type 0
Counts specs n = All IsCounted specs × (sum_by (λ s. s.stats.total) specs ≡ n)

parse_suite_to_spec-IsCounted :
    (s : WdioSuite) (file_path : String)
    → IsCounted (parse_suite_to_spec s file_path)
      × ((parse_suite_to_spec s file_path).stats.total ≡ suite_size s)
unfolding parse_suite_to_spec spec_stats
parse_suite_to_spec-IsCounted s file_path =
    ((spec_stats-IsBalanced (collect_tests s ""), refl), length-collect_tests s "")

Counts-cons :
    (s : WdioSuite) (file_path : String) (specs : List NormalizedSpec) (n : ℕ)
    → Counts specs n
    → Counts (parse_suite_to_spec s file_path ∷ specs) (suite_size s + n)
Counts-cons s file_path specs n h =
    let own = parse_suite_to_spec-IsCounted s file_path in
    let size = own.1 in let rest = h.1 in ((own.0, h.0), omega arith)

specs_in-Counts :
    (ss : WdioSuites) (file_path : String) → Counts (specs_in ss file_path) (suites_size ss)
unfolding specs_in suites_size
specs_in-Counts no_suites file_path = (tt, refl)
specs_in-Counts (more_suites s ss) file_path =
    Counts-cons s file_path (specs_in ss file_path) (suites_size ss) (specs_in-Counts ss file_path)

flat_specs-Counts : (ss : WdioSuites) → Counts (flat_specs ss) (suites_size ss)
unfolding flat_specs suites_size
flat_specs-Counts no_suites = (tt, refl)
flat_specs-Counts (more_suites s ss) =
    let head = head_of s in
    Counts-cons s (or_filled head.file (or_filled head.name "unknown")) (flat_specs ss)
      (suites_size ss) (flat_specs-Counts ss)

Counts-append :
    (xs ys : List NormalizedSpec) (m n : ℕ) → Counts xs m → Counts ys n → Counts (xs ++ ys) (m + n)
Counts-append [] ys m n h k = let none_there = h.1 in let rest = k.1 in (k.0, omega arith)
Counts-append (x ∷ xs) ys m n h k =
    let whole = h.1 in
    let rest = Counts-append xs ys (sum_by (λ s. s.stats.total) xs) n (h.0.1, refl) k in
    let sum = rest.1 in ((h.0.0, rest.0), omega arith)

standard_specs-Counts :
    (rs : List WdioSpec) → Counts (standard_specs rs) (sum_by (λ s. suites_size s.suites) rs)
unfolding standard_specs
standard_specs-Counts [] = (tt, refl)
standard_specs-Counts (r ∷ rs) =
    let file_path = or_filled r.filename (or_filled r.file "unknown") in
    Counts-append (specs_in r.suites file_path) (standard_specs rs) (suites_size r.suites)
      (sum_by (λ s. suites_size s.suites) rs) (specs_in-Counts r.suites file_path)
      (standard_specs-Counts rs)

report_specs-Counts :
    (rs : List WdioSpec) (ss : WdioSuites) → Counts (report_specs rs ss) (report_size rs ss)
unfolding report_specs report_size
report_specs-Counts [] ss = flat_specs-Counts ss
report_specs-Counts (r ∷ rs) ss = standard_specs-Counts (r ∷ rs)

-- The total of the run that the parser makes is the number of the tests below the suites that it
-- reads, at any depth: those of the report's specs where it has one, and else the report's own. The
-- counters of the run and of every spec balance, as the upload asks.
pub parse_webdriver_io-size :
    (report : WdioReport) (meta : RunMeta) (now : ℕ)
    → ((parse_webdriver_io report meta now).stats.total ≡ report_size report.specs report.suites)
      × IsBalancedRun (parse_webdriver_io report meta now)
unfolding parse_webdriver_io counted_stats run_stats
parse_webdriver_io-size report meta now =
    let specs = report_specs report.specs report.suites in
    let h = report_specs-Counts report.specs report.suites in
    (
      h.1,
      record {
        own = counted_stats-IsBalanced specs h.0;
        specs = All-imp IsCounted (λ s. IsBalanced s.stats) (λ s c. c.0) specs h.0;
      },
    )
