-- ===== src/Normalize/Playwright/Laws.antt =====
-- backend/src/normalizers/playwright.ts: no test is lost between the files, and the counters balance.
use project_flakey.Prelude.{
  ℕ, ◌+◌, ◌≡◌, ◌⊎◌, refl, ◌∙◌, String, none, some, List, [], ◌∷◌, map, arith, sum_by, length-keep,
  count_if, All, All-image, inl, inr,
}
use project_flakey.Run.Data.{RunMeta, pending, NormalizedTest, has_status, IsBalanced}
use project_flakey.Run.Upload.Balance.{IsBalancedRun}
use project_flakey.Normalize.Tally.{
  spec_stats, run_stats, spec_stats-IsBalanced, run_stats-IsBalanced,
}
use project_flakey.Normalize.Playwright.{
  PlaywrightResult, PlaywrightSpec, Suite, suite, Suites, no_suites, more_suites, PlaywrightReport,
  Files, merge_child, merge_files, normalize_result, last_result, add_test, add_tests, add_specs,
  collect_from_suite, collect_children, title_path_of, all_tests, spec_of, parse_playwright,
  or_else, join_titles,
}
use project_flakey.Normalize.Playwright.Files.{
  IsSettled, AreFine, tests_in, Holds, map_status-IsSettled, push-Holds, merge_child-Holds,
  merge_files-Holds,
}

-- The tests that have a result.
abbrev has_result : List PlaywrightResult → ℕ
has_result [] = 0
has_result (r ∷ rs) = 1

last-cases :
    (rs : List PlaywrightResult)
    → (last_result rs ≡ none) × (has_result rs ≡ 0)
      ⊎ (r : PlaywrightResult) × (last_result rs ≡ some r) × (has_result rs ≡ 1)
last-cases [] = inl (refl, refl)
last-cases (r ∷ []) = inr (r, refl, refl)
last-cases (r ∷ s ∷ rs) = elim (last-cases (s ∷ rs)) [
  | inl (e, k) ↦ cc
  | inr (x, e, k) ↦ inr (x, e, refl)
]

add_test-Holds :
    (path : List String) (title file : String) (rs : List PlaywrightResult) (m : Files) (n : ℕ)
    → Holds m n
    → Holds (add_test path title file rs m) (n + has_result rs)
unfolding add_test normalize_result
add_test-Holds path title file rs m n h = elim (last-cases rs) [
  | inl (e, k) ↦ rw (add_test, e, k) (h.0, omega (arith, h.1))
  | inr (r, e, k) ↦
      rw (add_test, e, k)
        (push-Holds file (normalize_result path title r ∷ []) m n refl
          (map_status-IsSettled r.status, tt) h)
]

abbrev results_in : List (List PlaywrightResult) → ℕ
results_in [] = 0
results_in (t ∷ ts) = has_result t + results_in ts

add_tests-Holds :
    (path : List String) (title file : String) (ts : List (List PlaywrightResult)) (m : Files)
    (n : ℕ)
    → Holds m n
    → Holds (add_tests path title file ts m) (n + results_in ts)
unfolding add_tests
add_tests-Holds path title file [] m n h = (h.0, omega (arith, h.1))
add_tests-Holds path title file (t ∷ ts) m n h =
    let (all, count) =
      add_tests-Holds path title file ts (add_test path title file t m) (n + has_result t)
        (add_test-Holds path title file t m n h) in
    (all, omega (arith, count))

abbrev spec_results : List PlaywrightSpec → ℕ
spec_results [] = 0
spec_results (s ∷ ss) = results_in s.tests + spec_results ss

add_specs-Holds :
    (path : List String) (file : String) (ss : List PlaywrightSpec) (m : Files) (n : ℕ)
    → Holds m n
    → Holds (add_specs path file ss m) (n + spec_results ss)
unfolding add_specs
add_specs-Holds path file [] m n h = (h.0, omega (arith, h.1))
add_specs-Holds path file (s ∷ ss) m n h =
    let own = or_else s.file file in
    let (all, count) =
      add_specs-Holds path file ss (add_tests path s.title own s.tests m) (n + results_in s.tests)
        (add_tests-Holds path s.title own s.tests m n h) in
    (all, omega (arith, count))

-- The tests of a report that have a result, at any depth of its suites.
mutual
  pub suite_results : Suite → ℕ
  suite_results (suite title file specs children) = spec_results specs + suites_results children

  pub suites_results : Suites → ℕ
  suites_results no_suites = 0
  suites_results (more_suites s ss) = suite_results s + suites_results ss

same_count : (m : Files) (a b : ℕ) → a ≡ b → Holds m a → Holds m b
same_count m a b e h = (h.0, h.1 ∙ e)

mutual
  unfolding collect_from_suite suite_results

  collect_from_suite-Holds :
      (s : Suite) (parent : List String) → Holds (collect_from_suite s parent) (suite_results s)
  collect_from_suite-Holds (suite title file specs children) parent =
      let path = title_path_of parent title in
      collect_children-Holds children path
        (add_specs path (or_else file (join_titles path)) specs []) (spec_results specs)
        (same_count (add_specs path (or_else file (join_titles path)) specs [])
          (0 + spec_results specs) (spec_results specs) (omega arith)
          (add_specs-Holds path (or_else file (join_titles path)) specs [] 0 (tt, refl)))

  collect_children-Holds :
      (ss : Suites) (parent : List String) (m : Files) (n : ℕ)
      → Holds m n
      → Holds (collect_children ss parent m) (n + suites_results ss)
  collect_children-Holds no_suites parent m n h = (h.0, omega (arith, h.1))
  collect_children-Holds (more_suites s ss) parent m n h =
      let child = collect_from_suite s parent in
      let own = collect_from_suite-Holds s parent in
      let (all, count) =
        collect_children-Holds ss parent (merge_child child m) (n + tests_in child)
          (merge_child-Holds child m n own.0 h) in
      (all, omega (arith, count, own.1))

all_tests-Holds :
    (ss : Suites) (m : Files) (n : ℕ) → Holds m n → Holds (all_tests ss m) (n + suites_results ss)
unfolding all_tests suite_results
all_tests-Holds no_suites m n h = (h.0, omega (arith, h.1))
all_tests-Holds (more_suites s ss) m n h =
    let own = collect_from_suite-Holds s [] in
    let src = collect_from_suite s [] in
    let (all, count) =
      all_tests-Holds ss (merge_files src m) (n + tests_in src)
        (merge_files-Holds src m n own.0 h) in
    (all, omega (arith, count, own.1))

none_pending : (ts : List NormalizedTest) → All IsSettled ts → count_if (has_status pending) ts ≡ 0
none_pending [] h = refl
none_pending (t ∷ ts) h = let rest = none_pending ts h.1 in let own = h.0 in rw own (omega arith)

spec_pending : (m : Files) → AreFine m → sum_by (λ s. s.stats.pending) (map spec_of m) ≡ 0
unfolding spec_of spec_stats
spec_pending [] h = refl
spec_pending (e ∷ es) h =
    let own = none_pending e.1 h.0.1 in
    let counted = length-keep (has_status pending) e.1 in
    let rest = spec_pending es h.1 in omega arith

spec_totals : (m : Files) → sum_by (λ s. s.stats.total) (map spec_of m) ≡ tests_in m
unfolding spec_of spec_stats
spec_totals [] = refl
spec_totals (e ∷ es) = let rest = spec_totals es in omega arith

-- The total of the run that the parser makes is the number of the tests in the report that have a
-- result, at any depth of its suites and in however many suites a file occurs; and the counters of the
-- run, whose pending tests the parser sets to 0, and of every spec balance, as the upload asks.
pub parse_playwright-results :
    (raw : PlaywrightReport) (meta : RunMeta) (now : ℕ)
    → ((parse_playwright raw meta now).stats.total ≡ suites_results raw.suites)
      × IsBalancedRun (parse_playwright raw meta now)
unfolding parse_playwright run_stats spec_of
parse_playwright-results raw meta now =
    let files = all_tests raw.suites [] in
    let (fine, count) = all_tests-Holds raw.suites [] 0 (tt, refl) in
    let balanced =
      All-image (λ s. IsBalanced s.stats) spec_of (λ e. spec_stats-IsBalanced e.1) files in
    let whole : IsBalanced (run_stats (map spec_of files)) =
      run_stats-IsBalanced (map spec_of files) balanced in
    let pend = spec_pending files fine in
    (omega (arith, spec_totals files, count), record { own = omega arith; specs = balanced })
