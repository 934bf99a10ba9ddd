-- ===== src/Normalize/Playwright.antt =====
-- backend/src/normalizers/playwright.ts. A duration is the Number to which the code coerces it; `now` is
-- the time of parsing. The metadata and the path of the video are left out, as in Run/Data.
pub mod Files
pub mod Laws
use project_flakey.Prelude.{
  ℕ, ◌+◌, ◌≡◌, refl, String, Bool, true, false, ◌&&◌, not, Option, none, some, List, [], ◌∷◌, ◌++◌,
  map, str_eq, keep, if◌then◌else◌, arith, All-image, sum_by,
}
use project_flakey.Prelude.Js.{Number, clamp, TimeValue, missing, empty, unreadable, at}
use project_flakey.Prelude.Split.{starts_with, split}
use project_flakey.Run.Data.{
  RunMeta, TestStatus, passed, failed, skipped, TestError, NormalizedTest, NormalizedSpec,
  NormalizedRun, Stats,
}
use project_flakey.Normalize.Tally.{spec_stats, run_stats}

pub record PlaywrightError : Type 0 where
  pub message : Option String
  pub stack : Option String

pub data ResultStatus : Type 0 where
  has_passed has_failed timed_out was_skipped interrupted unknown : ResultStatus

pub record Attachment : Type 0 where
  pub content_type : String
  pub path : Option String

pub record PlaywrightResult : Type 0 where
  pub status : ResultStatus
  pub duration : Number
  pub error : Option PlaywrightError
  pub errors : List PlaywrightError
  pub attachments : List Attachment

-- A spec holds tests, and a test the results of its attempts.
pub record PlaywrightSpec : Type 0 where
  pub title : String
  pub file : Option String
  pub tests : List (List PlaywrightResult)

mutual
  pub data Suite : Type 0 where
    suite : String → Option String → List PlaywrightSpec → Suites → Suite

  pub data Suites : Type 0 where
    no_suites : Suites
    more_suites : Suite → Suites → Suites

pub record PlaywrightReport : Type 0 where
  pub suites : Suites
  pub start_time : TimeValue
  pub duration : Option Number

unfoldable pub map_status : ResultStatus → TestStatus
map_status has_passed = passed
map_status has_failed = failed
map_status timed_out = failed
map_status was_skipped = skipped
map_status interrupted = failed
map_status unknown = skipped

abbrev head : List PlaywrightError → Option PlaywrightError
head [] = none
head (e ∷ es) = some e

abbrev first_error : PlaywrightResult → Option PlaywrightError
first_error r = elim r.error [ some e ↦ some e | none ↦ head r.errors ]

abbrev pub or_else {ℓ} : {A : Type ℓ} → Option A → A → A
or_else none d = d
or_else (some x) d = x

unfoldable pub extract_error : PlaywrightResult → Option TestError
extract_error r = elim (first_error r) [
  | none ↦ none
  | some e ↦ some (record { message = or_else e.message "Unknown error"; stack = e.stack })
]

abbrev path_of : Attachment → List String
path_of a = elim a.path [
  | none ↦ []
  | some p ↦ if starts_with "image/" a.content_type && not (str_eq p "") then p ∷ [] else []
]

unfoldable pub extract_screenshots : List Attachment → List String
extract_screenshots [] = []
extract_screenshots (a ∷ rest) = path_of a ++ extract_screenshots rest

-- `ws.join(" > ")`
abbrev pub join_titles : List String → String
join_titles [] = ""
join_titles (w ∷ []) = w
join_titles (w ∷ v ∷ ws) =
    Prim.Native.String.◌++◌ w (Prim.Native.String.◌++◌ " > " (join_titles (v ∷ ws)))

abbrev is_filled : String → Bool
is_filled s = not (str_eq s "")

abbrev pub last_result : List PlaywrightResult → Option PlaywrightResult
last_result [] = none
last_result (r ∷ []) = some r
last_result (r ∷ s ∷ rs) = last_result (s ∷ rs)

-- A test from its last result.
unfoldable pub normalize_result : List String → String → PlaywrightResult → NormalizedTest
normalize_result title_path title r = record {
  title = title;
  full_title = join_titles (keep is_filled (title_path ++ title ∷ []));
  status = map_status r.status;
  duration_ms = clamp r.duration;
  error = extract_error r;
  screenshot_paths = extract_screenshots r.attachments;
}

-- A Map from files to tests, in the order in which its keys were set.
abbrev pub Files : Type 0
Files = List (String × List NormalizedTest)

-- `existing = m.get(key) ?? []; existing.push(...tests); m.set(key, existing)`
unfoldable pub push_tests : String → List NormalizedTest → Files → Files
push_tests key tests [] = (key, tests) ∷ []
push_tests key tests ((k, old) ∷ rest) =
    let after = push_tests key tests rest in
    if str_eq k key then (k, old ++ tests) ∷ rest else (k, old) ∷ after

-- One test, unless it has no result.
unfoldable pub add_test : List String → String → String → List PlaywrightResult → Files → Files
add_test title_path title file results m = elim (last_result results) [
  | none ↦ m
  | some r ↦ push_tests file (normalize_result title_path title r ∷ []) m
]

unfoldable pub add_tests :
    List String → String → String → List (List PlaywrightResult) → Files → Files
add_tests title_path title file [] m = m
add_tests title_path title file (t ∷ ts) m =
    add_tests title_path title file ts (add_test title_path title file t m)

unfoldable pub add_specs : List String → String → List PlaywrightSpec → Files → Files
add_specs title_path file_path [] m = m
add_specs title_path file_path (s ∷ ss) m =
    add_specs title_path file_path ss
      (add_tests title_path s.title (or_else s.file file_path) s.tests m)

-- `m.set(key, [])`
unfoldable pub clear_tests : String → Files → Files
clear_tests key [] = (key, []) ∷ []
clear_tests key ((k, old) ∷ rest) =
    let after = clear_tests key rest in if str_eq k key then (k, []) ∷ rest else (k, old) ∷ after

abbrev pub is_nil : List NormalizedTest → Bool
is_nil [] = true
is_nil (t ∷ ts) = false

-- The tests of a child suite, by file: `m.set(key, tests.length > 0 ? existing : [])`
unfoldable pub merge_child : Files → Files → Files
merge_child [] m = m
merge_child ((k, tests) ∷ rest) m =
    merge_child rest (if is_nil tests then clear_tests k m else push_tests k tests m)

-- The tests of a suite of the report, by file.
unfoldable pub merge_files : Files → Files → Files
merge_files [] m = m
merge_files ((k, tests) ∷ rest) m = merge_files rest (push_tests k tests m)

abbrev pub title_path_of : List String → String → List String
title_path_of parent title = if str_eq title "" then parent else parent ++ title ∷ []

unfoldable mutual
  pub collect_from_suite : Suite → List String → Files
  collect_from_suite (suite title file specs children) parent =
      let title_path = title_path_of parent title in
      collect_children children title_path
        (add_specs title_path (or_else file (join_titles title_path)) specs [])

  pub collect_children : Suites → List String → Files → Files
  collect_children no_suites parent m = m
  collect_children (more_suites s ss) parent m =
      collect_children ss parent (merge_child (collect_from_suite s parent) m)

unfoldable pub all_tests : Suites → Files → Files
all_tests no_suites m = m
all_tests (more_suites s ss) m = all_tests ss (merge_files (collect_from_suite s []) m)

abbrev last_piece : List String → String
last_piece [] = ""
last_piece (w ∷ []) = w
last_piece (w ∷ v ∷ ws) = last_piece (v ∷ ws)

unfoldable pub spec_of : String × List NormalizedTest → NormalizedSpec
spec_of entry = record {
  file_path = entry.0;
  title = last_piece (split "/" entry.0);
  stats = spec_stats entry.1;
  tests = entry.1;
}

-- The start of the run: the given one, or the report's, or else the time of parsing.
abbrev started : Option ℕ → TimeValue → ℕ → ℕ
started (some t) report now = t
started none (at t) now = t
started none _ now = now

abbrev finished : Option ℕ → ℕ → ℕ
finished (some t) end = t
finished none end = end

abbrev run_duration : Option Number → ℕ → ℕ
run_duration none summed = summed
run_duration (some d) summed = clamp d

unfoldable pub parse_playwright : PlaywrightReport → RunMeta → ℕ → NormalizedRun
parse_playwright raw meta now =
    let specs = map spec_of (all_tests raw.suites []) in
    let duration = run_duration raw.duration (sum_by (λ s. s.stats.duration_ms) specs) in
    let start = started meta.started_at raw.start_time now in
    record {
      meta = record meta {
        started_at = some start;
        finished_at = some (finished meta.finished_at (start + duration));
        reporter = "playwright";
      };
      stats = record (run_stats specs) { pending = 0; duration_ms = duration };
      specs = specs;
    }
