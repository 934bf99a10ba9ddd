-- ===== src/Run/Upload.antt =====
-- backend/src/routes/runs.ts, POST /runs: the transaction of an upload. What follows the commit
-- (audit row, auto-quarantine, webhooks, PR comment) is not part of it.
pub mod Balance
pub mod Fresh
pub mod Tables
pub mod Overlay
use project_flakey.Prelude.{
  ℕ, ◌+◌, String, Bool, true, false, ◌&&◌, ◌||◌, not, Option, none, some, List, [], ◌∷◌, ◌++◌, map,
  ◌==◌, str_eq, find, any, keep, if◌then◌else◌,
}
use project_flakey.Prelude.Text.{trim}
use project_flakey.Run.Data.{Stats, NormalizedTest, NormalizedSpec, NormalizedRun, TestError}
use project_flakey.Run.Store.{RunRow, SpecRow, TestRow, Release, Db}
use project_flakey.Run.Merge.{or_empty, find_or_create_run, recalculate_run_stats}
use project_flakey.Triage.Recurrence.{failing_fingerprints, record_error_recurrence, add}

abbrev pub is_spec : ℕ → String → SpecRow → Bool
is_spec run_id file s = s.run_id == run_id && str_eq s.file_path file

abbrev pub write_spec : NormalizedSpec → SpecRow → SpecRow
write_spec spec s = record s { title = spec.title; stats = spec.stats }

-- INSERT INTO specs … ON CONFLICT (run_id, file_path) DO UPDATE … RETURNING id
unfoldable pub upsert_spec : Db → ℕ → NormalizedSpec → Db × ℕ
upsert_spec db run_id spec = elim (find (is_spec run_id spec.file_path) db.specs) [
  | none ↦ (
    record db {
      specs =
          db.specs
          ++ record {
            id = db.next_spec;
            run_id = run_id;
            file_path = spec.file_path;
            title = spec.title;
            stats = spec.stats;
          }
            ∷ [];
      next_spec = db.next_spec + 1;
    },
    db.next_spec,
  )
  | some s ↦ (
    record db { specs = map (λ t. if t.id == s.id then write_spec spec t else t) db.specs },
    s.id,
  )
]

-- The last value that `map.set` stored under the title, over the rows in order.
unfoldable pub last_of {ℓ} : {A : Type ℓ} → (TestRow → Option A) → String → List TestRow → Option A
last_of f title [] = none
last_of f title (r ∷ rs) = elim (last_of f title rs) [
  | some a ↦ some a
  | none ↦ if str_eq r.full_title title then f r else none
]

-- `if (row.screenshot_paths?.length)`
abbrev pub some_paths : TestRow → Option (List String)
some_paths r = elim r.screenshot_paths [ [] ↦ none | x ∷ xs ↦ some (x ∷ xs) ]

-- `if (row.snapshot_path)`
abbrev pub some_path : TestRow → Option String
some_path r = elim r.snapshot_path [ none ↦ none | some p ↦ if str_eq p "" then none else some p ]

abbrev pub or_nil : Option (List String) → List String
or_nil none = []
or_nil (some xs) = xs

-- `new Set(xs)`, as an array in the order of insertion
abbrev pub add_all : List String → List String → List String
add_all seen [] = seen
add_all seen (x ∷ xs) = add_all (add x seen) xs

abbrev pub message : Option TestError → Option String
message none = none
message (some e) = some e.message

abbrev pub stack : Option TestError → Option String
stack none = none
stack (some e) = e.stack

-- `old` holds the rows of the spec before the upload.
unfoldable pub fresh_row : ℕ → List TestRow → NormalizedTest → TestRow
unfolding last_of
fresh_row spec_id old t = record {
  spec_id = spec_id;
  title = t.title;
  full_title = t.full_title;
  status = t.status;
  duration_ms = t.duration_ms;
  error_message = message t.error;
  error_stack = stack t.error;
  screenshot_paths =
      add_all [] (or_nil (last_of some_paths t.full_title old) ++ t.screenshot_paths);
  snapshot_path = last_of some_path t.full_title old;
}

abbrev pub of_spec : ℕ → TestRow → Bool
of_spec id t = t.spec_id == id

-- SELECT the preserved paths, DELETE the spec's tests, INSERT the payload's
unfoldable pub replace_tests : Db → ℕ → NormalizedSpec → Db
replace_tests db id spec = record db {
  tests =
      keep (λ t. not (of_spec id t)) db.tests
      ++ map (fresh_row id (keep (of_spec id) db.tests)) spec.tests;
}

unfoldable pub write_specs : Db → ℕ → List NormalizedSpec → Db
unfolding upsert_spec replace_tests
write_specs db run_id [] = db
write_specs db run_id (spec ∷ specs) =
    let (db', id) = upsert_spec db run_id spec in
    write_specs (replace_tests db' id spec) run_id specs

-- `typeof run.meta.release === "string" ? run.meta.release.trim() : ""`
abbrev release_version : NormalizedRun → String
release_version run = trim (or_empty run.meta.release)

abbrev is_release : ℕ → String → Release → Bool
is_release org version r = r.org_id == org && str_eq r.version version

-- INSERT INTO release_runs … ON CONFLICT DO NOTHING
abbrev link : ℕ → ℕ → List (ℕ × ℕ) → List (ℕ × ℕ)
link release run links =
    if any (λ l. l.0 == release && l.1 == run) links then links else links ++ (release, run) ∷ []

unfoldable pub attach_release : Db → ℕ → ℕ → String → Db
attach_release db org run_id version =
    if str_eq version "" then db else elim (find (is_release org version) db.releases) [
      | none ↦ record db {
        releases =
            db.releases ++ record { id = db.next_release; org_id = org; version = version } ∷ [];
        next_release = db.next_release + 1;
        release_runs = link db.next_release run_id db.release_runs;
      }
      | some r ↦ record db { release_runs = link r.id run_id db.release_runs }
    ]

pub record Uploaded : Type 0 where
  pub db : Db
  pub run_id : ℕ
  pub merged : Bool
  pub regressed : List String

reopen_groups : (String → String) → Db → ℕ → ℕ → NormalizedRun → Db × List String
reopen_groups md5 db org now run =
    let (groups, fps) = record_error_recurrence now org (failing_fingerprints md5 run) db.groups in
    (record db { groups = groups }, fps)

unfoldable pub upload : (String → String) → Db → ℕ → ℕ → NormalizedRun → Uploaded
unfolding reopen_groups
upload md5 db org now run =
    let (found, run_id, merged) = find_or_create_run db org now run in
    let written = write_specs found run_id run.specs in
    let summed = if merged then recalculate_run_stats written run_id else written in
    let (reopened, regressed) = reopen_groups md5 summed org now run in
    record {
      db = attach_release reopened org run_id (release_version run);
      run_id = run_id;
      merged = merged;
      regressed = regressed;
    }
