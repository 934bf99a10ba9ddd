-- ===== src/Quarantine/Auto.antt =====
-- backend/src/auto-quarantine.ts with the flip count of backend/src/flaky-analysis.ts. What the
-- query of computeFlakyTests returns is an argument; the rows arrive with their timelines. That query
-- and the INSERT of a test may fail; the audit rows, whose failures logAudit swallows, are left out.
pub mod Turns
pub mod Failures
pub mod Laws
use project_flakey.Prelude.{
  ℕ, ◌+◌, ◌<◌, ◌≡◌, String, Bool, true, false, ◌&&◌, ◌||◌, not, Option, none, some, List, [], ◌∷◌,
  ◌++◌, map, ◌==◌, str_eq, find, ltb, if◌then◌else◌, arith, length, max,
}
use project_flakey.Run.Data.{TestStatus, same_status}
use project_flakey.Quarantine.Table.{QuarantineRow, Table, is_entry, Reason, flips, auto}

pub record FlakyTest : Type 0 where
  pub full_title : String
  pub file_path : Option String
  pub total_runs : ℕ
  pub timeline : List TestStatus
  pub flip_count : ℕ

unfoldable pub count_flips : List TestStatus → ℕ
count_flips [] = 0
count_flips (s ∷ []) = 0
count_flips (s ∷ next ∷ rest) =
    let more = count_flips (next ∷ rest) in if same_status next s then more else more + 1

pub record AutoPolicy : Type 0 where
  pub enabled : Bool
  pub min_flips : ℕ
  pub min_runs : ℕ

-- `Math.max(minRuns, 30)`
abbrev pub run_window : AutoPolicy → ℕ
run_window policy = max policy.min_runs 30

-- The guard of the loop, negated.
abbrev pub qualifies : AutoPolicy → FlakyTest → Bool
qualifies policy t = not (ltb t.flip_count policy.min_flips || ltb t.total_runs policy.min_runs)

-- `test.file_path ?? ""`
abbrev path_or_empty : Option String → String
path_or_empty none = ""
path_or_empty (some p) = p

abbrev pub auto_entry : ℕ → ℕ → String → FlakyTest → ℕ → QuarantineRow
auto_entry n org suite test now = record {
  id = n;
  org_id = org;
  full_title = test.full_title;
  file_path = path_or_empty test.file_path;
  suite_name = suite;
  reason = flips test.flip_count test.total_runs;
  quarantined_by = none;
  created_at = now;
  expires_at = none;
  error_fingerprint = none;
  source = auto;
}

-- INSERT ... ON CONFLICT DO NOTHING, with the count of new rows
unfoldable pub insert_auto : Table → ℕ → String → FlakyTest → ℕ → Table × ℕ
insert_auto t org suite test now = elim (find (is_entry org test.full_title suite) t.rows) [
  | none ↦ (
    record t { rows = t.rows ++ auto_entry t.next org suite test now ∷ []; next = t.next + 1 },
    1,
  )
  | some r ↦ (t, 0)
]

-- The loop, with the count, or `none` where the INSERT of a test throws.
unfoldable pub quarantine_all :
    (FlakyTest → Bool) → AutoPolicy → ℕ → String → ℕ → List FlakyTest → Table × ℕ → Table × Option ℕ
quarantine_all fails policy org suite now [] (t, n) = (t, some n)
quarantine_all fails policy org suite now (test ∷ tests) (t, n) =
    let skip = quarantine_all fails policy org suite now tests (t, n) in
    let (t', k) = insert_auto t org suite test now in
    let go = quarantine_all fails policy org suite now tests (t', n + k) in
    if qualifies policy test then if fails test then (t, none) else go else skip

-- `catch { return 0 }`
abbrev or_zero : Option ℕ → ℕ
or_zero none = 0
or_zero (some n) = n

unfoldable pub quarantine_found :
    (FlakyTest → Bool) → AutoPolicy → ℕ → String → ℕ → Table → Option (List FlakyTest) → Table × ℕ
quarantine_found fails policy org suite now t none = (t, 0)
quarantine_found fails policy org suite now t (some tests) =
    let (t', count) = quarantine_all fails policy org suite now tests (t, 0) in (t', or_zero count)

-- `flaky` is the answer of computeFlakyTests for a run window, `none` where it throws.
unfoldable pub evaluate_auto_quarantine :
    (FlakyTest → Bool)
    → Option AutoPolicy
    → (ℕ → Option (List FlakyTest))
    → ℕ
    → String
    → ℕ
    → Table
    → Table × ℕ
evaluate_auto_quarantine fails none flaky org suite now t = (t, 0)
evaluate_auto_quarantine fails (some policy) flaky org suite now t =
    if policy.enabled
    then quarantine_found fails policy org suite now t (flaky (run_window policy))
    else (t, 0)
