-- ===== src/Run/Upload/Balance.antt =====
-- The counters of runs and specs stay balanced under uploads.
use project_flakey.Prelude.{
  ℕ, ◌+◌, ◌≡◌, refl, String, Bool, true, false, List, [], ◌∷◌, ◌==◌, find, keep, sum_by,
  if◌then◌else◌, arith, Option-cases, All, All-map, All-append, All-keep, inl, inr,
}
use project_flakey.Run.Data.{IsBalanced, NormalizedSpec, NormalizedRun}
use project_flakey.Run.Store.{SpecRow, Db}
use project_flakey.Run.Merge.{
  find_or_create_run, merge_row, of_run, sum_specs, recalculate_run_stats,
}
use project_flakey.Run.Merge.Laws.{keyed_row, find_or_create_run-missing, find_or_create_run-found}
use project_flakey.Run.Upload.{
  is_spec, write_spec, upsert_spec, replace_tests, write_specs, attach_release, upload,
}

pub record IsBalancedDb (db : Db) : Type 0 where
  pub runs : All (λ r. IsBalanced r.stats) db.runs
  pub specs : All (λ s. IsBalanced s.stats) db.specs

-- A payload whose own counters balance.
pub record IsBalancedRun (run : NormalizedRun) : Type 0 where
  pub own : IsBalanced run.stats
  pub specs : All (λ s. IsBalanced s.stats) run.specs

find_or_create_run-balanced :
    (db : Db) (org now : ℕ) (run : NormalizedRun)
    → IsBalanced run.stats
    → IsBalancedDb db
    → IsBalancedDb (find_or_create_run db org now run).0
find_or_create_run-balanced db org now run own h = elim (Option-cases (keyed_row db org run)) [
  | inl missing ↦
      rw (find_or_create_run-missing db org now run missing)
        (record { runs = (own, h.runs); specs = h.specs })
  | inr (r, found) ↦ rw (find_or_create_run-found db org now run found) (record {
    runs =
        All-map (λ s. IsBalanced s.stats) (λ s. if s.id == r.id then merge_row run s else s)
          (λ s p. ground arith) db.runs h.runs;
    specs = h.specs;
  })
]

upsert_spec-balanced :
    (db : Db) (id : ℕ) (spec : NormalizedSpec)
    → IsBalanced spec.stats
    → IsBalancedDb db
    → IsBalancedDb (upsert_spec db id spec).0
unfolding upsert_spec
upsert_spec-balanced db id spec own h =
    elim (Option-cases (find (is_spec id spec.file_path) db.specs)) [
      | inl missing ↦
          rw (missing, upsert_spec)
            (record {
              runs = h.runs;
              specs = All-append (λ s. IsBalanced s.stats) db.specs _ h.specs (own, tt);
            })
      | inr (r, found) ↦
          rw (found, upsert_spec)
            (record {
              runs = h.runs;
              specs =
                  All-map (λ s. IsBalanced s.stats)
                    (λ t. if t.id == r.id then write_spec spec t else t) (λ s p. ground arith)
                    db.specs h.specs;
            })
    ]

replace_tests-balanced :
    (db : Db) (id : ℕ) (spec : NormalizedSpec)
    → IsBalancedDb db
    → IsBalancedDb (replace_tests db id spec)
unfolding replace_tests
replace_tests-balanced db id spec h = record { runs = h.runs; specs = h.specs }

write_specs-balanced :
    (db : Db) (id : ℕ) (specs : List NormalizedSpec)
    → All (λ s. IsBalanced s.stats) specs
    → IsBalancedDb db
    → IsBalancedDb (write_specs db id specs)
unfolding write_specs
write_specs-balanced db id [] own h = h
write_specs-balanced db id (spec ∷ specs) own h =
    let (db', spec_id) = upsert_spec db id spec in
    write_specs-balanced (replace_tests db' spec_id spec) id specs own.1
      (replace_tests-balanced db' spec_id spec (upsert_spec-balanced db id spec own.0 h))

sums_balance :
    (specs : List SpecRow)
    → All (λ s. IsBalanced s.stats) specs
    → sum_by (λ s. s.stats.total) specs
      ≡ sum_by (λ s. s.stats.passed) specs
        + sum_by (λ s. s.stats.failed) specs
        + sum_by (λ s. s.stats.skipped) specs
        + sum_by (λ s. s.stats.pending) specs
sums_balance [] h = refl
sums_balance (s ∷ ss) h = omega (arith, sums_balance ss h.1)

sum_specs-IsBalanced :
    (id : ℕ) (specs : List SpecRow)
    → All (λ s. IsBalanced s.stats) specs
    → IsBalanced (sum_specs id specs)
unfolding sum_specs
sum_specs-IsBalanced id specs h =
    sums_balance (keep (of_run id) specs) (All-keep (λ s. IsBalanced s.stats) (of_run id) specs h)

recalculate_run_stats-balanced :
    (db : Db) (id : ℕ) → IsBalancedDb db → IsBalancedDb (recalculate_run_stats db id)
unfolding recalculate_run_stats
recalculate_run_stats-balanced db id h = record {
  runs =
      All-map (λ r. IsBalanced r.stats)
        (λ r. if r.id == id then record r { stats = sum_specs id db.specs } else r)
        (λ r p. ground (arith, sum_specs-IsBalanced id db.specs h.specs)) db.runs h.runs;
  specs = h.specs;
}

pub runs-attach_release :
    (db : Db) (org id : ℕ) (version : String) → (attach_release db org id version).runs ≡ db.runs
unfolding attach_release
runs-attach_release db org id version = ground arith

pub specs-attach_release :
    (db : Db) (org id : ℕ) (version : String) → (attach_release db org id version).specs ≡ db.specs
unfolding attach_release
specs-attach_release db org id version = ground arith

attach_release-balanced :
    (db : Db) (org id : ℕ) (version : String)
    → IsBalancedDb db
    → IsBalancedDb (attach_release db org id version)
attach_release-balanced db org id version h = record {
  runs = rw (runs-attach_release db org id version) h.runs;
  specs = rw (specs-attach_release db org id version) h.specs;
}

if-balanced :
    (b : Bool) (x y : Db) → IsBalancedDb x → IsBalancedDb y → IsBalancedDb (if b then x else y)
if-balanced true x y hx hy = hx
if-balanced false x y hx hy = hy

-- An upload whose own counters balance leaves every run and every spec in the database with
-- total = passed + failed + skipped + pending, if they had it before.
pub upload-IsBalancedDb :
    (md5 : String → String) (db : Db) (org now : ℕ) (run : NormalizedRun)
    → IsBalancedRun run
    → IsBalancedDb db
    → IsBalancedDb (upload md5 db org now run).db
unfolding upload
upload-IsBalancedDb md5 db org now run own h =
    let (found, id, merged) = find_or_create_run db org now run in
    let written = write_specs found id run.specs in
    let w =
      write_specs-balanced found id run.specs own.specs
        (find_or_create_run-balanced db org now run own.own h) in
    let s =
      if-balanced merged (recalculate_run_stats written id) written
        (recalculate_run_stats-balanced written id w) w in
    attach_release-balanced _ org id _ (record { runs = s.runs; specs = s.specs })
