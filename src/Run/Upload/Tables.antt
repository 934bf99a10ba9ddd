-- ===== src/Run/Upload/Tables.antt =====
-- What an upload leaves in the tables: keys, the totals of a merged run, and the tests of a spec.
use project_flakey.Prelude.{
  ℕ, ◌≡◌, refl, sym, subst, ap, ◌∙◌, ◌≢◌, String, Bool, true, false, not, some, List, [], ◌∷◌, map,
  ==-refl, keep, if◌then◌else◌, arith, Option-cases, All-image, keep-append, keep_full, keep_none,
  keep-keep, keep-not, inl, inr, append-nil, sum_by, Bool-cases, str_eq_iff, find_sound, ◌==◌,
}
use project_flakey.Run.Data.{Stats, NormalizedSpec, NormalizedRun}
use project_flakey.Run.Store.{RunRow, SpecRow, TestRow, Db, update_run, run_by_id}
use project_flakey.Run.Merge.{
  has_key, merge_row, find_or_create_run, of_run, sum_specs, recalculate_run_stats,
}
use project_flakey.Run.Merge.Laws.{
  IsKeyed, KeepsKey-merge_row, IsKeyed-update_run, find_or_create_run-IsKeyed, keyed_row,
  find_or_create_run-missing, find_or_create_run-found,
}
use project_flakey.Run.Merge.Shards.{run_by_id-find, run_by_id-update}
use project_flakey.Run.Upload.{
  of_spec, fresh_row, upsert_spec, replace_tests, write_specs, attach_release, upload,
}
use project_flakey.Run.Upload.Fresh.{AreRows, fresh_rows-AreRows}
use project_flakey.Run.Upload.Balance.{runs-attach_release, specs-attach_release}

runs-upsert_spec :
    (db : Db) (id : ℕ) (spec : NormalizedSpec) → (upsert_spec db id spec).0.runs ≡ db.runs
unfolding upsert_spec
runs-upsert_spec db id spec = ground arith

next_run-upsert_spec :
    (db : Db) (id : ℕ) (spec : NormalizedSpec) → (upsert_spec db id spec).0.next_run ≡ db.next_run
unfolding upsert_spec
next_run-upsert_spec db id spec = ground arith

-- Writing specs and their tests leaves the runs alone.
runs-write_specs :
    (db : Db) (id : ℕ) (specs : List NormalizedSpec) → (write_specs db id specs).runs ≡ db.runs
unfolding write_specs replace_tests
runs-write_specs db id [] = refl
runs-write_specs db id (spec ∷ specs) =
    runs-write_specs (replace_tests (upsert_spec db id spec).0 (upsert_spec db id spec).1 spec) id
      specs
    ∙ runs-upsert_spec db id spec

next_run-write_specs :
    (db : Db) (id : ℕ) (specs : List NormalizedSpec)
    → (write_specs db id specs).next_run ≡ db.next_run
unfolding write_specs replace_tests
next_run-write_specs db id [] = refl
next_run-write_specs db id (spec ∷ specs) =
    next_run-write_specs (replace_tests (upsert_spec db id spec).0 (upsert_spec db id spec).1 spec)
      id specs
    ∙ next_run-upsert_spec db id spec

IsKeyed-same :
    (db db' : Db) → db'.runs ≡ db.runs → db'.next_run ≡ db.next_run → IsKeyed db → IsKeyed db'
IsKeyed-same db db' same_runs same_next h = record {
  ids_below = rw (same_runs, same_next) h.ids_below;
  ids = rw same_runs h.ids;
  keys = rw same_runs h.keys;
}

next_run-attach_release :
    (db : Db) (org id : ℕ) (version : String)
    → (attach_release db org id version).next_run ≡ db.next_run
unfolding attach_release
next_run-attach_release db org id version = ground arith

attach_release-IsKeyed :
    (db : Db) (org id : ℕ) (version : String)
    → IsKeyed db
    → IsKeyed (attach_release db org id version)
attach_release-IsKeyed db org id version =
    IsKeyed-same db (attach_release db org id version) (runs-attach_release db org id version)
      (next_run-attach_release db org id version)

recalculate_run_stats-IsKeyed :
    (db : Db) (id : ℕ) → IsKeyed db → IsKeyed (recalculate_run_stats db id)
unfolding recalculate_run_stats
recalculate_run_stats-IsKeyed db id h =
    IsKeyed-update_run db id (λ r. record r { stats = sum_specs id db.specs })
      (record { id = λ r. refl; org_id = λ r. refl; suite_name = λ r. refl; ci_run_id = λ r. refl })
      h

if-IsKeyed : (b : Bool) (x y : Db) → IsKeyed x → IsKeyed y → IsKeyed (if b then x else y)
if-IsKeyed true x y hx hy = hx
if-IsKeyed false x y hx hy = hy

-- Uploads keep run ids unique and below the serial, and no two runs of one organisation and suite
-- share a non-empty ci_run_id.
pub upload-IsKeyed :
    (md5 : String → String) (db : Db) (org now : ℕ) (run : NormalizedRun)
    → IsKeyed db
    → IsKeyed (upload md5 db org now run).db
unfolding upload
upload-IsKeyed md5 db org now run h =
    let (found, id, merged) = find_or_create_run db org now run in
    let written = write_specs found id run.specs in
    let w =
      IsKeyed-same found written (runs-write_specs found id run.specs)
        (next_run-write_specs found id run.specs) (find_or_create_run-IsKeyed db org now run h) in
    let s =
      if-IsKeyed merged (recalculate_run_stats written id) written
        (recalculate_run_stats-IsKeyed written id w) w in
    attach_release-IsKeyed _ org id _
      (record { ids_below = s.ids_below; ids = s.ids; keys = s.keys })

run_by_id-recalculate :
    (db : Db) (id : ℕ) {r : RunRow}
    → run_by_id id db.runs ≡ some r
    → run_by_id id (recalculate_run_stats db id).runs
      ≡ some (record r { stats = sum_specs id db.specs })
unfolding recalculate_run_stats
run_by_id-recalculate db id e =
    run_by_id-update id (λ r. record r { stats = sum_specs id db.specs }) db.runs
      (record { id = λ r. refl; org_id = λ r. refl; suite_name = λ r. refl; ci_run_id = λ r. refl })
      e

sum_mine :
    (id : ℕ) (f : SpecRow → ℕ) (specs : List SpecRow)
    → sum_by f (keep (of_run id) specs) ≡ sum_by (λ s. if s.run_id == id then f s else 0) specs
sum_mine id f [] = refl
sum_mine id f (s ∷ ss) = elim (Bool-cases (s.run_id == id)) [
  | inl own ↦ let rest = sum_mine id f ss in rw own (omega arith)
  | inr other ↦ let rest = sum_mine id f ss in rw other (omega arith)
]

-- Every counter of the row is the sum of the same counter over the specs of the run.
pub record IsTotalled (id : ℕ) (stats : Stats) (specs : List SpecRow) : Type 0 where
  pub total : stats.total ≡ sum_by (λ s. if s.run_id == id then s.stats.total else 0) specs
  pub passed : stats.passed ≡ sum_by (λ s. if s.run_id == id then s.stats.passed else 0) specs
  pub failed : stats.failed ≡ sum_by (λ s. if s.run_id == id then s.stats.failed else 0) specs
  pub skipped : stats.skipped ≡ sum_by (λ s. if s.run_id == id then s.stats.skipped else 0) specs
  pub pending : stats.pending ≡ sum_by (λ s. if s.run_id == id then s.stats.pending else 0) specs
  pub duration_ms :
      stats.duration_ms ≡ sum_by (λ s. if s.run_id == id then s.stats.duration_ms else 0) specs

sum_specs-IsTotalled : (id : ℕ) (specs : List SpecRow) → IsTotalled id (sum_specs id specs) specs
unfolding sum_specs
sum_specs-IsTotalled id specs = record {
  total = sum_mine id (λ s. s.stats.total) specs;
  passed = sum_mine id (λ s. s.stats.passed) specs;
  failed = sum_mine id (λ s. s.stats.failed) specs;
  skipped = sum_mine id (λ s. s.stats.skipped) specs;
  pending = sum_mine id (λ s. s.stats.pending) specs;
  duration_ms = sum_mine id (λ s. s.stats.duration_ms) specs;
}

-- The row has the organisation, the suite and the ci_run_id of the upload.
abbrev pub IsOf : ℕ → NormalizedRun → RunRow → Type 0
IsOf org run r =
    (r.org_id ≡ org) × (r.suite_name ≡ run.meta.suite_name) × (r.ci_run_id ≡ run.meta.ci_run_id)

has_key-IsOf :
    (org : ℕ) (run : NormalizedRun) (r : RunRow)
    → has_key org run.meta.suite_name run.meta.ci_run_id r ≡ true
    → IsOf org run r
has_key-IsOf org run r h = (
  ground arith,
  (str_eq_iff r.suite_name run.meta.suite_name).0 (ground arith),
  (str_eq_iff r.ci_run_id run.meta.ci_run_id).0 (ground arith),
)

-- A merged upload reports the row of its organisation, suite and ci_run_id, and leaves in every
-- counter of that row the sum of this counter over the specs of the run.
pub upload-totals :
    (md5 : String → String) (db : Db) (org now : ℕ) (run : NormalizedRun)
    → IsKeyed db
    → let u = upload md5 db org now run in
      u.merged ≡ true
      → (r : RunRow) × (run_by_id u.run_id u.db.runs ≡ some r)
        × IsOf org run r
        × IsTotalled u.run_id r.stats u.db.specs
unfolding upload
upload-totals md5 db org now run h merged = elim (Option-cases (keyed_row db org run)) [
  | inl missing ↦ cc (ap (λ p. p.2) (find_or_create_run-missing db org now run missing))
  | inr (r, found) ↦
      let db' = record db { runs = update_run r.id (merge_row run) db.runs } in
      let written = write_specs db' r.id run.specs in
      let own =
        has_key-IsOf org run r
          (find_sound (has_key org run.meta.suite_name run.meta.ci_run_id) db.runs found) in
      rw (find_or_create_run-found db org now run found, runs-attach_release, specs-attach_release)
        (
          record (merge_row run r) { stats = sum_specs r.id written.specs },
          run_by_id-recalculate written r.id {r = merge_row run r} (
              rw (runs-write_specs db' r.id run.specs) (
                run_by_id-update r.id (merge_row run) db.runs (KeepsKey-merge_row run) (
                  run_by_id-find (has_key org run.meta.suite_name run.meta.ci_run_id) db.runs h.ids
                    found))),
          own,
          unfold recalculate_run_stats in sum_specs-IsTotalled r.id written.specs,
        )
]

replace_tests-rows :
    (db : Db) (id : ℕ) (spec : NormalizedSpec)
    → (keep (of_spec id) (replace_tests db id spec).tests
        ≡ map (fresh_row id (keep (of_spec id) db.tests)) spec.tests)
      × ((other : ℕ)
          → other ≢ id
          → keep (of_spec other) (replace_tests db id spec).tests ≡ keep (of_spec other) db.tests)
unfolding replace_tests fresh_row
replace_tests-rows db id spec =
    let old = keep (of_spec id) db.tests in
    let kept = λ (t : TestRow). not (of_spec id t) in
    let fresh = map (fresh_row id old) spec.tests in
    (
      keep-append (of_spec id) (keep kept db.tests) fresh
          ∙ rw (keep-not (of_spec id) db.tests) (
              keep_full (of_spec id) fresh (
                All-image (λ t. of_spec id t ≡ true) (fresh_row id old) (λ t. ==-refl id)
                  spec.tests)),
      λ other ne.
          keep-append (of_spec other) (keep kept db.tests) fresh
          ∙ rw
              (
                keep-keep kept (of_spec other) (λ t e. ground arith) db.tests,
                keep_none (of_spec other) fresh (
                    All-image (λ t. of_spec other t ≡ false) (fresh_row id old) (λ t. ground arith)
                      spec.tests),
              )
              (append-nil (keep (of_spec other) db.tests)),
    )

-- After its tests are replaced a spec has one row for each test of the payload, in order and with the
-- payload's values. Its snapshot is the last one that was stored under the test's title, and its
-- screenshots are those last stored under the title and the payload's, none twice. Other specs keep
-- their tests.
pub replace_tests-of_spec :
    (db : Db) (id : ℕ) (spec : NormalizedSpec)
    → AreRows id
        (keep (of_spec id) db.tests)
        spec.tests
        (keep (of_spec id) (replace_tests db id spec).tests)
      × ((other : ℕ)
          → other ≢ id
          → keep (of_spec other) (replace_tests db id spec).tests ≡ keep (of_spec other) db.tests)
replace_tests-of_spec db id spec =
    let (own, others) = replace_tests-rows db id spec in
    let old = keep (of_spec id) db.tests in
    (subst (AreRows id old spec.tests) (sym own) (fresh_rows-AreRows id old spec.tests), others)
