-- ===== src/Run/Merge/Shards.antt =====
-- Shards of one CI run: they share a row, and the order of their arrival does not matter there.
use project_flakey.Prelude.{
  ℕ, ◌≡◌, refl, ap, ◌∙◌, sym, Bool, true, false, Option, none, some, List, [], ◌∷◌, ◌==◌, str_eq,
  str_eq_refl, ==-refl, find, if◌then◌else◌, arith, Bool-cases, Option-cases, Distinct, All-find,
  find-map, find_sound, inl, inr,
}
use project_flakey.Run.Data.{NormalizedRun}
use project_flakey.Run.Store.{RunRow, Db, update_run, run_by_id, greatest}
use project_flakey.Run.Merge.{has_key, new_row, merge_row, find_or_create_run}
use project_flakey.Run.Merge.Laws.{
  IsKeyed, IdApart, KeepsKey, KeepsKey-merge_row, KeepsKey-if, has_key-update, keyed_row,
  find_or_create_run-missing, find_or_create_run-found, find_or_create_run-IsKeyed,
}

-- Two uploads of one CI run: the same suite and the same non-empty ci_run_id.
pub record IsSameRun (a b : NormalizedRun) : Type 0 where
  pub suite : b.meta.suite_name ≡ a.meta.suite_name
  pub ci : b.meta.ci_run_id ≡ a.meta.ci_run_id
  pub tagged : str_eq a.meta.ci_run_id "" ≡ false

has_key_self :
    (org : ℕ) (a : NormalizedRun) (r : RunRow)
    → str_eq a.meta.ci_run_id "" ≡ false
    → r.org_id ≡ org
    → r.suite_name ≡ a.meta.suite_name
    → r.ci_run_id ≡ a.meta.ci_run_id
    → has_key org a.meta.suite_name a.meta.ci_run_id r ≡ true
has_key_self org a r tagged eo es ec =
    rw
      (eo, es, ec, ==-refl org, str_eq_refl a.meta.suite_name, str_eq_refl a.meta.ci_run_id, tagged)

keyed_row-same :
    (db : Db) (org : ℕ) (a b : NormalizedRun)
    → IsSameRun a b
    → keyed_row db org b ≡ keyed_row db org a
keyed_row-same db org a b same = rw (same.suite, same.ci)

-- The row that a shard is written to is the one that its key selects afterwards.
keyed_row-after :
    (db : Db) (org now : ℕ) (a : NormalizedRun)
    → str_eq a.meta.ci_run_id "" ≡ false
    → (r : RunRow) × (keyed_row (find_or_create_run db org now a).0 org a ≡ some r)
      × (r.id ≡ (find_or_create_run db org now a).1)
keyed_row-after db org now a tagged = elim (Option-cases (keyed_row db org a)) [
  | inl missing ↦ rw (find_or_create_run-missing db org now a missing) (
    new_row db org now a,
    rw (has_key_self org a (new_row db org now a) tagged refl refl refl),
    refl,
  )
  | inr (r, found) ↦ rw (find_or_create_run-found db org now a found) (
    merge_row a r,
    find-map (has_key org a.meta.suite_name a.meta.ci_run_id)
          (λ s. if s.id == r.id then merge_row a s else s)
          (has_key-update org a.meta.suite_name a.meta.ci_run_id r.id (merge_row a)
            (KeepsKey-merge_row a))
          db.runs
        ∙ rw (found, ==-refl r.id),
    refl,
  )
]

-- Every later shard of a CI run lands on the row of the first one and is reported as merged.
pub find_or_create_run-merges :
    (db : Db) (org now later : ℕ) (a b : NormalizedRun)
    → IsSameRun a b
    → let first = find_or_create_run db org now a in
      ((find_or_create_run first.0 org later b).1 ≡ first.1)
      × ((find_or_create_run first.0 org later b).2 ≡ true)
find_or_create_run-merges db org now later a b same =
    let (r, found, same_id) = keyed_row-after db org now a same.tagged in
    let e =
      find_or_create_run-found (find_or_create_run db org now a).0 org later b
        (keyed_row-same (find_or_create_run db org now a).0 org a b same ∙ found) in
    (ap (λ p. p.1) e ∙ same_id, ap (λ p. p.2) e)

-- In a table with unique ids, a row that any query finds is the row of its id.
pub run_by_id-find :
    (p : RunRow → Bool) (rows : List RunRow) {r : RunRow}
    → Distinct IdApart rows
    → find p rows ≡ some r
    → run_by_id r.id rows ≡ some r
run_by_id-find p [] h e = cc
run_by_id-find p (x ∷ xs) {r} h e = elim (Bool-cases (p x)) [
  | inl hit ↦ let same : x ≡ r = cc (rw hit at e) in rw (← same) (rw (==-refl x.id))
  | inr miss ↦
      let apart = All-find (IdApart x) p xs h.0 (rw miss at e) in
      let other : (x.id == r.id) ≡ false = ground arith in
      rw other (run_by_id-find p xs h.1 (rw miss at e))
]

pub run_by_id-update :
    (n : ℕ) (f : RunRow → RunRow) (rows : List RunRow) {r : RunRow}
    → KeepsKey f
    → run_by_id n rows ≡ some r
    → run_by_id n (update_run n f rows) ≡ some (f r)
run_by_id-update n f rows {r} k e =
    find-map (λ s. s.id == n) (λ s. if s.id == n then f s else s)
      (λ s. rw ((KeepsKey-if n f k).id s)) rows
    ∙ rw (e, find_sound (λ s. s.id == n) rows e)

-- A shard changes the row of its key as the DO UPDATE clause says.
row-after-merge :
    (db : Db) (org now : ℕ) (a : NormalizedRun) {r : RunRow}
    → IsKeyed db
    → keyed_row db org a ≡ some r
    → run_by_id r.id (find_or_create_run db org now a).0.runs ≡ some (merge_row a r)
row-after-merge db org now a {r} h found = rw (find_or_create_run-found db org now a found) (
    run_by_id-update r.id (merge_row a) db.runs (KeepsKey-merge_row a)
      (run_by_id-find (has_key org a.meta.suite_name a.meta.ci_run_id) db.runs h.ids found))

keyed_row-merged :
    (db : Db) (org now : ℕ) (a : NormalizedRun) {r : RunRow}
    → keyed_row db org a ≡ some r
    → keyed_row (find_or_create_run db org now a).0 org a ≡ some (merge_row a r)
keyed_row-merged db org now a {r} found = rw (find_or_create_run-found db org now a found) (
    find-map (has_key org a.meta.suite_name a.meta.ci_run_id)
      (λ s. if s.id == r.id then merge_row a s else s)
      (has_key-update org a.meta.suite_name a.meta.ci_run_id r.id (merge_row a)
        (KeepsKey-merge_row a))
      db.runs
    ∙ rw (found, ==-refl r.id))

two_shards :
    (db : Db) (org now later : ℕ) (a b : NormalizedRun) {r : RunRow}
    → IsKeyed db
    → IsSameRun a b
    → keyed_row db org a ≡ some r
    → run_by_id r.id (find_or_create_run (find_or_create_run db org now a).0 org later b).0.runs
      ≡ some (merge_row b (merge_row a r))
two_shards db org now later a b {r} h same found =
    row-after-merge (find_or_create_run db org now a).0 org later b {r = merge_row a r}
      (find_or_create_run-IsKeyed db org now a h)
      (keyed_row-same (find_or_create_run db org now a).0 org a b same
        ∙ keyed_row-merged db org now a found)

greatest_swap : (x y z : Option ℕ) → greatest (greatest x y) z ≡ greatest (greatest x z) y
greatest_swap x y z = ground arith

abbrev pub finish : Option RunRow → Option ℕ
finish none = none
finish (some r) = r.finished_at

abbrev pub finished_at_of : ℕ → Db → Option ℕ
finished_at_of id db = finish (run_by_id id db.runs)

-- Two shards of a CI run that already has a row give it the same finish time in either order: the
-- latest of the row's and the shards' own.
pub merge_order :
    (db : Db) (org now later : ℕ) (a b : NormalizedRun) {r : RunRow}
    → IsKeyed db
    → IsSameRun a b
    → keyed_row db org a ≡ some r
    → let ab = (find_or_create_run (find_or_create_run db org now a).0 org later b).0 in
      let ba = (find_or_create_run (find_or_create_run db org now b).0 org later a).0 in
      (finished_at_of r.id ab
        ≡ greatest (greatest r.finished_at a.meta.finished_at) b.meta.finished_at)
      × (finished_at_of r.id ba ≡ finished_at_of r.id ab)
merge_order db org now later a b {r} h same found =
    let flipped : IsSameRun b a = record {
      suite = sym same.suite;
      ci = sym same.ci;
      tagged = rw same.ci same.tagged;
    } in
    let ab = ap finish (two_shards db org now later a b h same found) in
    let ba =
      ap finish
        (two_shards db org now later b a h flipped (keyed_row-same db org a b same ∙ found)) in
    (ab, ba ∙ greatest_swap r.finished_at b.meta.finished_at a.meta.finished_at ∙ sym ab)
