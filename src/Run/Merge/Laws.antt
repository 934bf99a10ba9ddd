-- ===== src/Run/Merge/Laws.antt =====
-- findOrCreateRun and recalculateRunStats: which row a shard lands on and what it changes there.
use project_flakey.Prelude.{
  ℕ, ◌+◌, ◌<◌, ◌≡◌, refl, String, true, false, Option, none, some, ◌∷◌, ◌==◌, str_eq, find,
  if◌then◌else◌, arith, Bool-cases, Option-cases, All, All-const, Distinct, All-map, All-imp,
  find-none, find_sound, Distinct-map, inl, inr,
}
use project_flakey.Run.Data.{NormalizedRun}
use project_flakey.Run.Store.{RunRow, Db, update_run}
use project_flakey.Run.Merge.{has_key, new_row, merge_row, find_or_create_run}

-- The unique index on (org_id, suite_name, ci_run_id), and the primary key.
abbrev pub KeyApart : RunRow → RunRow → Type 0
KeyApart r s = has_key r.org_id r.suite_name r.ci_run_id s ≡ false

abbrev pub IdApart : RunRow → RunRow → Type 0
IdApart r s = (s.id == r.id) ≡ false

pub record IsKeyed (db : Db) : Type 0 where
  pub ids_below : All (λ r. r.id < db.next_run) db.runs
  pub ids : Distinct IdApart db.runs
  pub keys : Distinct KeyApart db.runs

-- What an UPDATE of a run leaves alone.
pub record KeepsKey (f : RunRow → RunRow) : Type 0 where
  pub id : (r : RunRow) → (f r).id ≡ r.id
  pub org_id : (r : RunRow) → (f r).org_id ≡ r.org_id
  pub suite_name : (r : RunRow) → (f r).suite_name ≡ r.suite_name
  pub ci_run_id : (r : RunRow) → (f r).ci_run_id ≡ r.ci_run_id

pub KeepsKey-if :
    (n : ℕ) (f : RunRow → RunRow) → KeepsKey f → KeepsKey (λ r. if r.id == n then f r else r)
KeepsKey-if n f k = record {
  id = λ r. ground (arith, k.id r);
  org_id = λ r. ground (arith, k.org_id r);
  suite_name = λ r. ground (arith, k.suite_name r);
  ci_run_id = λ r. ground (arith, k.ci_run_id r);
}

pub KeepsKey-merge_row : (run : NormalizedRun) → KeepsKey (merge_row run)
KeepsKey-merge_row run = record {
  id = λ r. refl;
  org_id = λ r. refl;
  suite_name = λ r. refl;
  ci_run_id = λ r. refl;
}

pub IsKeyed-update_run :
    (db : Db) (n : ℕ) (f : RunRow → RunRow)
    → KeepsKey f
    → IsKeyed db
    → IsKeyed (record db { runs = update_run n f db.runs })
IsKeyed-update_run db n f k h =
    let g = λ (r : RunRow). if r.id == n then f r else r in
    let kg = KeepsKey-if n f k in
    record {
      ids_below =
          All-map (λ r. r.id < db.next_run) g (λ r p. omega (arith, kg.id r)) db.runs h.ids_below;
      ids = Distinct-map IdApart g (λ r s p. rw (kg.id r, kg.id s) p) db.runs h.ids;
      keys =
          Distinct-map KeyApart g
            (λ r s p.
              rw
                (
                  kg.org_id r,
                  kg.suite_name r,
                  kg.ci_run_id r,
                  kg.org_id s,
                  kg.suite_name s,
                  kg.ci_run_id s,
                )
                p)
            db.runs h.keys;
    }

-- The row that a shard's key selects, if it has a key.
abbrev pub keyed_row : Db → ℕ → NormalizedRun → Option RunRow
keyed_row db org run = find (has_key org run.meta.suite_name run.meta.ci_run_id) db.runs

has_key-empty :
    (org : ℕ) (suite ci : String) (r : RunRow)
    → str_eq ci "" ≡ true
    → has_key org suite ci r ≡ false
has_key-empty org suite ci r e = ground arith

module _ (db : Db) (org now : ℕ) (run : NormalizedRun) where
  IsKeyed-insert :
      All (λ r. has_key org run.meta.suite_name run.meta.ci_run_id r ≡ false) db.runs
      → IsKeyed db
      → IsKeyed (record db { runs = new_row db org now run ∷ db.runs; next_run = db.next_run + 1 })
  IsKeyed-insert apart h = record {
    ids_below = (
      omega arith,
      All-imp (λ r. r.id < db.next_run) (λ r. r.id < db.next_run + 1) (λ r p. omega arith) db.runs
          h.ids_below,
    );
    ids = (
      All-imp (λ r. r.id < db.next_run) (IdApart (new_row db org now run)) (λ r p. ground arith)
          db.runs h.ids_below,
      h.ids,
    );
    keys = (apart, h.keys);
  }

  -- Keys and identifiers stay unique, whatever is uploaded.
  pub find_or_create_run-IsKeyed : IsKeyed db → IsKeyed (find_or_create_run db org now run).0
  unfolding find_or_create_run
  find_or_create_run-IsKeyed h = elim (Bool-cases (str_eq run.meta.ci_run_id "")) [
    | inl no_key ↦ rw no_key (
        IsKeyed-insert
          (All-const (λ r. has_key org run.meta.suite_name run.meta.ci_run_id r ≡ false)
            (λ r. has_key-empty org run.meta.suite_name run.meta.ci_run_id r no_key) db.runs)
          h)
    | inr keyed ↦ elim (Option-cases (keyed_row db org run)) [
      | inl missing ↦ rw (keyed, missing) (IsKeyed-insert (find-none _ db.runs missing) h)
      | inr (r, found) ↦
          rw (keyed, found) (IsKeyed-update_run db r.id (merge_row run) (KeepsKey-merge_row run) h)
    ]
  ]

  pub find_or_create_run-missing :
      keyed_row db org run ≡ none
      → find_or_create_run db org now run ≡ (
        record db { runs = new_row db org now run ∷ db.runs; next_run = db.next_run + 1 },
        db.next_run,
        false,
      )
  unfolding find_or_create_run
  find_or_create_run-missing missing = elim (Bool-cases (str_eq run.meta.ci_run_id "")) [
    | inl no_key ↦ rw no_key
    | inr keyed ↦ rw (keyed, missing)
  ]

  pub find_or_create_run-found :
      {r : RunRow}
      → keyed_row db org run ≡ some r
      → find_or_create_run db org now run
        ≡ (record db { runs = update_run r.id (merge_row run) db.runs }, r.id, true)
  unfolding find_or_create_run
  find_or_create_run-found {r} found = elim (Bool-cases (str_eq run.meta.ci_run_id "")) [
    | inl no_key ↦ cc (
      find_sound _ db.runs found,
      has_key-empty org run.meta.suite_name run.meta.ci_run_id r no_key,
    )
    | inr keyed ↦ rw (keyed, found)
  ]

pub has_key-update :
    (org : ℕ) (suite ci : String) (n : ℕ) (f : RunRow → RunRow)
    → KeepsKey f
    → (r : RunRow) → has_key org suite ci (if r.id == n then f r else r) ≡ has_key org suite ci r
has_key-update org suite ci n f k r =
    let kg = KeepsKey-if n f k in rw (kg.org_id r, kg.suite_name r, kg.ci_run_id r)
