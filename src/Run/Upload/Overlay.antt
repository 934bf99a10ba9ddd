-- ===== src/Run/Upload/Overlay.antt =====
-- The specs table after an upload: the payload laid over what was there, file by file.
use mathlib.Core.Option
use project_flakey.Prelude.{
  ℕ, ◌+◌, ◌<◌, ◌≡◌, refl, ap, ◌∙◌, sym, ◌≢◌, String, Bool, true, false, ◌&&◌, Option, none, some,
  List, [], ◌∷◌, ◌==◌, ==-refl, ==_iff, str_eq, str_eq_iff, find, if◌then◌else◌, arith, Bool-cases,
  Option-cases, All, All-append, All-map, All-imp, Distinct, Distinct-map, Distinct-snoc, find-map,
  find_sound, find-snoc, find_unique, ApartBy, inl, inr,
}
use project_flakey.Run.Data.{Stats, NormalizedSpec}
use project_flakey.Run.Store.{SpecRow, Db}
use project_flakey.Run.Upload.{is_spec, write_spec, upsert_spec, replace_tests, write_specs}

abbrev SpecApart : SpecRow → SpecRow → Type 0
SpecApart = ApartBy (λ s. s.id)

pub record HasSpecIds (db : Db) : Type 0 where
  pub below : All (λ s. s.id < db.next_spec) db.specs
  pub ids : Distinct SpecApart db.specs

-- What the table records for a file of a run.
abbrev stats_or_none : Option SpecRow → Option Stats
stats_or_none none = none
stats_or_none (some s) = some s.stats

abbrev pub stats_at : ℕ → String → Db → Option Stats
stats_at run_id file db = stats_or_none (find (is_spec run_id file) db.specs)

-- The last entry of a payload for a file, or what was there before.
abbrev pub last_stats : String → Option Stats → List NormalizedSpec → Option Stats
last_stats file old [] = old
last_stats file old (s ∷ ss) =
    last_stats file (if str_eq s.file_path file then some s.stats else old) ss

same_key : (i j : ℕ) (f g : String) → (i == j && str_eq f g) ≡ true → (i ≡ j) × (f ≡ g)
same_key i j f g h = (ground arith, ground (arith, str_eq_iff f g))

is_spec-same :
    (i j : ℕ) (f g : String) (s : SpecRow)
    → is_spec i f s ≡ true
    → is_spec j g s ≡ true
    → (i == j && str_eq f g) ≡ true
is_spec-same i j f g s h k =
    ground (arith, str_eq_iff s.file_path f, str_eq_iff s.file_path g, str_eq_iff f g)

is_spec-write :
    (j n : ℕ) (file : String) (spec : NormalizedSpec) (t : SpecRow)
    → is_spec j file (if t.id == n then write_spec spec t else t) ≡ is_spec j file t
is_spec-write j n file spec t = ground arith

module _ (db : Db) (run_id : ℕ) (spec : NormalizedSpec) (h : HasSpecIds db) where
  HasSpecIds-upsert_spec : HasSpecIds (upsert_spec db run_id spec).0
  unfolding upsert_spec
  HasSpecIds-upsert_spec = elim (Option-cases (find (is_spec run_id spec.file_path) db.specs)) [
    | inl missing ↦
        rw (missing, upsert_spec)
          (record {
            below =
                All-append (λ s. s.id < db.next_spec + 1) db.specs _
                  (All-imp (λ s. s.id < db.next_spec) (λ s. s.id < db.next_spec + 1)
                    (λ s p. omega arith) db.specs h.below)
                  (omega arith, tt);
            ids =
                Distinct-snoc SpecApart db.specs _
                  (All-imp (λ s. s.id < db.next_spec) (λ s. (db.next_spec == s.id) ≡ false)
                    (λ s p. ground arith) db.specs h.below)
                  h.ids;
          })
    | inr (s, found) ↦
        rw (found, upsert_spec)
          (record {
            below =
                All-map (λ s. s.id < db.next_spec)
                  (λ t. if t.id == s.id then write_spec spec t else t) (λ t p. ground arith)
                  db.specs h.below;
            ids =
                Distinct-map SpecApart (λ t. if t.id == s.id then write_spec spec t else t)
                  (λ t u p. ground arith) db.specs h.ids;
          })
  ]

-- One upsert sets the entry of its own run and file, and no other.
module _ (db : Db) (run_id : ℕ) (spec : NormalizedSpec) (h : HasSpecIds db) (j : ℕ)
    (file : String) where
  abbrev hits : Bool
  hits = run_id == j && str_eq spec.file_path file

  stats_at-insert :
      find (is_spec run_id spec.file_path) db.specs ≡ none
      → (e : Bool) → e ≡ hits
      → (o : Option SpecRow) → find (is_spec j file) db.specs ≡ o
      → stats_or_none (elim o [
        | none ↦
            if e
            then some (record {
              id = db.next_spec;
              run_id = run_id;
              file_path = spec.file_path;
              title = spec.title;
              stats = spec.stats;
            })
            else none
        | some x ↦ some x
      ])
        ≡ (if e then some spec.stats else stats_or_none o)
  stats_at-insert missing true same none f = refl
  stats_at-insert missing false same none f = refl
  stats_at-insert missing false same (some t) f = refl
  stats_at-insert missing true same (some t) f =
      let (i, g) = same_key run_id j spec.file_path file (sym same) in
      let there : find (is_spec run_id spec.file_path) db.specs ≡ some t = rw (i, g) f in cc

  stats_at-write :
      (s : SpecRow)
      → find (is_spec run_id spec.file_path) db.specs ≡ some s
      → (e : Bool) → e ≡ hits
      → (o : Option SpecRow) → find (is_spec j file) db.specs ≡ o
      → stats_or_none (Option.map (λ t. if t.id == s.id then write_spec spec t else t) o)
        ≡ (if e then some spec.stats else stats_or_none o)
  stats_at-write s found true same none f =
      let (i, g) = same_key run_id j spec.file_path file (sym same) in
      let there : find (is_spec run_id spec.file_path) db.specs ≡ none = rw (i, g) f in cc
  stats_at-write s found false same none f = refl
  stats_at-write s found true same (some t) f =
      let (i, g) = same_key run_id j spec.file_path file (sym same) in
      let there : find (is_spec run_id spec.file_path) db.specs ≡ some t = rw (i, g) f in
      let eq : t ≡ s = cc in rw eq (rw (==-refl s.id))
  stats_at-write s found false same (some t) f = elim (Bool-cases (t.id == s.id)) [
    | inr other ↦ rw other
    | inl one ↦
        let eq =
          find_unique (λ (x : SpecRow). x.id) (is_spec run_id spec.file_path) (is_spec j file)
            db.specs h.ids found f ((==_iff t.id s.id).0 one) in
        let k =
          is_spec-same run_id j spec.file_path file t
            (rw eq (find_sound (is_spec run_id spec.file_path) db.specs found))
            (find_sound (is_spec j file) db.specs f) in
        cc
  ]

  stats_at-upsert_spec :
      stats_at j file (upsert_spec db run_id spec).0
      ≡ (if hits then some spec.stats else stats_at j file db)
  unfolding upsert_spec
  stats_at-upsert_spec = elim (Option-cases (find (is_spec run_id spec.file_path) db.specs)) [
    | inl missing ↦
        rw (missing, upsert_spec)
          (rw find-snoc (stats_at-insert missing hits refl (find (is_spec j file) db.specs) refl))
    | inr (s, found) ↦
        rw (found, upsert_spec)
          (ap stats_or_none (
              find-map (is_spec j file) (λ t. if t.id == s.id then write_spec spec t else t)
                (is_spec-write j s.id file spec) db.specs)
            ∙ stats_at-write s found hits refl (find (is_spec j file) db.specs) refl)
  ]

-- After the specs of a payload are written, a file of the run has the counters of the payload's
-- last entry for it, or its old ones if the payload has none; other runs keep theirs.
pub stats_at-write_specs :
    (db : Db) (run_id : ℕ) (specs : List NormalizedSpec)
    → HasSpecIds db
    → ((file : String)
        → stats_at run_id file (write_specs db run_id specs)
          ≡ last_stats file (stats_at run_id file db) specs)
      × ((j : ℕ) (file : String)
          → j ≢ run_id
          → stats_at j file (write_specs db run_id specs) ≡ stats_at j file db)
unfolding write_specs replace_tests
stats_at-write_specs db run_id [] h = (λ file. refl, λ j file ne. refl)
stats_at-write_specs db run_id (spec ∷ specs) h =
    let (db', id) = upsert_spec db run_id spec in
    let next = replace_tests db' id spec in
    let k = HasSpecIds-upsert_spec db run_id spec h in
    let ih = stats_at-write_specs next run_id specs (record { below = k.below; ids = k.ids }) in
    (
      λ file.
          ih.0 file
          ∙ ap (λ o. last_stats file o specs)
              (stats_at-upsert_spec db run_id spec h run_id file ∙ rw (==-refl run_id)),
      λ j file ne. ih.1 j file ne ∙ stats_at-upsert_spec db run_id spec h j file ∙ ground arith,
    )
