-- ===== src/Quarantine/Gate.antt =====
-- backend/src/git-providers/index.ts: how quarantines soften the external merge gate. A Set of
-- titles is the list of them.
use project_flakey.Prelude.{
  ℕ, ◌<◌, ◌≡◌, refl, ◌↔◌, String, Bool, true, ◌&&◌, not, Option, none, some, List, [], ◌∷◌, ◌++◌,
  map, str_eq, keep, any, ◌==◌, ltb, if◌then◌else◌, arith, length, length-append, ◌⊎◌, Bool-cases,
  inl, inr, All, length-keep, count_if,
}
use project_flakey.Run.Data.{NormalizedRun, NormalizedSpec, NormalizedTest, failed, has_status}
use project_flakey.Quarantine.Table.{Table}

-- `quarantined.has(t)`
abbrev pub has : List String → String → Bool
has titles t = any (λ q. str_eq q t) titles

unfoldable pub compute_all_failures_quarantined : List String → List String → Bool
compute_all_failures_quarantined failed_titles quarantined =
    let open_ = length (keep (λ t. not (has quarantined t)) failed_titles) in
    ltb 0 (length failed_titles) && open_ == 0

-- The failed titles of one spec, then those of the run.
abbrev spec_failed_titles : List NormalizedTest → List String
spec_failed_titles ts = map (λ t. t.full_title) (keep (has_status failed) ts)

unfoldable pub failed_titles : List NormalizedSpec → List String
failed_titles [] = []
failed_titles (s ∷ specs) = spec_failed_titles s.tests ++ failed_titles specs

-- SELECT full_title FROM quarantined_tests WHERE suite_name = $1, for one organisation
unfoldable pub quarantined_titles : Table → ℕ → String → List String
quarantined_titles t org suite =
    map (λ r. r.full_title) (keep (λ r. r.org_id == org && str_eq r.suite_name suite) t.rows)

pub data CommitState : Type 0 where
  failure success : CommitState

-- The state that postPRComment posts; `none` for a lookup that failed.
unfoldable pub commit_state : NormalizedRun → Option (List String) → CommitState
commit_state run none = if ltb 0 run.stats.failed then failure else success
commit_state run (some quarantined) =
    if ltb 0 run.stats.failed
      && not (compute_all_failures_quarantined (failed_titles run.specs) quarantined)
    then failure
    else success

count_open :
    (quarantined : List String) (titles : List String)
    → count_if (λ t. not (has quarantined t)) titles ≡ 0
    → All (λ t. has quarantined t ≡ true) titles
count_open quarantined [] e = tt
count_open quarantined (t ∷ ts) e = elim (Bool-cases (has quarantined t)) [
  | inl in_set ↦ (in_set, count_open quarantined ts (ground arith))
  | inr out ↦ ground arith
]

count_open_none :
    (quarantined : List String) (titles : List String)
    → All (λ t. has quarantined t ≡ true) titles
    → count_if (λ t. not (has quarantined t)) titles ≡ 0
count_open_none quarantined [] h = refl
count_open_none quarantined (t ∷ ts) h =
    let rest = count_open_none quarantined ts h.1 in let in_set = h.0 in ground arith

-- All failures count as quarantined exactly when at least one title failed and every failed title
-- is quarantined.
pub compute_all_failures_quarantined_iff :
    (titles quarantined : List String)
    → (compute_all_failures_quarantined titles quarantined ≡ true)
      ↔ ((0 < length titles) × All (λ t. has quarantined t ≡ true) titles)
unfolding compute_all_failures_quarantined
compute_all_failures_quarantined_iff titles quarantined =
    let counted = length-keep (λ t. not (has quarantined t)) titles in
    (
      λ h. (ground arith, count_open quarantined titles (ground arith)),
      λ h.
          let zero_open = count_open_none quarantined titles h.1 in
          let some_failed = h.0 in ground arith,
    )

le_or_lt : (n : ℕ) → (n ≡ 0) ⊎ (0 < n)
le_or_lt n = ground arith

-- A test that failed by its own status is quarantined.
abbrev pub IsCovered : List String → NormalizedTest → Type 0
IsCovered quarantined t = t.status ≡ failed → any (λ q. str_eq q t.full_title) quarantined ≡ true

spec-IsCovered :
    (quarantined : List String) (ts : List NormalizedTest)
    → All (λ t. has quarantined t ≡ true) (spec_failed_titles ts)
    → All (IsCovered quarantined) ts
spec-IsCovered quarantined [] h = tt
spec-IsCovered quarantined (t ∷ ts) h = elim (Bool-cases (has_status failed t)) [
  | inl hit ↦ let both = rw hit at h in ((λ e. both.0), spec-IsCovered quarantined ts both.1)
  | inr miss ↦ ((λ e. cc (rw e at miss)), spec-IsCovered quarantined ts (rw miss at h))
]

All-of_append : (P : String → Type 0) (xs ys : List String) → All P (xs ++ ys) → All P xs × All P ys
All-of_append P [] ys h = (tt, h)
All-of_append P (x ∷ xs) ys h = let rest = All-of_append P xs ys h.1 in ((h.0, rest.0), rest.1)

All-IsCovered :
    (quarantined : List String) (specs : List NormalizedSpec)
    → All (λ t. has quarantined t ≡ true) (failed_titles specs)
    → All (λ s. All (IsCovered quarantined) s.tests) specs
unfolding failed_titles
All-IsCovered quarantined [] h = tt
All-IsCovered quarantined (s ∷ specs) h =
    let parts =
      All-of_append (λ t. has quarantined t ≡ true) (spec_failed_titles s.tests)
        (failed_titles specs) h in
    (spec-IsCovered quarantined s.tests parts.0, All-IsCovered quarantined specs parts.1)

spec_failed :
    (ts : List NormalizedTest)
    → 0 < length (spec_failed_titles ts)
    → any (has_status failed) ts ≡ true
spec_failed [] h = ground arith
spec_failed (t ∷ ts) h = elim (Bool-cases (has_status failed t)) [
  | inl hit ↦ rw hit
  | inr miss ↦ rw miss (spec_failed ts (rw miss at h))
]

some_failed :
    (specs : List NormalizedSpec)
    → 0 < length (failed_titles specs)
    → any (λ s. any (has_status failed) s.tests) specs ≡ true
unfolding failed_titles
some_failed [] h = ground arith
some_failed (s ∷ specs) h = elim (Bool-cases (any (has_status failed) s.tests)) [
  | inl hit ↦ rw hit
  | inr miss ↦
      let sizes = length-append (spec_failed_titles s.tests) (failed_titles specs) in
      let own = spec_failed s.tests in
      rw miss (
        some_failed specs (elim (le_or_lt (length (spec_failed_titles s.tests))) [
          | inl nil ↦ omega arith
          | inr full ↦ cc (own full, miss)
        ]))
]

-- The commit of a run with failures is posted as a success only where the quarantine lookup worked,
-- some test of some spec failed by its own status, and every test of every spec that failed so is
-- quarantined under its full title.
pub commit_state_sound :
    (run : NormalizedRun) (lookup : Option (List String))
    → 0 < run.stats.failed
    → commit_state run lookup ≡ success
    → (quarantined : List String) × (lookup ≡ some quarantined)
      × (any (λ s. any (has_status failed) s.tests) run.specs ≡ true)
      × All (λ s. All (IsCovered quarantined) s.tests) run.specs
unfolding commit_state
commit_state_sound run none h e = ground arith
commit_state_sound run (some q) h e =
    elim (Bool-cases (compute_all_failures_quarantined (failed_titles run.specs) q)) [
      | inl all ↦
          let (failures, every) =
            (compute_all_failures_quarantined_iff (failed_titles run.specs) q).0 all in
          (q, refl, some_failed run.specs failures, All-IsCovered q run.specs every)
      | inr open_ ↦ ground arith
    ]
