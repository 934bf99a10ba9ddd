-- ===== src/Quarantine/Auto/Laws.antt =====
-- backend/src/auto-quarantine.ts: what an automatic quarantine leaves of the table.
use project_flakey.Prelude.{
  ℕ, ◌≤◌, ◌≡◌, refl, sym, ◌∙◌, ◌⊎◌, String, Bool, true, false, Option, none, some, List, [], ◌∷◌,
  ◌++◌, append-nil, if◌then◌else◌, arith, any, ◌&&◌, length, All, All-imp, Bool-cases, inl, inr,
}
use project_flakey.Quarantine.Table.{QuarantineRow, Table}
use project_flakey.Quarantine.Auto.{
  FlakyTest, AutoPolicy, qualifies, quarantine_all, quarantine_found, evaluate_auto_quarantine,
  run_window,
}
use project_flakey.Quarantine.Auto.Turns.{
  IsJustified, HasEntry, AllEntered, turns, turns-HasGrown, turns-AllEntered, turns-entered,
}
use project_flakey.Quarantine.Auto.Failures.{reached, reached_all, is_stopped, quarantine_all-turns}

-- The INSERT of a test that computeFlakyTests found fails.
abbrev pub some_fails : (FlakyTest → Bool) → Option (List FlakyTest) → Bool
some_fails fails none = false
some_fails fails (some tests) = any fails tests

-- The rows before, then justified ones; the count is theirs, or 0 where an INSERT fails.
abbrev pub HasAdded : AutoPolicy → ℕ → String → Bool → Table → Table × ℕ → Type 0
HasAdded policy org suite failing t (t', n) =
    (added : List QuarantineRow) × (t'.rows ≡ t.rows ++ added)
    × All (IsJustified policy org suite) added
    × ((n ≡ length added) ⊎ ((n ≡ 0) × (failing ≡ true)))

-- A test with the flips and the runs of the policy has an entry.
abbrev pub IsEntered : AutoPolicy → ℕ → String → Table → FlakyTest → Type 0
IsEntered policy org suite t test =
    policy.min_flips ≤ test.flip_count
    → policy.min_runs ≤ test.total_runs
    → HasEntry org suite t test

is_stopped-fails :
    (policy : AutoPolicy) (org : ℕ) (suite : String) (now : ℕ) (fails : FlakyTest → Bool)
    (tests : List FlakyTest)
    → is_stopped policy org suite now fails tests ≡ true
    → any fails tests ≡ true
unfolding is_stopped
is_stopped-fails policy org suite now fails [] h = h
is_stopped-fails policy org suite now fails (test ∷ tests) h = elim (Bool-cases (fails test)) [
  | inl broken ↦ rw broken
  | inr fine ↦ rw fine (
      is_stopped-fails policy org suite now fails tests (
        passed (qualifies policy test) (fails test) (is_stopped policy org suite now fails tests)
          fine h))
]
  where
    passed : (q b rest : Bool) → b ≡ false → (if q && b then true else rest) ≡ true → rest ≡ true
    passed q b rest e k = ground arith

module _ (fails : FlakyTest → Bool) (policy : AutoPolicy) (org : ℕ) (suite : String) (now : ℕ) where
  found-HasAdded :
      (t : Table) (answer : Option (List FlakyTest))
      → HasAdded policy org suite
          (some_fails fails answer)
          t
          (quarantine_found fails policy org suite now t answer)
  unfolding quarantine_found
  found-HasAdded t none = ([], sym (append-nil t.rows), tt, inl refl)
  found-HasAdded t (some tests) =
      let (added, rows, count, fit) =
        turns-HasGrown policy org suite now (reached policy org suite now fails tests) t 0 t 0
          ([], sym (append-nil t.rows), refl, tt) in
      let whole = quarantine_all-turns policy org suite now fails tests t 0 in
      elim (Bool-cases (is_stopped policy org suite now fails tests)) [
        | inl stop ↦
            rw (whole, stop)
              (added, rows, fit, inr (refl, is_stopped-fails policy org suite now fails tests stop))
        | inr fine ↦ rw (whole, fine) (added, rows, fit, inl (omega (arith, count)))
      ]

  -- Automatic quarantine leaves every row that was there as it was, and adds only automatic rows of the
  -- suite whose flips and runs reach the thresholds. It reports how many it added, or 0 where the
  -- INSERT of a test fails: then rows that were added before stay.
  pub evaluate_auto_quarantine-HasGrown :
      (flaky : ℕ → Option (List FlakyTest)) (t : Table)
      → HasAdded policy org suite
          (some_fails fails (flaky (run_window policy)))
          t
          (evaluate_auto_quarantine fails (some policy) flaky org suite now t)
  unfolding evaluate_auto_quarantine quarantine_found quarantine_all
  evaluate_auto_quarantine-HasGrown flaky t = elim (Bool-cases policy.enabled) [
    | inl on ↦ rw (evaluate_auto_quarantine, on) (found-HasAdded t (flaky (run_window policy)))
    | inr off ↦ rw (evaluate_auto_quarantine, off) ([], sym (append-nil t.rows), tt, inl refl)
  ]

  unstopped :
      (tests : List FlakyTest)
      → any fails tests ≡ false
      → is_stopped policy org suite now fails tests ≡ false
  unstopped tests h = elim (Bool-cases (is_stopped policy org suite now fails tests)) [
    | inl stop ↦ let bad = is_stopped-fails policy org suite now fails tests stop in cc
    | inr fine ↦ fine
  ]

  -- Without a failing INSERT the evaluation is the loop.
  evaluate-turns :
      (flaky : ℕ → Option (List FlakyTest)) (tests : List FlakyTest) (t : Table)
      → policy.enabled ≡ true
      → flaky (run_window policy) ≡ some tests
      → any fails tests ≡ false
      → evaluate_auto_quarantine fails (some policy) flaky org suite now t
        ≡ turns policy org suite now tests (t, 0)
  unfolding evaluate_auto_quarantine quarantine_found turns
  evaluate-turns flaky tests t on answer fine =
      let go = unstopped tests fine in
      let whole = quarantine_all-turns policy org suite now fails tests t 0 in
      rw (
        evaluate_auto_quarantine,
        on,
        answer,
        quarantine_found,
        whole,
        go,
        reached_all policy org suite now fails tests go,
      )

  AllEntered-IsEntered :
      (t : Table) (tests : List FlakyTest)
      → AllEntered policy org suite now tests t
      → All (IsEntered policy org suite t) tests
  AllEntered-IsEntered t tests =
      All-imp (λ test. qualifies policy test ≡ true → HasEntry org suite t test)
        (IsEntered policy org suite t) (λ test k flips runs. k (ground arith)) tests

  -- Where the policy is enabled, the run window was read and no INSERT fails, every test of the window
  -- that has the policy's flips and runs has an entry afterwards, and a second evaluation over the same
  -- tests changes nothing and reports 0.
  pub evaluate_auto_quarantine_complete :
      (flaky : ℕ → Option (List FlakyTest)) (tests : List FlakyTest) (t : Table)
      → policy.enabled ≡ true
      → flaky (run_window policy) ≡ some tests
      → any fails tests ≡ false
      → let after = (evaluate_auto_quarantine fails (some policy) flaky org suite now t).0 in
        All (IsEntered policy org suite after) tests
        × (evaluate_auto_quarantine fails (some policy) flaky org suite now after ≡ (after, 0))
  evaluate_auto_quarantine_complete flaky tests t on answer fine =
      let after = (turns policy org suite now tests (t, 0)).0 in
      let entered = turns-AllEntered policy org suite now tests t 0 in
      rw (evaluate-turns flaky tests t on answer fine) (
        AllEntered-IsEntered after tests entered,
        evaluate-turns flaky tests after on answer fine
            ∙ turns-entered policy org suite now tests after 0 entered,
      )
