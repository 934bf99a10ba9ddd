-- ===== src/Quarantine/Auto/Failures.antt =====
-- backend/src/auto-quarantine.ts: the turns of the loop before the first INSERT that fails are
-- those of a loop without failures.
use project_flakey.Prelude.{
  Bool, Option, none, any, ◌&&◌, if◌then◌else◌, ℕ, ◌≡◌, refl, sym, ap, ◌∙◌, String, true, false,
  some, List, [], ◌∷◌, Bool-cases, inl, inr,
}
use project_flakey.Quarantine.Table.{Table}
use project_flakey.Quarantine.Auto.{FlakyTest, AutoPolicy, qualifies, quarantine_all}
use project_flakey.Quarantine.Auto.Turns.{turns, turns-on, turns-off, quarantine_turn}

module _ (policy : AutoPolicy) (org : ℕ) (suite : String) (now : ℕ) where
  module _ (fails : FlakyTest → Bool) where
    -- The tests that the loop comes to before an INSERT fails.
    unfoldable pub reached : List FlakyTest → List FlakyTest
    reached [] = []
    reached (test ∷ tests) =
        let rest = reached tests in if qualifies policy test && fails test then [] else test ∷ rest

    -- Whether an INSERT of the loop fails.
    unfoldable pub is_stopped : List FlakyTest → Bool
    is_stopped tests = any (λ test. qualifies policy test && fails test) tests

    reached-on :
        (test : FlakyTest) (tests : List FlakyTest)
        → (qualifies policy test && fails test) ≡ false
        → reached (test ∷ tests) ≡ test ∷ reached tests
    unfolding reached
    reached-on test tests fine = rw fine refl

    stopped-on :
        (test : FlakyTest) (tests : List FlakyTest)
        → (qualifies policy test && fails test) ≡ false
        → is_stopped (test ∷ tests) ≡ is_stopped tests
    unfolding is_stopped
    stopped-on test tests fine = rw fine refl

    -- What the loop leaves, by the loop without failures.
    expected : List FlakyTest → Table → ℕ → Table × Option ℕ
    expected tests t n = (
      (turns policy org suite now (reached tests) (t, n)).0,
      if is_stopped tests then none else some (turns policy org suite now (reached tests) (t, n)).1,
    )

    expected-off :
        (test : FlakyTest) (tests : List FlakyTest) (t : Table) (n : ℕ)
        → qualifies policy test ≡ false
        → expected (test ∷ tests) t n ≡ expected tests t n
    unfolding expected
    expected-off test tests t n off =
        let fine : (qualifies policy test && fails test) ≡ false = rw off refl in
        rw (
          reached-on test tests fine,
          stopped-on test tests fine,
          turns-off policy org suite now test (reached tests) t n off,
        )

    expected-on :
        (test : FlakyTest) (tests : List FlakyTest) (t : Table) (n : ℕ)
        → qualifies policy test ≡ true
        → fails test ≡ false
        → expected (test ∷ tests) t n
          ≡ expected tests
              (quarantine_turn policy org suite now test t n).0
              (quarantine_turn policy org suite now test t n).1
    unfolding expected
    expected-on test tests t n on works =
        let fine : (qualifies policy test && fails test) ≡ false = rw (on, works) refl in
        rw (
          reached-on test tests fine,
          stopped-on test tests fine,
          turns-on policy org suite now test (reached tests) t n on,
        )

    expected-stop :
        (test : FlakyTest) (tests : List FlakyTest) (t : Table) (n : ℕ)
        → qualifies policy test ≡ true
        → fails test ≡ true
        → expected (test ∷ tests) t n ≡ (t, none)
    unfolding expected reached is_stopped turns
    expected-stop test tests t n on broken =
        let stop : (qualifies policy test && fails test) ≡ true = rw (on, broken) refl in
        rw stop refl

    loop-off :
        (test : FlakyTest) (tests : List FlakyTest) (t : Table) (n : ℕ)
        → qualifies policy test ≡ false
        → quarantine_all fails policy org suite now (test ∷ tests) (t, n)
          ≡ quarantine_all fails policy org suite now tests (t, n)
    unfolding quarantine_all
    loop-off test tests t n off = rw off refl

    loop-on :
        (test : FlakyTest) (tests : List FlakyTest) (t : Table) (n : ℕ)
        → qualifies policy test ≡ true
        → fails test ≡ false
        → quarantine_all fails policy org suite now (test ∷ tests) (t, n)
          ≡ quarantine_all fails policy org suite now tests
              (quarantine_turn policy org suite now test t n)
    unfolding quarantine_all quarantine_turn
    loop-on test tests t n on works = rw (on, works) refl

    loop-stop :
        (test : FlakyTest) (tests : List FlakyTest) (t : Table) (n : ℕ)
        → qualifies policy test ≡ true
        → fails test ≡ true
        → quarantine_all fails policy org suite now (test ∷ tests) (t, n) ≡ (t, none)
    unfolding quarantine_all
    loop-stop test tests t n on broken = rw (on, broken) refl

    expected-nil :
        (t : Table) (n : ℕ) → quarantine_all fails policy org suite now [] (t, n) ≡ expected [] t n
    unfolding quarantine_all expected reached is_stopped turns
    expected-nil t n = refl

    loop-expected :
        (tests : List FlakyTest) (t : Table) (n : ℕ)
        → quarantine_all fails policy org suite now tests (t, n) ≡ expected tests t n
    loop-expected [] t n = expected-nil t n
    loop-expected (test ∷ tests) t n = elim (Bool-cases (qualifies policy test)) [
      | inr off ↦
          loop-off test tests t n off
          ∙ loop-expected tests t n
          ∙ sym (expected-off test tests t n off)
      | inl on ↦ elim (Bool-cases (fails test)) [
        | inl broken ↦
            loop-stop test tests t n on broken ∙ sym (expected-stop test tests t n on broken)
        | inr works ↦
            loop-on test tests t n on works
            ∙ loop-expected tests (quarantine_turn policy org suite now test t n).0
                (quarantine_turn policy org suite now test t n).1
            ∙ sym (expected-on test tests t n on works)
      ]
    ]

    pub quarantine_all-turns :
        (tests : List FlakyTest) (t : Table) (n : ℕ)
        → quarantine_all fails policy org suite now tests (t, n) ≡ (
          (turns policy org suite now (reached tests) (t, n)).0,
          if is_stopped tests
              then none
              else some (turns policy org suite now (reached tests) (t, n)).1,
        )
    unfolding expected
    quarantine_all-turns = loop-expected

    pub reached_all : (tests : List FlakyTest) → is_stopped tests ≡ false → reached tests ≡ tests
    unfolding reached is_stopped
    reached_all [] h = refl
    reached_all (test ∷ tests) h = elim (Bool-cases (qualifies policy test && fails test)) [
      | inl stop ↦ cc (rw stop at h)
      | inr fine ↦ rw fine (ap (λ l. test ∷ l) (reached_all tests (rw fine at h)))
    ]
