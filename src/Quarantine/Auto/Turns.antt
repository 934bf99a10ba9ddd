-- ===== src/Quarantine/Auto/Turns.antt =====
-- backend/src/auto-quarantine.ts: what the turns of the loop leave of the table. The turns before the
-- first INSERT that fails are those of a loop without failures.
use project_flakey.Prelude.{
  if◌then◌else◌, ℕ, ◌+◌, ◌≤◌, ◌≡◌, refl, sym, ap, subst, ◌∙◌, String, true, false, some, List, [],
  ◌∷◌, ◌++◌, append-nil, append_assoc, ==-refl, str_eq_refl, find, find-snoc, find-append, arith,
  Bool-cases, Option-cases, inl, inr, All, All-append, length, length-append,
}
use project_flakey.Quarantine.Table.{QuarantineRow, Table, is_entry, flips, auto}
use project_flakey.Quarantine.Auto.{FlakyTest, AutoPolicy, qualifies, auto_entry, insert_auto}

-- A row that the policy justifies: an automatic one of the suite, whose flips and runs reach the
-- thresholds.
abbrev pub IsJustified : AutoPolicy → ℕ → String → QuarantineRow → Type 0
IsJustified policy org suite r =
    (r.source ≡ auto)
    × (r.org_id ≡ org)
    × (r.suite_name ≡ suite)
    × (f : ℕ) × (n : ℕ) × (r.reason ≡ flips f n)
    × (policy.min_flips ≤ f)
    × (policy.min_runs ≤ n)

-- The rows before, then justified ones, which the count includes.
abbrev pub HasGrown : AutoPolicy → ℕ → String → Table × ℕ → Table × ℕ → Type 0
HasGrown policy org suite (t, m) (t', n) =
    (added : List QuarantineRow) × (t'.rows ≡ t.rows ++ added)
    × (n ≡ m + length added)
    × All (IsJustified policy org suite) added

-- The test has an entry.
abbrev pub HasEntry : ℕ → String → Table → FlakyTest → Type 0
HasEntry org suite t test =
    (r : QuarantineRow) × (find (is_entry org test.full_title suite) t.rows ≡ some r)

-- The loop without failures.
unfoldable pub turns : AutoPolicy → ℕ → String → ℕ → List FlakyTest → Table × ℕ → Table × ℕ
turns policy org suite now [] acc = acc
turns policy org suite now (test ∷ tests) (t, n) =
    let skip = turns policy org suite now tests (t, n) in
    let (t', k) = insert_auto t org suite test now in
    let go = turns policy org suite now tests (t', n + k) in
    if qualifies policy test then go else skip

module _ (policy : AutoPolicy) (org : ℕ) (suite : String) (now : ℕ) where
  insert-HasGrown :
      (t : Table) (test : FlakyTest)
      → qualifies policy test ≡ true
      → HasGrown policy org suite (t, 0) (insert_auto t org suite test now)
  unfolding insert_auto
  insert-HasGrown t test h =
      elim (Option-cases (find (is_entry org test.full_title suite) t.rows)) [
        | inl new ↦
            rw (new, insert_auto)
              (
                auto_entry t.next org suite test now ∷ [],
                refl,
                refl,
                (
                  (
                    refl,
                    refl,
                    refl,
                    test.flip_count,
                    test.total_runs,
                    refl,
                    ground arith,
                    ground arith,
                  ),
                  tt,
                ),
              )
        | inr (r, old) ↦ rw (old, insert_auto) ([], sym (append-nil t.rows), refl, tt)
      ]

  insert-HasEntry :
      (t : Table) (test : FlakyTest) → HasEntry org suite (insert_auto t org suite test now).0 test
  unfolding insert_auto
  insert-HasEntry t test = elim (Option-cases (find (is_entry org test.full_title suite) t.rows)) [
    | inl new ↦
        rw (new, insert_auto)
          (
            auto_entry t.next org suite test now,
            find-snoc (is_entry org test.full_title suite) t.rows
                  (auto_entry t.next org suite test now)
                ∙ rw (new, ==-refl org, str_eq_refl test.full_title, str_eq_refl suite),
          )
    | inr (r, old) ↦ rw (old, insert_auto) (r, old)
  ]

  HasGrown-trans :
      (t : Table) (m : ℕ) (t' : Table) (n : ℕ) (t'' : Table) (k : ℕ)
      → HasGrown policy org suite (t, m) (t', n)
      → HasGrown policy org suite (t', 0) (t'', k)
      → HasGrown policy org suite (t, m) (t'', n + k)
  HasGrown-trans t m t' n t'' k (xs, ex, nx, hx) (ys, ey, ny, hy) = (
    xs ++ ys,
    ey ∙ ap (λ l. l ++ ys) ex ∙ append_assoc t.rows xs ys,
    omega (arith, length-append xs ys),
    All-append (IsJustified policy org suite) xs ys hx hy,
  )

  HasEntry-HasGrown :
      (t : Table) (m : ℕ) (t' : Table) (n : ℕ) (test : FlakyTest)
      → HasGrown policy org suite (t, m) (t', n)
      → HasEntry org suite t test
      → HasEntry org suite t' test
  HasEntry-HasGrown t m t' n test (added, e, count, ok) (r, found) =
      (r, rw e (find-append (is_entry org test.full_title suite) t.rows added found))

  -- One turn of the loop.
  unfoldable pub quarantine_turn : FlakyTest → Table → ℕ → Table × ℕ
  quarantine_turn test t n =
      ((insert_auto t org suite test now).0, n + (insert_auto t org suite test now).1)

  pub turns-nil : (t : Table) (n : ℕ) → turns policy org suite now [] (t, n) ≡ (t, n)
  unfolding turns
  turns-nil t n = refl

  pub turns-on :
      (test : FlakyTest) (tests : List FlakyTest) (t : Table) (n : ℕ)
      → qualifies policy test ≡ true
      → turns policy org suite now (test ∷ tests) (t, n)
        ≡ turns policy org suite now tests (quarantine_turn test t n)
  unfolding turns quarantine_turn
  turns-on test tests t n on = rw on refl

  pub turns-off :
      (test : FlakyTest) (tests : List FlakyTest) (t : Table) (n : ℕ)
      → qualifies policy test ≡ false
      → turns policy org suite now (test ∷ tests) (t, n) ≡ turns policy org suite now tests (t, n)
  unfolding turns
  turns-off test tests t n off = rw off refl

  quarantine_turn-HasGrown :
      (test : FlakyTest) (t0 : Table) (m : ℕ) (t : Table) (n : ℕ)
      → qualifies policy test ≡ true
      → HasGrown policy org suite (t0, m) (t, n)
      → HasGrown policy org suite (t0, m) (quarantine_turn test t n)
  unfolding quarantine_turn
  quarantine_turn-HasGrown test t0 m t n on h =
      HasGrown-trans t0 m t n (insert_auto t org suite test now).0
        (insert_auto t org suite test now).1 h (insert-HasGrown t test on)

  turn-HasEntry :
      (test : FlakyTest) (t : Table) (n : ℕ) → HasEntry org suite (quarantine_turn test t n).0 test
  unfolding quarantine_turn
  turn-HasEntry test t n = insert-HasEntry t test

  pub turns-HasGrown :
      (tests : List FlakyTest) (t0 : Table) (m : ℕ) (t : Table) (n : ℕ)
      → HasGrown policy org suite (t0, m) (t, n)
      → HasGrown policy org suite (t0, m) (turns policy org suite now tests (t, n))
  turns-HasGrown [] t0 m t n h = rw (turns-nil t n) h
  turns-HasGrown (test ∷ tests) t0 m t n h = elim (Bool-cases (qualifies policy test)) [
    | inr off ↦ rw (turns-off test tests t n off) (turns-HasGrown tests t0 m t n h)
    | inl on ↦ rw (turns-on test tests t n on) (
        turns-HasGrown tests t0 m (quarantine_turn test t n).0 (quarantine_turn test t n).1
          (quarantine_turn-HasGrown test t0 m t n on h))
  ]

  -- Every test that reaches the thresholds has an entry.
  abbrev pub AllEntered : List FlakyTest → Table → Type 0
  AllEntered tests t = All (λ test. qualifies policy test ≡ true → HasEntry org suite t test) tests

  pub turns-AllEntered :
      (tests : List FlakyTest) (t : Table) (n : ℕ)
      → AllEntered tests (turns policy org suite now tests (t, n)).0
  turns-AllEntered [] t n = tt
  turns-AllEntered (test ∷ tests) t n = elim (Bool-cases (qualifies policy test)) [
    | inr off ↦ (
      (λ on. cc (rw off at on)),
      subst (λ q. AllEntered tests q.0) (sym (turns-off test tests t n off))
          (turns-AllEntered tests t n),
    )
    | inl on ↦ (
      (λ h. rw (turns-on test tests t n on) (
          HasEntry-HasGrown (quarantine_turn test t n).0 (quarantine_turn test t n).1
            (turns policy org suite now tests (quarantine_turn test t n)).0
            (turns policy org suite now tests (quarantine_turn test t n)).1 test
            (turns-HasGrown tests (quarantine_turn test t n).0 (quarantine_turn test t n).1
              (quarantine_turn test t n).0 (quarantine_turn test t n).1
              ([], sym (append-nil (quarantine_turn test t n).0.rows), omega arith, tt))
            (turn-HasEntry test t n))),
      subst (λ q. AllEntered tests q.0) (sym (turns-on test tests t n on))
          (turns-AllEntered tests (quarantine_turn test t n).0 (quarantine_turn test t n).1),
    )
  ]

  insert_auto-entered :
      (t : Table) (test : FlakyTest)
      → HasEntry org suite t test
      → insert_auto t org suite test now ≡ (t, 0)
  unfolding insert_auto
  insert_auto-entered t test (r, found) = rw (found, insert_auto) refl

  quarantine_turn-entered :
      (test : FlakyTest) (t : Table) (n : ℕ)
      → HasEntry org suite t test
      → quarantine_turn test t n ≡ (t, n)
  unfolding quarantine_turn
  quarantine_turn-entered test t n h =
      rw (insert_auto-entered t test h) (ap (λ k. (t, k)) (omega arith))

  pub turns-entered :
      (tests : List FlakyTest) (t : Table) (n : ℕ)
      → AllEntered tests t
      → turns policy org suite now tests (t, n) ≡ (t, n)
  turns-entered [] t n h = turns-nil t n
  turns-entered (test ∷ tests) t n h = elim (Bool-cases (qualifies policy test)) [
    | inr off ↦ turns-off test tests t n off ∙ turns-entered tests t n h.1
    | inl on ↦
        turns-on test tests t n on
        ∙ ap (turns policy org suite now tests) (quarantine_turn-entered test t n (h.0 on))
        ∙ turns-entered tests t n h.1
  ]
