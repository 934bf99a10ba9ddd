-- ===== src/Release/Rules.antt =====
-- backend/src/routes/releases.ts: what the two rules ask, each in one condition.
use project_flakey.Prelude.{
  ℕ, ◌+◌, ◌≡◌, refl, Bool, true, false, none, some, List, [], ◌∷◌, ◌==◌, ◌&&◌, ◌||◌, not,
  if◌then◌else◌, any, sum_by, arith, Option-cases, inl, inr,
}
use project_flakey.Release.Data.{
  Tables, RunRow, Session, Result, ManualTest, AutoRule, critical_tests_passing,
  manual_regression_executed, unknown, is_active, is_failed, is_blocked, is_failure, is_not_run,
}
use project_flakey.Release.Testing.{latest_session, is_empty}
use project_flakey.Release.Readiness.{
  evaluate_rule, evaluate_session, evaluate_tests, evaluate_critical_tests_passing,
  evaluate_manual_regression_executed, session_rows, scoped_runs, scoped_tests,
}

-- A result that blocks a release: not run, or a failure that nobody accepted.
abbrev pub is_blocking : Result → Bool
is_blocking r = is_not_run r.status || (is_failure r.status && not r.accepted_as_known_issue)

abbrev failed_row : Result → Bool
failed_row r = is_failed r.status && not r.accepted_as_known_issue

abbrev blocked_row : Result → Bool
blocked_row r = is_blocked r.status && not r.accepted_as_known_issue

abbrev not_run_row : Result → Bool
not_run_row r = is_not_run r.status

merge :
    (n f b a x y z : Bool)
    → (if n || ((f || b) && not a) then true else (x || y || z)) ≡ (
        (if f && not a then true else x)
        || (if b && not a then true else y)
        || (if n then true else z))
merge n f b a x y z = ground arith

joined :
    (e x y z c : Bool)
    → (if e then false else if x then false else if y then false else if z then false else c)
      ≡ (not e && not (x || y || z) && c)
joined e x y z c = ground arith

-- The three filters of the rule, in one.
any_split :
    (rows : List Result)
    → any is_blocking rows ≡ (any failed_row rows || any blocked_row rows || any not_run_row rows)
any_split [] = refl
any_split (r ∷ rs) =
    let rest = any_split rs in
    rw rest (
      merge (is_not_run r.status) (is_failed r.status) (is_blocked r.status)
        r.accepted_as_known_issue (any failed_row rs) (any blocked_row rs) (any not_run_row rs))

session_eq :
    (rows : List Result) (s : Session)
    → evaluate_session rows s
      ≡ (not (is_empty rows) && not (any is_blocking rows) && not (is_active s.status))
unfolding evaluate_session
session_eq rows s =
    let split = any_split rows in
    rw split (
      joined (is_empty rows) (any failed_row rows) (any blocked_row rows) (any not_run_row rows)
        (not (is_active s.status)))

-- A run that was aborted, is not finished, or has failures.
abbrev pub is_red : RunRow → Bool
is_red r = r.is_aborted || not r.is_finished || not (r.failed == 0)

-- A manual test that failed, is blocked or was not run.
abbrev pub is_undone : ManualTest → Bool
is_undone t = is_failed t.status || is_blocked t.status || is_not_run t.status

-- What a rule asks of the tables. The critical tests pass where there are runs in scope and none is
-- red. The manual regression is executed where the last session is completed, has results that count
-- and none of them blocks; or, without a session, where there are tests in scope and all are done.
abbrev pub rule_met : AutoRule → Tables → ℕ → Bool
rule_met critical_tests_passing db release =
    not (is_empty (scoped_runs db release)) && not (any is_red (scoped_runs db release))
rule_met manual_regression_executed db release = elim (latest_session release db.sessions) [
  | some s ↦
      not (is_empty (session_rows db release s.id))
      && not (any is_blocking (session_rows db release s.id))
      && not (is_active s.status)
  | none ↦ not (is_empty (scoped_tests db release)) && not (any is_undone (scoped_tests db release))
]
rule_met unknown db release = false

zero_sum : (f s : ℕ) → (f + s == 0) ≡ ((f == 0) && (s == 0))
zero_sum f s = ground arith

merge_runs :
    (a d z x y w : Bool)
    → (if a || not d || not z then true else (x || y || not w))
      ≡ ((if a then true else x) || (if not d then true else y) || not (z && w))
merge_runs a d z x y w = ground arith

any_red :
    (rows : List RunRow)
    → any is_red rows ≡ (
        any (λ (r : RunRow). r.is_aborted) rows
        || any (λ (r : RunRow). not r.is_finished) rows
        || not (sum_by (λ (r : RunRow). r.failed) rows == 0))
any_red [] = refl
any_red (r ∷ rs) =
    let rest = any_red rs in
    rw (rest, zero_sum r.failed (sum_by (λ (x : RunRow). x.failed) rs))
      (merge_runs r.is_aborted r.is_finished (r.failed == 0) (any (λ (x : RunRow). x.is_aborted) rs)
        (any (λ (x : RunRow). not x.is_finished) rs) (sum_by (λ (x : RunRow). x.failed) rs == 0))

joined_runs :
    (e x y w : Bool)
    → (if e then false else if x then false else if y then false else w)
      ≡ (not e && not (x || y || not w))
joined_runs e x y w = ground arith

merge_tests :
    (f b n x y z : Bool)
    → (if f || b || n then true else (x || y || z))
      ≡ ((if f then true else x) || (if b then true else y) || (if n then true else z))
merge_tests f b n x y z = ground arith

any_undone :
    (rows : List ManualTest)
    → any is_undone rows ≡ (
        any (λ (t : ManualTest). is_failed t.status) rows
        || any (λ (t : ManualTest). is_blocked t.status) rows
        || any (λ (t : ManualTest). is_not_run t.status) rows)
any_undone [] = refl
any_undone (t ∷ ts) =
    let rest = any_undone ts in
    rw rest (
      merge_tests (is_failed t.status) (is_blocked t.status) (is_not_run t.status)
        (any (λ (x : ManualTest). is_failed x.status) ts)
        (any (λ (x : ManualTest). is_blocked x.status) ts)
        (any (λ (x : ManualTest). is_not_run x.status) ts))

tests_eq :
    (rows : List ManualTest)
    → evaluate_tests rows ≡ (not (is_empty rows) && not (any is_undone rows))
unfolding evaluate_tests
tests_eq rows =
    let split = any_undone rows in
    rw split (
      joined_tests (is_empty rows) (any (λ (t : ManualTest). is_failed t.status) rows)
        (any (λ (t : ManualTest). is_blocked t.status) rows)
        (any (λ (t : ManualTest). is_not_run t.status) rows))
  where
    joined_tests :
        (e x y z : Bool)
        → (if e then false else if x then false else if y then false else not z)
          ≡ (not e && not (x || y || z))
    joined_tests e x y z = ground arith

runs_eq :
    (rows : List RunRow)
    → (if is_empty rows
        then false
        else if any (λ (r : RunRow). r.is_aborted) rows
        then false
        else if any (λ (r : RunRow). not r.is_finished) rows
        then false
        else sum_by (λ (r : RunRow). r.failed) rows == 0)
      ≡ (not (is_empty rows) && not (any is_red rows))
runs_eq rows =
    let split = any_red rows in
    rw split (
      joined_runs (is_empty rows) (any (λ (r : RunRow). r.is_aborted) rows)
        (any (λ (r : RunRow). not r.is_finished) rows)
        (sum_by (λ (r : RunRow). r.failed) rows == 0))

pub evaluate_rule-rule_met :
    (rule : AutoRule) (db : Tables) (release : ℕ)
    → evaluate_rule rule db release ≡ rule_met rule db release
unfolding evaluate_rule evaluate_critical_tests_passing evaluate_manual_regression_executed
evaluate_rule-rule_met critical_tests_passing db release = runs_eq (scoped_runs db release)
evaluate_rule-rule_met manual_regression_executed db release =
    elim (Option-cases (latest_session release db.sessions)) [
      | inl untested ↦
          rw (evaluate_manual_regression_executed, rule_met, untested)
            (tests_eq (scoped_tests db release))
      | inr (s, last) ↦
          rw (evaluate_manual_regression_executed, rule_met, last)
            (session_eq (session_rows db release s.id) s)
    ]
evaluate_rule-rule_met unknown db release = refl
