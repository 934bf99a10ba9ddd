-- ===== src/Release/Readiness.antt =====
-- backend/src/routes/releases.ts: the two rules that tell whether a release is ready, without the texts
-- and lists of failing tests that they show.
use project_flakey.Prelude.{
  ℕ, Bool, false, none, some, List, ◌==◌, ◌&&◌, not, if◌then◌else◌, keep, any, sum_by, take,
}
use project_flakey.Release.Data.{
  Tables, RunRow, RunLink, Session, Result, Link, ManualTest, AutoRule, critical_tests_passing,
  manual_regression_executed, unknown, is_active, is_failed, is_blocked, is_not_run,
}
use project_flakey.Release.Testing.{latest_session, is_empty}

-- JOIN release_runs ... WHERE release_id = $1
unfoldable pub linked_runs : Tables → ℕ → List RunRow
linked_runs db release =
    keep
      (λ (r : RunRow).
        any (λ (l : RunLink). l.release_id == release && l.run_id == r.id) db.run_links)
      db.runs

-- The linked runs, or else the newest run.
unfoldable pub scoped_runs : Tables → ℕ → List RunRow
scoped_runs db release =
    let linked = linked_runs db release in if is_empty linked then take 1 db.runs else linked

-- evaluateCriticalTestsPassing(...).met
unfoldable pub evaluate_critical_tests_passing : Tables → ℕ → Bool
evaluate_critical_tests_passing db release =
    let rows = scoped_runs db release in
    if is_empty rows
    then false
    else if any (λ (r : RunRow). r.is_aborted) rows
    then false
    else if any (λ (r : RunRow). not r.is_finished) rows
    then false
    else sum_by (λ (r : RunRow). r.failed) rows == 0

abbrev pub is_linked : Tables → ℕ → ℕ → Bool
is_linked db release test =
    any (λ (l : Link). l.release_id == release && l.manual_test_id == test) db.links

-- The results of a session whose tests are still linked to the release.
unfoldable pub session_rows : Tables → ℕ → ℕ → List Result
session_rows db release session =
    keep (λ (r : Result). r.session_id == session && is_linked db release r.manual_test_id)
      db.results

-- The verdict on the latest session.
unfoldable pub evaluate_session : List Result → Session → Bool
evaluate_session rows session =
    if is_empty rows
    then false
    else if any (λ (r : Result). is_failed r.status && not r.accepted_as_known_issue) rows
    then false
    else if any (λ (r : Result). is_blocked r.status && not r.accepted_as_known_issue) rows
    then false
    else if any (λ (r : Result). is_not_run r.status) rows
    then false
    else not (is_active session.status)

-- Without a session: the linked manual tests, or else those of high or critical priority.
unfoldable pub scoped_tests : Tables → ℕ → List ManualTest
scoped_tests db release =
    let linked = keep (λ (t : ManualTest). is_linked db release t.id) db.manual_tests in
    if is_empty linked then keep (λ (t : ManualTest). t.is_high) db.manual_tests else linked

unfoldable pub evaluate_tests : List ManualTest → Bool
evaluate_tests rows =
    if is_empty rows
    then false
    else if any (λ (t : ManualTest). is_failed t.status) rows
    then false
    else if any (λ (t : ManualTest). is_blocked t.status) rows
    then false
    else not (any (λ (t : ManualTest). is_not_run t.status) rows)

-- evaluateManualRegressionExecuted(...).met
unfoldable pub evaluate_manual_regression_executed : Tables → ℕ → Bool
evaluate_manual_regression_executed db release = elim (latest_session release db.sessions) [
  | some session ↦ evaluate_session (session_rows db release session.id) session
  | none ↦ evaluate_tests (scoped_tests db release)
]

-- evaluateRule(...).met
unfoldable pub evaluate_rule : AutoRule → Tables → ℕ → Bool
evaluate_rule critical_tests_passing db release = evaluate_critical_tests_passing db release
evaluate_rule manual_regression_executed db release = evaluate_manual_regression_executed db release
evaluate_rule unknown db release = false
