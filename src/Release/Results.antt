-- ===== src/Release/Results.antt =====
-- backend/src/routes/releases.ts: the handlers of the results of a test session. A reference that
-- validateRefUrl refuses is an input `none`; the issue that the tracker creates is an input too, and
-- the failure of its creation is left out.
use project_flakey.Prelude.{
  ℕ, String, Bool, true, false, Option, none, some, List, [], map, ◌==◌, ◌&&◌, ◌||◌, not, str_eq,
  if◌then◌else◌, any, find, count_if,
}
use project_flakey.Release.Data.{
  Tables, Session, completed, Result, ResultStatus, Step, Reply, refused, recorded, ok, is_viewer,
  is_active, is_failure, is_not_run,
}
use project_flakey.Release.Testing.{is_at, has}

-- SET ... WHERE session_id = $1 AND manual_test_id = $2
unfoldable pub update_result : ℕ → ℕ → (Result → Result) → Tables → Tables
update_result session test f db = record db {
  results = map (λ (r : Result). if is_at session test r then f r else r) db.results;
}

abbrev pub clear_acceptance : Result → Result
clear_acceptance r = record r {
  accepted_as_known_issue = false;
  known_issue_ref = none;
  accepted_by = none;
  accepted_at = none;
}

-- The body of a request to record a result: `none` is a status that is no result's.
pub record Observation : Type 0 where
  pub status : Option ResultStatus
  pub notes : Option String
  pub step_results : Option (List Step)

-- SESSION_STEP_STATUSES.includes
abbrev is_step_status : String → Bool
is_step_status s =
    str_eq s "passed" || str_eq s "failed" || str_eq s "blocked" || str_eq s "skipped"

abbrev pub valid_steps : Option (List Step) → Bool
valid_steps none = true
valid_steps (some steps) = not (any (λ (s : Step). not (is_step_status s.status)) steps)

abbrev steps_or_empty : Option (List Step) → List Step
steps_or_empty none = []
steps_or_empty (some steps) = steps

abbrev pub observed : ResultStatus → Observation → ℕ → ℕ → Result → Result
observed status o user now r = clear_acceptance (record r {
  status = status;
  notes = o.notes;
  step_results = steps_or_empty o.step_results;
  run_by = some user;
  run_at = some now;
})

-- The count of the session's results that are not run.
abbrev pub remaining : ℕ → List Result → ℕ
remaining session results =
    count_if (λ (r : Result). r.session_id == session && is_not_run r.status) results

abbrev pub finish : ℕ → Session → Session
finish now s = record s { status = completed; completed_at = some now }

-- UPDATE release_test_sessions SET status = 'completed' ... WHERE id = $1
unfoldable pub complete_session : ℕ → ℕ → Tables → Tables
complete_session session now db = record db {
  sessions = map (λ (s : Session). if s.id == session then finish now s else s) db.sessions;
}

-- The session completes by itself once every result is recorded.
unfoldable pub auto_complete : ℕ → ℕ → Tables → Reply × Tables
auto_complete session now db =
    if remaining session db.results == 0
    then (recorded true, complete_session session now db)
    else (recorded false, db)

abbrev pub find_session : ℕ → ℕ → Tables → Option Session
find_session release session db =
    find (λ (s : Session). s.id == session && s.release_id == release) db.sessions

unfoldable pub write_result : Tables → ℕ → ℕ → ℕ → ResultStatus → Observation → ℕ → Reply × Tables
write_result db user session test status o now =
    if any (is_at session test) db.results
    then auto_complete session now (update_result session test (observed status o user now) db)
    else (refused 404, db)

unfoldable pub record_valid :
    Tables → ℕ → ℕ → ℕ → ℕ → ResultStatus → Observation → ℕ → Reply × Tables
record_valid db user release session test status o now =
    if is_not_run status || not (valid_steps o.step_results)
    then (refused 400, db)
    else elim (find_session release session db) [
      | none ↦ (refused 404, db)
      | some s ↦
          if is_active s.status
          then write_result db user session test status o now
          else (refused 409, db)
    ]

-- POST /releases/:id/sessions/:sessionId/results/:testId
unfoldable pub record_result : Tables → String → ℕ → ℕ → ℕ → ℕ → Observation → ℕ → Reply × Tables
record_result db role user release session test o now =
    if is_viewer role then (refused 403, db) else elim o.status [
      | none ↦ (refused 400, db)
      | some status ↦ record_valid db user release session test status o now
    ]

-- The result at a session and a test, if the session is of the release.
abbrev pub find_result : Tables → ℕ → ℕ → ℕ → Option Result
find_result db release session test = elim (find_session release session db) [
  | none ↦ none
  | some s ↦ find (is_at session test) db.results
]

abbrev pub accepted : Option String → ℕ → ℕ → Result → Result
accepted known_issue_ref user now r = record r {
  accepted_as_known_issue = true;
  known_issue_ref = known_issue_ref;
  accepted_by = some user;
  accepted_at = some now;
}

-- POST .../accept; `ref` is what validateRefUrl made of the body's reference.
unfoldable pub accept_result :
    Tables → String → ℕ → ℕ → ℕ → ℕ → Option (Option String) → ℕ → Reply × Tables
accept_result db role user release session test none now =
    (refused (if is_viewer role then 403 else 400), db)
accept_result db role user release session test (some ref) now =
    if is_viewer role then (refused 403, db) else elim (find_result db release session test) [
      | none ↦ (refused 404, db)
      | some r ↦
          if is_failure r.status
          then (ok, update_result session test (accepted ref user now) db)
          else (refused 400, db)
    ]

-- DELETE .../accept
unfoldable pub unaccept_result : Tables → String → ℕ → ℕ → ℕ → Reply × Tables
unaccept_result db role release session test = if is_viewer role then (refused 403, db) else (
  ok,
  elim (find_session release session db) [
    | none ↦ db
    | some s ↦ update_result session test clear_acceptance db
  ],
)

abbrev or_keep {ℓ} : {A : Type ℓ} → Option A → A → Option A
or_keep none x = some x
or_keep (some y) x = some y

abbrev pub filed : String × String → Bool → ℕ → ℕ → Result → Result
filed issue mark_known user now r = record r {
  filed_bug = some issue;
  known_issue_ref = or_keep r.known_issue_ref issue.1;
  accepted_as_known_issue = if mark_known then true else r.accepted_as_known_issue;
  accepted_by = if mark_known then or_keep r.accepted_by user else r.accepted_by;
  accepted_at = if mark_known then or_keep r.accepted_at now else r.accepted_at;
}

-- POST .../file-bug; `issue` is the key and the address of the issue that the tracker creates.
unfoldable pub file_bug :
    Tables → String → Bool → ℕ → ℕ → ℕ → ℕ → String × String → Bool → ℕ → Reply × Tables
file_bug db role configured user release session test issue mark_known now =
    if is_viewer role
    then (refused 403, db)
    else if not configured
    then (refused 400, db)
    else elim (find_result db release session test) [
      | none ↦ (refused 404, db)
      | some r ↦
          if has r.filed_bug
          then (ok, db)
          else if not (is_failure r.status)
          then (refused 400, db)
          else (ok, update_result session test (filed issue mark_known user now) db)
    ]
