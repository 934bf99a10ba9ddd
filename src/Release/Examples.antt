-- ===== src/Release/Examples.antt =====
-- A release that is tested twice and signed off, and the theorems at these inputs.
use project_flakey.Prelude.{◌≡◌, refl, true, false, none, some, [], ◌∷◌, any}
use project_flakey.Release.Data.{
  Tables, Release, Session, Result, ResultStatus, passed, failed, draft, active, completed, Reply,
  ok, refused, recorded, seeded,
}
use project_flakey.Release.Testing.{create_session, Patch, patch_session, latest_session}
use project_flakey.Release.Results.{Observation, record_result, accept_result}
use project_flakey.Release.Checklist.{create_release, patch_item, add_item, delete_item, sign_off}
use project_flakey.Release.Readiness.{session_rows}
use project_flakey.Release.SignOff.{verdict, sign_off-verdict}
use project_flakey.Release.Tested.{IsLatest, IsDone, asks_regression, sign_off-IsTested}
use project_flakey.Release.Steps.{IsConsistent}
use project_flakey.Release.Reach.{
  here, next, creates_release, creates_session, records_result, accepts_result, signs_off, other,
  Reaches-IsConsistent,
}

abbrev empty : Tables
empty = record {
  releases = [];
  items = [];
  sessions = [];
  next_id = 1;
  results = [];
  links = [];
  manual_tests = [];
  runs = [];
  run_links = [];
}

-- Release 5, with the manual regression as its only item.
abbrev created : Tables
created =
    (create_release empty "admin" "1.0"
      (record {
        label = "Regression";
        required = true;
        auto_rule = some project_flakey.Release.Data.manual_regression_executed;
      }
        ∷ [])
      5 1).1

-- Tests 21 and 22 are linked to it.
abbrev linked : Tables
linked = record created {
  items = created.items;
  links =
      record { release_id = 5; manual_test_id = 21 }
      ∷ record { release_id = 5; manual_test_id = 22 }
      ∷ [];
  run_links = [];
  runs = [];
  manual_tests = [];
}

abbrev started : Tables
started = (create_session linked "member" 5 none false).1

abbrev observation : ResultStatus → Observation
observation s = record { status = some s; notes = none; step_results = none }

abbrev half : Tables
half = (record_result started "member" 7 5 1 21 (observation passed) 100).1

abbrev done : Tables
done = (record_result half "member" 7 5 1 22 (observation failed) 200).1

abbrev deferred : Tables
deferred = (accept_result done "member" 7 5 1 22 (some (some "JIRA-1")) 300).1

abbrev last : Session
last = record {
  id = 1;
  release_id = 5;
  session_number = 1;
  label = none;
  failures_only = false;
  status = completed;
  completed_at = some 200;
}

still_failing : (sign_off done "admin" 7 5 400).0 ≡ refused 400
unfolding sign_off project_flakey.Release.Checklist.sign_refreshed
    project_flakey.Release.Checklist.refresh_auto_items create_release
    project_flakey.Release.Checklist.insert_items create_session
    project_flakey.Release.Testing.start_session project_flakey.Release.Testing.scope
    project_flakey.Release.Testing.linked_tests project_flakey.Release.Testing.seed record_result
    project_flakey.Release.Results.record_valid project_flakey.Release.Results.write_result
    project_flakey.Release.Results.update_result project_flakey.Release.Results.auto_complete
    project_flakey.Release.Results.complete_session project_flakey.Release.Readiness.evaluate_rule
    project_flakey.Release.Readiness.evaluate_manual_regression_executed
    project_flakey.Release.Readiness.evaluate_session session_rows
still_failing = refl

signed : (sign_off deferred "admin" 7 5 400).0 ≡ ok
unfolding sign_off project_flakey.Release.Checklist.sign_refreshed
    project_flakey.Release.Checklist.refresh_auto_items create_release
    project_flakey.Release.Checklist.insert_items create_session
    project_flakey.Release.Testing.start_session project_flakey.Release.Testing.scope
    project_flakey.Release.Testing.linked_tests project_flakey.Release.Testing.seed record_result
    project_flakey.Release.Results.record_valid project_flakey.Release.Results.write_result
    project_flakey.Release.Results.update_result project_flakey.Release.Results.auto_complete
    project_flakey.Release.Results.complete_session project_flakey.Release.Readiness.evaluate_rule
    project_flakey.Release.Readiness.evaluate_manual_regression_executed
    project_flakey.Release.Readiness.evaluate_session session_rows accept_result
signed = refl

asks : any (asks_regression 5) deferred.items ≡ true
unfolding create_release project_flakey.Release.Checklist.insert_items create_session
    project_flakey.Release.Testing.start_session project_flakey.Release.Testing.scope
    project_flakey.Release.Testing.linked_tests record_result
    project_flakey.Release.Results.record_valid project_flakey.Release.Results.write_result
    project_flakey.Release.Results.update_result project_flakey.Release.Results.auto_complete
    project_flakey.Release.Results.complete_session project_flakey.Release.Testing.seed
    accept_result
asks = refl

last_session : latest_session 5 deferred.sessions ≡ some last
unfolding create_release project_flakey.Release.Checklist.insert_items create_session
    project_flakey.Release.Testing.start_session project_flakey.Release.Testing.scope
    project_flakey.Release.Testing.linked_tests record_result
    project_flakey.Release.Results.record_valid project_flakey.Release.Results.write_result
    project_flakey.Release.Results.update_result project_flakey.Release.Results.auto_complete
    project_flakey.Release.Results.complete_session project_flakey.Release.Testing.seed
    accept_result
last_session = refl

sign_off-IsTested_example : IsLatest deferred 5 last × IsDone deferred 5 last
sign_off-IsTested_example = sign_off-IsTested deferred "admin" 7 5 400 last signed asks last_session

sign_off-verdict_example : (sign_off deferred "member" 7 5 400).0 ≡ verdict deferred "member" 5
sign_off-verdict_example = sign_off-verdict deferred "member" 7 5 400

Reaches-IsConsistent_example : IsConsistent (sign_off deferred "admin" 7 5 400).1
Reaches-IsConsistent_example =
    Reaches-IsConsistent empty (sign_off deferred "admin" 7 5 400).1 refl refl refl (
      next deferred (sign_off deferred "admin" 7 5 400).1
        (next done deferred
          (next half done
            (next started half
              (next linked started
                (next created linked
                  (next empty created here (
                    creates_release "admin" "1.0"
                      (record {
                        label = "Regression";
                        required = true;
                        auto_rule = some project_flakey.Release.Data.manual_regression_executed;
                      }
                        ∷ [])
                      5 1))
                  (other created.items linked.links [] [] []))
                (creates_session "member" 5 none false))
              (records_result "member" 7 5 1 21 (observation passed) 100))
            (records_result "member" 7 5 1 22 (observation failed) 200))
          (accepts_result "member" 7 5 1 22 (some (some "JIRA-1")) 300))
        (signs_off "admin" 7 5 400))
