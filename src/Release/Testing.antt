-- ===== src/Release/Testing.antt =====
-- backend/src/routes/releases.ts: the handlers of a release's test sessions. Each runs as one step;
-- times are epoch milliseconds. The audit entries are left out.
use project_flakey.Prelude.{
  ℕ, suc, max, String, Bool, true, false, Option, none, some, List, [], ◌∷◌, ◌++◌, map, ◌==◌, ltb,
  ◌&&◌, not, if◌then◌else◌, keep, any, length,
}
use project_flakey.Release.Data.{
  Tables, Session, SessionStatus, active, completed, Result, not_run, Link, Reply, refused, seeded,
  ok, is_viewer, is_active, is_failure,
}

abbrev pub is_empty {ℓ} : {A : Type ℓ} → List A → Bool
is_empty [] = true
is_empty (x ∷ xs) = false

-- WHERE release_id = $1 AND status = 'in_progress'
abbrev pub is_active_of : ℕ → Session → Bool
is_active_of release s = s.release_id == release && is_active s.status

-- WHERE session_id = $1 AND manual_test_id = $2
abbrev pub is_at : ℕ → ℕ → Result → Bool
is_at session test r = r.session_id == session && r.manual_test_id == test

abbrev pub later : Session → Option Session → Option Session
later s none = some s
later s (some t) = if ltb t.session_number s.session_number then some s else some t

-- WHERE release_id = $1 ORDER BY session_number DESC LIMIT 1
abbrev pub latest_session : ℕ → List Session → Option Session
latest_session release [] = none
latest_session release (s ∷ ss) =
    let rest = latest_session release ss in if s.release_id == release then later s rest else rest

-- COALESCE(MAX(session_number), 0) WHERE release_id = $1
abbrev pub max_number : ℕ → List Session → ℕ
max_number release [] = 0
max_number release (s ∷ ss) =
    let rest = max_number release ss in
    if s.release_id == release then max s.session_number rest else rest

abbrev pub test_of : Result → ℕ
test_of r = r.manual_test_id

abbrev pub link_test : Link → ℕ
link_test l = l.manual_test_id

-- The tests that a session left unresolved.
unfoldable pub unresolved : ℕ → List Result → List ℕ
unresolved session results = map test_of (
    keep
      (λ (r : Result).
        r.session_id == session && is_failure r.status && not r.accepted_as_known_issue)
      results)

-- SELECT manual_test_id FROM release_manual_tests WHERE release_id = $1
unfoldable pub linked_tests : ℕ → List Link → List ℕ
linked_tests release links = map link_test (keep (λ (l : Link). l.release_id == release) links)

abbrev retry_scope : Option Session → Tables → List ℕ
retry_scope none db = []
retry_scope (some s) db = unresolved s.id db.results

abbrev prior : Bool → ℕ → Tables → Option Session
prior failures_only release db = if failures_only then latest_session release db.sessions else none

abbrev pub has {ℓ} : {A : Type ℓ} → Option A → Bool
has none = false
has (some x) = true

-- The tests of a new session: `none` is that there is nothing to retry.
unfoldable pub scope : Bool → ℕ → Tables → Option (List ℕ)
scope failures_only release db =
    let before = prior failures_only release db in
    let retry = retry_scope before db in
    if has before && is_empty retry
    then none
    else some (if is_empty retry then linked_tests release db.links else retry)

abbrev pub new_result : ℕ → ℕ → Result
new_result session test = record {
  session_id = session;
  manual_test_id = test;
  status = not_run;
  notes = none;
  step_results = [];
  run_by = none;
  run_at = none;
  accepted_as_known_issue = false;
  known_issue_ref = none;
  accepted_by = none;
  accepted_at = none;
  filed_bug = none;
}

-- INSERT ... ON CONFLICT (session_id, manual_test_id) DO NOTHING
unfoldable pub seed : ℕ → List ℕ → List Result → List Result
seed session [] results = results
seed session (t ∷ ts) results =
    seed session ts
      (if any (is_at session t) results then results else results ++ new_result session t ∷ [])

abbrev pub new_session : Tables → ℕ → Option String → Bool → Session
new_session db release label failures_only = record {
  id = db.next_id;
  release_id = release;
  session_number = suc (max_number release db.sessions);
  label = label;
  failures_only = failures_only;
  status = active;
  completed_at = none;
}

-- The session's row, and one result for every test in its scope.
unfoldable pub start_session : Tables → ℕ → Option String → Bool → List ℕ → Tables
start_session db release label failures_only tests = record db {
  sessions = db.sessions ++ new_session db release label failures_only ∷ [];
  next_id = suc db.next_id;
  results = seed db.next_id tests db.results;
}

-- POST /releases/:id/sessions
unfoldable pub create_session : Tables → String → ℕ → Option String → Bool → Reply × Tables
create_session db role release label failures_only =
    if is_viewer role
    then (refused 403, db)
    else if any (is_active_of release) db.sessions
    then (refused 409, db)
    else elim (scope failures_only release db) [
      | none ↦ (refused 400, db)
      | some tests ↦
          if is_empty tests
          then (refused 400, db)
          else (seeded (length tests), start_session db release label failures_only tests)
    ]

-- The fields of a PATCH of a session: `some none` is a status that is no session's.
pub record Patch : Type 0 where
  pub label : Option (Option String)
  pub target_date : Option (Option ℕ)
  pub status : Option (Option SessionStatus)

abbrev or_else {ℓ} : {A : Type ℓ} → Option A → A → A
or_else none d = d
or_else (some x) d = x

abbrev with_status : Option SessionStatus → ℕ → Session → Session
with_status none now s = s
with_status (some active) now s = record s { status = active; completed_at = none }
with_status (some completed) now s = record s { status = completed; completed_at = some now }

abbrev pub patched : Patch → Option SessionStatus → ℕ → Session → Session
patched p status now s = with_status status now (record s { label = or_else p.label s.label })

-- SET ... WHERE id = $1 AND release_id = $2
unfoldable pub update_session : ℕ → ℕ → (Session → Session) → Tables → Tables
update_session session release f db = record db {
  sessions =
      map (λ (s : Session). if s.id == session && s.release_id == release then f s else s)
        db.sessions;
}

abbrev pub reset_result : Result → Result
reset_result r = record r {
  status = not_run;
  run_by = none;
  run_at = none;
  notes = none;
  step_results = [];
  accepted_as_known_issue = false;
  known_issue_ref = none;
  accepted_by = none;
  accepted_at = none;
}

-- SET ... WHERE session_id = $1
unfoldable pub reset_results : ℕ → Tables → Tables
reset_results session db = record db {
  results = map (λ (r : Result). if r.session_id == session then reset_result r else r) db.results;
}

-- WHERE release_id = $1 AND status = 'in_progress' AND id <> $2
abbrev pub is_other_active : ℕ → ℕ → Session → Bool
is_other_active release session s = is_active_of release s && not (s.id == session)

unfoldable pub apply_patch : Tables → ℕ → ℕ → Patch → Option SessionStatus → ℕ → Reply × Tables
apply_patch db release session p none now =
    if not (has p.label) && not (has p.target_date)
    then (refused 400, db)
    else (ok, update_session session release (patched p none now) db)
apply_patch db release session p (some completed) now =
    (ok, update_session session release (patched p (some completed) now) db)
apply_patch db release session p (some active) now =
    if any (is_other_active release session) db.sessions then (refused 409, db) else (
      ok,
      reset_results session (update_session session release (patched p (some active) now) db),
    )

-- PATCH /releases/:id/sessions/:sessionId
unfoldable pub patch_session : Tables → String → ℕ → ℕ → Patch → ℕ → Reply × Tables
patch_session db role release session p now =
    if is_viewer role then (refused 403, db) else elim p.status [
      | none ↦ apply_patch db release session p none now
      | some none ↦ (refused 400, db)
      | some (some status) ↦ apply_patch db release session p (some status) now
    ]
