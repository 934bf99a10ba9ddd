-- ===== src/Release/Reach.antt =====
-- backend/src/routes/releases.ts: the tables that the handlers reach from the empty ones.
use project_flakey.Prelude.{
  ℕ, ◌<◌, ◌≡◌, refl, String, Bool, Option, none, some, List, [], ◌==◌, ◌&&◌, not, str_eq, any, find,
  All-keep, Distinct-keep, Bool-cases, Option-cases, inl, inr,
}
use project_flakey.Release.Data.{
  Tables, Session, SessionStatus, active, completed, Result, Release, Item, Link, RunLink, RunRow,
  ManualTest, is_viewer,
}
use project_flakey.Release.Testing.{
  create_session, start_session, Patch, patch_session, apply_patch, update_session, reset_results,
  is_active_of, scope, is_empty, is_other_active, has,
}
use project_flakey.Release.Results.{
  Observation, record_result, accept_result, unaccept_result, file_bug,
}
use project_flakey.Release.Checklist.{
  NewItem, ReleasePatch, create_release, patch_release, clashes, sign_off, update_release,
  sign_refreshed, refresh_auto_items, delete_release, can_sign, is_signable, is_remaining, settable,
}
use project_flakey.Release.Sessions.{IsApart, create_session-AreSessions, patch_session-AreSessions}
use project_flakey.Release.Deferrals.{
  AreResults, AreTwo, IsDeferrable, seed-AreResults, reset-AreResults,
}
use project_flakey.Release.Signatures.{
  AreReleases, IsAttributed, create_release-AreReleases, patch_release-AreReleases,
  sign_off-AreReleases,
}
use project_flakey.Release.Steps.{
  IsConsistent, record_result-IsConsistent, accept_result-IsConsistent,
  unaccept_result-IsConsistent, file_bug-IsConsistent,
}

-- The results and the releases, of which a handler of a session changes the first alone.
abbrev Rest : Tables → Type 0
Rest db = AreResults db.results × AreReleases db.releases

create_session-Rest :
    (db : Tables) (role : String) (release : ℕ) (label : Option String) (failures_only : Bool)
    → Rest db
    → Rest (create_session db role release label failures_only).1
unfolding create_session start_session
create_session-Rest db role release label failures_only h = elim (Bool-cases (is_viewer role)) [
  | inl viewer ↦ rw (create_session, viewer) h
  | inr member ↦ elim (Bool-cases (any (is_active_of release) db.sessions)) [
    | inl busy ↦ rw (create_session, member, busy) h
    | inr free ↦ elim (Option-cases (scope failures_only release db)) [
      | inl nothing ↦ rw (create_session, member, free, nothing) h
      | inr (tests, found) ↦ elim (Bool-cases (is_empty tests)) [
        | inl empty ↦ rw (create_session, member, free, found, empty) h
        | inr filled ↦
            rw (create_session, member, free, found, filled)
              (seed-AreResults db.next_id tests db.results h.0, h.1)
      ]
    ]
  ]
]

apply_patch-Rest :
    (db : Tables) (release session : ℕ) (p : Patch) (status : Option SessionStatus) (now : ℕ)
    → Rest db
    → Rest (apply_patch db release session p status now).1
unfolding apply_patch update_session reset_results
apply_patch-Rest db release session p none now h =
    elim (Bool-cases (not (has p.label) && not (has p.target_date))) [
      | inl nothing ↦ rw (apply_patch, nothing) h
      | inr some_ ↦ rw (apply_patch, some_) h
    ]
apply_patch-Rest db release session p (some completed) now h = h
apply_patch-Rest db release session p (some active) now h =
    elim (Bool-cases (any (is_other_active release session) db.sessions)) [
      | inl busy ↦ rw (apply_patch, busy) h
      | inr free ↦ rw (apply_patch, free) (reset-AreResults session db h.0, h.1)
    ]

patch_session-Rest :
    (db : Tables) (role : String) (release session : ℕ) (p : Patch) (now : ℕ)
    → Rest db
    → Rest (patch_session db role release session p now).1
unfolding patch_session
patch_session-Rest db role release session p now h = elim (Bool-cases (is_viewer role)) [
  | inl viewer ↦ rw (patch_session, viewer) h
  | inr member ↦ elim (Option-cases p.status) [
    | inl absent ↦
        rw (patch_session, member, absent) (apply_patch-Rest db release session p none now h)
    | inr (given, e) ↦ elim (Option-cases given) [
      | inl bad ↦ rw (patch_session, member, e, bad) h
      | inr (status, good) ↦
          rw (patch_session, member, e, good)
            (apply_patch-Rest db release session p (some status) now h)
    ]
  ]
]

delete_release-IsConsistent :
    (db : Tables) (role : String) (release : ℕ)
    → IsConsistent db
    → IsConsistent (delete_release db role release).1
unfolding delete_release
delete_release-IsConsistent db role release h = elim (Bool-cases (is_viewer role)) [
  | inl viewer ↦ rw (delete_release, viewer) h
  | inr member ↦
      rw (delete_release, member)
        (
          (
            All-keep (λ (s : Session). s.id < db.next_id) kept_session db.sessions h.0.0,
            Distinct-keep IsApart kept_session db.sessions h.0.1,
          ),
          (
            All-keep IsDeferrable kept_result db.results h.1.0,
            Distinct-keep AreTwo kept_result db.results h.1.1,
          ),
          All-keep IsAttributed (λ (r : Release). not (r.id == release)) db.releases h.2,
        )
]
  where
    kept_session : Session → Bool
    kept_session s = not (s.release_id == release)

    kept_result : Result → Bool
    kept_result r =
        not (any (λ (s : Session). s.id == r.session_id && s.release_id == release) db.sessions)

-- The sessions and their results, which the handlers of a release and its checklist leave alone.
abbrev Kept : Tables → Tables → Type 0
Kept db after =
    (after.next_id ≡ db.next_id) × (after.sessions ≡ db.sessions) × (after.results ≡ db.results)

kept :
    (db after : Tables)
    → Kept db after
    → IsConsistent db
    → AreReleases after.releases
    → IsConsistent after
kept db after k h releases = (rw (k.0, k.1) h.0, rw (k.2) h.1, releases)

patch_release-Kept :
    (db : Tables) (role : String) (release : ℕ) (p : ReleasePatch)
    → Kept db (patch_release db role release p).1
unfolding patch_release update_release
patch_release-Kept db role release p = elim (Bool-cases (is_viewer role)) [
  | inl viewer ↦ rw (patch_release, viewer) (refl, refl, refl)
  | inr member ↦
      elim (Bool-cases (not p.touches && not (has (settable p.status)) && not (has p.version))) [
        | inl nothing ↦ rw (patch_release, member, nothing) (refl, refl, refl)
        | inr some_ ↦ elim (Bool-cases (clashes p.version release db.releases)) [
          | inl clash ↦ rw (patch_release, member, some_, clash) (refl, refl, refl)
          | inr free ↦ rw (patch_release, member, some_, free) (refl, refl, refl)
        ]
      ]
]

create_release-Kept :
    (db : Tables) (role version : String) (items : List NewItem) (id item_id : ℕ)
    → Kept db (create_release db role version items id item_id).1
unfolding create_release
create_release-Kept db role version items id item_id = elim (Bool-cases (is_viewer role)) [
  | inl viewer ↦ rw (create_release, viewer) (refl, refl, refl)
  | inr member ↦ elim (Bool-cases (str_eq version "")) [
    | inl unnamed ↦ rw (create_release, member, unnamed) (refl, refl, refl)
    | inr named ↦ elim (Bool-cases (any (λ (r : Release). str_eq r.version version) db.releases)) [
      | inl taken ↦ rw (create_release, member, named, taken) (refl, refl, refl)
      | inr new ↦ rw (create_release, member, named, new) (refl, refl, refl)
    ]
  ]
]

sign_off-Kept :
    (db : Tables) (role : String) (user release now : ℕ)
    → Kept db (sign_off db role user release now).1
unfolding sign_off sign_refreshed refresh_auto_items update_release
sign_off-Kept db role user release now = elim (Bool-cases (can_sign role)) [
  | inr barred ↦ rw (sign_off, barred) (refl, refl, refl)
  | inl may ↦ elim (Option-cases (find (λ (r : Release). r.id == release) db.releases)) [
    | inl absent ↦ rw (sign_off, may, absent) (refl, refl, refl)
    | inr (r, found) ↦ elim (Bool-cases (is_signable r.status)) [
      | inr closed ↦ rw (sign_off, may, found, closed) (refl, refl, refl)
      | inl open_ ↦
          elim (Bool-cases (any (is_remaining release) (refresh_auto_items db release now).items)) [
            | inl left ↦ rw (sign_off, may, found, open_, sign_refreshed, left) (refl, refl, refl)
            | inr done ↦ rw (sign_off, may, found, open_, sign_refreshed, done) (refl, refl, refl)
          ]
    ]
  ]
]

-- The steps: the handlers that write, and any other change of the linked runs, of the linked tests, of
-- the checklist, of the runs and of the manual tests.
pub data Step (db : Tables) : Tables → Type 0 where
  creates_session :
      (role : String) (release : ℕ) (label : Option String) (failures_only : Bool)
      → Step db (create_session db role release label failures_only).1
  patches_session :
      (role : String) (release session : ℕ) (p : Patch) (now : ℕ)
      → Step db (patch_session db role release session p now).1
  records_result :
      (role : String) (user release session test : ℕ) (o : Observation) (now : ℕ)
      → Step db (record_result db role user release session test o now).1
  accepts_result :
      (role : String) (user release session test : ℕ) (ref : Option (Option String)) (now : ℕ)
      → Step db (accept_result db role user release session test ref now).1
  unaccepts_result :
      (role : String) (release session test : ℕ)
      → Step db (unaccept_result db role release session test).1
  files_bug :
      (role : String) (configured : Bool) (user release session test : ℕ) (issue : String × String)
      (mark_known : Bool) (now : ℕ)
      → Step db (file_bug db role configured user release session test issue mark_known now).1
  creates_release :
      (role version : String) (items : List NewItem) (id item_id : ℕ)
      → Step db (create_release db role version items id item_id).1
  patches_release :
      (role : String) (release : ℕ) (p : ReleasePatch) → Step db (patch_release db role release p).1
  signs_off : (role : String) (user release now : ℕ) → Step db (sign_off db role user release now).1
  deletes_release : (role : String) (release : ℕ) → Step db (delete_release db role release).1
  other :
      (items : List Item) (links : List Link) (run_links : List RunLink) (runs : List RunRow)
      (manual_tests : List ManualTest)
      → Step db (record db {
        items = items;
        links = links;
        run_links = run_links;
        runs = runs;
        manual_tests = manual_tests;
      })

pub step-IsConsistent : (db after : Tables) → Step db after → IsConsistent db → IsConsistent after
step-IsConsistent db _ (creates_session role release label failures_only) h =
    let (results, releases) = create_session-Rest db role release label failures_only (h.1, h.2) in
    (create_session-AreSessions db role release label failures_only h.0, results, releases)
step-IsConsistent db _ (patches_session role release session p now) h =
    let (results, releases) = patch_session-Rest db role release session p now (h.1, h.2) in
    (patch_session-AreSessions db role release session p now h.0, results, releases)
step-IsConsistent db _ (records_result role user release session test o now) h =
    record_result-IsConsistent db role user release session test o now h
step-IsConsistent db _ (accepts_result role user release session test ref now) h =
    accept_result-IsConsistent db role user release session test ref now h
step-IsConsistent db _ (unaccepts_result role release session test) h =
    unaccept_result-IsConsistent db role release session test h
step-IsConsistent db _ (files_bug role configured user release session test issue mark now) h =
    file_bug-IsConsistent db role configured user release session test issue mark now h
step-IsConsistent db _ (creates_release role version items id item_id) h =
    kept db (create_release db role version items id item_id).1
      (create_release-Kept db role version items id item_id) h
      (create_release-AreReleases db role version items id item_id h.2)
step-IsConsistent db _ (patches_release role release p) h =
    kept db (patch_release db role release p).1 (patch_release-Kept db role release p) h
      (patch_release-AreReleases db role release p h.2)
step-IsConsistent db _ (signs_off role user release now) h =
    kept db (sign_off db role user release now).1 (sign_off-Kept db role user release now) h
      (sign_off-AreReleases db role user release now h.2)
step-IsConsistent db _ (deletes_release role release) h =
    delete_release-IsConsistent db role release h
step-IsConsistent db _ (other items links run_links runs manual_tests) h = h

pub data Reaches (start : Tables) : Tables → Type 0 where
  here : Reaches start start
  next : (db after : Tables) → Reaches start db → Step db after → Reaches start after

-- However the handlers are called, from tables without sessions, results and releases: two sessions of
-- one release are never in progress at once and session ids do not clash; a test has one result in a
-- session, and only a failed or blocked result is accepted as a known issue; and a release that is
-- signed off has a signer and a time.
pub Reaches-IsConsistent :
    (start db : Tables)
    → start.sessions ≡ []
    → start.results ≡ []
    → start.releases ≡ []
    → Reaches start db
    → IsConsistent db
Reaches-IsConsistent start _ s r l here = rw (s, r, l) ((tt, tt), (tt, tt), tt)
Reaches-IsConsistent start _ s r l (next db after steps step) =
    step-IsConsistent db after step (Reaches-IsConsistent start db s r l steps)
