-- ===== src/Release/Sessions.antt =====
-- backend/src/routes/releases.ts: how the handlers change the sessions of a release.
use project_flakey.Prelude.{
  ℕ, suc, ◌<◌, ◌≡◌, String, Bool, false, Option, none, some, List, [], ◌∷◌, ◌++◌, map, ◌==◌, ◌&&◌,
  ◌||◌, not, if◌then◌else◌, any, All, All-imp, All-append, All-map, Distinct, Distinct-snoc,
  Distinct-map-All, any-none, arith, Bool-cases, Option-cases, inl, inr,
}
use project_flakey.Release.Data.{
  Tables, Session, SessionStatus, active, completed, Reply, refused, is_viewer, is_active,
}
use project_flakey.Release.Testing.{
  is_active_of, is_other_active, new_session, start_session, create_session, scope, is_empty, Patch,
  patched, update_session, apply_patch, patch_session, reset_results, has,
}

-- Two sessions with different ids, of which only one is in progress where they are of one release.
abbrev pub IsApart : Session → Session → Type 0
IsApart a b =
    ((a.id == b.id) ≡ false)
    × ((a.release_id == b.release_id && is_active a.status && is_active b.status) ≡ false)

-- The sessions of a database whose next id is the given one.
abbrev pub AreSessions : ℕ → List Session → Type 0
AreSessions next sessions = All (λ (s : Session). s.id < next) sessions × Distinct IsApart sessions

new-IsApart :
    (db : Tables) (release : ℕ) (label : Option String) (failures_only : Bool)
    (sessions : List Session)
    → All (λ (s : Session). s.id < db.next_id) sessions
    → All (λ s. is_active_of release s ≡ false) sessions
    → All (λ s. IsApart s (new_session db release label failures_only)) sessions
new-IsApart db release label failures_only [] old idle = tt
new-IsApart db release label failures_only (s ∷ ss) old idle = (
  (let below = old.0 in ground arith, let free = idle.0 in ground arith),
  new-IsApart db release label failures_only ss old.1 idle.1,
)

pub start-AreSessions :
    (db : Tables) (release : ℕ) (label : Option String) (failures_only : Bool)
    → AreSessions db.next_id db.sessions
    → any (is_active_of release) db.sessions ≡ false
    → AreSessions (suc db.next_id) (db.sessions ++ new_session db release label failures_only ∷ [])
start-AreSessions db release label failures_only h idle = (
  All-append (λ (s : Session). s.id < suc db.next_id) db.sessions
      (new_session db release label failures_only ∷ [])
      (All-imp (λ (s : Session). s.id < db.next_id) (λ (s : Session). s.id < suc db.next_id)
        (λ s below. omega (arith, below)) db.sessions h.0)
      (omega arith, tt),
  Distinct-snoc IsApart db.sessions (new_session db release label failures_only)
      (new-IsApart db release label failures_only db.sessions h.0
        (any-none (is_active_of release) db.sessions idle))
      h.1,
)

-- An update of some sessions' status, in place.
module _ (f : Session → Session) (same_id : (s : Session) → (f s).id ≡ s.id)
    (same_release : (s : Session) → (f s).release_id ≡ s.release_id) where
  pub map-AreSessions :
      (next : ℕ) (P : Session → Type 0)
      → ((a b : Session)
          → P a
          → P b
          → IsApart a b
          → (a.release_id == b.release_id && is_active (f a).status && is_active (f b).status)
            ≡ false)
      → (sessions : List Session) → All P sessions
      → AreSessions next sessions
      → AreSessions next (map f sessions)
  map-AreSessions next P k sessions p h = (
    All-map (λ (s : Session). s.id < next) f (λ s below. rw (same_id s) below) sessions h.0,
    Distinct-map-All P IsApart IsApart f
        (λ a b pa pb apart. (
          rw (same_id a, same_id b) apart.0,
          rw (same_release a, same_release b) (k a b pa pb apart),
        ))
        sessions p h.1,
  )

abbrev matches : ℕ → ℕ → Session → Bool
matches session release s = s.id == session && s.release_id == release

module _ (session release : ℕ) (p : Patch) (now : ℕ) where
  abbrev patch_of : Option SessionStatus → Session → Session
  patch_of status s = if matches session release s then patched p status now s else s

  patch-id : (status : Option SessionStatus) (s : Session) → (patch_of status s).id ≡ s.id
  patch-id none s = elim (Bool-cases (matches session release s)) [ inl e ↦ rw e | inr e ↦ rw e ]
  patch-id (some active) s = elim (Bool-cases (matches session release s)) [
    | inl e ↦ rw e
    | inr e ↦ rw e
  ]
  patch-id (some completed) s = elim (Bool-cases (matches session release s)) [
    | inl e ↦ rw e
    | inr e ↦ rw e
  ]

  patch-release :
      (status : Option SessionStatus) (s : Session) → (patch_of status s).release_id ≡ s.release_id
  patch-release none s = elim (Bool-cases (matches session release s)) [
    | inl e ↦ rw e
    | inr e ↦ rw e
  ]
  patch-release (some active) s = elim (Bool-cases (matches session release s)) [
    | inl e ↦ rw e
    | inr e ↦ rw e
  ]
  patch-release (some completed) s = elim (Bool-cases (matches session release s)) [
    | inl e ↦ rw e
    | inr e ↦ rw e
  ]

  -- Whether a session is in progress after the update.
  abbrev active_after : Option SessionStatus → Session → Bool
  active_after none s = is_active s.status
  active_after (some active) s = matches session release s || is_active s.status
  active_after (some completed) s = not (matches session release s) && is_active s.status

  patch-active :
      (status : Option SessionStatus) (s : Session)
      → is_active (patch_of status s).status ≡ active_after status s
  patch-active none s = elim (Bool-cases (matches session release s)) [
    | inl e ↦ rw e
    | inr e ↦ rw e
  ]
  patch-active (some active) s = elim (Bool-cases (matches session release s)) [
    | inl e ↦ rw e
    | inr e ↦ rw e
  ]
  patch-active (some completed) s = elim (Bool-cases (matches session release s)) [
    | inl e ↦ rw e
    | inr e ↦ rw e
  ]

  reopened :
      (a b : Session)
      → is_other_active release session a ≡ false
      → is_other_active release session b ≡ false
      → IsApart a b
      → (a.release_id == b.release_id
          && active_after (some active) a
          && active_after (some active) b)
        ≡ false
  reopened a b pa pb apart = let (ids, one) = apart in ground arith

  update-AreSessions :
      (status : Option SessionStatus) (next : ℕ) (P : Session → Type 0)
      → ((a b : Session)
          → P a
          → P b
          → IsApart a b
          → (a.release_id == b.release_id && active_after status a && active_after status b)
            ≡ false)
      → (sessions : List Session) → All P sessions
      → AreSessions next sessions
      → AreSessions next (map (patch_of status) sessions)
  update-AreSessions status next P k sessions h good =
      map-AreSessions (patch_of status) (patch-id status) (patch-release status) next P
        (λ a b pa pb apart. rw (patch-active status a, patch-active status b) (k a b pa pb apart))
        sessions h good

Always : Session → Type 0
Always s = Unit

All-Always : (sessions : List Session) → All Always sessions
unfolding Always
All-Always [] = tt
All-Always (s ∷ ss) = (tt, All-Always ss)

pub apply_patch-AreSessions :
    (db : Tables) (release session : ℕ) (p : Patch) (status : Option SessionStatus) (now : ℕ)
    → AreSessions db.next_id db.sessions
    → let after = (apply_patch db release session p status now).1 in
      AreSessions after.next_id after.sessions
unfolding apply_patch update_session reset_results
apply_patch-AreSessions db release session p none now h =
    elim (Bool-cases (not (has p.label) && not (has p.target_date))) [
      | inl nothing ↦ rw (apply_patch, nothing) h
      | inr some_ ↦
          rw (apply_patch, some_)
            (update-AreSessions session release p now none db.next_id Always
              (λ a b u v apart. apart.1) db.sessions (All-Always db.sessions) h)
    ]
apply_patch-AreSessions db release session p (some completed) now h =
    update-AreSessions session release p now (some completed) db.next_id Always
      (λ a b u v apart. let one = apart.1 in ground arith) db.sessions (All-Always db.sessions) h
apply_patch-AreSessions db release session p (some active) now h =
    elim (Bool-cases (any (is_other_active release session) db.sessions)) [
      | inl busy ↦ rw (apply_patch, busy) h
      | inr free ↦
          rw (apply_patch, free)
            (update-AreSessions session release p now (some active) db.next_id
              (λ s. is_other_active release session s ≡ false)
              (λ a b pa pb apart. reopened session release p now a b pa pb apart) db.sessions
              (any-none (is_other_active release session) db.sessions free) h)
    ]

pub patch_session-AreSessions :
    (db : Tables) (role : String) (release session : ℕ) (p : Patch) (now : ℕ)
    → AreSessions db.next_id db.sessions
    → let after = (patch_session db role release session p now).1 in
      AreSessions after.next_id after.sessions
unfolding patch_session
patch_session-AreSessions db role release session p now h = elim (Bool-cases (is_viewer role)) [
  | inl viewer ↦ rw (patch_session, viewer) h
  | inr member ↦ rw (patch_session, member) (with_status p.status)
]
  where
    with_status :
        (status : Option (Option SessionStatus))
        → let after =
            (elim status as (λ x. Reply × Tables) [
              | none ↦ apply_patch db release session p none now
              | some none ↦ (refused 400, db)
              | some (some s) ↦ apply_patch db release session p (some s) now
            ]).1 in
          AreSessions after.next_id after.sessions
    with_status none = apply_patch-AreSessions db release session p none now h
    with_status (some none) = h
    with_status (some (some s)) = apply_patch-AreSessions db release session p (some s) now h

pub create_session-AreSessions :
    (db : Tables) (role : String) (release : ℕ) (label : Option String) (failures_only : Bool)
    → AreSessions db.next_id db.sessions
    → let after = (create_session db role release label failures_only).1 in
      AreSessions after.next_id after.sessions
unfolding create_session start_session
create_session-AreSessions db role release label failures_only h =
    elim (Bool-cases (is_viewer role)) [
      | inl viewer ↦ rw (create_session, viewer) h
      | inr member ↦ elim (Bool-cases (any (is_active_of release) db.sessions)) [
        | inl busy ↦ rw (create_session, member, busy) h
        | inr free ↦ elim (Option-cases (scope failures_only release db)) [
          | inl nothing ↦ rw (create_session, member, free, nothing) h
          | inr (tests, found) ↦ elim (Bool-cases (is_empty tests)) [
            | inl empty ↦ rw (create_session, member, free, found, empty) h
            | inr filled ↦
                rw (create_session, member, free, found, filled)
                  (start-AreSessions db release label failures_only h free)
          ]
        ]
      ]
    ]
