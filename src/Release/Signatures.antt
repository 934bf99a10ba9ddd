-- ===== src/Release/Signatures.antt =====
-- backend/src/routes/releases.ts: who signed a release that is signed off.
use project_flakey.Prelude.{
  ℕ, ◌≡◌, refl, String, Bool, true, false, Option, none, some, List, [], ◌∷◌, ◌==◌, ◌&&◌, not,
  str_eq, if◌then◌else◌, any, find, All, All-append, All-map, Bool-cases, Option-cases, inl, inr,
}
use project_flakey.Release.Data.{
  Tables, Release, ReleaseStatus, draft, in_progress, signed_off, released, cancelled, is_viewer,
}
use project_flakey.Release.Testing.{has}
use project_flakey.Release.Checklist.{
  NewItem, create_release, ReleasePatch, settable, update_release, patched_release, patch_release,
  clashes, is_signable, signed, can_sign, sign_refreshed, sign_off, refresh_auto_items,
  is_remaining,
}

abbrev pub is_signed_off : ReleaseStatus → Bool
is_signed_off signed_off = true
is_signed_off _ = false

-- A release that is signed off has a signer and a time.
abbrev pub IsAttributed : Release → Type 0
IsAttributed r =
    (is_signed_off r.status && not (has r.signed_off_by && has r.signed_off_at)) ≡ false

abbrev pub AreReleases : List Release → Type 0
AreReleases releases = All IsAttributed releases

update-AreReleases :
    (release : ℕ) (f : Release → Release) (db : Tables)
    → ((r : Release) → IsAttributed r → IsAttributed (f r))
    → AreReleases db.releases
    → AreReleases (update_release release f db).releases
unfolding update_release
update-AreReleases release f db k h =
    All-map IsAttributed (λ (r : Release). if r.id == release then f r else r)
      (λ r a. elim (Bool-cases (r.id == release)) [
        | inl hit ↦ rw hit (k r a)
        | inr miss ↦ rw miss a
      ])
      db.releases h

patched-IsAttributed :
    (p : ReleasePatch) (r : Release) → IsAttributed r → IsAttributed (patched_release p r)
patched-IsAttributed p r a = cases p.status
  where
    cases :
        (status : Option ReleaseStatus)
        → IsAttributed (patched_release (record p { status = status }) r)
    cases none = a
    cases (some draft) = refl
    cases (some in_progress) = refl
    cases (some signed_off) = a
    cases (some released) = refl
    cases (some cancelled) = refl

pub patch_release-AreReleases :
    (db : Tables) (role : String) (release : ℕ) (p : ReleasePatch)
    → AreReleases db.releases
    → AreReleases (patch_release db role release p).1.releases
unfolding patch_release
patch_release-AreReleases db role release p h = elim (Bool-cases (is_viewer role)) [
  | inl viewer ↦ rw (patch_release, viewer) h
  | inr member ↦
      elim (Bool-cases (not p.touches && not (has (settable p.status)) && not (has p.version))) [
        | inl nothing ↦ rw (patch_release, member, nothing) h
        | inr some_ ↦ elim (Bool-cases (clashes p.version release db.releases)) [
          | inl clash ↦ rw (patch_release, member, some_, clash) h
          | inr free ↦
              rw (patch_release, member, some_, free)
                (update-AreReleases release (patched_release p) db (patched-IsAttributed p) h)
        ]
      ]
]

signed-IsAttributed :
    (user now : ℕ) (r : Release) → IsAttributed r → IsAttributed (signed user now r)
signed-IsAttributed user now r a = elim (Bool-cases (is_signable r.status)) [
  | inl signs ↦ rw signs
  | inr keeps ↦ rw keeps a
]

pub sign_off-AreReleases :
    (db : Tables) (role : String) (user release now : ℕ)
    → AreReleases db.releases
    → AreReleases (sign_off db role user release now).1.releases
unfolding sign_off sign_refreshed refresh_auto_items
sign_off-AreReleases db role user release now h = elim (Bool-cases (can_sign role)) [
  | inr barred ↦ rw (sign_off, barred) h
  | inl may ↦ elim (Option-cases (find (λ (r : Release). r.id == release) db.releases)) [
    | inl absent ↦ rw (sign_off, may, absent) h
    | inr (r, found) ↦ elim (Bool-cases (is_signable r.status)) [
      | inr closed ↦ rw (sign_off, may, found, closed) h
      | inl open_ ↦
          elim (Bool-cases (any (is_remaining release) (refresh_auto_items db release now).items)) [
            | inl left ↦ rw (sign_off, may, found, open_, sign_refreshed, left) h
            | inr done ↦
                rw (sign_off, may, found, open_, sign_refreshed, done)
                  (update-AreReleases release (signed user now) (refresh_auto_items db release now)
                    (signed-IsAttributed user now) h)
          ]
    ]
  ]
]

pub create_release-AreReleases :
    (db : Tables) (role version : String) (items : List NewItem) (id item_id : ℕ)
    → AreReleases db.releases
    → AreReleases (create_release db role version items id item_id).1.releases
unfolding create_release
create_release-AreReleases db role version items id item_id h = elim (Bool-cases (is_viewer role)) [
  | inl viewer ↦ rw (create_release, viewer) h
  | inr member ↦ elim (Bool-cases (str_eq version "")) [
    | inl unnamed ↦ rw (create_release, member, unnamed) h
    | inr named ↦ elim (Bool-cases (any (λ (r : Release). str_eq r.version version) db.releases)) [
      | inl taken ↦ rw (create_release, member, named, taken) h
      | inr new ↦
          rw (create_release, member, named, new)
            (All-append IsAttributed db.releases
              (record {
                id = id;
                version = version;
                status = draft;
                signed_off_by = none;
                signed_off_at = none;
              }
                ∷ [])
              h (refl, tt))
    ]
  ]
]
