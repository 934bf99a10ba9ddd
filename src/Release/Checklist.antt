-- ===== src/Release/Checklist.antt =====
-- backend/src/routes/releases.ts: a release, its checklist and its sign-off. The ids that the
-- database hands out are inputs, and the audit entries are left out.
use project_flakey.Prelude.{
  ℕ, suc, String, Bool, true, false, Option, none, some, List, [], ◌∷◌, ◌++◌, map, ◌==◌, ◌&&◌, ◌||◌,
  not, str_eq, if◌then◌else◌, keep, any, find,
}
use project_flakey.Release.Data.{
  Tables, Release, ReleaseStatus, draft, in_progress, signed_off, Item, AutoRule,
  critical_tests_passing, manual_regression_executed, Session, Result, Link, RunLink, Reply,
  refused, ok, is_viewer,
}
use project_flakey.Release.Testing.{is_empty, has}
use project_flakey.Release.Readiness.{evaluate_rule}

-- An item of a checklist as it is asked for.
pub record NewItem : Type 0 where
  pub label : String
  pub required : Bool
  pub auto_rule : Option AutoRule

-- DEFAULT_CHECKLIST
abbrev pub default_checklist : List NewItem
default_checklist =
    record {
      label = "All critical tests passing";
      required = true;
      auto_rule = some critical_tests_passing;
    }
    ∷ record {
      label = "Manual regression test suite executed";
      required = true;
      auto_rule = some manual_regression_executed;
    }
    ∷ record { label = "Release notes drafted"; required = true; auto_rule = none }
    ∷ record { label = "Documentation updated"; required = false; auto_rule = none }
    ∷ record { label = "Stakeholders notified"; required = true; auto_rule = none }
    ∷ record { label = "Rollback plan prepared"; required = true; auto_rule = none }
    ∷ []

abbrev pub item_row : ℕ → ℕ → NewItem → Item
item_row release id i = record {
  id = id;
  release_id = release;
  label = i.label;
  required = i.required;
  auto_rule = i.auto_rule;
  checked = false;
  checked_by = none;
  checked_at = none;
}

-- One row for every item that has a label; the ids count up from the given one.
unfoldable pub insert_items : ℕ → ℕ → List NewItem → List Item → List Item
insert_items release id [] rows = rows
insert_items release id (i ∷ is) rows =
    insert_items release (suc id) is
      (if str_eq i.label "" then rows else rows ++ item_row release id i ∷ [])

abbrev pub checklist_of : List NewItem → List NewItem
checklist_of items = if is_empty items then default_checklist else items

-- POST /releases; `id` and `item_id` are the ids that the rows get.
unfoldable pub create_release : Tables → String → String → List NewItem → ℕ → ℕ → Reply × Tables
create_release db role version items id item_id =
    if is_viewer role
    then (refused 403, db)
    else if str_eq version ""
    then (refused 400, db)
    else if any (λ (r : Release). str_eq r.version version) db.releases
    then (refused 409, db)
    else (
      ok,
      record db {
        releases =
            db.releases
            ++ record {
              id = id;
              version = version;
              status = draft;
              signed_off_by = none;
              signed_off_at = none;
            }
              ∷ [];
        items = insert_items id item_id (checklist_of items) db.items;
      },
    )

-- The fields of a PATCH of a release; `touches` is that a name, a description or a date is set, and the
-- status is `none` where it is absent or is no release's.
pub record ReleasePatch : Type 0 where
  pub touches : Bool
  pub status : Option ReleaseStatus
  pub version : Option String

-- STATUSES.includes(status) && status !== "signed_off"
abbrev pub settable : Option ReleaseStatus → Option ReleaseStatus
settable none = none
settable (some signed_off) = none
settable (some status) = some status

abbrev or_else {ℓ} : {A : Type ℓ} → Option A → A → A
or_else none d = d
or_else (some x) d = x

-- SET ... WHERE id = $1
unfoldable pub update_release : ℕ → (Release → Release) → Tables → Tables
update_release release f db = record db {
  releases = map (λ (r : Release). if r.id == release then f r else r) db.releases;
}

abbrev pub patched_release : ReleasePatch → Release → Release
patched_release p r = record r {
  status = or_else (settable p.status) r.status;
  version = or_else p.version r.version;
}

-- The update of a release to another's version breaks UNIQUE(org_id, version).
abbrev pub clashes : Option String → ℕ → List Release → Bool
clashes none release rows = false
clashes (some version) release rows =
    any (λ (r : Release). r.id == release) rows
    && any (λ (r : Release). str_eq r.version version && not (r.id == release)) rows

-- PATCH /releases/:id
unfoldable pub patch_release : Tables → String → ℕ → ReleasePatch → Reply × Tables
patch_release db role release p =
    if is_viewer role
    then (refused 403, db)
    else if not p.touches && not (has (settable p.status)) && not (has p.version)
    then (refused 400, db)
    else if clashes p.version release db.releases
    then (refused 500, db)
    else (ok, update_release release (patched_release p) db)

abbrev first_time : Option ℕ → ℕ → ℕ
first_time none now = now
first_time (some t) now = t

-- The CASE expressions of the update of an automatic item.
abbrev pub refreshed : Bool → ℕ → Item → Item
refreshed met now i = record i {
  checked = met;
  checked_at = if met then some (first_time i.checked_at now) else none;
  checked_by = if met then i.checked_by else none;
}

abbrev pub apply_rule : Tables → ℕ → ℕ → Option AutoRule → Item → Item
apply_rule db release now none i = i
apply_rule db release now (some rule) i = refreshed (evaluate_rule rule db release) now i

abbrev pub refresh_item : Tables → ℕ → ℕ → Item → Item
refresh_item db release now i =
    if i.release_id == release then apply_rule db release now i.auto_rule i else i

-- refreshAutoItems
unfoldable pub refresh_auto_items : Tables → ℕ → ℕ → Tables
refresh_auto_items db release now = record db { items = map (refresh_item db release now) db.items }

-- ["draft", "in_progress"].includes(status)
abbrev pub is_signable : ReleaseStatus → Bool
is_signable draft = true
is_signable in_progress = true
is_signable _ = false

-- WHERE release_id = $1 AND required = true AND checked = false
abbrev pub is_remaining : ℕ → Item → Bool
is_remaining release i = i.release_id == release && i.required && not i.checked

abbrev pub signed : ℕ → ℕ → Release → Release
signed user now r =
    if is_signable r.status
    then record r { status = signed_off; signed_off_by = some user; signed_off_at = some now }
    else r

abbrev pub can_sign : String → Bool
can_sign role = str_eq role "owner" || str_eq role "admin"

unfoldable pub sign_refreshed : Tables → ℕ → ℕ → ℕ → Reply × Tables
sign_refreshed db user release now =
    if any (is_remaining release) db.items
    then (refused 400, db)
    else (ok, update_release release (signed user now) db)

-- POST /releases/:id/sign-off
unfoldable pub sign_off : Tables → String → ℕ → ℕ → ℕ → Reply × Tables
sign_off db role user release now =
    if not (can_sign role)
    then (refused 403, db)
    else elim (find (λ (r : Release). r.id == release) db.releases) [
      | none ↦ (refused 404, db)
      | some r ↦
          if is_signable r.status
          then sign_refreshed (refresh_auto_items db release now) user release now
          else (refused 409, db)
    ]

-- The fields of a PATCH of an item; `notes` is that notes are set.
pub record ItemPatch : Type 0 where
  pub checked : Option Bool
  pub notes : Bool
  pub label : Option String
  pub required : Option Bool

abbrev with_checked : Option Bool → ℕ → ℕ → Item → Item
with_checked none user now i = i
with_checked (some true) user now i = record i {
  checked = true;
  checked_by = some user;
  checked_at = some now;
}
with_checked (some false) user now i = record i {
  checked = false;
  checked_by = none;
  checked_at = none;
}

abbrev is_item : ℕ → ℕ → Item → Bool
is_item release item i = i.id == item && i.release_id == release

abbrev is_automatic : Option Item → Bool
is_automatic none = false
is_automatic (some i) = has i.auto_rule

abbrev patched_item : ItemPatch → ℕ → ℕ → Item → Item
patched_item p user now i =
    with_checked p.checked user now
      (record i { label = or_else p.label i.label; required = or_else p.required i.required })

-- PATCH /releases/:releaseId/items/:itemId
unfoldable pub patch_item : Tables → String → ℕ → ℕ → ℕ → ItemPatch → ℕ → Reply × Tables
patch_item db role user release item p now =
    if is_viewer role
    then (refused 403, db)
    else if has p.checked && is_automatic (find (is_item release item) db.items)
    then (refused 409, db)
    else if not (has p.checked) && not p.notes && not (has p.label) && not (has p.required)
    then (refused 400, db)
    else (
      ok,
      record db {
        items =
            map (λ (i : Item). if is_item release item i then patched_item p user now i else i)
              db.items;
      },
    )

-- POST /releases/:id/items
unfoldable pub add_item : Tables → String → ℕ → ℕ → String → Bool → Reply × Tables
add_item db role release id label required =
    if is_viewer role then (refused 403, db) else if str_eq label "" then (refused 400, db) else (
      ok,
      record db {
        items =
            db.items
            ++ item_row release id (record { label = label; required = required; auto_rule = none })
              ∷ [];
      },
    )

-- DELETE /releases/:releaseId/items/:itemId
unfoldable pub delete_item : Tables → String → ℕ → ℕ → Reply × Tables
delete_item db role release item =
    if is_viewer role
    then (refused 403, db)
    else (ok, record db { items = keep (λ (i : Item). not (is_item release item i)) db.items })

-- DELETE /releases/:id, with the rows that go with it (ON DELETE CASCADE).
unfoldable pub delete_release : Tables → String → ℕ → Reply × Tables
delete_release db role release = if is_viewer role then (refused 403, db) else (
  ok,
  record db {
    releases = keep (λ (r : Release). not (r.id == release)) db.releases;
    items = keep (λ (i : Item). not (i.release_id == release)) db.items;
    sessions = keep (λ (s : Session). not (s.release_id == release)) db.sessions;
    results =
        keep
          (λ (r : Result).
            not
              (any (λ (s : Session). s.id == r.session_id && s.release_id == release) db.sessions))
          db.results;
    links = keep (λ (l : Link). not (l.release_id == release)) db.links;
    run_links = keep (λ (l : RunLink). not (l.release_id == release)) db.run_links;
  },
)
