-- ===== src/Quarantine/Table.antt =====
-- backend/src/routes/quarantine.ts: the handlers that write quarantined_tests. Text that is missing
-- from a body is the empty string; audit rows and the reply to a failing database are left out.
pub mod Laws
use project_flakey.Prelude.{
  ℕ, ◌+◌, ◌<◌, ◌≡◌, refl, ap, ◌∙◌, String, Bool, true, false, ◌&&◌, ◌||◌, not, Option, none, some,
  List, [], ◌∷◌, ◌++◌, map, ◌==◌, ==-refl, str_eq, str_eq_refl, find, find_sound, find-none,
  find-map, find-snoc, keep, keep-keep, if◌then◌else◌, arith, Bool-cases, Option-cases, inl, inr,
  All, keep_none, keep_after, All-const,
}
use mathlib.Core.Option
use project_flakey.Quarantine.Lifecycle.{
  RawExpiry, ParsedExpiry, absent, valid, invalid, InvalidReason, parse_expires_at,
  parse_expires_at_valid, is_md5_hex,
}

pub data Source : Type 0 where
  manual auto : Source

pub data Reason : Type 0 where
  unstated : Reason
  written : String → Reason
  flips : (flip_count total_runs : ℕ) → Reason

pub record QuarantineRow : Type 0 where
  pub id : ℕ
  pub org_id : ℕ
  pub full_title : String
  pub file_path : String
  pub suite_name : String
  pub reason : Reason
  pub quarantined_by : Option ℕ
  pub created_at : ℕ
  pub expires_at : Option ℕ
  pub error_fingerprint : Option String
  pub source : Source

pub record Table : Type 0 where
  pub rows : List QuarantineRow
  pub next : ℕ

pub record Body : Type 0 where
  pub full_title : String
  pub file_path : String
  pub suite_name : String
  pub reason : Option String
  pub expires_at : RawExpiry
  pub error_fingerprint : String

pub data Reply : Type 0 where
  forbidden missing_field bad_fingerprint removed : Reply
  bad_expiry : InvalidReason → Reply
  created : ℕ → Reply

-- The unique key (org_id, full_title, suite_name).
abbrev pub is_entry : ℕ → String → String → QuarantineRow → Bool
is_entry org title suite r =
    r.org_id == org && str_eq r.full_title title && str_eq r.suite_name suite

abbrev reason_of : Option String → Reason
reason_of none = unstated
reason_of (some s) = written s

-- `error_fingerprint != null && error_fingerprint !== ""`
abbrev fingerprint_of : String → Option String
fingerprint_of s = if str_eq s "" then none else some s

-- DO UPDATE SET
abbrev pub overwrite : Body → ℕ → ℕ → Option ℕ → QuarantineRow → QuarantineRow
overwrite b user now expiry r = record r {
  reason = reason_of b.reason;
  quarantined_by = some user;
  created_at = now;
  expires_at = expiry;
  error_fingerprint = fingerprint_of b.error_fingerprint;
}

-- INSERT ... VALUES
abbrev pub fresh_entry : ℕ → ℕ → ℕ → Body → ℕ → Option ℕ → QuarantineRow
fresh_entry n org user b now expiry = record {
  id = n;
  org_id = org;
  full_title = b.full_title;
  file_path = b.file_path;
  suite_name = b.suite_name;
  reason = reason_of b.reason;
  quarantined_by = some user;
  created_at = now;
  expires_at = expiry;
  error_fingerprint = fingerprint_of b.error_fingerprint;
  source = manual;
}

unfoldable pub upsert_quarantine : Table → ℕ → ℕ → Body → ℕ → Option ℕ → Table × ℕ
upsert_quarantine t org user b now expiry =
    elim (find (is_entry org b.full_title b.suite_name) t.rows) [
      | none ↦ (
        record t {
          rows = t.rows ++ fresh_entry t.next org user b now expiry ∷ [];
          next = t.next + 1;
        },
        t.next,
      )
      | some r ↦ (
        record t {
          rows = map (λ q. if q.id == r.id then overwrite b user now expiry q else q) t.rows;
        },
        r.id,
      )
    ]

abbrev expiry_of : ParsedExpiry → Option ℕ
expiry_of (valid ms) = some ms
expiry_of _ = none

save : Table → ℕ → ℕ → Body → ℕ → Option ℕ → Table × Reply
save t org user b now expiry =
    let (t', id) = upsert_quarantine t org user b now expiry in (t', created id)

-- The checks after the expiry was parsed.
checked : ParsedExpiry → Table → ℕ → ℕ → Body → ℕ → Table × Reply
unfolding save
checked (invalid why) t org user b now = (t, bad_expiry why)
checked parsed t org user b now =
    if str_eq b.error_fingerprint "" || is_md5_hex b.error_fingerprint
    then save t org user b now (expiry_of parsed)
    else (t, bad_fingerprint)

-- POST /quarantine; `role` is the caller's role in the organisation
unfoldable pub post_quarantine : Table → ℕ → ℕ → String → Body → ℕ → Table × Reply
unfolding checked
post_quarantine t org user role b now =
    if str_eq role "viewer"
    then (t, forbidden)
    else if str_eq b.full_title "" || str_eq b.suite_name ""
    then (t, missing_field)
    else checked (parse_expires_at b.expires_at now) t org user b now

-- DELETE /quarantine
unfoldable pub delete_quarantine : Table → ℕ → String → String → String → Table × Reply
delete_quarantine t org role title suite =
    if str_eq role "viewer"
    then (t, forbidden)
    else if str_eq title "" || str_eq suite ""
    then (t, missing_field)
    else (record t { rows = keep (λ r. not (is_entry org title suite r)) t.rows }, removed)
