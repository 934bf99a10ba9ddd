-- ===== src/Quarantine/Sweep.antt =====
-- backend/src/retention.ts, expireQuarantines. `db_now` is NOW() of the database, `now` the time of
-- the process. A query of an organisation may fail: `failing o` is the number of its deletions
-- before that, if any, and the rest of the loop over the organisations goes on. The audit rows and
-- the log are left out.
pub mod Laws
use project_flakey.Prelude.{
  ℕ, ◌<◌, ◌≡◌, Bool, true, false, ◌&&◌, not, Option, none, some, List, [], ◌∷◌, ◌==◌, ltb, keep,
  take, if◌then◌else◌,
}
use project_flakey.Prelude.Js.{TimeValue, missing, at}
use project_flakey.Quarantine.Lifecycle.{is_quarantine_expired}
use project_flakey.Quarantine.Table.{QuarantineRow, Table}

abbrev pub time_of : Option ℕ → TimeValue
time_of none = missing
time_of (some ms) = at ms

-- expires_at IS NOT NULL AND expires_at < NOW()
abbrev pub past_sql : ℕ → Option ℕ → Bool
past_sql db_now none = false
past_sql db_now (some ms) = ltb ms db_now

-- SELECT ... FROM quarantined_tests, under one organisation, then the filter by the predicate
unfoldable pub expired_rows : List QuarantineRow → ℕ → ℕ → ℕ → List QuarantineRow
expired_rows rows org db_now now =
    keep (λ r. is_quarantine_expired (time_of r.expires_at) now)
      (keep (λ r. r.org_id == org && past_sql db_now r.expires_at) rows)

-- DELETE ... WHERE id = $1 AND expires_at IS NOT NULL AND expires_at < NOW()
abbrev pub delete_expired : List QuarantineRow → ℕ → ℕ → ℕ → List QuarantineRow
delete_expired rows org db_now id =
    keep (λ r. not (r.org_id == org && r.id == id && past_sql db_now r.expires_at)) rows

unfoldable pub delete_each : List QuarantineRow → ℕ → ℕ → List QuarantineRow → List QuarantineRow
delete_each [] org db_now rows = rows
delete_each (r ∷ rs) org db_now rows =
    delete_each rs org db_now (delete_expired rows org db_now r.id)

-- The rows that are deleted before a failure.
abbrev pub before_failure : Option ℕ → List QuarantineRow → List QuarantineRow
before_failure none rs = rs
before_failure (some n) rs = take n rs

unfoldable pub expire_quarantines :
    (failing : ℕ → Option ℕ) (orgs : List ℕ) (db_now now : ℕ)
    → List QuarantineRow
    → List QuarantineRow
expire_quarantines failing [] db_now now rows = rows
expire_quarantines failing (org ∷ orgs) db_now now rows =
    expire_quarantines failing orgs db_now now (
      delete_each (before_failure (failing org) (expired_rows rows org db_now now)) org db_now rows)
