-- ===== src/Audit/Export.antt =====
-- backend/src/audit-export.ts: one destination of the export of the audit log. What becomes of each
-- attempt to read, deliver and save is an input; the destination, its protocol and the lock over all
-- ticks are left out, and a tick is one step.
pub mod Ticks
pub mod History
pub mod Drained
mod Examples
use project_flakey.Prelude.{
  ℕ, zero, suc, ◌+◌, ◌≡◌, String, Bool, true, false, ◌&&◌, Option, none, some, List, [], ◌∷◌, ◌++◌,
  leb, keep, take, length, if◌then◌else◌,
}
use project_flakey.Audit.Chain.{AuditRow, beyond}
use project_flakey.Audit.Chain.Laws.{mine}

-- A row of audit_export_config, without the address of the destination.
pub record ExportConfig : Type 0 where
  pub id : ℕ
  pub org_id : ℕ
  pub last_exported_id : ℕ
  pub consecutive_failures : ℕ
  pub last_error : Option String
  pub last_success_at : Option ℕ

-- The configuration, and what the destination has received.
pub record Export : Type 0 where
  pub config : ExportConfig
  pub received : List AuditRow

-- BATCH_SIZE and MAX_BATCHES_PER_TICK
abbrev pub batch_size : ℕ
batch_size = 500

abbrev pub max_batches_per_tick : ℕ
max_batches_per_tick = 20

-- A batch cannot be read; it is not delivered, or is but the answer is lost, for a reason; it is
-- delivered but the cursor is not saved; or all is well, at a time.
pub data Attempt : Type 0 where
  unread : Attempt
  undelivered lost : String → Attempt
  unsaved : Attempt
  saved : ℕ → Attempt

-- The rows that are still to be exported.
abbrev pub pending : List AuditRow → ExportConfig → List AuditRow
pending log c = keep (beyond (some c.last_exported_id)) (keep (mine c.org_id) log)

-- readBatch
abbrev pub read_batch : ℕ → List AuditRow → ExportConfig → List AuditRow
read_batch size log c = take size (pending log c)

-- `rows[rows.length - 1].id`
abbrev pub last_id : ℕ → List AuditRow → ℕ
last_id at_ [] = at_
last_id at_ (r ∷ rs) = last_id r.id rs

abbrev pub failure : String → ExportConfig → ExportConfig
failure reason c = record c {
  consecutive_failures = c.consecutive_failures + 1;
  last_error = some reason;
}

abbrev pub success : ℕ → List AuditRow → ExportConfig → ExportConfig
success now rows c = record c {
  last_exported_id = last_id c.last_exported_id rows;
  last_success_at = some now;
  consecutive_failures = 0;
  last_error = none;
}

-- The body of the loop on a batch that is not empty, and whether the loop may go on.
unfoldable pub attempt : Attempt → List AuditRow → Export → Export × Bool
attempt unread rows e = (e, false)
attempt (undelivered reason) rows e = (record e { config = failure reason e.config }, false)
attempt (lost reason) rows e =
    (record e { config = failure reason e.config; received = e.received ++ rows }, false)
attempt unsaved rows e = (record e { received = e.received ++ rows }, false)
attempt (saved now) rows e =
    (record e { config = success now rows e.config; received = e.received ++ rows }, true)

abbrev pub is_nil : List AuditRow → Bool
is_nil [] = true
is_nil (r ∷ rs) = false

-- The loop of flushConfig over at most so many batches of the given size.
unfoldable pub flush_batches : ℕ → ℕ → (ℕ → Attempt) → List AuditRow → Export → Export
flush_batches size zero outcome log e = e
flush_batches size (suc budget) outcome log e =
    let rows = read_batch size log e.config in
    let after = attempt (outcome budget) rows e in
    let rest = flush_batches size budget outcome log after.0 in
    if is_nil rows then e else if after.1 && leb size (length rows) then rest else after.0

-- flushConfig
unfoldable pub flush_config : (ℕ → Attempt) → List AuditRow → Export → Export
flush_config outcome log e = flush_batches batch_size max_batches_per_tick outcome log e
