-- ===== src/Triage/Group.antt =====
-- The error_groups table: the triage state of one failure fingerprint in one organisation.
use project_flakey.Prelude.{ℕ, String, Bool, true, false, Option}

pub data GroupStatus : Type 0 where
  open_ investigating known fixed ignored regressed : GroupStatus

pub record ErrorGroup : Type 0 where
  pub org_id : ℕ
  pub fingerprint : String
  pub status : GroupStatus
  pub recurrence_count : ℕ
  pub last_recurred_at : Option ℕ
  pub updated_at : ℕ

-- `status = 'fixed'`
abbrev pub is_fixed : GroupStatus → Bool
is_fixed fixed = true
is_fixed _ = false
