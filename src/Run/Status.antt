-- ===== src/Run/Status.antt =====
-- backend/src/run-status.ts: the ship-gate status of a run.
use project_flakey.Prelude.{
  ℕ, ◌+◌, ◌≤◌, ◌≡◌, ◌↔◌, Bool, true, false, Option, none, some, ltb, if◌then◌else◌, arith,
}
use project_flakey.Run.Data.{Stats, IsBalanced}

pub data ShipStatus : Type 0 where
  passed failed incomplete aborted : ShipStatus

pub record RunStatusInput : Type 0 where
  pub failed : ℕ
  pub aborted : Bool
  pub finished_at : Option ℕ
  pub total : ℕ
  pub passed : ℕ
  pub skipped : ℕ

-- `x === null`
abbrev pub is_none {ℓ} : {A : Type ℓ} → Option A → Bool
is_none none = true
is_none (some _) = false

unfoldable pub classify_run_status : RunStatusInput → ShipStatus
classify_run_status run =
    if ltb 0 run.failed
    then ShipStatus.failed
    else if run.aborted
    then ShipStatus.aborted
    else if is_none run.finished_at
    then incomplete
    else if ltb (run.passed + run.skipped) run.total
    then incomplete
    else ShipStatus.passed

-- The run is a clean pass: finished, not aborted, no failure, and a result for every test.
pub record IsCleanPass (run : RunStatusInput) : Type 0 where
  pub no_failure : run.failed ≡ 0
  pub not_aborted : run.aborted ≡ false
  pub finished : is_none run.finished_at ≡ false
  pub complete : run.total ≤ run.passed + run.skipped

-- A run is classified as passed exactly when it is a clean pass: no failure, not aborted, finished,
-- and passed + skipped accounts for the total.
pub classify_run_status_iff :
    (run : RunStatusInput) → (classify_run_status run ≡ ShipStatus.passed) ↔ IsCleanPass run
unfolding classify_run_status
classify_run_status_iff run = (λ h. ground arith, λ h. ground arith)

abbrev pub input_of : Stats → Bool → Option ℕ → RunStatusInput
input_of s was_aborted finished_at = record {
  failed = s.failed;
  aborted = was_aborted;
  finished_at = finished_at;
  total = s.total;
  passed = s.passed;
  skipped = s.skipped;
}

-- For a run whose counters balance, a passed status means that no test failed, none is pending,
-- and the total is passed + skipped.
pub classify_run_status-IsBalanced :
    (s : Stats) (was_aborted : Bool) (finished_at : Option ℕ)
    → IsBalanced s
    → classify_run_status (input_of s was_aborted finished_at) ≡ ShipStatus.passed
    → (s.failed ≡ 0) × (s.pending ≡ 0) × (s.total ≡ s.passed + s.skipped)
classify_run_status-IsBalanced s was_aborted finished_at b h =
    let c = (classify_run_status_iff (input_of s was_aborted finished_at)).0 h in
    (c.no_failure, omega arith, omega arith)
