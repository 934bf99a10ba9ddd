-- ===== src/Triage/Autoclose.antt =====
-- backend/src/error-automation.ts (isAutocloseEligible) and autocloseStaleErrorGroups of
-- backend/src/retention.ts: groups that stayed green for the organisation's window are closed.
-- The audit rows, webhooks and Jira calls of the sweep are left out.
use project_flakey.Prelude.{
  ℕ, ◌+◌, ◌*◌, String, Bool, true, false, ◌&&◌, Option, none, some, List, [], ◌∷◌, map, ◌==◌,
  str_eq, ltb, keep, if◌then◌else◌, max,
}
use project_flakey.Prelude.Js.{Number, nat, TimeValue, missing, at, day_ms}
use project_flakey.Triage.Group.{GroupStatus, open_, investigating, fixed, regressed, ErrorGroup}
pub mod Passes
pub mod Exactness

abbrev pub is_autoclose_eligible_status : GroupStatus → Bool
is_autoclose_eligible_status open_ = true
is_autoclose_eligible_status investigating = true
is_autoclose_eligible_status regressed = true
is_autoclose_eligible_status _ = false

-- `days != null && Number.isFinite(days) && days > 0`, with the window
abbrev pub window : Option Number → Option ℕ
window none = none
window (some (nat n)) = if ltb 0 n then some n else none
window (some _) = none

-- lastSeen < now - days * day_ms; both sides are moved so that no difference is below 0
abbrev older : TimeValue → ℕ → ℕ → Bool
older (at last) days now = ltb (last + days * day_ms) now
older _ days now = false

-- The tests on the status and the time, for a window that is on.
abbrev pub eligible_in : Option ℕ → GroupStatus → TimeValue → ℕ → Bool
eligible_in none status last now = false
eligible_in (some days) status last now =
    if is_autoclose_eligible_status status then older last days now else false

unfoldable pub is_autoclose_eligible : GroupStatus → TimeValue → Option Number → ℕ → Bool
is_autoclose_eligible status last_seen autoclose_days now =
    eligible_in (window autoclose_days) status last_seen now

-- eg.org_id = $1 AND eg.status = ANY($2)
abbrev pub is_candidate : ℕ → ErrorGroup → Bool
is_candidate org g = g.org_id == org && is_autoclose_eligible_status g.status

-- `seen` is the lateral join: the latest run in which a fingerprint failed.
module _ (seen : String → Option ℕ) where
  abbrev pub last_seen_of : ErrorGroup → TimeValue
  last_seen_of g = elim (seen g.fingerprint) [ none ↦ missing | some t ↦ at t ]

  -- The candidates that pass the predicate, by their fingerprints.
  unfoldable pub to_close : ℕ → Option Number → ℕ → List ErrorGroup → List String
  to_close org days now groups =
      map (λ g. g.fingerprint)
        (keep (λ g. is_autoclose_eligible g.status (last_seen_of g) days now)
          (keep (is_candidate org) groups))

abbrev pub close_group : ℕ → ErrorGroup → ErrorGroup
close_group now g = record g { status = fixed; updated_at = now }

-- UPDATE … WHERE org_id = $1 AND fingerprint = $2 AND status = ANY($3)
abbrev pub is_target : ℕ → String → ErrorGroup → Bool
is_target org fp g =
    g.org_id == org && str_eq g.fingerprint fp && is_autoclose_eligible_status g.status

unfoldable pub close_one : ℕ → ℕ → String → List ErrorGroup → List ErrorGroup
close_one now org fp = map (λ g. if is_target org fp g then close_group now g else g)

-- The loop over the rows to close.
unfoldable pub close_all : ℕ → ℕ → List String → List ErrorGroup → List ErrorGroup
close_all now org [] groups = groups
close_all now org (fp ∷ fps) groups = close_all now org fps (close_one now org fp groups)

-- `days` is the organisation's setting; one that is absent or not positive switches the sweep off.
unfoldable pub autoclose_stale_error_groups :
    (String → Option ℕ) → ℕ → Option Number → ℕ → List ErrorGroup → List ErrorGroup
autoclose_stale_error_groups seen org days now groups = elim (window days) [
  | none ↦ groups
  | some n ↦ close_all now org (to_close seen org days now groups) groups
]
