-- ===== src/Quarantine/Display.antt =====
-- frontend/src/lib/utils/quarantine-display.ts: the badge that shows a quarantine's lifecycle. The
-- label is given by its template and value.
use project_flakey.Prelude.{
  ℕ, ◌-◌, ◌≡◌, refl, Bool, true, false, Option, none, some, leb, ◌==◌, if◌then◌else◌, arith, ◌↔◌,
}
use project_flakey.Prelude.Js.{TimeValue, missing, empty, unreadable, at}
use project_flakey.Quarantine.Lifecycle.{
  ExpiryState, unlimited, active, expired, ceil_days, quarantine_expiry_state,
  is_quarantine_expired,
}

pub data Label : Type 0 where
  muted_no_expiry muted_expired expiring_in_one_day : Label
  expiring_in_days : ℕ → Label

pub record QuarantineDisplay : Type 0 where
  pub state : ExpiryState
  pub days_remaining : Option ℕ
  pub label : Label
  pub expiring_soon : Bool

no_expiry : QuarantineDisplay
no_expiry = record {
  state = unlimited;
  days_remaining = none;
  label = muted_no_expiry;
  expiring_soon = false;
}

unfoldable pub quarantine_display : TimeValue → ℕ → ℕ → QuarantineDisplay
unfolding no_expiry
quarantine_display missing now soon_days = no_expiry
quarantine_display empty now soon_days = no_expiry
quarantine_display unreadable now soon_days = no_expiry
quarantine_display (at ms) now soon_days =
    if leb ms now
    then record {
      state = expired;
      days_remaining = some 0;
      label = muted_expired;
      expiring_soon = false;
    }
    else let days = ceil_days (ms - now) in
      record {
        state = active;
        days_remaining = some days;
        label = if days == 1 then expiring_in_one_day else expiring_in_days days;
        expiring_soon = leb days soon_days;
      }

-- The badge shows the state and the days that the backend computes, and it reads "expired" exactly
-- when the backend's predicate holds.
pub display-agrees :
    (t : TimeValue) (now soon_days : ℕ)
    → ((quarantine_display t now soon_days).state ≡ (quarantine_expiry_state t now).state)
      × ((quarantine_display t now soon_days).days_remaining
          ≡ (quarantine_expiry_state t now).days_remaining)
      × (((quarantine_display t now soon_days).label ≡ muted_expired)
          ↔ (is_quarantine_expired t now ≡ true))
unfolding quarantine_display is_quarantine_expired
display-agrees missing now soon_days = (refl, refl, (λ h. cc, λ h. cc))
display-agrees empty now soon_days = (refl, refl, (λ h. cc, λ h. cc))
display-agrees unreadable now soon_days = (refl, refl, (λ h. cc, λ h. cc))
display-agrees (at ms) now soon_days =
    (ground arith, ground arith, (λ h. ground arith, λ h. ground arith))
