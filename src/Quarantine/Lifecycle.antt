-- ===== src/Quarantine/Lifecycle.antt =====
-- backend/src/quarantine-lifecycle.ts. `now` is in epoch milliseconds.
use Prim.Native.Char.{code}
use project_flakey.Prelude.{
  ℕ, ◌+◌, ◌-◌, ◌*◌, ◌/◌, ◌≤◌, ◌<◌, ◌≡◌, ◌↔◌, String, Bool, true, false, ◌&&◌, ◌||◌, Option, none,
  some, leb, ◌==◌, if◌then◌else◌, arith, refl,
}
use project_flakey.Prelude.Js.{Number, nat, TimeValue, missing, empty, unreadable, at, day_ms}

hex_char : ℕ → Bool
hex_char c = (leb b'0' c && leb c b'9') || (leb b'a' c && leb c b'f')

abbrev hex_chars : String → Bool
hex_chars String.[] = true
hex_chars (String.◌∷◌ c s) = hex_char (code c) && hex_chars s

abbrev size : String → ℕ
size String.[] = 0
size (String.◌∷◌ c s) = size s + 1

-- /^[0-9a-f]{32}$/ on a string
unfoldable pub is_md5_hex : String → Bool
unfolding hex_char
is_md5_hex s = size s == 32 && hex_chars s

-- `expires_at` as a client sends it: a time, or a value of another type.
pub data RawExpiry : Type 0 where
  time : TimeValue → RawExpiry
  other : RawExpiry

pub data InvalidReason : Type 0 where
  not_text unparseable not_future : InvalidReason

pub data ParsedExpiry : Type 0 where
  absent : ParsedExpiry
  valid : ℕ → ParsedExpiry
  invalid : InvalidReason → ParsedExpiry

unfoldable pub parse_expires_at : RawExpiry → ℕ → ParsedExpiry
parse_expires_at (time missing) now = absent
parse_expires_at (time empty) now = absent
parse_expires_at other now = invalid not_text
parse_expires_at (time unreadable) now = invalid unparseable
parse_expires_at (time (at ms)) now = if leb ms now then invalid not_future else valid ms

pub data ExpiryState : Type 0 where
  unlimited active expired : ExpiryState

pub record QuarantineExpiryState : Type 0 where
  pub state : ExpiryState
  pub days_remaining : Option ℕ

-- Math.ceil(d / day_ms)
abbrev pub ceil_days : ℕ → ℕ
ceil_days d = (d + 86399999) / 86400000

unfoldable pub quarantine_expiry_state : TimeValue → ℕ → QuarantineExpiryState
quarantine_expiry_state (at ms) now =
    if leb ms now
    then record { state = expired; days_remaining = some 0 }
    else record { state = active; days_remaining = some (ceil_days (ms - now)) }
quarantine_expiry_state _ now = record { state = unlimited; days_remaining = none }

-- `state === "expired"`
abbrev pub is_expired_state : ExpiryState → Bool
is_expired_state expired = true
is_expired_state _ = false

unfoldable pub is_quarantine_expired : TimeValue → ℕ → Bool
unfolding quarantine_expiry_state
is_quarantine_expired t now = is_expired_state (quarantine_expiry_state t now).state

abbrev pub quarantine_suggestion_flaky_rate : ℕ
quarantine_suggestion_flaky_rate = 50

-- `threshold` is the optional argument.
unfoldable pub should_suggest_quarantine : Option Number → Bool → Option ℕ → Bool
should_suggest_quarantine rate true threshold = false
should_suggest_quarantine none false threshold = false
should_suggest_quarantine (some (nat r)) false none = leb quarantine_suggestion_flaky_rate r
should_suggest_quarantine (some (nat r)) false (some t) = leb t r
should_suggest_quarantine (some _) false threshold = false

-- An expiry in the future is active, and the days shown are the least number of whole days that
-- covers the time left, never 0.
pub days_remaining_ceil :
    (ms now : ℕ)
    → now < ms
    → (d : ℕ) × ((quarantine_expiry_state (at ms) now).state ≡ active)
      × ((quarantine_expiry_state (at ms) now).days_remaining ≡ some d)
      × (0 < d)
      × (ms ≤ now + d * day_ms)
      × (now + (d - 1) * day_ms < ms)
unfolding quarantine_expiry_state
days_remaining_ceil ms now h =
    (ceil_days (ms - now), ground arith, ground arith, omega arith, omega arith, omega arith)

-- A quarantine is expired exactly when it has a readable expiry that is not after now.
pub is_quarantine_expired_iff :
    (t : TimeValue) (now : ℕ)
    → (is_quarantine_expired t now ≡ true) ↔ ((ms : ℕ) × (t ≡ at ms) × (ms ≤ now))
unfolding is_quarantine_expired
is_quarantine_expired_iff missing now = (λ h. cc, λ h. cc h.1)
is_quarantine_expired_iff empty now = (λ h. cc, λ h. cc h.1)
is_quarantine_expired_iff unreadable now = (λ h. cc, λ h. cc h.1)
is_quarantine_expired_iff (at ms) now = (λ h. (ms, refl, ground arith), λ h. ground arith)

-- An expiry that the route accepts is not expired at that moment; it is a time after it.
pub parse_expires_at_valid :
    (raw : RawExpiry) (now : ℕ) {ms : ℕ}
    → parse_expires_at raw now ≡ valid ms
    → (now < ms) × (raw ≡ time (at ms)) × (is_quarantine_expired (at ms) now ≡ false)
unfolding parse_expires_at is_quarantine_expired
parse_expires_at_valid (time (at m)) now e = (ground arith, ground arith, ground arith)
parse_expires_at_valid (time missing) now e = cc
parse_expires_at_valid (time empty) now e = cc
parse_expires_at_valid (time unreadable) now e = cc
parse_expires_at_valid other now e = cc
