-- ===== src/Triage/Priority.antt =====
-- backend/src/error-automation.ts: the priority that an error group gets while no human set one.
use project_flakey.Prelude.{
  ℕ, ◌≤◌, ◌<◌, ◌≡◌, ◌↔◌, ◌||◌, Option, none, some, leb, ltb, min, if◌then◌else◌, arith,
}
use project_flakey.Prelude.Js.{Number, clamp}

pub data ErrorPriority : Type 0 where
  low medium high critical : ErrorPriority

pub record DerivedPrioritySignals : Type 0 where
  pub occurrence_count : Number
  pub affected_runs : Number
  pub flaky_rate : Option Number

-- `order.indexOf(band)` in ["low", "medium", "high", "critical"]
abbrev pub rank : ErrorPriority → ℕ
rank low = 0
rank medium = 1
rank high = 2
rank critical = 3

-- The rate in 0 … 100; a missing or non-finite one counts as 0.
abbrev pub flaky_of : Option Number → ℕ
flaky_of none = 0
flaky_of (some r) = min 100 (clamp r)

abbrev band_of : ℕ → ℕ → ErrorPriority
band_of runs occ =
    if leb 10 runs
    then critical
    else if leb 5 runs || leb 20 occ
    then high
    else if leb 2 runs || leb 5 occ
    then medium
    else low

-- A rate of 50 or more caps the band at medium.
banded : ℕ → ℕ → ℕ → ErrorPriority
banded runs occ flaky =
    let band = band_of runs occ in
    if leb 50 flaky then if ltb (rank medium) (rank band) then medium else band else band

unfoldable pub derive_error_priority : DerivedPrioritySignals → ErrorPriority
unfolding banded
derive_error_priority s =
    banded (clamp s.affected_runs) (clamp s.occurrence_count) (flaky_of s.flaky_rate)

-- One group is at least as alarming as another.
pub record IsWorse (s t : DerivedPrioritySignals) : Type 0 where
  pub runs : clamp s.affected_runs ≤ clamp t.affected_runs
  pub occurrences : clamp s.occurrence_count ≤ clamp t.occurrence_count
  pub flakiness : flaky_of t.flaky_rate ≤ flaky_of s.flaky_rate

banded_mono :
    (r o f r' o' f' : ℕ) → r ≤ r' → o ≤ o' → f' ≤ f → rank (banded r o f) ≤ rank (banded r' o' f')
unfolding banded
banded_mono r o f r' o' f' hr ho hf = ground arith

-- The priority grows with the affected runs and with the occurrences, and falls with the flaky rate,
-- where non-finite and negative signals count as 0 and the rate as at most 100.
pub derive_error_priority_mono :
    (s t : DerivedPrioritySignals)
    → IsWorse s t
    → rank (derive_error_priority s) ≤ rank (derive_error_priority t)
unfolding derive_error_priority
derive_error_priority_mono s t h =
    banded_mono (clamp s.affected_runs) (clamp s.occurrence_count) (flaky_of s.flaky_rate)
      (clamp t.affected_runs) (clamp t.occurrence_count) (flaky_of t.flaky_rate) h.runs
      h.occurrences h.flakiness

banded_bands :
    (r o f : ℕ)
    → ((banded r o f ≡ critical) ↔ ((10 ≤ r) × (f < 50)))
      × (50 ≤ f → rank (banded r o f) ≤ rank medium)
      × ((banded r o f ≡ low) ↔ ((r < 2) × (o < 5)))
unfolding banded
banded_bands r o f = (
  (λ h. (ground arith, ground arith), λ h. ground arith),
  λ h. ground arith,
  (λ h. (ground arith, ground arith), λ h. ground arith),
)

-- Critical is derived exactly for 10 or more affected runs and a flaky rate under 50, a rate of 50
-- or more never gives more than medium, and low is derived exactly for fewer than 2 runs and fewer
-- than 5 occurrences.
pub derive_error_priority_bands :
    (s : DerivedPrioritySignals)
    → let runs = clamp s.affected_runs in
      let flaky = flaky_of s.flaky_rate in
      ((derive_error_priority s ≡ critical) ↔ ((10 ≤ runs) × (flaky < 50)))
      × (50 ≤ flaky → rank (derive_error_priority s) ≤ rank medium)
      × ((derive_error_priority s ≡ low) ↔ ((runs < 2) × (clamp s.occurrence_count < 5)))
unfolding derive_error_priority
derive_error_priority_bands s =
    banded_bands (clamp s.affected_runs) (clamp s.occurrence_count) (flaky_of s.flaky_rate)
