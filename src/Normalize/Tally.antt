-- ===== src/Normalize/Tally.antt =====
-- The counts that the normalizers of backend/src/normalizers compute from their tests and specs.
use project_flakey.Prelude.{
  ℕ, ◌+◌, ◌≡◌, List, [], ◌∷◌, length, keep, count_if, length-keep, sum_by, if◌then◌else◌, arith,
  All, All-imp, refl,
}
use project_flakey.Run.Data.{
  Stats, TestStatus, passed, failed, skipped, pending, NormalizedTest, NormalizedSpec, has_status,
  same_status, IsBalanced,
}

-- `tests.filter((t) => t.status === s).length`
abbrev pub with_status : TestStatus → List NormalizedTest → ℕ
with_status s ts = length (keep (has_status s) ts)

-- The stats of a spec.
unfoldable pub spec_stats : List NormalizedTest → Stats
spec_stats ts = record {
  total = length ts;
  passed = with_status passed ts;
  failed = with_status failed ts;
  skipped = with_status skipped ts;
  pending = with_status pending ts;
  duration_ms = sum_by (λ t. t.duration_ms) ts;
}

-- The stats of the run.
unfoldable pub run_stats : List NormalizedSpec → Stats
run_stats specs = record {
  total = sum_by (λ s. s.stats.total) specs;
  passed = sum_by (λ s. s.stats.passed) specs;
  failed = sum_by (λ s. s.stats.failed) specs;
  skipped = sum_by (λ s. s.stats.skipped) specs;
  pending = sum_by (λ s. s.stats.pending) specs;
  duration_ms = sum_by (λ s. s.stats.duration_ms) specs;
}

one_status :
    (s : TestStatus)
    → 1
      ≡ (if same_status s passed then 1 else 0)
        + (if same_status s failed then 1 else 0)
        + (if same_status s skipped then 1 else 0)
        + (if same_status s pending then 1 else 0)
one_status passed = omega arith
one_status failed = omega arith
one_status skipped = omega arith
one_status pending = omega arith

status_counts :
    (ts : List NormalizedTest)
    → length ts
      ≡ count_if (has_status passed) ts
        + count_if (has_status failed) ts
        + count_if (has_status skipped) ts
        + count_if (has_status pending) ts
status_counts [] = omega arith
status_counts (t ∷ ts) = omega (arith, one_status t.status, status_counts ts)

pub spec_stats-IsBalanced : (ts : List NormalizedTest) → IsBalanced (spec_stats ts)
unfolding spec_stats
spec_stats-IsBalanced ts = omega (
  arith,
  status_counts ts,
  length-keep (has_status passed) ts,
  length-keep (has_status failed) ts,
  length-keep (has_status skipped) ts,
  length-keep (has_status pending) ts,
)

pub run_stats-IsBalanced :
    (specs : List NormalizedSpec)
    → All (λ s. IsBalanced s.stats) specs
    → IsBalanced (run_stats specs)
unfolding run_stats
run_stats-IsBalanced [] h = omega arith
run_stats-IsBalanced (s ∷ specs) (own, rest) =
    let ih : IsBalanced (run_stats specs) = run_stats-IsBalanced specs rest in omega arith

-- The stats of a run whose pending tests are counted in the tests of its specs.
unfoldable pub counted_stats : List NormalizedSpec → Stats
counted_stats specs = record (run_stats specs) {
  pending = sum_by (λ s. with_status pending s.tests) specs;
}

-- A spec whose counters balance and whose pending tests are those of its tests.
abbrev pub IsCounted : NormalizedSpec → Type 0
IsCounted s = IsBalanced s.stats × (s.stats.pending ≡ with_status pending s.tests)

counted_pending :
    (specs : List NormalizedSpec)
    → All IsCounted specs
    → sum_by (λ s. with_status pending s.tests) specs ≡ sum_by (λ s. s.stats.pending) specs
counted_pending [] h = refl
counted_pending (s ∷ ss) h = let rest = counted_pending ss h.1 in let own = h.0.1 in omega arith

pub counted_stats-IsBalanced :
    (specs : List NormalizedSpec) → All IsCounted specs → IsBalanced (counted_stats specs)
unfolding counted_stats run_stats
counted_stats-IsBalanced specs h =
    let whole : IsBalanced (run_stats specs) =
      run_stats-IsBalanced specs
        (All-imp IsCounted (λ s. IsBalanced s.stats) (λ s c. c.0) specs h) in
    let same = counted_pending specs h in omega arith
