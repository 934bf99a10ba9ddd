-- ===== src/Triage/Recurrence.antt =====
-- backend/src/error-recurrence.ts: a fixed error group whose failure comes back is reopened.
pub mod Laws
use project_flakey.Prelude.{
  ℕ, ◌+◌, String, Bool, ◌&&◌, Option, none, some, List, [], ◌∷◌, ◌++◌, map, ◌==◌, str_eq, any, keep,
  if◌then◌else◌,
}
use project_flakey.Run.Data.{NormalizedRun, NormalizedSpec, NormalizedTest, failed, has_status}
use project_flakey.Triage.Group.{ErrorGroup, regressed, is_fixed}

-- `seen.add(x)` on a `Set`, which keeps the order of insertion
abbrev pub add : String → List String → List String
add x seen = if any (str_eq x) seen then seen else seen ++ x ∷ []

-- `t.error?.message`, with the empty message counted as missing
abbrev pub message_of : NormalizedTest → Option String
message_of t = elim t.error [
  | none ↦ none
  | some e ↦ if str_eq e.message "" then none else some e.message
]

-- `md5` is node's digest, which the source does not define.
module _ (md5 : String → String) where
  pub compute_fingerprint : String → String → String
  compute_fingerprint message suite =
      md5 (Prim.Native.String.◌++◌ message (Prim.Native.String.◌++◌ "|" suite))

  -- the body of the inner loop of `failingFingerprints`
  visit_test : String → List String → NormalizedTest → List String
  visit_test suite seen t =
      if has_status failed t
      then elim (message_of t) [ none ↦ seen | some m ↦ add (compute_fingerprint m suite) seen ]
      else seen

  visit_tests : String → List String → List NormalizedTest → List String
  visit_tests suite seen [] = seen
  visit_tests suite seen (t ∷ ts) = visit_tests suite (visit_test suite seen t) ts

  visit_specs : String → List String → List NormalizedSpec → List String
  visit_specs suite seen [] = seen
  visit_specs suite seen (s ∷ ss) = visit_specs suite (visit_tests suite seen s.tests) ss

  unfoldable pub failing_fingerprints : NormalizedRun → List String
  unfolding visit_specs visit_tests visit_test compute_fingerprint
  failing_fingerprints run = visit_specs run.meta.suite_name [] run.specs

-- the WHERE clause: org_id = $1 AND fingerprint = ANY($2) AND status = 'fixed'
abbrev pub is_hit : ℕ → List String → ErrorGroup → Bool
is_hit org fps g = g.org_id == org && any (str_eq g.fingerprint) fps && is_fixed g.status

-- the SET clause
abbrev pub reopen : ℕ → ErrorGroup → ErrorGroup
reopen now g = record g {
  status = regressed;
  recurrence_count = g.recurrence_count + 1;
  last_recurred_at = some now;
  updated_at = now;
}

abbrev pub update_group : ℕ → ℕ → List String → ErrorGroup → ErrorGroup
update_group now org fps g = if is_hit org fps g then reopen now g else g

-- The table after the UPDATE, and the fingerprints that it returns.
unfoldable pub record_error_recurrence :
    ℕ → ℕ → List String → List ErrorGroup → List ErrorGroup × List String
record_error_recurrence now org [] groups = (groups, [])
record_error_recurrence now org (f ∷ fs) groups = (
  map (update_group now org (f ∷ fs)) groups,
  map (λ g. g.fingerprint) (keep (is_hit org (f ∷ fs)) groups),
)
