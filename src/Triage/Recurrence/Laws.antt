-- ===== src/Triage/Recurrence/Laws.antt =====
-- Which fingerprints an upload reports, and that a recurrence is counted once.
use mathlib.Core.Path.{ap₂}
use project_flakey.Prelude.{
  ℕ, ◌≡◌, refl, ap, ◌∙◌, String, Bool, false, ◌&&◌, ◌||◌, Option, none, some, List, [], ◌∷◌, ◌++◌,
  map, str_eq, str_eq_iff, str_eq_refl, any, keep_none, arith, All, All-const, Distinct,
  Distinct-snoc, map_after, map_eq, Bool-cases, Option-cases, inl, inr, All-image,
}
use project_flakey.Run.Data.{NormalizedRun, NormalizedSpec, NormalizedTest, failed, has_status}
use project_flakey.Triage.Group.{ErrorGroup}
use project_flakey.Triage.Recurrence.{
  add, message_of, compute_fingerprint, visit_test, visit_tests, visit_specs, failing_fingerprints,
  is_hit, update_group, record_error_recurrence,
}

abbrev pub Apart : String → String → Type 0
Apart a b = str_eq a b ≡ false

any-snoc :
    (p : String → Bool) (xs : List String) (x : String) → any p (xs ++ x ∷ []) ≡ (any p xs || p x)
any-snoc p [] x = ground arith
any-snoc p (y ∷ ys) x = ground (arith, any-snoc p ys x)

pub any-add :
    (f x : String) (seen : List String)
    → any (str_eq f) (add x seen) ≡ (any (str_eq f) seen || str_eq f x)
any-add f x seen = elim (Bool-cases (str_eq f x)) [
  | inl same ↦
      let e : f ≡ x = (str_eq_iff f x).0 same in
      rw e (ground (arith, any-snoc (str_eq x) seen x, str_eq_refl x))
  | inr other ↦ ground (arith, any-snoc (str_eq f) seen x)
]

str_eq_sym : (s t : String) → str_eq s t ≡ str_eq t s
str_eq_sym s t = ground (arith, str_eq_iff s t, str_eq_iff t s)

any-false :
    (x : String) (seen : List String) → any (str_eq x) seen ≡ false → All (λ y. Apart y x) seen
any-false x [] h = tt
any-false x (y ∷ ys) h = elim (Bool-cases (str_eq x y)) [
  | inl hit ↦ cc (rw hit at h)
  | inr miss ↦ (str_eq_sym y x ∙ miss, any-false x ys (rw miss at h))
]

pub Distinct-add :
    (x : String) (seen : List String) → Distinct Apart seen → Distinct Apart (add x seen)
Distinct-add x seen h = elim (Bool-cases (any (str_eq x) seen)) [
  | inl old ↦ rw old h
  | inr new ↦ rw new (Distinct-snoc Apart seen x (any-false x seen new) h)
]

module _ (md5 : String → String) (suite : String) where
  -- A failing test with a message, whose fingerprint is `f`.
  abbrev pub fingerprint_is : String → Option String → Bool
  fingerprint_is f none = false
  fingerprint_is f (some m) = str_eq f (compute_fingerprint md5 m suite)

  abbrev pub fails_with : String → NormalizedTest → Bool
  fails_with f t = has_status failed t && fingerprint_is f (message_of t)

  visited_test :
      (f : String) (seen : List String) (t : NormalizedTest)
      → any (str_eq f) (visit_test md5 suite seen t) ≡ (any (str_eq f) seen || fails_with f t)
  unfolding visit_test
  visited_test f seen t = elim (Bool-cases (has_status failed t)) [
    | inr other ↦ rw (other, visit_test) (ground arith)
    | inl fails ↦ elim (Option-cases (message_of t)) [
      | inl silent ↦ rw (fails, silent) (ground arith)
      | inr (m, says) ↦ rw (fails, says) (any-add f (compute_fingerprint md5 m suite) seen)
    ]
  ]

  visited_tests :
      (f : String) (seen : List String) (ts : List NormalizedTest)
      → any (str_eq f) (visit_tests md5 suite seen ts)
        ≡ (any (str_eq f) seen || any (fails_with f) ts)
  unfolding visit_tests
  visited_tests f seen [] = ground arith
  visited_tests f seen (t ∷ ts) =
      visited_tests f (visit_test md5 suite seen t) ts ∙ ground (arith, visited_test f seen t)

  visited_specs :
      (f : String) (seen : List String) (ss : List NormalizedSpec)
      → any (str_eq f) (visit_specs md5 suite seen ss)
        ≡ (any (str_eq f) seen || any (λ s. any (fails_with f) s.tests) ss)
  unfolding visit_specs
  visited_specs f seen [] = ground arith
  visited_specs f seen (s ∷ ss) =
      visited_specs f (visit_tests md5 suite seen s.tests) ss
      ∙ ground (arith, visited_tests f seen s.tests)

  Distinct-visit_test :
      (seen : List String) (t : NormalizedTest)
      → Distinct Apart seen
      → Distinct Apart (visit_test md5 suite seen t)
  unfolding visit_test
  Distinct-visit_test seen t h = elim (Bool-cases (has_status failed t)) [
    | inr other ↦ rw (other, visit_test) h
    | inl fails ↦ elim (Option-cases (message_of t)) [
      | inl silent ↦ rw (fails, silent) h
      | inr (m, says) ↦ rw (fails, says) (Distinct-add (compute_fingerprint md5 m suite) seen h)
    ]
  ]

  Distinct-visit_tests :
      (seen : List String) (ts : List NormalizedTest)
      → Distinct Apart seen
      → Distinct Apart (visit_tests md5 suite seen ts)
  unfolding visit_tests
  Distinct-visit_tests seen [] h = h
  Distinct-visit_tests seen (t ∷ ts) h =
      Distinct-visit_tests (visit_test md5 suite seen t) ts (Distinct-visit_test seen t h)

  Distinct-visit_specs :
      (seen : List String) (ss : List NormalizedSpec)
      → Distinct Apart seen
      → Distinct Apart (visit_specs md5 suite seen ss)
  unfolding visit_specs
  Distinct-visit_specs seen [] h = h
  Distinct-visit_specs seen (s ∷ ss) h =
      Distinct-visit_specs (visit_tests md5 suite seen s.tests) ss
        (Distinct-visit_tests seen s.tests h)

-- A fingerprint is listed exactly when some failing test of the run carries a message with that
-- fingerprint for the run's suite, and none is listed twice.
pub failing_fingerprints_exact :
    (md5 : String → String) (run : NormalizedRun)
    → ((f : String)
        → any (str_eq f) (failing_fingerprints md5 run)
          ≡ any (λ s. any (fails_with md5 run.meta.suite_name f) s.tests) run.specs)
      × Distinct (λ a b. str_eq a b ≡ false) (failing_fingerprints md5 run)
unfolding failing_fingerprints
failing_fingerprints_exact md5 run = (
  λ f. visited_specs md5 run.meta.suite_name f [] run.specs,
  Distinct-visit_specs md5 run.meta.suite_name [] run.specs tt,
)

update_group-twice :
    (now later org : ℕ) (fps : List String) (g : ErrorGroup)
    → update_group later org fps (update_group now org fps g) ≡ update_group now org fps g
update_group-twice now later org fps g = ground arith

hit_after :
    (now org : ℕ) (fps : List String) (g : ErrorGroup)
    → is_hit org fps (update_group now org fps g) ≡ false
hit_after now org fps g = ground arith

-- Recording the same failing fingerprints again, at any later time, changes no group and reports
-- none: a recurrence is counted once, on the edge from fixed to regressed.
pub record_error_recurrence_once :
    (now later org : ℕ) (fps : List String) (groups : List ErrorGroup)
    → let first = (record_error_recurrence now org fps groups).0 in
      record_error_recurrence later org fps first ≡ (first, [])
unfolding record_error_recurrence
record_error_recurrence_once now later org [] groups = refl
record_error_recurrence_once now later org (f ∷ fs) groups =
    let step = update_group now org (f ∷ fs) in
    ap₂ (λ (gs : List ErrorGroup) (xs : List String). (gs, xs))
      (map_after (update_group later org (f ∷ fs)) step groups
        ∙ map_eq (λ g. update_group later org (f ∷ fs) (step g)) step groups
            (All-const _ (update_group-twice now later org (f ∷ fs)) groups))
      (ap (map (λ g. g.fingerprint)) (
        keep_none (is_hit org (f ∷ fs)) (map step groups) (
          All-image (λ g. is_hit org (f ∷ fs) g ≡ false) step (hit_after now org (f ∷ fs)) groups)))
