-- ===== src/Release/Deferrals.antt =====
-- backend/src/routes/releases.ts: how the handlers change the results of a test session, and which
-- results are accepted as known issues.
use project_flakey.Prelude.{
  ℕ, ◌≡◌, refl, ap, String, Bool, true, false, Option, some, List, [], ◌∷◌, ◌++◌, map, ◌==◌, ◌&&◌,
  not, if◌then◌else◌, any, find, All, All-imp, All-append, Distinct, Distinct-snoc,
  Distinct-map-All, any-none, All-map_of, arith, Bool-cases, inl, inr,
}
use project_flakey.Release.Data.{Tables, Result, ResultStatus, is_failure}
use project_flakey.Release.Testing.{is_at, new_result, seed, reset_result, reset_results}
use project_flakey.Release.Results.{
  update_result, clear_acceptance, Observation, observed, accepted, filed,
}

-- Only a failed or blocked result is accepted as a known issue.
abbrev pub IsDeferrable : Result → Type 0
IsDeferrable r = (r.accepted_as_known_issue && not (is_failure r.status)) ≡ false

-- Two results of different tests or different sessions.
abbrev pub AreTwo : Result → Result → Type 0
AreTwo a b = (a.session_id == b.session_id && a.manual_test_id == b.manual_test_id) ≡ false

abbrev pub AreResults : List Result → Type 0
AreResults results = All IsDeferrable results × Distinct AreTwo results

new-AreTwo :
    (session test : ℕ) (results : List Result)
    → All (λ r. is_at session test r ≡ false) results
    → All (λ r. AreTwo r (new_result session test)) results
new-AreTwo session test [] h = tt
new-AreTwo session test (r ∷ rs) h =
    (let miss = h.0 in ground arith, new-AreTwo session test rs h.1)

pub seed-AreResults :
    (session : ℕ) (tests : List ℕ) (results : List Result)
    → AreResults results
    → AreResults (seed session tests results)
unfolding seed
seed-AreResults session [] results h = h
seed-AreResults session (t ∷ ts) results h = elim (Bool-cases (any (is_at session t) results)) [
  | inl old ↦ rw old (seed-AreResults session ts results h)
  | inr new ↦ rw new (
      seed-AreResults session ts (results ++ new_result session t ∷ []) (
        All-append IsDeferrable results (new_result session t ∷ []) h.0 (refl, tt),
        Distinct-snoc AreTwo results (new_result session t)
            (new-AreTwo session t results (any-none (is_at session t) results new)) h.1,
      ))
]

-- An update of the results in place.
module _ (f : Result → Result) (same_session : (r : Result) → (f r).session_id ≡ r.session_id)
    (same_test : (r : Result) → (f r).manual_test_id ≡ r.manual_test_id) where
  map-AreResults :
      (P : Result → Type 0)
      → ((r : Result) → P r → IsDeferrable r → IsDeferrable (f r))
      → (results : List Result) → All P results
      → AreResults results
      → AreResults (map f results)
  map-AreResults P k results p h = (
    All-map_of (λ r. P r × IsDeferrable r) IsDeferrable f (λ r both. k r both.0 both.1) results
        (All-both results p h.0),
    Distinct-map-All P AreTwo AreTwo f
        (λ a b pa pb two. rw (same_session a, same_session b, same_test a, same_test b) two) results
        p h.1,
  )
    where
      All-both :
          (rs : List Result) → All P rs → All IsDeferrable rs → All (λ r. P r × IsDeferrable r) rs
      All-both [] p d = tt
      All-both (r ∷ rs) p d = ((p.0, d.0), All-both rs p.1 d.1)

Always : Result → Type 0
Always r = Unit

All-Always : (results : List Result) → All Always results
unfolding Always
All-Always [] = tt
All-Always (r ∷ rs) = (tt, All-Always rs)

-- An update of the results that a test picks.
module _ (p : Result → Bool) (f : Result → Result)
    (same_session : (r : Result) → (f r).session_id ≡ r.session_id)
    (same_test : (r : Result) → (f r).manual_test_id ≡ r.manual_test_id) (P : Result → Type 0)
    (k : (r : Result) → P r → p r ≡ true → IsDeferrable r → IsDeferrable (f r)) where
  abbrev where_ : Result → Result
  where_ r = if p r then f r else r

  where-session : (r : Result) → (where_ r).session_id ≡ r.session_id
  where-session r = elim (Bool-cases (p r)) [ inl e ↦ rw e (same_session r) | inr e ↦ rw e ]

  where-test : (r : Result) → (where_ r).manual_test_id ≡ r.manual_test_id
  where-test r = elim (Bool-cases (p r)) [ inl e ↦ rw e (same_test r) | inr e ↦ rw e ]

  where-AreResults :
      (results : List Result) → All P results → AreResults results → AreResults (map where_ results)
  where-AreResults results h good =
      map-AreResults where_ where-session where-test P
        (λ r pr d. elim (Bool-cases (p r)) [ inl e ↦ rw e (k r pr e d) | inr e ↦ rw e d ]) results h
        good

pub reset-AreResults :
    (session : ℕ) (db : Tables)
    → AreResults db.results
    → AreResults (reset_results session db).results
unfolding reset_results
reset-AreResults session db h =
    where-AreResults (λ (r : Result). r.session_id == session) reset_result (λ r. refl) (λ r. refl)
      Always (λ r u e d. refl) db.results (All-Always db.results) h

-- A result that is found at a session and a test is the only one there.
only_at :
    (session test : ℕ) (results : List Result) {r : Result}
    → Distinct AreTwo results
    → find (is_at session test) results ≡ some r
    → All (λ (x : Result). is_at session test x ≡ true → x.status ≡ r.status) results
only_at session test [] h e = tt
only_at session test (x ∷ xs) {r} h e = elim (Bool-cases (is_at session test x)) [
  | inl hit ↦
      let same : x ≡ r = cc (rw hit at e) in
      (
        λ at. ap (λ (y : Result). y.status) same,
        All-imp (AreTwo x) (λ (y : Result). is_at session test y ≡ true → y.status ≡ r.status)
            (λ y two at. absurd y two at hit) xs h.0,
      )
  | inr miss ↦ (λ at. cc (at, miss), only_at session test xs h.1 (rw miss at e))
]
  where
    absurd :
        (y : Result)
        → AreTwo x y
        → is_at session test y ≡ true
        → is_at session test x ≡ true
        → y.status ≡ r.status
    absurd y two at hit = ground arith

pub observe-AreResults :
    (db : Tables) (session test : ℕ) (status : ResultStatus) (o : Observation) (user now : ℕ)
    → AreResults db.results
    → AreResults (update_result session test (observed status o user now) db).results
unfolding update_result
observe-AreResults db session test status o user now h =
    where-AreResults (is_at session test) (observed status o user now) (λ r. refl) (λ r. refl)
      Always (λ r u e d. refl) db.results (All-Always db.results) h

pub clear-AreResults :
    (db : Tables) (session test : ℕ)
    → AreResults db.results
    → AreResults (update_result session test clear_acceptance db).results
unfolding update_result
clear-AreResults db session test h =
    where-AreResults (is_at session test) clear_acceptance (λ r. refl) (λ r. refl) Always
      (λ r u e d. refl) db.results (All-Always db.results) h

-- The result at hand is a failure, and so is every one that the update reaches.
module _ (db : Tables) (session test : ℕ) {r : Result}
    (found : find (is_at session test) db.results ≡ some r)
    (failure : is_failure r.status ≡ true) where
  Reached : Result → Type 0
  Reached x = is_at session test x ≡ true → x.status ≡ r.status

  pub accept-AreResults :
      (ref : Option String) (user now : ℕ)
      → AreResults db.results
      → AreResults (update_result session test (accepted ref user now) db).results
  unfolding update_result Reached
  accept-AreResults ref user now h =
      where-AreResults (is_at session test) (accepted ref user now) (λ x. refl) (λ x. refl) Reached
        (λ x reach at d. rw (reach at, failure)) db.results
        (only_at session test db.results h.1 found) h

  pub file-AreResults :
      (issue : String × String) (mark_known : Bool) (user now : ℕ)
      → AreResults db.results
      → AreResults (update_result session test (filed issue mark_known user now) db).results
  unfolding update_result Reached
  file-AreResults issue mark_known user now h =
      where-AreResults (is_at session test) (filed issue mark_known user now) (λ x. refl)
        (λ x. refl) Reached
        (λ x reach at d. elim (Bool-cases mark_known) [
          | inl marks ↦ rw (marks, reach at, failure)
          | inr keeps ↦ rw keeps d
        ])
        db.results (only_at session test db.results h.1 found) h
