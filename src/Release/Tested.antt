-- ===== src/Release/Tested.antt =====
-- backend/src/routes/releases.ts: what a signed-off release says of its last test session.
use project_flakey.Prelude.{
  ℕ, ◌≡◌, refl, sym, subst, ◌∙◌, ◌<◌, ltb, String, Bool, true, false, Option, none, some, List, [],
  ◌∷◌, ◌==◌, ◌&&◌, ◌||◌, not, if◌then◌else◌, any, find, str_eq, keep, All, All-imp, ◌≤◌, arith,
  Bool-cases, Option-cases, inl, inr,
}
use project_flakey.Release.Data.{
  Tables, Release, Item, AutoRule, critical_tests_passing, manual_regression_executed, unknown,
  Session, Link, Result, ok, is_active,
}
use project_flakey.Release.Testing.{latest_session, is_empty}
use project_flakey.Release.Readiness.{session_rows}
use project_flakey.Release.Rules.{is_blocking, rule_met}
use project_flakey.Release.Checklist.{sign_off}
use project_flakey.Release.SignOff.{
  is_open_item, is_open_release, is_ticked, verdict, sign_off-verdict,
}

abbrev is_regression : Option AutoRule → Bool
is_regression (some manual_regression_executed) = true
is_regression _ = false

-- A required item of the release with the rule of the manual regression.
abbrev pub asks_regression : ℕ → Item → Bool
asks_regression release i = i.release_id == release && i.required && is_regression i.auto_rule

ticked-regression :
    (db : Tables) (release : ℕ) (rule : Option AutoRule) (by_hand : Bool)
    → is_regression rule ≡ true
    → is_ticked db release rule by_hand ≡ rule_met manual_regression_executed db release
ticked-regression db release none by_hand e = cc
ticked-regression db release (some critical_tests_passing) by_hand e = cc
ticked-regression db release (some manual_regression_executed) by_hand e = refl
ticked-regression db release (some unknown) by_hand e = cc

both_true : (a b c : Bool) → (a && b && c) ≡ true → (a ≡ true) × (b ≡ true) × (c ≡ true)
both_true a b c h = (ground arith, ground arith, ground arith)

off : (b : Bool) → not b ≡ true → b ≡ false
off b h = ground arith

held :
    (own must ticked met : Bool)
    → own ≡ true
    → must ≡ true
    → ticked ≡ met
    → (own && must && not ticked) ≡ false
    → met ≡ true
held own must ticked met a b c d = ground arith

met_rule :
    (db : Tables) (release : ℕ) (items : List Item)
    → any (is_open_item db release) items ≡ false
    → any (asks_regression release) items ≡ true
    → rule_met manual_regression_executed db release ≡ true
met_rule db release [] h asks = cc
met_rule db release (i ∷ is) h asks = elim (Bool-cases (asks_regression release i)) [
  | inr other ↦ met_rule db release is (rest (is_open_item db release i) h) (rw other at asks)
  | inl regression ↦
      let (own, must, rule) =
        both_true (i.release_id == release) i.required (is_regression i.auto_rule) regression in
      let ticked = ticked-regression db release i.auto_rule i.checked rule in
      let closed = first (is_open_item db release i) h in
      held (i.release_id == release) i.required (is_ticked db release i.auto_rule i.checked)
        (rule_met manual_regression_executed db release) own must ticked closed
]
  where
    first : (b : Bool) → (if b then true else any (is_open_item db release) is) ≡ false → b ≡ false
    first b e = ground arith

    rest :
        (b : Bool)
        → (if b then true else any (is_open_item db release) is) ≡ false
        → any (is_open_item db release) is ≡ false
    rest b e = ground arith

verdict-ok :
    (db : Tables) (role : String) (release : ℕ)
    → verdict db role release ≡ ok
    → any (is_open_item db release) db.items ≡ false
verdict-ok db role release e = elim (Bool-cases (str_eq role "owner" || str_eq role "admin")) [
  | inr barred ↦ cc (rw barred at e)
  | inl may ↦ elim (Option-cases (find (λ (r : Release). r.id == release) db.releases)) [
    | inl absent ↦ cc (rw (may, absent) at e)
    | inr (r, found) ↦ elim (Bool-cases (is_open_release r.status)) [
      | inr closed ↦ cc (rw (may, found, closed) at e)
      | inl open_ ↦ elim (Bool-cases (any (is_open_item db release) db.items)) [
        | inl left ↦ cc (rw (may, found, open_, left) at e)
        | inr none_ ↦ none_
      ]
    ]
  ]
]

-- A result of the session whose test is still linked to the release.
abbrev pub counts : Tables → ℕ → Session → Result → Bool
counts db release s r =
    r.session_id == s.id
    && any (λ (l : Link). l.release_id == release && l.manual_test_id == r.manual_test_id) db.links

-- No session of the release has a higher number.
abbrev pub IsLatest : Tables → ℕ → Session → Type 0
IsLatest db release s =
    (s.release_id ≡ release)
    × All (λ (t : Session). t.release_id ≡ release → t.session_number ≤ s.session_number)
        db.sessions

-- The session is completed, and of the results that count there is one and none blocks.
abbrev pub IsDone : Tables → ℕ → Session → Type 0
IsDone db release s =
    (is_active s.status ≡ false)
    × (any (counts db release s) db.results ≡ true)
    × All (λ r. counts db release s r ≡ true → is_blocking r ≡ false) db.results

abbrev IsLatestOf : ℕ → List Session → Session → Type 0
IsLatestOf release ss s =
    (s.release_id ≡ release)
    × All (λ (t : Session). t.release_id ≡ release → t.session_number ≤ s.session_number) ss

-- Where no session is found, the release has none.
no_session :
    (release : ℕ) (ss : List Session) (n : ℕ)
    → latest_session release ss ≡ none
    → All (λ (t : Session). t.release_id ≡ release → t.session_number ≤ n) ss
no_session release [] n e = tt
no_session release (s ∷ ss) n e = elim (Bool-cases (s.release_id == release)) [
  | inr other ↦ ((λ own. ground arith), no_session release ss n (rw other at e))
  | inl own ↦ elim (Option-cases (latest_session release ss)) [
    | inl nothing ↦ cc (rw (own, nothing) at e)
    | inr (t, found) ↦ elim (Bool-cases (ltb t.session_number s.session_number)) [
      | inl more ↦ cc (rw (own, found, more) at e)
      | inr less ↦ cc (rw (own, found, less) at e)
    ]
  ]
]

latest_session-IsLatestOf :
    (release : ℕ) (ss : List Session) {s : Session}
    → latest_session release ss ≡ some s
    → IsLatestOf release ss s
latest_session-IsLatestOf release [] e = cc
latest_session-IsLatestOf release (x ∷ xs) {s} e = elim (Bool-cases (x.release_id == release)) [
  | inr other ↦
      let (own, most) = latest_session-IsLatestOf release xs (rw other at e) in
      (own, ((λ h. ground arith), most))
  | inl own ↦ elim (Option-cases (latest_session release xs)) [
    | inl nothing ↦
        let same : x ≡ s = cc (rw (own, nothing) at e) in
        subst (IsLatestOf release (x ∷ xs)) same
          (ground arith, ((λ h. omega arith), no_session release xs x.session_number nothing))
    | inr (t, found) ↦
        let (mine, most) = latest_session-IsLatestOf release xs found in
        elim (Bool-cases (ltb t.session_number x.session_number)) [
          | inl more ↦
              let same : x ≡ s = cc (rw (own, found, more) at e) in
              let bigger : t.session_number < x.session_number = ground arith in
              subst (IsLatestOf release (x ∷ xs)) same (
                ground arith,
                (
                  (λ h. omega arith),
                  All-imp
                      (λ (y : Session).
                        y.release_id ≡ release → y.session_number ≤ t.session_number)
                      (λ (y : Session).
                        y.release_id ≡ release → y.session_number ≤ x.session_number)
                      (λ y k h. omega (arith, k h)) xs most,
                ),
              )
          | inr less ↦
              let same : t ≡ s = cc (rw (own, found, less) at e) in
              subst (IsLatestOf release (x ∷ xs)) same (mine, ((λ h. ground arith), most))
        ]
  ]
]

module _ (db : Tables) (release : ℕ) (s : Session) where
  -- The rows that the rule reads, by the results that count.
  some_counts :
      (rs : List Result)
      → is_empty (keep (counts db release s) rs) ≡ false
      → any (counts db release s) rs ≡ true
  some_counts [] e = cc
  some_counts (r ∷ rs) e = elim (Bool-cases (counts db release s r)) [
    | inl hit ↦ rw hit
    | inr miss ↦ rw miss (some_counts rs (rw miss at e))
  ]

  none_blocks :
      (rs : List Result)
      → any is_blocking (keep (counts db release s) rs) ≡ false
      → All (λ r. counts db release s r ≡ true → is_blocking r ≡ false) rs
  none_blocks [] e = tt
  none_blocks (r ∷ rs) e = elim (Bool-cases (counts db release s r)) [
    | inr miss ↦ ((λ h. cc), none_blocks rs (rw miss at e))
    | inl hit ↦ elim (Bool-cases (is_blocking r)) [
      | inl bad ↦ cc (rw (hit, bad) at e)
      | inr good ↦ ((λ h. good), none_blocks rs (rw (hit, good) at e))
    ]
  ]

-- Of a sign-off that succeeds for a release whose checklist requires the manual regression, and that
-- was tested in sessions: the session of the release that has the highest number is completed, it has
-- a result of a test that is still linked to the release, and none of these results is left to run or
-- is a failure that was not accepted.
pub sign_off-IsTested :
    (db : Tables) (role : String) (user release now : ℕ) (s : Session)
    → (sign_off db role user release now).0 ≡ ok
    → any (asks_regression release) db.items ≡ true
    → latest_session release db.sessions ≡ some s
    → IsLatest db release s × IsDone db release s
unfolding session_rows
sign_off-IsTested db role user release now s done asks last =
    let closed =
      verdict-ok db role release (sym (sign_off-verdict db role user release now) ∙ done) in
    let met = met_rule db release db.items closed asks in
    let passed = rw (rule_met, last) at met in
    let (a, b, c) =
      both_true (not (is_empty (session_rows db release s.id)))
        (not (any is_blocking (session_rows db release s.id))) (not (is_active s.status)) passed in
    (
      latest_session-IsLatestOf release db.sessions last,
      (
        off (is_active s.status) c,
        some_counts db release s db.results (off (is_empty (session_rows db release s.id)) a),
        none_blocks db release s db.results
            (off (any is_blocking (session_rows db release s.id)) b),
      ),
    )
