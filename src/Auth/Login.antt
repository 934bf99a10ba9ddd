-- ===== src/Auth/Login.antt =====
-- backend/src/routes/auth.ts, POST /auth/login up to the session it opens: the password and the lockout
-- of an account. Times are epoch milliseconds; the comparison with the password's hash (bcrypt) is an
-- input of the attempt, and the queries of one attempt are one step.
use project_flakey.Prelude.{
  ℕ, ◌+◌, ◌-◌, ◌*◌, ◌≤◌, ◌<◌, max, ◌≡◌, refl, Bool, true, false, not, ◌&&◌, Option, none, some,
  List, [], ◌∷◌, ltb, leb, if◌then◌else◌, arith, Bool-cases, All, All-imp, inl, inr,
}

-- The columns of a row of users that a login reads and writes.
pub record Account : Type 0 where
  pub email_verified : Bool
  pub failed_login_attempts : ℕ
  pub locked_until : Option ℕ

-- LOGIN_LOCKOUT_THRESHOLD, LOGIN_LOCKOUT_MINUTES and REQUIRE_EMAIL_VERIFICATION
pub record Policy : Type 0 where
  pub threshold : ℕ
  pub minutes : ℕ
  pub require_verification : Bool

-- `Math.max(1, Number(...))` on settings that are numbers
abbrev pub policy : ℕ → ℕ → Bool → Policy
policy t m v = record { threshold = max 1 t; minutes = max 1 m; require_verification = v }

pub data LoginAnswer : Type 0 where
  locked wrong_password unverified signed_in : LoginAnswer

abbrev pub is_locked : Account → ℕ → Bool
is_locked a now = elim a.locked_until [ none ↦ false | some until ↦ ltb now until ]

-- The update after a wrong password.
unfoldable pub count_failure : Policy → ℕ → Account → Account
count_failure p now a =
    let new_count = a.failed_login_attempts + 1 in
    if leb p.threshold new_count
    then record a {
      failed_login_attempts = new_count;
      locked_until = some (now + p.minutes * 60000);
    }
    else record a { failed_login_attempts = new_count }

abbrev pub clear_failures : Account → Account
clear_failures a = record a { failed_login_attempts = 0; locked_until = none }

unfoldable pub login : Policy → ℕ → Bool → Account → LoginAnswer × Account
login p now password_ok a =
    if is_locked a now
    then (locked, a)
    else if not password_ok
    then (wrong_password, count_failure p now a)
    else if p.require_verification && not a.email_verified
    then (unverified, a)
    else (signed_in, clear_failures a)

-- An attempt: its time, and whether its password is the right one. How many of the attempts, made one
-- after the other, have a wrong password compared, and how many sign in.
abbrev pub is_compared : LoginAnswer → ℕ
is_compared wrong_password = 1
is_compared _ = 0

abbrev pub is_signed_in : LoginAnswer → ℕ
is_signed_in signed_in = 1
is_signed_in _ = 0

unfoldable pub guesses : Policy → List (ℕ × Bool) → Account → ℕ
guesses p [] a = 0
guesses p ((now, ok) ∷ rest) a =
    let (answer, next) = login p now ok a in is_compared answer + guesses p rest next

unfoldable pub sign_ins : Policy → List (ℕ × Bool) → Account → ℕ
sign_ins p [] a = 0
sign_ins p ((now, ok) ∷ rest) a =
    let (answer, next) = login p now ok a in is_signed_in answer + sign_ins p rest next

suc_mul : (k n : ℕ) → (1 + k) * n ≡ n + k * n
suc_mul k n = omega arith

module _ (p : Policy) where
  -- An account stays as it is while it is locked.
  guesses-locked :
      (rest : List (ℕ × Bool)) (a : Account) (until : ℕ)
      → a.locked_until ≡ some until
      → All (λ (t : ℕ × Bool). t.0 < until) rest
      → guesses p rest a ≡ 0
  unfolding guesses login
  guesses-locked [] a until l h = refl
  guesses-locked ((now, ok) ∷ rest) a until l h =
      let shut : is_locked a now ≡ true = rw l (ground arith) in
      let later = guesses-locked rest a until l h.1 in rw (login, shut, later)

  -- The allowance of an account, which every login renews.
  abbrev allowance : List (ℕ × Bool) → Account → ℕ
  allowance rest a = max 1 (p.threshold - a.failed_login_attempts) + sign_ins p rest a * p.threshold

  Within : ℕ → ℕ × Bool → Type 0
  Within start t = (start ≤ t.0) × (t.0 < start + p.minutes * 60000)

  guesses-le :
      (rest : List (ℕ × Bool)) (a : Account) (start : ℕ)
      → 1 ≤ p.threshold
      → All (Within start) rest
      → guesses p rest a ≤ allowance rest a
  unfolding guesses sign_ins login count_failure Within
  guesses-le [] a start positive h = omega arith
  guesses-le ((now, true) ∷ rest) a start positive h = elim (Bool-cases (is_locked a now)) [
    | inl shut ↦ let later = guesses-le rest a start positive h.1 in rw (login, shut) (omega arith)
    | inr open_ ↦ elim (Bool-cases (p.require_verification && not a.email_verified)) [
      | inl held ↦
          let later = guesses-le rest a start positive h.1 in rw (login, open_, held) (omega arith)
      | inr free ↦
          let later = guesses-le rest (clear_failures a) start positive h.1 in
          let more = suc_mul (sign_ins p rest (clear_failures a)) p.threshold in
          rw (login, open_, free) (omega arith)
    ]
  ]
  guesses-le ((now, false) ∷ rest) a start positive h = elim (Bool-cases (is_locked a now)) [
    | inl shut ↦ let later = guesses-le rest a start positive h.1 in rw (login, shut) (omega arith)
    | inr open_ ↦ elim (Bool-cases (leb p.threshold (a.failed_login_attempts + 1))) [
      | inl reached ↦
          let until : ℕ = now + p.minutes * 60000 in
          let closed = record a {
            failed_login_attempts = a.failed_login_attempts + 1;
            locked_until = some until;
          } in
          let soon =
            All-imp (Within start) (λ t. t.0 < until) (λ t w. omega (arith, w.1, h.0.0)) rest h.1 in
          let later = guesses-locked rest closed until refl soon in
          rw (login, open_, count_failure, reached, later) (omega arith)
      | inr below ↦
          let next = record a { failed_login_attempts = a.failed_login_attempts + 1 } in
          let later = guesses-le rest next start positive h.1 in
          let room : a.failed_login_attempts + 1 < p.threshold = ground arith in
          rw (login, open_, count_failure, below) (omega arith)
    ]
  ]

-- Of the attempts that an account sees one after the other within the lockout's length of time, with
-- right and wrong passwords, at most as many with a wrong one have it compared as the counter is short
-- of the threshold at first, or one where it has reached it, and as many again as the threshold for
-- every attempt that signs in.
pub login-guesses :
    (t m : ℕ) (verification : Bool) (attempts : List (ℕ × Bool)) (a : Account) (start : ℕ)
    → All (λ now. (start ≤ now.0) × (now.0 < start + max 1 m * 60000)) attempts
    → guesses (policy t m verification) attempts a
      ≤ max 1 (max 1 t - a.failed_login_attempts)
        + sign_ins (policy t m verification) attempts a * max 1 t
unfolding Within
login-guesses t m verification attempts a start h =
    guesses-le (policy t m verification) attempts a start (omega arith) h
