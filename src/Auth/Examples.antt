-- ===== src/Auth/Examples.antt =====
-- Requests, logins and refreshes at concrete inputs, and the theorems at these inputs.
use project_flakey.Prelude.{
  ℕ, ◌+◌, ◌-◌, ◌*◌, ◌≤◌, ◌<◌, max, ◌≡◌, refl, String, Bool, true, false, not, ◌&&◌, ◌||◌, Option,
  none, some, List, [], ◌∷◌, str_eq, if◌then◌else◌, arith,
}
use project_flakey.Auth.Token.{AuthUser, Payload, token_claims, refresh_claims, support_claims}
use project_flakey.Auth.Gate.{
  Request, Database, Answer, accepts, refuses, Query, require_auth, member_role,
}
use project_flakey.Auth.Laws.{IsAdmitted, require_auth_sound}
use project_flakey.Auth.Sessions.{
  session, with_header, with_cookie, require_auth-token_claims, require_auth-refresh_claims,
}
use project_flakey.Auth.Login.{Account, guesses, sign_ins, policy, login-guesses}
use project_flakey.Auth.Session.{Sessions, Person, Verified, refresh, revoked_token}
use project_flakey.Auth.Claims.{IsCurrent, Opens-IsCurrent, by_refresh}
use project_flakey.Auth.Rotation.{
  refresh_once, Event, refreshes, logs_in, handle_all, by_refresh as spent_by_refresh,
}

abbrev ada : AuthUser
ada = record {
  id = 7;
  email = "ada@x.org";
  name = "Ada";
  role = "user";
  org_id = 3;
  org_role = "owner";
  is_support_read = false;
  support_reason = "";
  sso_org = none;
  sso_required = false;
}

-- A session token, a refresh token and a support token, each by its name.
abbrev verify : String → Option Payload
verify token =
    if str_eq token "access"
    then some (token_claims ada)
    else if str_eq token "refresh"
    then some (refresh_claims 7 40 none)
    else if str_eq token "support"
    then some (support_claims ada 9 "ticket 12")
    else none

-- Ada is a viewer by now, and a support user.
abbrev db : Database
db = record {
  members = record { org_id = 3; user_id = 7; role = "viewer" } ∷ [];
  users =
      record { id = 7; email = "ada@x.org"; name = "Ada"; role = "user"; is_support = true } ∷ [];
  find_key = λ key. none;
  fails = λ query. false;
}

abbrev get_runs : Request
get_runs = record {
  authorization = none;
  cookie = none;
  method = "GET";
  base_url = "/runs";
  path = "/";
}

abbrev post_runs : Request
post_runs = record get_runs { method = "POST" }

abbrev ada_supports : AuthUser
ada_supports = record ada {
  org_id = 9;
  org_role = "support";
  is_support_read = true;
  support_reason = "ticket 12";
}

support_reads : require_auth verify db (with_header get_runs "support") ≡ accepts ada_supports
unfolding require_auth project_flakey.Auth.Gate.candidate project_flakey.Auth.Gate.bearer_candidate
    project_flakey.Prelude.Split.starts_with project_flakey.Prelude.Split.same_char
    project_flakey.Prelude.Split.drop_chars project_flakey.Auth.Token.verify_token
    project_flakey.Auth.Token.user_of mathlib.Core.Option.bind project_flakey.Auth.Gate.admit
    project_flakey.Auth.Gate.clamp_sso project_flakey.Auth.Gate.admit_support
    project_flakey.Auth.Gate.is_support_user support_claims
support_reads = refl

require_auth_sound_example : IsAdmitted db (with_header get_runs "support") ada_supports
require_auth_sound_example =
    require_auth_sound verify db (with_header get_runs "support") support_reads

-- The cookies before and after the session's in a header.
abbrev others : List String
others = "theme=dark" ∷ []

abbrev refreshing : List String
refreshing = "flakey_refresh=r" ∷ []

require_auth-token_claims_example :
    (require_auth verify db (with_header post_runs "access") ≡ accepts (session ada "viewer"))
    × (require_auth verify db (with_cookie post_runs others "access" refreshing)
        ≡ accepts (session ada "viewer"))
unfolding project_flakey.Prelude.Split.starts_with project_flakey.Prelude.Split.same_char
    project_flakey.Prelude.Split.has_char project_flakey.Prelude.Split.has_space
    project_flakey.Prelude.Text.is_space project_flakey.Prelude.Text.trim
    project_flakey.Prelude.Text.trim_start project_flakey.Prelude.Text.trim_end member_role
require_auth-token_claims_example =
    require_auth-token_claims verify db post_runs "access" ada "viewer" others refreshing refl
      (refl, refl, refl) ((refl, refl), tt) refl refl refl

require_auth-refresh_claims_example :
    (require_auth verify db (with_header get_runs "refresh")
      ≡ refuses 401 "Authentication required")
    × (require_auth verify db (with_cookie get_runs others "refresh" refreshing)
        ≡ refuses 401 "Authentication required")
unfolding project_flakey.Prelude.Split.starts_with project_flakey.Prelude.Split.same_char
    project_flakey.Prelude.Split.has_char project_flakey.Prelude.Split.has_space
    project_flakey.Prelude.Text.is_space project_flakey.Prelude.Text.trim
    project_flakey.Prelude.Text.trim_start project_flakey.Prelude.Text.trim_end
require_auth-refresh_claims_example =
    require_auth-refresh_claims verify db get_runs "refresh" 7 40 none others refreshing refl
      (refl, refl, refl) ((refl, refl), tt)

abbrev account : Account
account = record { email_verified = true; failed_login_attempts = 2; locked_until = none }

-- With a threshold of 5 and two failures before: a wrong password, a right one, and then six wrong
-- ones, of which five are compared.
abbrev attempts : List (ℕ × Bool)
attempts =
    (0, false)
    ∷ (1000, true)
    ∷ (60000, false)
    ∷ (120000, false)
    ∷ (180000, false)
    ∷ (240000, false)
    ∷ (300000, false)
    ∷ (360000, false)
    ∷ []

six_guesses : guesses (policy 5 15 false) attempts account ≡ 6
unfolding guesses project_flakey.Auth.Login.login project_flakey.Auth.Login.count_failure
six_guesses = refl

login-guesses_example :
    guesses (policy 5 15 false) ((0, false) ∷ (1000, true) ∷ (60000, false) ∷ []) account
    ≤ max 1 (max 1 5 - 2)
      + sign_ins (policy 5 15 false) ((0, false) ∷ (1000, true) ∷ (60000, false) ∷ []) account
        * max 1 5
login-guesses_example =
    login-guesses 5 15 false ((0, false) ∷ (1000, true) ∷ (60000, false) ∷ []) account 0
      ((omega arith, omega arith), ((omega arith, omega arith), ((omega arith, omega arith), tt)))

abbrev person : Person
person = record {
  id = 7;
  email = "ada@x.org";
  name = "Ada";
  role = "user";
  sessions_revoked_at = some 5000;
}

-- Ada is invited to organization 3, which enforces single sign-on.
abbrev sessions : Sessions
sessions = record {
  members = [];
  invites = record { id = 1; org_id = 3; email = "ada@x.org"; role = "viewer"; open_ = true } ∷ [];
  people = person ∷ [];
  sso = record { org_id = 3; enabled = true; enforced = true } ∷ [];
  revoked = [];
}

abbrev token : Verified
token = record { id = 7; jti = some 40; issued_at = some 6; sso_org = none }

abbrev ada_refreshed : AuthUser
ada_refreshed = record ada { org_role = "viewer"; sso_required = true }

abbrev lower : String → String
lower s = s

ada_renews :
    (refresh lower 90 41 sessions (some token)).0
    ≡ project_flakey.Auth.Session.renews ada_refreshed (refresh_claims 7 41 none)
unfolding refresh project_flakey.Auth.Session.renew project_flakey.Auth.Session.resolve_org
    project_flakey.Auth.Session.org_enforces_sso
ada_renews = refl

Opens-IsCurrent_example : IsCurrent (refresh lower 90 41 sessions (some token)).1 ada_refreshed
Opens-IsCurrent_example =
    Opens-IsCurrent lower sessions (refresh lower 90 41 sessions (some token)).1 ada_refreshed
      (by_refresh 90 41 token ada_refreshed (refresh_claims 7 41 none) ada_renews)

abbrev since : List Event
since = logs_in 91 person ∷ refreshes 92 42 (some (record token { jti = some 41 })) ∷ []

refresh_once_example :
    let after = handle_all lower (refresh lower 90 41 sessions (some token)).1 since in
    refresh lower 93 43 after (some token) ≡ (revoked_token, after)
refresh_once_example =
    refresh_once lower sessions (refresh lower 90 41 sessions (some token)).1 token token 40 since
      93 43 tt refl refl refl
      (spent_by_refresh 90 41 ada_refreshed (refresh_claims 7 41 none) ada_renews)
