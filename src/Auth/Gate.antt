-- ===== src/Auth/Gate.antt =====
-- backend/src/auth.ts: verifyApiKey and the middleware requireAuth. The query of a key by its bcrypt
-- hash (pgcrypto) is a parameter; the tables it and the middleware read are explicit, and any of the
-- queries may fail. The time stamp that an accepted key gets is left out.
use project_flakey.Prelude.{
  ℕ, String, Bool, true, false, not, ◌&&◌, ◌||◌, Option, none, some, List, [], ◌∷◌, ◌==◌, str_eq,
  if◌then◌else◌, find, any,
}
use project_flakey.Prelude.Split.{starts_with, drop_chars}
use project_flakey.Auth.Token.{AuthUser, Payload, verify_token, parse_cookie}
use mathlib.Core.Option

pub record Request : Type 0 where
  pub authorization : Option String
  pub cookie : Option String
  pub method : String
  pub base_url : String
  pub path : String

-- A row of org_members.
pub record Member : Type 0 where
  pub org_id : ℕ
  pub user_id : ℕ
  pub role : String

-- A row of users.
pub record User : Type 0 where
  pub id : ℕ
  pub email : String
  pub name : String
  pub role : String
  pub is_support : Bool

-- A row of the SQL function verify_api_key.
pub record KeyRow : Type 0 where
  pub user_id : ℕ
  pub email : String
  pub name : String
  pub user_role : String
  pub org_id : ℕ

pub data Query : Type 0 where
  key_lookup key_membership support_flag membership : Query

pub record Database : Type 0 where
  pub members : List Member
  pub users : List User
  pub find_key : String → Option KeyRow
  pub fails : Query → Bool

-- SELECT role FROM org_members WHERE org_id = $1 AND user_id = $2
unfoldable pub member_role : List Member → ℕ → ℕ → Option String
member_role members org user =
    Option.map (λ (m : Member). m.role)
      (find (λ (m : Member). m.org_id == org && m.user_id == user) members)

-- SELECT 1 FROM users WHERE id = $1 AND is_support = true
unfoldable pub is_support_user : List User → ℕ → Bool
is_support_user users id = any (λ (u : User). u.id == id && u.is_support) users

abbrev pub key_user : KeyRow → String → AuthUser
key_user row org_role = record {
  id = row.user_id;
  email = row.email;
  name = row.name;
  role = row.user_role;
  org_id = row.org_id;
  org_role = org_role;
  is_support_read = false;
  support_reason = "";
  sso_org = none;
  sso_required = false;
}

-- verifyApiKey, with the `.catch(() => null)` of its caller
unfoldable pub verify_api_key : Database → String → Option AuthUser
verify_api_key db key =
    if db.fails key_lookup
    then none
    else Option.bind (db.find_key key) (λ row.
      if db.fails key_membership
      then none
      else Option.map (key_user row) (member_role db.members row.org_id row.user_id))

-- The answer to a request: `throws` is a rejected promise of the middleware.
pub data Answer : Type 0 where
  accepts : AuthUser → Answer
  refuses : ℕ → String → Answer
  throws : Answer

-- The candidate, and whether it came from verifyApiKey.
module _ (verify : String → Option Payload) where
  unfoldable pub bearer_candidate : Database → String → Option AuthUser × Bool
  bearer_candidate db token =
      if starts_with "fk_" token
      then elim (verify_api_key db token) [ none ↦ (none, false) | some user ↦ (some user, true) ]
      else (verify_token verify token, false)

  abbrev or_empty : Option String → String
  or_empty none = ""
  or_empty (some s) = s

  unfoldable pub cookie_candidate : Option String → Option AuthUser × Bool
  cookie_candidate cookie =
      (verify_token verify (or_empty (parse_cookie cookie "flakey_token")), false)

  unfoldable pub candidate : Database → Request → Option AuthUser × Bool
  candidate db req = elim req.authorization [
    | none ↦ cookie_candidate req.cookie
    | some header ↦
        if starts_with "Bearer " header
        then bearer_candidate db (drop_chars 7 header)
        else cookie_candidate req.cookie
  ]

-- SUPPORT_READ_BASEURLS
abbrev pub support_read_base_urls : List String
support_read_base_urls =
    "/runs" ∷ "/errors" ∷ "/flaky" ∷ "/stats" ∷ "/tests" ∷ "/suites" ∷ "/compare" ∷ "/audit"
    ∷ "/releases" ∷ "/manual-tests" ∷ "/manual-test-groups" ∷ "/notes" ∷ "/quarantine" ∷ "/views"
    ∷ "/coverage" ∷ "/a11y" ∷ "/visual" ∷ "/security" ∷ "/ui-coverage" ∷ "/predict" ∷ []

abbrev pub is_read : Request → Bool
is_read req = str_eq req.method "GET" || str_eq req.method "HEAD"

abbrev pub on_support_surface : Request → Bool
on_support_surface req = any (str_eq req.base_url) support_read_base_urls

-- The clamp of a support session.
unfoldable pub admit_support : Database → Request → AuthUser → Answer
admit_support db req user =
    if db.fails support_flag
    then refuses 500 "Internal server error"
    else if not (is_support_user db.users user.id)
    then refuses 401 "Support access is no longer valid"
    else if not (is_read req)
    then refuses 403 "Support sessions are read-only"
    else if not (on_support_surface req)
    then refuses 403 "This resource is not available in a support session"
    else accepts user

-- The re-read of org_members, which refreshes the role.
unfoldable pub admit_session : Database → AuthUser → Answer
admit_session db user =
    if db.fails membership then throws else elim (member_role db.members user.org_id user.id) [
      | none ↦ refuses 401 "Session is no longer valid; please sign in again"
      | some role ↦ accepts (record user { org_role = role })
    ]

abbrev pub is_me : Request → Bool
is_me req = str_eq req.method "GET" && str_eq req.base_url "/auth" && str_eq req.path "/me"

-- The clamp of a session whose organization asks for single sign-on.
unfoldable pub clamp_sso : Request → Answer → Answer
clamp_sso req (accepts user) =
    if user.sso_required && not (is_me req)
    then refuses 403 "This organization requires single sign-on. Please sign in with SSO."
    else accepts user
clamp_sso req (refuses status message) = refuses status message
clamp_sso req throws = throws

unfoldable pub admit : Database → Request → Option AuthUser × Bool → Answer
admit db req (none, by_key) = refuses 401 "Authentication required"
admit db req (some user, by_key) = clamp_sso req (
    if user.is_support_read
    then admit_support db req user
    else if by_key
    then accepts user
    else admit_session db user)

module _ (verify : String → Option Payload) where
  unfoldable pub require_auth : Database → Request → Answer
  require_auth db req = admit db req (candidate verify db req)
