-- ===== src/Auth/Session.antt =====
-- backend/src/routes/auth.ts: the sessions that a login, a refresh and a change of organization open,
-- with the tables they read and write. `lower` is the database's LOWER; the identifiers that the
-- database and the runtime hand out are inputs. The audit entries are left out, every query succeeds,
-- and the queries of one request are one step.
use project_flakey.Prelude.{
  ℕ, ◌*◌, String, Bool, false, not, ◌&&◌, Option, none, some, List, [], ◌∷◌, ◌++◌, map, ltb, ◌==◌,
  str_eq, if◌then◌else◌, find, any,
}
use project_flakey.Auth.Token.{AuthUser, Payload, refresh_claims}
use project_flakey.Auth.Gate.{Member}
use mathlib.Core.Option

-- A row of users, with the watermark of revocation in epoch milliseconds.
pub record Person : Type 0 where
  pub id : ℕ
  pub email : String
  pub name : String
  pub role : String
  pub sessions_revoked_at : Option ℕ

-- A row of org_invites; `open_` is that it is neither accepted nor expired.
pub record Invite : Type 0 where
  pub id : ℕ
  pub org_id : ℕ
  pub email : String
  pub role : String
  pub open_ : Bool

-- A row of org_sso_configs.
pub record SsoConfig : Type 0 where
  pub org_id : ℕ
  pub enabled : Bool
  pub enforced : Bool

-- A row of revoked_refresh_tokens, of which row-level security shows a user its own.
pub record Revocation : Type 0 where
  pub jti : ℕ
  pub user_id : ℕ

-- `members` is in the order of joined_at.
pub record Sessions : Type 0 where
  pub members : List Member
  pub invites : List Invite
  pub people : List Person
  pub sso : List SsoConfig
  pub revoked : List Revocation

-- orgEnforcesSso
unfoldable pub org_enforces_sso : Sessions → ℕ → Bool
org_enforces_sso s org = elim (find (λ (c : SsoConfig). c.org_id == org) s.sso) [
  | none ↦ false
  | some c ↦ c.enabled && c.enforced
]

abbrev accept_invite : ℕ → Invite → Invite
accept_invite id i = if i.id == id then record i { open_ = false } else i

-- INSERT INTO org_members
abbrev pub add_member : Sessions → ℕ → ℕ → String → Sessions
add_member s org user role = record s {
  members = s.members ++ record { org_id = org; user_id = user; role = role } ∷ [];
}

abbrev pub open_invite : (String → String) → Sessions → String → Option Invite
open_invite lower s email =
    find (λ (i : Invite). str_eq (lower i.email) (lower email) && i.open_) s.invites

abbrev pub join_or_create : Sessions → ℕ → ℕ → Option Invite → ℕ × String × Sessions
join_or_create s user new_org none = (new_org, "owner", add_member s new_org user "owner")
join_or_create s user new_org (some i) = (
  i.org_id,
  i.role,
  add_member (record s { invites = map (accept_invite i.id) s.invites }) i.org_id user i.role,
)

abbrev pub first_membership : Sessions → ℕ → Option Member
first_membership s user = find (λ (m : Member). m.user_id == user) s.members

-- resolveOrg; `new_org` is the id that a personal organization would get.
unfoldable pub resolve_org : (String → String) → ℕ → Sessions → ℕ → String → ℕ × String × Sessions
resolve_org lower new_org s user email = elim (first_membership s user) [
  | some m ↦ (m.org_id, m.role, s)
  | none ↦ join_or_create s user new_org (open_invite lower s email)
]

-- `ssoOrg !== orgId && (await orgEnforcesSso(orgId))`
abbrev pub restricts : Sessions → Option ℕ → ℕ → Bool
restricts s sso_org org =
    not (elim sso_org [ none ↦ false | some o ↦ o == org ]) && org_enforces_sso s org

abbrev pub open_session : Person → ℕ → String → Option ℕ → Bool → AuthUser
open_session u org role sso_org required = record {
  id = u.id;
  email = u.email;
  name = u.name;
  role = u.role;
  org_id = org;
  org_role = role;
  is_support_read = false;
  support_reason = "";
  sso_org = sso_org;
  sso_required = required;
}

-- The session of a login with the right password.
unfoldable pub login_session : (String → String) → ℕ → Sessions → Person → AuthUser × Sessions
login_session lower new_org s u =
    let (org, role, s') = resolve_org lower new_org s u.id u.email in
    (open_session u org role none (org_enforces_sso s' org), s')

-- What extractAndVerifyRefreshToken yields; `issued_at` is in seconds.
pub record Verified : Type 0 where
  pub id : ℕ
  pub jti : Option ℕ
  pub issued_at : Option ℕ
  pub sso_org : Option ℕ

pub data RefreshAnswer : Type 0 where
  invalid revoked_token user_not_found revoked_session : RefreshAnswer
  renews : AuthUser → Payload → RefreshAnswer

-- SELECT 1 FROM revoked_refresh_tokens WHERE jti = $1, as the token's user
abbrev pub is_revoked : Sessions → ℕ → Option ℕ → Bool
is_revoked s user none = false
is_revoked s user (some j) = any (λ (k : Revocation). k.jti == j && k.user_id == user) s.revoked

-- INSERT INTO revoked_refresh_tokens ... ON CONFLICT (jti) DO NOTHING; the key holds for all users.
unfoldable pub revoke : ℕ → Option ℕ → Sessions → Sessions
revoke user none s = s
revoke user (some j) s =
    if any (λ (k : Revocation). k.jti == j) s.revoked
    then s
    else record s { revoked = record { jti = j; user_id = user } ∷ s.revoked }

abbrev issued_ms : Option ℕ → ℕ
issued_ms none = 0
issued_ms (some t) = t * 1000

abbrev pub is_before_watermark : Person → Verified → Bool
is_before_watermark u v = elim u.sessions_revoked_at [
  | none ↦ false
  | some at ↦ ltb (issued_ms v.issued_at) at
]

-- The session that a refresh opens for the token's user, and the token that replaces it.
unfoldable pub renew :
    (String → String) → ℕ → ℕ → Sessions → Verified → Person → RefreshAnswer × Sessions
renew lower new_org fresh s v u =
    let (org, role, s') = resolve_org lower new_org s u.id u.email in
    (
      renews (open_session u org role v.sso_org (restricts s' v.sso_org org))
          (refresh_claims u.id fresh v.sso_org),
      revoke v.id v.jti s',
    )

-- POST /auth/refresh; `fresh` is the id of the new refresh token.
unfoldable pub refresh :
    (String → String) → ℕ → ℕ → Sessions → Option Verified → RefreshAnswer × Sessions
refresh lower new_org fresh s none = (invalid, s)
refresh lower new_org fresh s (some v) =
    if is_revoked s v.id v.jti
    then (revoked_token, s)
    else elim (find (λ (u : Person). u.id == v.id) s.people) [
      | none ↦ (user_not_found, s)
      | some u ↦
          if is_before_watermark u v then (revoked_session, s) else renew lower new_org fresh s v u
    ]

-- POST /auth/logout
unfoldable pub logout : Sessions → Option Verified → Sessions
logout s none = s
logout s (some v) = revoke v.id v.jti s

abbrev pub member_of : Sessions → ℕ → ℕ → Option Member
member_of s org user = find (λ (m : Member). m.org_id == org && m.user_id == user) s.members

-- POST /auth/switch-org by the user of a session, where the body's orgId is a number; `none` is the
-- answer 403.
unfoldable pub switch_org : Sessions → AuthUser → ℕ → Option AuthUser
switch_org s user org =
    Option.map
      (λ (m : Member). record user {
        org_id = org;
        org_role = m.role;
        sso_required = restricts s user.sso_org org;
      })
      (member_of s org user.id)
