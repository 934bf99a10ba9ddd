-- ===== src/Auth/Token.antt =====
-- backend/src/auth.ts: the claims of a signed token and what verifying one yields. Signing and
-- verifying (jsonwebtoken, with the secret and the pinned algorithm) are parameters; `none` is the
-- exception of `jwt.verify`. The times of issue and expiry are left to that library.
use project_flakey.Prelude.{
  ℕ, String, Bool, true, false, Option, none, some, ◌==◌, str_eq, if◌then◌else◌, find,
}
use project_flakey.Prelude.Split.{split, starts_with, join_with}
use project_flakey.Prelude.Text.{trim}
use project_flakey.Prelude.{map, drop}
use mathlib.Core.Option

pub record AuthUser : Type 0 where
  pub id : ℕ
  pub email : String
  pub name : String
  pub role : String
  pub org_id : ℕ
  pub org_role : String
  pub is_support_read : Bool
  pub support_reason : String
  pub sso_org : Option ℕ
  pub sso_required : Bool

-- The payload of a token: `user` holds the claims that are fields of AuthUser.
pub record Payload : Type 0 where
  pub user : AuthUser
  pub type : Option String
  pub jti : Option ℕ
  pub support_read : Bool
  pub reason : Option String

-- `...(user.ssoOrg ? { ssoOrg: user.ssoOrg } : {})`
abbrev pub truthy : Option ℕ → Option ℕ
truthy none = none
truthy (some n) = if n == 0 then none else some n

-- The claims that signToken encodes.
unfoldable pub token_claims : AuthUser → Payload
token_claims user = record {
  user = record user {
    is_support_read = false;
    support_reason = "";
    sso_org = truthy user.sso_org;
  };
  type = none;
  jti = none;
  support_read = false;
  reason = none;
}

-- The claims that signSupportToken encodes.
unfoldable pub support_claims : AuthUser → ℕ → String → Payload
support_claims actor target_org_id why = record {
  user = record actor {
    org_id = target_org_id;
    org_role = "support";
    is_support_read = false;
    support_reason = "";
    sso_org = none;
    sso_required = false;
  };
  type = none;
  jti = none;
  support_read = true;
  reason = some why;
}

-- The claims that signRefreshToken encodes; the fields it does not name are absent, here empty.
unfoldable pub refresh_claims : ℕ → ℕ → Option ℕ → Payload
refresh_claims user_id fresh org = record {
  user = record {
    id = user_id;
    email = "";
    name = "";
    role = "";
    org_id = 0;
    org_role = "";
    is_support_read = false;
    support_reason = "";
    sso_org = truthy org;
    sso_required = false;
  };
  type = some "refresh";
  jti = some fresh;
  support_read = false;
  reason = none;
}

abbrev pub is_refresh : Payload → Bool
is_refresh p = elim p.type [ none ↦ false | some t ↦ str_eq t "refresh" ]

abbrev reason_or_empty : Option String → String
reason_or_empty none = ""
reason_or_empty (some s) = s

-- What verifyToken makes of a payload that verified.
unfoldable pub user_of : Payload → Option AuthUser
user_of p =
    if is_refresh p
    then none
    else if p.support_read
    then some (record p.user {
      org_role = "support";
      is_support_read = true;
      support_reason = reason_or_empty p.reason;
      sso_org = none;
      sso_required = false;
    })
    else some p.user

module _ (verify : String → Option Payload) where
  unfoldable pub verify_token : String → Option AuthUser
  verify_token token = Option.bind (verify token) user_of

-- `header.split(";").map(trim).find(startsWith(name + "="))`, and what follows its first "="
unfoldable pub parse_cookie : Option String → String → Option String
unfolding split starts_with trim
parse_cookie none name = none
parse_cookie (some header) name =
    if str_eq header ""
    then none
    else Option.map (λ m. join_with "=" (drop 1 (split "=" m)))
        (find (starts_with (Prim.Native.String.◌++◌ name "=")) (map trim (split ";" header)))
