-- ===== src/Auth/Claims.antt =====
-- backend/src/routes/auth.ts: the claims of a session agree with the tables when it is opened.
use project_flakey.Prelude.{
  ℕ, ◌≡◌, refl, sym, ap, subst, ◌∙◌, ◌↔◌, ◌≢◌, String, Bool, true, ◌&&◌, Option, none, some, List,
  [], ◌∷◌, ◌==◌, ==-refl, find, any, arith, Bool-cases, Option-cases, inl, inr, find-snoc,
  find_sound,
}
use project_flakey.Auth.Token.{AuthUser, Payload}
use project_flakey.Auth.Gate.{Member, member_role}
use project_flakey.Auth.Session.{
  Sessions, Revocation, SsoConfig, Person, Verified, Invite, RefreshAnswer, renews, refresh, renew,
  revoke, is_revoked, is_before_watermark, resolve_org, join_or_create, open_invite,
  first_membership, login_session, switch_org, restricts, org_enforces_sso, open_session,
  add_member, member_of,
}

-- The session's user is a member of its organization with the session's role, and the session has the
-- restriction that the code computes.
abbrev IsComputed : Sessions → AuthUser → Type 0
IsComputed s user =
    (member_role s.members user.org_id user.id ≡ some user.org_role)
    × (user.sso_required ≡ restricts s user.sso_org user.org_id)

-- The configuration of the organization enforces single sign-on.
abbrev pub Enforces : Sessions → ℕ → Type 0
Enforces s org =
    (c : SsoConfig) × (find (λ (x : SsoConfig). x.org_id == org) s.sso ≡ some c)
    × (c.enabled ≡ true)
    × (c.enforced ≡ true)

-- The session's user is a member of its organization with the session's role, and the session is
-- restricted just where the organization enforces single sign-on and the session did not pass it there.
abbrev pub IsCurrent : Sessions → AuthUser → Type 0
IsCurrent s user =
    (member_role s.members user.org_id user.id ≡ some user.org_role)
    × ((user.sso_required ≡ true) ↔ ((user.sso_org ≢ some user.org_id) × Enforces s user.org_id))

-- The steps that open a session, with the session and the state they leave.
pub data Opens (lower : String → String) (s : Sessions) : AuthUser → Sessions → Type 0 where
  by_login :
      (new_org : ℕ) (u : Person)
      → Opens lower s (login_session lower new_org s u).0 (login_session lower new_org s u).1
  by_refresh :
      (new_org fresh : ℕ) (v : Verified) (user : AuthUser) (token : Payload)
      → (refresh lower new_org fresh s (some v)).0 ≡ renews user token
      → Opens lower s user (refresh lower new_org fresh s (some v)).1
  by_switch :
      (u : AuthUser) (org : ℕ) (user : AuthUser)
      → switch_org s u org ≡ some user
      → Opens lower s user s

-- A narrower query finds what a wider one found first, if it fits.
find_narrow :
    (p q : Member → Bool)
    → ((x : Member) → q x ≡ true → p x ≡ true)
    → (xs : List Member) {r : Member} → find p xs ≡ some r
    → q r ≡ true
    → find q xs ≡ some r
find_narrow p q k [] e h = cc
find_narrow p q k (x ∷ xs) {r} e h = elim (Bool-cases (p x)) [
  | inl hit ↦
      let same : x ≡ r = cc (rw hit at e) in
      let fits : q x ≡ true = subst (λ y. q y ≡ true) (sym same) h in rw (fits, same)
  | inr miss ↦ elim (Bool-cases (q x)) [
    | inl fits ↦ cc (k x fits, miss)
    | inr no_fit ↦ rw no_fit (find_narrow p q k xs (rw miss at e) h)
  ]
]

at_org : ℕ → ℕ → Member → Bool
at_org org user m = m.org_id == org && m.user_id == user

narrows : (org user : ℕ) (x : Member) → at_org org user x ≡ true → (x.user_id == user) ≡ true
unfolding at_org
narrows org user x h = ground arith

first-member_role :
    (s : Sessions) (user : ℕ) (m : Member)
    → first_membership s user ≡ some m
    → member_role s.members m.org_id user ≡ some m.role
unfolding member_role at_org
first-member_role s user m e =
    let own : (m.user_id == user) ≡ true =
      find_sound (λ (x : Member). x.user_id == user) s.members e in
    let fits : at_org m.org_id user m ≡ true = ground arith in
    rw (
      find_narrow (λ (x : Member). x.user_id == user) (at_org m.org_id user) (narrows m.org_id user)
        s.members e fits)

find-none_narrow :
    (p q : Member → Bool)
    → ((x : Member) → q x ≡ true → p x ≡ true)
    → (xs : List Member) → find p xs ≡ none
    → find q xs ≡ none
find-none_narrow p q k [] e = refl
find-none_narrow p q k (x ∷ xs) e = elim (Bool-cases (p x)) [
  | inl hit ↦ cc (rw hit at e)
  | inr miss ↦ elim (Bool-cases (q x)) [
    | inl fits ↦ cc (k x fits, miss)
    | inr no_fit ↦ rw no_fit (find-none_narrow p q k xs (rw miss at e))
  ]
]

added-member_role :
    (s : Sessions) (org user : ℕ) (role : String)
    → first_membership s user ≡ none
    → member_role (add_member s org user role).members org user ≡ some role
unfolding member_role at_org
added-member_role s org user role e =
    let gone =
      find-none_narrow (λ (x : Member). x.user_id == user) (at_org org user) (narrows org user)
        s.members e in
    rw (
      find-snoc (at_org org user) s.members (record { org_id = org; user_id = user; role = role }),
      gone,
      ==-refl org,
      ==-refl user,
    )

module _ (lower : String → String) (new_org : ℕ) (s : Sessions) (user : ℕ) (email : String) where
  resolved-member_role :
      let r = resolve_org lower new_org s user email in member_role r.2.members r.0 user ≡ some r.1
  unfolding resolve_org
  resolved-member_role = elim (Option-cases (first_membership s user)) [
    | inr (m, old) ↦ rw (resolve_org, old) (first-member_role s user m old)
    | inl new ↦ rw (resolve_org, new) (joined (open_invite lower s email) new)
  ]
    where
      joined :
          (i : Option Invite)
          → first_membership s user ≡ none
          → let r = join_or_create s user new_org i in member_role r.2.members r.0 user ≡ some r.1
      joined none new = added-member_role s new_org user "owner" new
      joined (some i) new = added-member_role s i.org_id user i.role new

some_eq : {u v : AuthUser} → some u ≡ some v → u ≡ v
some_eq e = cc

-- What a revocation leaves alone.
revoke-IsComputed :
    (s : Sessions) (owner : ℕ) (k : Option ℕ) (u : AuthUser)
    → IsComputed s u
    → IsComputed (revoke owner k s) u
unfolding revoke org_enforces_sso
revoke-IsComputed s owner none u h = h
revoke-IsComputed s owner (some j) u h =
    elim (Bool-cases (any (λ (k : Revocation). k.jti == j) s.revoked)) [
      | inl old ↦ rw (revoke, old) h
      | inr new ↦ rw (revoke, new) h
    ]

user_in : AuthUser → RefreshAnswer → AuthUser
user_in d (renews u t) = u
user_in d _ = d

renewed-IsComputed :
    (lower : String → String) (new_org fresh : ℕ) (s : Sessions) (v : Verified) {user : AuthUser}
    {token : Payload}
    → (refresh lower new_org fresh s (some v)).0 ≡ renews user token
    → IsComputed (refresh lower new_org fresh s (some v)).1 user
unfolding refresh renew user_in
renewed-IsComputed lower new_org fresh s v {user} {token} e =
    elim (Bool-cases (is_revoked s v.id v.jti)) [
      | inl used ↦ cc (rw (refresh, used) at e)
      | inr unused ↦ elim (Option-cases (find (λ (u : Person). u.id == v.id) s.people)) [
        | inl unknown ↦ cc (rw (refresh, unused, unknown) at e)
        | inr (u, known) ↦ elim (Bool-cases (is_before_watermark u v)) [
          | inl dead ↦ cc (rw (refresh, unused, known, dead) at e)
          | inr live ↦
              let r = resolve_org lower new_org s u.id u.email in
              let opened = open_session u r.0 r.1 v.sso_org (restricts r.2 v.sso_org r.0) in
              let same : opened ≡ user =
                ap (user_in opened) (rw (refresh, unused, known, live) at e) in
              rw (refresh, unused, known, live)
                (revoke-IsComputed r.2 v.id v.jti user (
                  subst (IsComputed r.2) same
                    (resolved-member_role lower new_org s u.id u.email, refl)))
        ]
      ]
    ]

switched-IsComputed :
    (s : Sessions) (u : AuthUser) (org : ℕ) {user : AuthUser}
    → switch_org s u org ≡ some user
    → IsComputed s user
unfolding switch_org member_role
switched-IsComputed s u org {user} e = elim (Option-cases (member_of s org u.id)) [
  | inl out ↦ cc (rw (switch_org, out) at e)
  | inr (m, member) ↦
      let switched = record u {
        org_id = org;
        org_role = m.role;
        sso_required = restricts s u.sso_org org;
      } in
      let same : switched ≡ user = some_eq (rw (switch_org, member) at e) in
      subst (IsComputed s) same (rw member, refl)
]

Opens-IsComputed :
    (lower : String → String) (s next : Sessions) (user : AuthUser)
    → Opens lower s user next
    → IsComputed next user
unfolding login_session
Opens-IsComputed lower s _ _ (by_login new_org u) =
    (resolved-member_role lower new_org s u.id u.email, refl)
Opens-IsComputed lower s _ _ (by_refresh new_org fresh v user token e) =
    renewed-IsComputed lower new_org fresh s v e
Opens-IsComputed lower s _ _ (by_switch u org user e) = switched-IsComputed s u org e

org_enforces_sso-Enforces :
    (s : Sessions) (org : ℕ) → (org_enforces_sso s org ≡ true) ↔ Enforces s org
unfolding org_enforces_sso
org_enforces_sso-Enforces s org =
    elim (Option-cases (find (λ (x : SsoConfig). x.org_id == org) s.sso)) [
      | inl missing ↦
          ((λ h. cc (rw (org_enforces_sso, missing) at h)), λ (c, found, on, forced). cc)
      | inr (d, there) ↦ (
        (λ h.
            let both = rw (org_enforces_sso, there) at h in (d, there, ground arith, ground arith)),
        λ (c, found, on, forced).
            let same : d ≡ c = some_config (sym there ∙ found) in
            rw (org_enforces_sso, there, same, on, forced),
      )
    ]
  where
    some_config : {a b : SsoConfig} → some a ≡ some b → a ≡ b
    some_config q = cc

some_org : {a b : ℕ} → some a ≡ some b → a ≡ b
some_org q = cc

restricts_iff :
    (s : Sessions) (sso_org : Option ℕ) (org : ℕ)
    → (restricts s sso_org org ≡ true) ↔ ((sso_org ≢ some org) × Enforces s org)
restricts_iff s none org =
    let (to, from) = org_enforces_sso-Enforces s org in
    ((λ h. ((λ e. cc), to (ground arith))), λ h. let on = from h.1 in ground arith)
restricts_iff s (some o) org =
    let (to, from) = org_enforces_sso-Enforces s org in
    elim (Bool-cases (o == org)) [
      | inl hit ↦
          let same : o ≡ org = ground arith in
          ((λ h. cc (rw hit at h)), λ h. elim (h.0 (ap some same)) [ ])
      | inr miss ↦ (
        (λ h. ((λ e. let same = some_org e in ground arith), to (rw miss at h))),
        λ h. rw miss (from h.1),
      )
    ]

-- Whenever a login, a refresh or a change of organization opens a session, its user is at that moment
-- a member of its organization with the role it claims, also where the step itself accepts an
-- invitation or creates a personal organization; and the session is restricted exactly where the
-- organization enforces single sign-on and the session did not pass single sign-on for that very
-- organization.
pub Opens-IsCurrent :
    (lower : String → String) (s next : Sessions) (user : AuthUser)
    → Opens lower s user next
    → IsCurrent next user
Opens-IsCurrent lower s next user opens =
    let (member, restricted) = Opens-IsComputed lower s next user opens in
    let (to, from) = restricts_iff next user.sso_org user.org_id in
    (member, ((λ e. to (sym restricted ∙ e)), λ h. restricted ∙ from h))
