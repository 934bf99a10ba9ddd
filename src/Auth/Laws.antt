-- ===== src/Auth/Laws.antt =====
-- What the gate of backend/src/auth.ts admits, and what becomes of the tokens it issued.
use project_flakey.Prelude.{
  ◌≡◌, refl, sym, ap, subst, ◌∙◌, ◌⊎◌, inl, inr, String, Bool, true, false, ◌&&◌, not, Option, none,
  some, if◌then◌else◌, Bool-cases, Option-cases,
}
use project_flakey.Prelude.Split.{starts_with, drop_chars}
use project_flakey.Auth.Token.{AuthUser, Payload}
use project_flakey.Auth.Gate.{
  Request, Database, key_user, Answer, accepts, refuses, throws, key_lookup, key_membership,
  support_flag, membership, member_role, is_support_user, verify_api_key, candidate,
  bearer_candidate, cookie_candidate, admit, admit_support, admit_session, clamp_sso, require_auth,
  is_read, is_me, on_support_surface,
}
use mathlib.Core.Option

-- The user is a support user that reads the support surface, or a member with its current role; a
-- session that single sign-on restricts asks for GET /auth/me.
abbrev pub IsAdmitted : Database → Request → AuthUser → Type 0
IsAdmitted db req user =
    (((user.is_support_read ≡ true)
        × (is_support_user db.users user.id ≡ true)
        × (is_read req ≡ true)
        × (on_support_surface req ≡ true))
      ⊎ ((user.is_support_read ≡ false)
          × (member_role db.members user.org_id user.id ≡ some user.org_role)))
    × ((user.sso_required && not (is_me req)) ≡ false)

-- A user that a key was verified to.
abbrev IsKeyUser : Database → AuthUser → Type 0
IsKeyUser db user =
    (user.is_support_read ≡ false)
    × (member_role db.members user.org_id user.id ≡ some user.org_role)

user_in : Answer → AuthUser → AuthUser
user_in (accepts user) d = user
user_in (refuses s m) d = d
user_in throws d = d

accepts_eq : (u v : AuthUser) → accepts u ≡ accepts v → u ≡ v
unfolding user_in
accepts_eq u v e = ap (λ a. user_in a u) e

some_eq : {u v : AuthUser} → some u ≡ some v → u ≡ v
some_eq e = cc

verify_api_key_sound :
    (db : Database) (key : String) {user : AuthUser}
    → verify_api_key db key ≡ some user
    → IsKeyUser db user × (user.sso_required ≡ false)
unfolding verify_api_key Option.bind
verify_api_key_sound db key {user} e = elim (Bool-cases (db.fails key_lookup)) [
  | inl down ↦ cc (rw (verify_api_key, down) at e)
  | inr up ↦ elim (Option-cases (db.find_key key)) [
    | inl unknown ↦ cc (rw (verify_api_key, up, unknown) at e)
    | inr (row, known) ↦ elim (Bool-cases (db.fails key_membership)) [
      | inl down ↦ cc (rw (verify_api_key, up, known, down) at e)
      | inr read ↦ elim (Option-cases (member_role db.members row.org_id row.user_id)) [
        | inl gone ↦ cc (rw (verify_api_key, up, known, read, gone) at e)
        | inr (role, member) ↦
            let same : key_user row role ≡ user =
              some_eq (rw (verify_api_key, up, known, read, member) at e) in
            subst (λ u. IsKeyUser db u × (u.sso_required ≡ false)) same ((refl, member), refl)
      ]
    ]
  ]
]

-- A candidate marked as coming from a key is the user of that key.
abbrev IsTagged : Database → Option AuthUser × Bool → Type 0
IsTagged db c =
    (user : AuthUser)
    → c.0 ≡ some user
    → c.1 ≡ true
    → IsKeyUser db user × (user.sso_required ≡ false)

module _ (verify : String → Option Payload) where
  cookie_candidate-IsTagged :
      (db : Database) (cookie : Option String) → IsTagged db (cookie_candidate verify cookie)
  unfolding cookie_candidate
  cookie_candidate-IsTagged db cookie user e tag = cc

  bearer_candidate-IsTagged :
      (db : Database) (token : String) → IsTagged db (bearer_candidate verify db token)
  unfolding bearer_candidate
  bearer_candidate-IsTagged db token user e tag = elim (Bool-cases (starts_with "fk_" token)) [
    | inr jwt ↦ cc (rw (bearer_candidate, jwt) at tag)
    | inl key ↦ elim (Option-cases (verify_api_key db token)) [
      | inl none_ ↦ cc (rw (bearer_candidate, key, none_) at tag)
      | inr (u, found) ↦
          let same : u ≡ user = some_eq (rw (bearer_candidate, key, found) at e) in
          verify_api_key_sound db token (found ∙ ap some same)
    ]
  ]

  candidate-IsTagged : (db : Database) (req : Request) → IsTagged db (candidate verify db req)
  unfolding candidate
  candidate-IsTagged db req = elim (Option-cases req.authorization) [
    | inl absent ↦ rw (candidate, absent) (cookie_candidate-IsTagged db req.cookie)
    | inr (header, sent) ↦ elim (Bool-cases (starts_with "Bearer " header)) [
      | inl bearer ↦
          rw (candidate, sent, bearer) (bearer_candidate-IsTagged db (drop_chars 7 header))
      | inr other ↦ rw (candidate, sent, other) (cookie_candidate-IsTagged db req.cookie)
    ]
  ]

-- What the clamp of single sign-on lets through.
clamp_sso_sound :
    (req : Request) (a : Answer) {user : AuthUser}
    → clamp_sso req a ≡ accepts user
    → (a ≡ accepts user) × ((user.sso_required && not (is_me req)) ≡ false)
unfolding clamp_sso
clamp_sso_sound req (refuses status message) e = cc
clamp_sso_sound req throws e = cc
clamp_sso_sound req (accepts u) {user} e = elim (Bool-cases (u.sso_required && not (is_me req))) [
  | inl hit ↦ cc (rw (clamp_sso, hit) at e)
  | inr miss ↦
      let same : u ≡ user = accepts_eq u user (rw (clamp_sso, miss) at e) in
      (
        ap accepts same,
        subst (λ (v : AuthUser). (v.sso_required && not (is_me req)) ≡ false) same miss,
      )
]

admit_support_sound :
    (db : Database) (req : Request) (u : AuthUser) {user : AuthUser}
    → admit_support db req u ≡ accepts user
    → (u ≡ user)
      × (is_support_user db.users u.id ≡ true)
      × (is_read req ≡ true)
      × (on_support_surface req ≡ true)
unfolding admit_support
admit_support_sound db req u {user} e = elim (Bool-cases (db.fails support_flag)) [
  | inl down ↦ cc (rw (admit_support, down) at e)
  | inr up ↦ elim (Bool-cases (is_support_user db.users u.id)) [
    | inr revoked ↦ cc (rw (admit_support, up, revoked) at e)
    | inl support ↦ elim (Bool-cases (is_read req)) [
      | inr writes ↦ cc (rw (admit_support, up, support, writes) at e)
      | inl reads ↦ elim (Bool-cases (on_support_surface req)) [
        | inr off ↦ cc (rw (admit_support, up, support, reads, off) at e)
        | inl on ↦ (
          accepts_eq u user (rw (admit_support, up, support, reads, on) at e),
          support,
          reads,
          on,
        )
      ]
    ]
  ]
]

admit_session_sound :
    (db : Database) (u : AuthUser) {user : AuthUser}
    → u.is_support_read ≡ false
    → admit_session db u ≡ accepts user
    → IsKeyUser db user
unfolding admit_session
admit_session_sound db u {user} plain e = elim (Bool-cases (db.fails membership)) [
  | inl down ↦ cc (rw (admit_session, down) at e)
  | inr up ↦ elim (Option-cases (member_role db.members u.org_id u.id)) [
    | inl gone ↦ cc (rw (admit_session, up, gone) at e)
    | inr (role, member) ↦
        let same : record u { org_role = role } ≡ user =
          accepts_eq (record u { org_role = role }) user (rw (admit_session, up, member) at e) in
        subst (IsKeyUser db) same (plain, member)
  ]
]

admit_sound :
    (db : Database) (req : Request) (c : Option AuthUser × Bool) {user : AuthUser}
    → IsTagged db c
    → admit db req c ≡ accepts user
    → IsAdmitted db req user
unfolding admit
admit_sound db req (none, tag) h e = cc
admit_sound db req (some u, tag) {user} h e = elim (Bool-cases u.is_support_read) [
  | inl support ↦
      let (got, me) = clamp_sso_sound req (admit_support db req u) (sym (ap pick support) ∙ e) in
      let (same, now, reads, on) = admit_support_sound db req u got in
      (
        inl (
          subst (λ (v : AuthUser). v.is_support_read ≡ true) same support,
          subst (λ (v : AuthUser). is_support_user db.users v.id ≡ true) same now,
          reads,
          on,
        ),
        me,
      )
  | inr plain ↦ elim (Bool-cases tag) [
    | inl key ↦
        let (got, me) =
          clamp_sso_sound req (accepts u) (sym (ap pick plain ∙ ap key_pick key) ∙ e) in
        (inr (h user (ap some (accepts_eq u user got)) key).0, me)
    | inr jwt ↦
        let (got, me) =
          clamp_sso_sound req (admit_session db u) (sym (ap pick plain ∙ ap key_pick jwt) ∙ e) in
        (inr (admit_session_sound db u plain got), me)
  ]
]
  where
    key_pick : Bool → Answer
    key_pick b = clamp_sso req (if b then accepts u else admit_session db u)

    pick : Bool → Answer
    pick b =
        clamp_sso req
          (if b then admit_support db req u else if tag then accepts u else admit_session db u)

-- Every request that the gate lets through is of one of two kinds: a support session whose user is a
-- support user now and that reads an allow-listed resource, or the request of a user who is a member
-- of the organization now and carries the role that the membership has now, whatever the token says.
-- In either case, a session that single sign-on restricts asks for GET /auth/me.
pub require_auth_sound :
    (verify : String → Option Payload) (db : Database) (req : Request) {user : AuthUser}
    → require_auth verify db req ≡ accepts user
    → IsAdmitted db req user
unfolding require_auth
require_auth_sound verify db req e =
    admit_sound db req (candidate verify db req) (candidate-IsTagged verify db req) e
