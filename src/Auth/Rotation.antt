-- ===== src/Auth/Rotation.antt =====
-- backend/src/routes/auth.ts: a refresh token serves once, and a logout ends its use.
use project_flakey.Prelude.{
  ℕ, ◌≡◌, refl, ap, sym, subst, ◌∙◌, ◌&&◌, ==-refl, All, String, true, Option, none, some, List, [],
  ◌∷◌, ◌==◌, find, any, arith, Bool-cases, Option-cases, inl, inr,
}
use project_flakey.Auth.Token.{AuthUser, Payload}
use project_flakey.Auth.Session.{
  Sessions, Revocation, Person, Verified, revoked_token, renews, refresh, renew, logout, revoke,
  is_revoked, is_before_watermark, resolve_org, join_or_create, open_invite, Invite,
  first_membership, login_session,
}

-- What changes the sessions' tables.
pub data Event : Type 0 where
  refreshes : ℕ → ℕ → Option Verified → Event
  logs_out : Option Verified → Event
  logs_in : ℕ → Person → Event

-- The rows of the given token id are of the given user.
abbrev pub AllOwn : ℕ → ℕ → List Revocation → Type 0
AllOwn owner j = All (λ (k : Revocation). k.jti ≡ j → k.user_id ≡ owner)

module _ (lower : String → String) where
  unfoldable pub handle : Sessions → Event → Sessions
  handle s (refreshes new_org fresh token) = (refresh lower new_org fresh s token).1
  handle s (logs_out token) = logout s token
  handle s (logs_in new_org user) = (login_session lower new_org s user).1

  unfoldable pub handle_all : Sessions → List Event → Sessions
  handle_all s [] = s
  handle_all s (e ∷ es) = handle_all (handle s e) es

  -- No step takes a token off the list of the revoked ones.
  resolve_revoked :
      (new_org : ℕ) (s : Sessions) (user : ℕ) (email : String)
      → (resolve_org lower new_org s user email).2.revoked ≡ s.revoked
  unfolding resolve_org
  resolve_revoked new_org s user email = elim (Option-cases (first_membership s user)) [
    | inr (m, old) ↦ rw (resolve_org, old)
    | inl new ↦ rw (resolve_org, new) (joined (open_invite lower s email))
  ]
    where
      joined : (i : Option Invite) → (join_or_create s user new_org i).2.revoked ≡ s.revoked
      joined none = refl
      joined (some i) = refl

  resolve-is_revoked :
      (new_org : ℕ) (s : Sessions) (user : ℕ) (email : String) (owner j : ℕ)
      → is_revoked s owner (some j) ≡ true
      → is_revoked (resolve_org lower new_org s user email).2 owner (some j) ≡ true
  resolve-is_revoked new_org s user email owner j h =
      ap (λ l. any (λ (k : Revocation). k.jti == j && k.user_id == owner) l)
        (resolve_revoked new_org s user email)
      ∙ h

  revoke-is_revoked :
      (s : Sessions) (user : ℕ) (k : Option ℕ) (owner j : ℕ)
      → is_revoked s owner (some j) ≡ true
      → is_revoked (revoke user k s) owner (some j) ≡ true
  unfolding revoke
  revoke-is_revoked s user none owner j h = h
  revoke-is_revoked s user (some k) owner j h =
      elim (Bool-cases (any (λ (x : Revocation). x.jti == k) s.revoked)) [
        | inl old ↦ rw (revoke, old) h
        | inr new ↦ rw (revoke, new) (ground arith)
      ]

  own_row :
      (owner j : ℕ) (rows : List Revocation)
      → AllOwn owner j rows
      → any (λ (x : Revocation). x.jti == j) rows ≡ true
      → any (λ (x : Revocation). x.jti == j && x.user_id == owner) rows ≡ true
  own_row owner j [] own h = cc
  own_row owner j (x ∷ xs) own h = elim (Bool-cases (x.jti == j)) [
    | inl hit ↦
        let mine : (x.user_id == owner) ≡ true = rw (own.0 (ground arith)) (==-refl owner) in
        rw (hit, mine)
    | inr miss ↦ rw miss (own_row owner j xs own.1 (rw miss at h))
  ]

  revoked_now :
      (s : Sessions) (owner j : ℕ)
      → AllOwn owner j s.revoked
      → is_revoked (revoke owner (some j) s) owner (some j) ≡ true
  unfolding revoke
  revoked_now s owner j own = elim (Bool-cases (any (λ (x : Revocation). x.jti == j) s.revoked)) [
    | inl old ↦ rw (revoke, old) (own_row owner j s.revoked own old)
    | inr new ↦ rw (revoke, new) (ground arith)
  ]

  revoked_as :
      (s : Sessions) (owner : ℕ) (k : Option ℕ) (j : ℕ)
      → AllOwn owner j s.revoked
      → k ≡ some j
      → is_revoked (revoke owner k s) owner (some j) ≡ true
  revoked_as s owner k j own e = rw e (revoked_now s owner j own)

  refresh-is_revoked :
      (new_org fresh : ℕ) (s : Sessions) (v : Verified) (owner j : ℕ)
      → is_revoked s owner (some j) ≡ true
      → is_revoked (refresh lower new_org fresh s (some v)).1 owner (some j) ≡ true
  unfolding refresh renew
  refresh-is_revoked new_org fresh s v owner j h = elim (Bool-cases (is_revoked s v.id v.jti)) [
    | inl used ↦ rw (refresh, used) h
    | inr unused ↦ elim (Option-cases (find (λ (u : Person). u.id == v.id) s.people)) [
      | inl unknown ↦ rw (refresh, unused, unknown) h
      | inr (u, known) ↦ elim (Bool-cases (is_before_watermark u v)) [
        | inl dead ↦ rw (refresh, unused, known, dead) h
        | inr live ↦
            rw (refresh, unused, known, live)
              (revoke-is_revoked (resolve_org lower new_org s u.id u.email).2 v.id v.jti owner j
                (resolve-is_revoked new_org s u.id u.email owner j h))
      ]
    ]
  ]

  handle-is_revoked :
      (s : Sessions) (e : Event) (owner j : ℕ)
      → is_revoked s owner (some j) ≡ true
      → is_revoked (handle s e) owner (some j) ≡ true
  unfolding handle logout login_session refresh
  handle-is_revoked s (refreshes new_org fresh none) owner j h = h
  handle-is_revoked s (refreshes new_org fresh (some v)) owner j h =
      refresh-is_revoked new_org fresh s v owner j h
  handle-is_revoked s (logs_out none) owner j h = h
  handle-is_revoked s (logs_out (some v)) owner j h = revoke-is_revoked s v.id v.jti owner j h
  handle-is_revoked s (logs_in new_org user) owner j h =
      resolve-is_revoked new_org s user.id user.email owner j h

  handle_all-is_revoked :
      (s : Sessions) (es : List Event) (owner j : ℕ)
      → is_revoked s owner (some j) ≡ true
      → is_revoked (handle_all s es) owner (some j) ≡ true
  unfolding handle_all
  handle_all-is_revoked s [] owner j h = h
  handle_all-is_revoked s (e ∷ es) owner j h =
      handle_all-is_revoked (handle s e) es owner j (handle-is_revoked s e owner j h)

  -- A refresh that renews has revoked the token it consumed.
  renewed-is_revoked :
      (new_org fresh : ℕ) (s : Sessions) (v : Verified) (j : ℕ)
      → AllOwn v.id j s.revoked
      → v.jti ≡ some j
      → {user : AuthUser} {token : Payload}
      → (refresh lower new_org fresh s (some v)).0 ≡ renews user token
      → is_revoked (refresh lower new_org fresh s (some v)).1 v.id (some j) ≡ true
  unfolding refresh renew
  renewed-is_revoked new_org fresh s v j own named e = elim (Bool-cases (is_revoked s v.id v.jti)) [
    | inl used ↦ cc (rw (refresh, used) at e)
    | inr unused ↦ elim (Option-cases (find (λ (u : Person). u.id == v.id) s.people)) [
      | inl unknown ↦ cc (rw (refresh, unused, unknown) at e)
      | inr (u, known) ↦ elim (Bool-cases (is_before_watermark u v)) [
        | inl dead ↦ cc (rw (refresh, unused, known, dead) at e)
        | inr live ↦
            rw (refresh, unused, known, live)
              (revoked_as (resolve_org lower new_org s u.id u.email).2 v.id v.jti j
                (subst (AllOwn v.id j) (sym (resolve_revoked new_org s u.id u.email)) own) named)
      ]
    ]
  ]

  refresh_revoked :
      (new_org fresh : ℕ) (s : Sessions) (v : Verified) (j : ℕ)
      → v.jti ≡ some j
      → is_revoked s v.id (some j) ≡ true
      → refresh lower new_org fresh s (some v) ≡ (revoked_token, s)
  unfolding refresh
  refresh_revoked new_org fresh s v j named h =
      let used : is_revoked s v.id v.jti ≡ true = ap (is_revoked s v.id) named ∙ h in
      rw (refresh, used)

-- The steps that spend a refresh token, with the state they leave: a refresh that renews, and a logout.
pub data Spends (lower : String → String) (s : Sessions) (v : Verified) : Sessions → Type 0 where
  by_refresh :
      (new_org fresh : ℕ) (user : AuthUser) (token : Payload)
      → (refresh lower new_org fresh s (some v)).0 ≡ renews user token
      → Spends lower s v (refresh lower new_org fresh s (some v)).1
  by_logout : Spends lower s v (logout s (some v))

spent-is_revoked :
    (lower : String → String) (s : Sessions) (v : Verified) (j : ℕ) (next : Sessions)
    → AllOwn v.id j s.revoked
    → v.jti ≡ some j
    → Spends lower s v next
    → is_revoked next v.id (some j) ≡ true
unfolding logout
spent-is_revoked lower s v j _ own named (by_refresh new_org fresh user token e) =
    renewed-is_revoked lower new_org fresh s v j own named e
spent-is_revoked lower s v j _ own named by_logout = revoked_as lower s v.id v.jti j own named

-- A refresh token that has an id serves once, where the requests run one after the other. After a
-- refresh that renewed with it, or a logout with it, and after any sequence of refreshes, logouts and
-- logins since then, a refresh with a token of the same user and id answers that it has been revoked and
-- changes nothing. This asks that no token of another user with this id had been revoked before.
pub refresh_once :
    (lower : String → String) (s next : Sessions) (v w : Verified) (j : ℕ) (es : List Event)
    (new_org fresh : ℕ)
    → AllOwn v.id j s.revoked
    → v.jti ≡ some j
    → w.jti ≡ some j
    → w.id ≡ v.id
    → Spends lower s v next
    → refresh lower new_org fresh (handle_all lower next es) (some w)
      ≡ (revoked_token, handle_all lower next es)
refresh_once lower s next v w j es new_org fresh own first second same spent =
    let after =
      handle_all-is_revoked lower next es v.id j
        (spent-is_revoked lower s v j next own first spent) in
    refresh_revoked lower new_org fresh (handle_all lower next es) w j second
      (ap (λ u. is_revoked (handle_all lower next es) u (some j)) same ∙ after)
