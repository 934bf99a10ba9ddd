-- ===== src/Auth/Sessions.antt =====
-- backend/src/auth.ts: from a token that was signed to the request that carries it.
use project_flakey.Prelude.{
  ℕ, ◌≡◌, refl, sym, ap, ◌∙◌, String, Bool, true, false, ◌&&◌, ◌||◌, not, Option, none, some,
  str_eq, str_eq_refl, if◌then◌else◌, Bool-cases, inl, inr, List, [], map, find, All,
}
use project_flakey.Prelude.Split.{
  starts_with, starts_with-append, drop_chars, drop-append, append-nonempty, starts_with-key, split,
  split-cases, split-append, split_whole, has_char, has_char-append, has_space, has_space-append,
  trim_eq, join_with, join-split,
}
use project_flakey.Prelude.Text.{trim}
use project_flakey.Auth.Token.{
  AuthUser, Payload, user_of, verify_token, token_claims, refresh_claims, truthy, parse_cookie,
}
use project_flakey.Auth.Gate.{
  Request, Database, accepts, refuses, membership, member_role, candidate, bearer_candidate,
  cookie_candidate, admit, admit_session, clamp_sso, require_auth, is_me,
}
use mathlib.Core.Option
use Prim.Native.String.{◌++◌, ◌∷◌}
use mathlib.Core.List.{◌++◌ as append, ◌∷◌}

-- A token of which the cookie header and the bearer header can be made.
abbrev pub IsCarried : String → Type 0
IsCarried token =
    (starts_with "fk_" token ≡ false) × (has_char ";" token ≡ false) × (has_space token ≡ false)

abbrev pub with_header : Request → String → Request
with_header req token = record req { authorization = some ("Bearer " ++ token) }

-- `cookies.join("; ")`, as a browser writes a header of cookies
abbrev pub join_cookies : List String → String
join_cookies [] = ""
join_cookies (w ∷ []) = w
join_cookies (w ∷ v ∷ ws) = w ++ (";" ∷ (" " ∷ join_cookies (v ∷ ws)))

abbrev pair_of : String → String → String
pair_of name token = name ++ ("=" ∷ token)

-- The token's cookie, between others.
abbrev pub with_cookie : Request → List String → String → List String → Request
with_cookie req before token after = record req {
  authorization = none;
  cookie = some (join_cookies (append before (("flakey_token" ++ ("=" ∷ token)) ∷ after)));
}

-- A cookie of another name.
abbrev pub IsOther : String → String → Type 0
IsOther name c = (has_char ";" c ≡ false) × (starts_with (name ++ "=") (trim c) ≡ false)

module _ (name token : String) where
  -- What parseCookie finds in a header.
  found_in : String → Option String
  found_in header = find (starts_with (name ++ "=")) (map trim (split ";" header))

  found_in-space : (s : String) → found_in (" " ∷ s) ≡ found_in s
  unfolding found_in split project_flakey.Prelude.Split.same_char trim
      project_flakey.Prelude.Text.trim_start project_flakey.Prelude.Text.is_space
  found_in-space s = let (w, ws, e) = split-cases ";" s in rw e

  found_in-other : (c s : String) → IsOther name c → found_in (c ++ (";" ∷ (" " ∷ s))) ≡ found_in s
  unfolding found_in
  found_in-other c s h = rw (split-append ";" c (" " ∷ s) h.0, h.1) (found_in-space s)

  IsPlain : Type 0
  IsPlain =
      (has_char ";" name ≡ false)
      × (has_char "=" name ≡ false)
      × (has_space name ≡ false)
      × (has_char ";" token ≡ false)
      × (has_space token ≡ false)

  join-cons :
      (b : String) (bs : List String) (x : String) (after : List String)
      → join_cookies (b ∷ append bs (x ∷ after))
        ≡ b ++ (";" ∷ (" " ∷ join_cookies (append bs (x ∷ after))))
  join-cons b [] x after = refl
  join-cons b (c ∷ bs) x after = refl

  found_in-join :
      (before after : List String)
      → IsPlain
      → All (IsOther name) before
      → found_in (join_cookies (append before (pair_of name token ∷ after)))
        ≡ some (pair_of name token)
  unfolding found_in IsPlain has_char has_space project_flakey.Prelude.Split.same_char
      project_flakey.Prelude.Text.is_space
  found_in-join [] [] (semi, equals, space, token_semi, token_space) none_ =
      let trimmed =
        trim_eq (pair_of name token) (has_space-append name ("=" ∷ token) space token_space) in
      let clear = has_char-append ";" name ("=" ∷ token) semi token_semi in
      rw (split_whole ";" (pair_of name token) clear, trimmed, starts_with-key name "=" token)
  found_in-join [] (c ∷ cs) (semi, equals, space, token_semi, token_space) none_ =
      let trimmed =
        trim_eq (pair_of name token) (has_space-append name ("=" ∷ token) space token_space) in
      let clear = has_char-append ";" name ("=" ∷ token) semi token_semi in
      rw (
        split-append ";" (pair_of name token) (" " ∷ join_cookies (c ∷ cs)) clear,
        trimmed,
        starts_with-key name "=" token,
      )
  found_in-join (b ∷ bs) after plain others = rw (join-cons b bs (pair_of name token) after) (
      found_in-other b (join_cookies (append bs (pair_of name token ∷ after))) others.0
      ∙ found_in-join bs after plain others.1)

  join-nonempty :
      (before after : List String)
      → str_eq (join_cookies (append before (pair_of name token ∷ after))) "" ≡ false
  join-nonempty [] [] = append-nonempty name "=" token
  join-nonempty [] (c ∷ cs) = append-nonempty (pair_of name token) ";" (" " ∷ join_cookies (c ∷ cs))
  join-nonempty (b ∷ bs) after =
      rw (join-cons b bs (pair_of name token) after)
        (append-nonempty b ";" (" " ∷ join_cookies (append bs (pair_of name token ∷ after))))

  -- The value of a cookie among others.
  parse-cookie :
      (before after : List String)
      → IsPlain
      → All (IsOther name) before
      → parse_cookie (some (join_cookies (append before (pair_of name token ∷ after)))) name
        ≡ some token
  unfolding parse_cookie found_in IsPlain
  parse-cookie before after plain others = rw (
    join-nonempty before after,
    found_in-join before after plain others,
    split-append "=" name token plain.1,
    join-split "=" token,
  )

module _ (verify : String → Option Payload) (db : Database) (req : Request) (token : String)
    (before after : List String) where
  header-candidate :
      starts_with "fk_" token ≡ false
      → candidate verify db (with_header req token) ≡ (verify_token verify token, false)
  unfolding candidate bearer_candidate
  header-candidate h = rw (starts_with-append "Bearer " token, drop-append "Bearer " token, h)

  cookie-candidate :
      IsCarried token
      → All (IsOther "flakey_token") before
      → candidate verify db (with_cookie req before token after)
        ≡ (verify_token verify token, false)
  unfolding candidate cookie_candidate IsPlain has_char project_flakey.Prelude.Split.same_char
      has_space project_flakey.Prelude.Text.is_space
  cookie-candidate (key, semi, space) others =
      rw (parse-cookie "flakey_token" token before after (refl, refl, refl, semi, space) others)

-- The session of a token's user, with the role that the membership has now.
abbrev pub session : AuthUser → String → AuthUser
session user role = record user {
  is_support_read = false;
  support_reason = "";
  sso_org = truthy user.sso_org;
  org_role = role;
}

admit-session :
    (db : Database) (req : Request) (user : AuthUser) (role : String)
    → db.fails membership ≡ false
    → member_role db.members user.org_id user.id ≡ some role
    → (user.sso_required && not (is_me req)) ≡ false
    → admit db req (user_of (token_claims user), false) ≡ accepts (session user role)
unfolding admit admit_session clamp_sso user_of token_claims
admit-session db req user role up member me = rw (up, member, me)

-- A token that was signed for a user opens a session for it as long as the user is a member of the
-- organization, both as a bearer header and as a cookie among others: the session is the signed user with the role
-- that the membership has now. This asks that the query of the membership succeeds, that the token
-- verifies to the claims that were signed, that it is not spelled like an API key and has no
-- semicolon and no white space, that the cookies before the session's have other names and no
-- semicolon, and that the user asks for GET /auth/me where single sign-on restricts it.
pub require_auth-token_claims :
    (verify : String → Option Payload) (db : Database) (req : Request) (token : String)
    (user : AuthUser) (role : String) (before after : List String)
    → verify token ≡ some (token_claims user)
    → IsCarried token
    → All (IsOther "flakey_token") before
    → db.fails membership ≡ false
    → member_role db.members user.org_id user.id ≡ some role
    → (user.sso_required && not (is_me req)) ≡ false
    → (require_auth verify db (with_header req token) ≡ accepts (session user role))
      × (require_auth verify db (with_cookie req before token after) ≡ accepts (session user role))
unfolding require_auth verify_token Option.bind
require_auth-token_claims verify db req token user role before after signed carried others up member
      me =
    (
      rw (header-candidate verify db req token before after carried.0, signed)
          (admit-session db (with_header req token) user role up member me),
      rw (cookie-candidate verify db req token before after carried others, signed)
          (admit-session db (with_cookie req before token after) user role up member me),
    )

-- A refresh token opens no session: sent as a bearer header or as the session's cookie
-- among others, it is answered
-- with 401 and the message that authentication is required. This asks that the token verifies to the
-- claims that were signed, that it is not spelled like an API key and has no semicolon and no white
-- space, and that the cookies before the session's have other names and no semicolon.
pub require_auth-refresh_claims :
    (verify : String → Option Payload) (db : Database) (req : Request) (token : String)
    (user_id fresh : ℕ) (org : Option ℕ) (before after : List String)
    → verify token ≡ some (refresh_claims user_id fresh org)
    → IsCarried token
    → All (IsOther "flakey_token") before
    → (require_auth verify db (with_header req token) ≡ refuses 401 "Authentication required")
      × (require_auth verify db (with_cookie req before token after)
          ≡ refuses 401 "Authentication required")
unfolding require_auth verify_token Option.bind user_of refresh_claims admit
require_auth-refresh_claims verify db req token user_id fresh org before after signed carried
      others =
    (
      rw (header-candidate verify db req token before after carried.0, signed),
      rw (cookie-candidate verify db req token before after carried others, signed),
    )
