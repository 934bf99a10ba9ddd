-- ===== src/Triage/Autoclose/Passes.antt =====
-- backend/src/retention.ts: the loop of single updates as one pass over the table.
use project_flakey.Prelude.{
  ℕ, ◌+◌, ◌*◌, ◌<◌, ◌≡◌, refl, ◌∙◌, sym, ◌↔◌, String, Bool, true, false, ◌&&◌, Option, none, some,
  List, [], ◌∷◌, map, str_eq, str_eq_iff, str_eq_refl, keep, any, if◌then◌else◌, arith, All,
  All-imp, Bool-cases, inl, inr, lt→ltb, map_eq, map_fixed, map_after, All-const,
}
use project_flakey.Prelude.Js.{Number, TimeValue, at, day_ms}
use project_flakey.Triage.Group.{GroupStatus, ErrorGroup}
use project_flakey.Triage.Autoclose.{
  is_autoclose_eligible_status, window, eligible_in, is_autoclose_eligible, is_candidate,
  close_group, is_target, close_one, close_all,
}

abbrev pub IsDue : Option ℕ → GroupStatus → TimeValue → ℕ → Type 0
IsDue w status last now =
    (n : ℕ) × (t : ℕ) × (w ≡ some n)
    × (last ≡ at t)
    × (is_autoclose_eligible_status status ≡ true)
    × (t + n * day_ms < now)

eligible_in_sound :
    (w : Option ℕ) (status : GroupStatus) (last : TimeValue) (now : ℕ)
    → eligible_in w status last now ≡ true
    → IsDue w status last now
eligible_in_sound none status last now h = cc
eligible_in_sound (some n) status (at t) now h = (n, t, refl, refl, ground arith, ground arith)
eligible_in_sound (some n) status last now h = cc (ite_false status h)
  where
    ite_false :
        (s : GroupStatus)
        → (if is_autoclose_eligible_status s then false else false) ≡ true
        → false ≡ true
    ite_false s e = ground arith

eligible_in_complete :
    (w : Option ℕ) (status : GroupStatus) (last : TimeValue) (now : ℕ)
    → IsDue w status last now
    → eligible_in w status last now ≡ true
eligible_in_complete w status last now (n, t, on, seen, ok, old) =
    rw (on, seen, ok) (lt→ltb (t + n * day_ms) now old)

-- A group is eligible exactly when the window is positive, its status is open, investigating or
-- regressed, and it was last seen strictly more than the window ago.
pub is_autoclose_eligible_iff :
    (status : GroupStatus) (last : TimeValue) (days : Option Number) (now : ℕ)
    → (is_autoclose_eligible status last days now ≡ true) ↔ (
        (n : ℕ) × (t : ℕ) × (window days ≡ some n)
        × (last ≡ at t)
        × (is_autoclose_eligible_status status ≡ true)
        × (t + n * day_ms < now))
unfolding is_autoclose_eligible
is_autoclose_eligible_iff status last days now = (
  eligible_in_sound (window days) status last now,
  eligible_in_complete (window days) status last now,
)

-- Closing by a list of fingerprints is one pass over the table.
abbrev pub close_if : ℕ → ℕ → List String → ErrorGroup → ErrorGroup
close_if now org fps g =
    if is_candidate org g && any (str_eq g.fingerprint) fps then close_group now g else g

close_twice :
    (now org : ℕ) (fp : String) (fps : List String) (g : ErrorGroup)
    → close_if now org fps (if is_target org fp g then close_group now g else g)
      ≡ close_if now org (fp ∷ fps) g
close_twice now org fp fps g = ground arith

pub close_all-eq-map :
    (now org : ℕ) (fps : List String) (groups : List ErrorGroup)
    → close_all now org fps groups ≡ map (close_if now org fps) groups
unfolding close_all close_one
close_all-eq-map now org [] groups = sym (
    map_fixed (close_if now org []) groups
      (All-const (λ g. close_if now org [] g ≡ g) (λ g. ground arith) groups))
close_all-eq-map now org (fp ∷ fps) groups =
    close_all-eq-map now org fps (close_one now org fp groups)
    ∙ map_after (close_if now org fps) (λ g. if is_target org fp g then close_group now g else g)
        groups
    ∙ map_eq (λ g. close_if now org fps (if is_target org fp g then close_group now g else g))
        (close_if now org (fp ∷ fps)) groups
        (All-const
          (λ g.
            close_if now org fps (if is_target org fp g then close_group now g else g)
            ≡ close_if now org (fp ∷ fps) g)
          (close_twice now org fp fps) groups)

module _ (c q : ErrorGroup → Bool) where
  unfoldable pub picked : List ErrorGroup → List String
  picked groups = map (λ g. g.fingerprint) (keep q (keep c groups))

  pub any-picked_intro :
      (groups : List ErrorGroup)
      → All
          (λ g. c g ≡ true → q g ≡ true → any (str_eq g.fingerprint) (picked groups) ≡ true)
          groups
  unfolding picked
  any-picked_intro [] = tt
  any-picked_intro (x ∷ xs) = (
    λ hc hq. rw (hc, hq, str_eq_refl x.fingerprint),
    All-imp (λ g. c g ≡ true → q g ≡ true → any (str_eq g.fingerprint) (picked xs) ≡ true)
        (λ g. c g ≡ true → q g ≡ true → any (str_eq g.fingerprint) (picked (x ∷ xs)) ≡ true)
        (λ g ih hc hq. skip_head x xs g (ih hc hq)) xs (any-picked_intro xs),
  )
    where
      skip_head :
          (y : ErrorGroup) (ys : List ErrorGroup) (g : ErrorGroup)
          → any (str_eq g.fingerprint) (picked ys) ≡ true
          → any (str_eq g.fingerprint) (picked (y ∷ ys)) ≡ true
      skip_head y ys g h = elim (Bool-cases (c y)) [
        | inr gone ↦ rw gone h
        | inl kept ↦ elim (Bool-cases (q y)) [
          | inr out ↦ rw (kept, out) h
          | inl hit ↦ rw (kept, hit) (ground arith)
        ]
      ]

pub any_member :
    (P : ErrorGroup → Type 0) (s : String) (gs : List ErrorGroup)
    → All P gs
    → any (str_eq s) (map (λ g. g.fingerprint) gs) ≡ true
    → (g : ErrorGroup) × P g × (s ≡ g.fingerprint)
any_member P s [] h e = cc
any_member P s (x ∷ xs) h e = elim (Bool-cases (str_eq s x.fingerprint)) [
  | inl hit ↦ (x, h.0, (str_eq_iff s x.fingerprint).0 hit)
  | inr miss ↦ any_member P s xs h.1 (rw miss at e)
]
