-- ===== src/Release/SignOff.antt =====
-- backend/src/routes/releases.ts: what a sign-off says of the release.
use project_flakey.Prelude.{
  ℕ, ◌≡◌, refl, sym, ap, ◌∙◌, String, Bool, true, false, Option, none, some, List, [], ◌∷◌, map,
  ◌==◌, ◌&&◌, ◌||◌, not, str_eq, if◌then◌else◌, any, find, Bool-cases, Option-cases, inl, inr,
}
use project_flakey.Release.Data.{
  Tables, Release, ReleaseStatus, draft, in_progress, signed_off, released, cancelled, Item,
  AutoRule, Reply, refused, ok,
}
use project_flakey.Release.Rules.{rule_met, evaluate_rule-rule_met}
use project_flakey.Release.Checklist.{
  is_signable, can_sign, sign_refreshed, sign_off, refresh_auto_items, refresh_item, apply_rule,
  is_remaining,
}

-- Whether an item is ticked, where one without a rule is ticked by hand.
abbrev pub is_ticked : Tables → ℕ → Option AutoRule → Bool → Bool
is_ticked db release none by_hand = by_hand
is_ticked db release (some rule) by_hand = rule_met rule db release

-- A required item of the release that holds the sign-off back.
abbrev pub is_open_item : Tables → ℕ → Item → Bool
is_open_item db release i =
    i.release_id == release && i.required && not (is_ticked db release i.auto_rule i.checked)

apply-is_remaining :
    (db : Tables) (release now : ℕ) (i : Item) (rule : Option AutoRule)
    → is_remaining release (apply_rule db release now rule i)
      ≡ (i.release_id == release && i.required && not (is_ticked db release rule i.checked))
apply-is_remaining db release now i none = refl
apply-is_remaining db release now i (some rule) =
    ap (λ b. i.release_id == release && i.required && not b)
      (evaluate_rule-rule_met rule db release)

refresh-is_remaining :
    (db : Tables) (release now : ℕ) (i : Item)
    → is_remaining release (refresh_item db release now i) ≡ is_open_item db release i
refresh-is_remaining db release now i = elim (Bool-cases (i.release_id == release)) [
  | inr other ↦ ap pick other ∙ ap left other ∙ sym (ap open_ other)
  | inl own ↦ ap pick own ∙ apply-is_remaining db release now i i.auto_rule
]
  where
    pick : Bool → Bool
    pick b = is_remaining release (if b then apply_rule db release now i.auto_rule i else i)

    left : Bool → Bool
    left b = b && i.required && not i.checked

    open_ : Bool → Bool
    open_ b = b && i.required && not (is_ticked db release i.auto_rule i.checked)

remaining-open :
    (db : Tables) (release now : ℕ) (items : List Item)
    → any (is_remaining release) (map (refresh_item db release now) items)
      ≡ any (is_open_item db release) items
remaining-open db release now [] = refl
remaining-open db release now (i ∷ is) =
    rw (refresh-is_remaining db release now i, remaining-open db release now is)

abbrev pub is_open_release : ReleaseStatus → Bool
is_open_release draft = true
is_open_release in_progress = true
is_open_release signed_off = false
is_open_release released = false
is_open_release cancelled = false

signable_eq : (s : ReleaseStatus) → is_signable s ≡ is_open_release s
signable_eq draft = refl
signable_eq in_progress = refl
signable_eq signed_off = refl
signable_eq released = refl
signable_eq cancelled = refl

-- The answer of a sign-off, from the tables as they are.
abbrev pub verdict : Tables → String → ℕ → Reply
verdict db role release =
    if not (str_eq role "owner" || str_eq role "admin")
    then refused 403
    else elim (find (λ (r : Release). r.id == release) db.releases) [
      | none ↦ refused 404
      | some r ↦
          if not (is_open_release r.status)
          then refused 409
          else if any (is_open_item db release) db.items
          then refused 400
          else ok
    ]

-- A sign-off succeeds exactly where the role is owner or admin, the release exists and is a draft or in
-- progress, and no required item of its checklist is open: those without a rule are ticked, and the
-- conditions of the others' rules hold of the tables before the sign-off, whatever their stored ticks
-- say. Otherwise it answers 403, 404, 409 and 400, in this order.
pub sign_off-verdict :
    (db : Tables) (role : String) (user release now : ℕ)
    → (sign_off db role user release now).0 ≡ verdict db role release
unfolding sign_off sign_refreshed refresh_auto_items
sign_off-verdict db role user release now = elim (Bool-cases (can_sign role)) [
  | inr barred ↦ rw (sign_off, barred)
  | inl may ↦ elim (Option-cases (find (λ (r : Release). r.id == release) db.releases)) [
    | inl absent ↦ rw (sign_off, may, absent)
    | inr (r, found) ↦ elim (Bool-cases (is_open_release r.status)) [
      | inr closed ↦ let shut = signable_eq r.status ∙ closed in rw (sign_off, may, found, shut)
      | inl open_ ↦
          let free = signable_eq r.status ∙ open_ in
          let left = remaining-open db release now db.items in
          elim (Bool-cases (any (is_open_item db release) db.items)) [
            | inl held ↦ rw (sign_off, may, found, free, sign_refreshed, left, held)
            | inr done ↦ rw (sign_off, may, found, free, sign_refreshed, left, done)
          ]
    ]
  ]
]
