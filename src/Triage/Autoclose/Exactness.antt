-- ===== src/Triage/Autoclose/Exactness.antt =====
-- The sweep closes exactly the groups that the predicate names.
use project_flakey.Prelude.{
  ℕ, ◌+◌, ◌*◌, ◌≡◌, refl, ◌∙◌, sym, String, Bool, true, false, ◌&&◌, Option, none, some, List, map,
  ◌==◌, str_eq, keep, any, if◌then◌else◌, arith, ltb, ap, All-imp, Bool-cases, Option-cases, inl,
  inr, map_eq, map_fixed, All-const, All-of_keep,
}
use project_flakey.Prelude.Js.{Number, nat, TimeValue, missing, at, day_ms}
use project_flakey.Triage.Group.{
  GroupStatus, open_, investigating, known, fixed, ignored, regressed, ErrorGroup,
}
use project_flakey.Triage.Autoclose.{
  is_autoclose_eligible_status, window, eligible_in, is_autoclose_eligible, last_seen_of,
  is_candidate, to_close, close_group, close_all, autoclose_stale_error_groups,
}
use project_flakey.Triage.Autoclose.Passes.{
  is_autoclose_eligible_iff, close_if, close_all-eq-map, picked, any-picked_intro, any_member,
}

-- The groups that the sweep should set to fixed: open, investigating or regressed ones.
abbrev pub is_unresolved : GroupStatus → Bool
is_unresolved open_ = true
is_unresolved investigating = true
is_unresolved known = false
is_unresolved fixed = false
is_unresolved ignored = false
is_unresolved regressed = true

-- Last seen more than the window ago, for a window of more than no days.
abbrev pub is_stale : Option Number → Option ℕ → ℕ → Bool
is_stale (some (nat n)) (some last) now = ltb 0 n && ltb (last + n * day_ms) now
is_stale _ _ now = false

-- What the sweep should do to one group.
abbrev pub swept : (String → Option ℕ) → ℕ → Option Number → ℕ → ErrorGroup → ErrorGroup
swept seen org days now g =
    if g.org_id == org && (is_unresolved g.status && is_stale days (seen g.fingerprint) now)
    then record g { status = fixed; updated_at = now }
    else g

status_eq : (s : GroupStatus) → is_autoclose_eligible_status s ≡ is_unresolved s
status_eq open_ = refl
status_eq investigating = refl
status_eq known = refl
status_eq fixed = refl
status_eq ignored = refl
status_eq regressed = refl

abbrev at_or_missing : Option ℕ → TimeValue
at_or_missing last = elim last [ none ↦ missing | some t ↦ at t ]

off : (c : Bool) → (if c then false else false) ≡ (c && false)
off c = ground arith

eligible_eq :
    (days : Option Number) (last : Option ℕ) (s : GroupStatus) (now : ℕ)
    → eligible_in (window days) s (at_or_missing last) now
      ≡ (is_unresolved s && is_stale days last now)
eligible_eq none none s now = ground arith
eligible_eq none (some t) s now = ground arith
eligible_eq (some (nat n)) none s now = elim (Bool-cases (ltb 0 n)) [
  | inl on ↦ rw (on, status_eq s) (off (is_unresolved s))
  | inr none_ ↦ rw none_ (ground arith)
]
eligible_eq (some (nat n)) (some t) s now = elim (Bool-cases (ltb 0 n)) [
  | inl on ↦ rw (on, status_eq s) (ground arith)
  | inr none_ ↦ rw none_ (ground arith)
]
eligible_eq (some _) none s now = ground arith
eligible_eq (some _) (some t) s now = ground arith

-- The same by the predicate of the code.
abbrev selected : (String → Option ℕ) → ℕ → Option Number → ℕ → ErrorGroup → ErrorGroup
selected seen org days now g =
    if g.org_id == org && is_autoclose_eligible g.status (last_seen_of seen g) days now
    then close_group now g
    else g

selected-eq-swept :
    (seen : String → Option ℕ) (org : ℕ) (days : Option Number) (now : ℕ) (g : ErrorGroup)
    → selected seen org days now g ≡ swept seen org days now g
unfolding is_autoclose_eligible
selected-eq-swept seen org days now g =
    ap (λ c. if g.org_id == org && c then record g { status = fixed; updated_at = now } else g)
      (eligible_eq days (seen g.fingerprint) g.status now)

module _ (seen : String → Option ℕ) (org : ℕ) (days : Option Number) (now : ℕ) where
  abbrev due : ErrorGroup → Bool
  due g = is_autoclose_eligible g.status (last_seen_of seen g) days now

  due_status : (g : ErrorGroup) → due g ≡ true → is_autoclose_eligible_status g.status ≡ true
  due_status g h = ((is_autoclose_eligible_iff g.status (last_seen_of seen g) days now).0 h).4

  due_transfer :
      (g h : ErrorGroup)
      → g.fingerprint ≡ h.fingerprint
      → is_autoclose_eligible_status g.status ≡ true
      → due h ≡ true
      → due g ≡ true
  due_transfer g h same ok d =
      let (n, t, on, at_t, _, old) =
        (is_autoclose_eligible_iff h.status (last_seen_of seen h) days now).0 d in
      (is_autoclose_eligible_iff g.status (last_seen_of seen g) days now).1
        (n, t, on, rw same at_t, ok, old)

  module _ (groups : List ErrorGroup) (g : ErrorGroup) where
    listed_sound :
        is_candidate org g ≡ true
        → any (str_eq g.fingerprint) (to_close seen org days now groups) ≡ true
        → due g ≡ true
    unfolding to_close
    listed_sound c h =
        let (k, d, same) =
          any_member (λ x. due x ≡ true) g.fingerprint (keep due (keep (is_candidate org) groups))
            (All-of_keep due (keep (is_candidate org) groups)) h in
        due_transfer g k same (ground arith) d

    close_if-eq-selected :
        (is_candidate org g ≡ true
          → due g ≡ true
          → any (str_eq g.fingerprint) (to_close seen org days now groups) ≡ true)
        → close_if now org (to_close seen org days now groups) g ≡ selected seen org days now g
    close_if-eq-selected complete = elim (Bool-cases (due g)) [
      | inl d ↦ elim (Bool-cases (g.org_id == org)) [
        | inl mine ↦
            let c : is_candidate org g ≡ true = rw (mine, due_status g d) in
            rw (d, mine, due_status g d, complete c d)
        | inr other ↦ rw other
      ]
      | inr stays ↦ elim (Bool-cases (is_candidate org g)) [
        | inr out ↦ rw (stays, out) (ground arith)
        | inl c ↦
            elim (Bool-cases (any (str_eq g.fingerprint) (to_close seen org days now groups))) [
              | inl hit ↦ cc (listed_sound c hit)
              | inr miss ↦ rw (stays, miss) (ground arith)
            ]
      ]
    ]

  sweep-on :
      (groups : List ErrorGroup)
      → close_all now org (to_close seen org days now groups) groups
        ≡ map (selected seen org days now) groups
  unfolding to_close picked
  sweep-on groups =
      close_all-eq-map now org (to_close seen org days now groups) groups
      ∙ map_eq (close_if now org (to_close seen org days now groups)) (selected seen org days now)
          groups
          (All-imp
            (λ g.
              is_candidate org g ≡ true
              → due g ≡ true
              → any (str_eq g.fingerprint) (picked (is_candidate org) due groups) ≡ true)
            (λ g.
              close_if now org (to_close seen org days now groups) g ≡ selected seen org days now g)
            (λ g k. close_if-eq-selected groups g k) groups
            (any-picked_intro (is_candidate org) due groups))

  autoclose-eq-selected :
      (groups : List ErrorGroup)
      → autoclose_stale_error_groups seen org days now groups
        ≡ map (selected seen org days now) groups
  unfolding autoclose_stale_error_groups is_autoclose_eligible
  autoclose-eq-selected groups = elim (Option-cases (window days)) [
    | inl off ↦
        rw (off, autoclose_stale_error_groups)
          (sym (
            map_fixed (selected seen org days now) groups (
              All-const (λ g. selected seen org days now g ≡ g)
                (λ g. rw (off, is_autoclose_eligible) (ground arith)) groups)))
    | inr (n, on) ↦ rw (on, autoclose_stale_error_groups) (sweep-on groups)
  ]

  -- The loop of single updates is one pass over the table: it sets to fixed, with the time of the
  -- sweep, exactly the groups of the organisation that are open, investigating or regressed and were
  -- last seen more than the window ago, where the window is a positive number of days; and it changes
  -- no other group. When a group was last seen is an argument.
  pub autoclose-eq-swept :
      (groups : List ErrorGroup)
      → autoclose_stale_error_groups seen org days now groups ≡ map (swept seen org days now) groups
  autoclose-eq-swept groups =
      autoclose-eq-selected groups
      ∙ map_eq (selected seen org days now) (swept seen org days now) groups (
          All-const (λ g. selected seen org days now g ≡ swept seen org days now g)
            (selected-eq-swept seen org days now) groups)
