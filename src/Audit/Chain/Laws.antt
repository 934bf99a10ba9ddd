-- ===== src/Audit/Chain/Laws.antt =====
-- Appends keep an organisation's chain intact.
use project_flakey.Prelude.{
  ℕ, ◌+◌, ◌≡◌, refl, sym, ap, ◌∙◌, String, Bool, true, false, Option, none, some, List, [], ◌∷◌,
  ◌++◌, ◌==◌, ==-refl, str_eq, str_eq_refl, keep, keep-append, All, All-keep, All-of_keep,
  if◌then◌else◌, Bool-cases, Option-cases, inl, inr,
}
use project_flakey.Audit.Chain.{
  AuditRow, NewEntry, Walk, start, Step, broken, going, is_falsy, or_empty, or_genesis, hash_or,
  last_hash, hash_input, compute_entry_hash, inserted, hashed, append_audit_entry, visit, and_then,
  walk,
}

-- A row of the organisation.
abbrev pub mine : ℕ → AuditRow → Bool
mine org r = r.org_id == org

-- A stored hash is never the empty text.
abbrev pub IsStored : AuditRow → Type 0
IsStored r = (h : String) → r.entry_hash ≡ some h → str_eq h "" ≡ false

-- The head of the chain after a step.
abbrev head_of : Step → String
head_of (going w) = w.expected_prev
head_of (broken res) = ""

pub last_hash-keep :
    (org : ℕ) (log : List AuditRow) (found : Option String)
    → last_hash org (keep (mine org) log) found ≡ last_hash org log found
last_hash-keep org [] found = refl
last_hash-keep org (r ∷ rs) found =
    let after = if r.org_id == org then hash_or r.entry_hash found else found in
    elim (Bool-cases (r.org_id == org)) [
      | inl own ↦ ap (λ l. last_hash org l found) (kept own) ∙ last_hash-keep org rs after
      | inr other ↦
          ap (λ l. last_hash org l found) (dropped other)
          ∙ last_hash-keep org rs found
          ∙ ap (last_hash org rs) (sym (unchanged other))
    ]
  where
    kept : r.org_id == org ≡ true → keep (mine org) (r ∷ rs) ≡ r ∷ keep (mine org) rs
    kept own = rw own refl

    dropped : r.org_id == org ≡ false → keep (mine org) (r ∷ rs) ≡ keep (mine org) rs
    dropped other = rw other refl

    unchanged :
        r.org_id == org ≡ false
        → (if r.org_id == org then hash_or r.entry_hash found else found) ≡ found
    unchanged other = rw other refl

module _ (before : String → String → Bool) (quote : String → String) (digits : ℕ → String)
    (sha256 : String → String) where
  pub walk-append :
      (w : Walk) (xs ys : List AuditRow)
      → walk before quote digits sha256 w (xs ++ ys)
        ≡ and_then
            (walk before quote digits sha256 w xs)
            (λ w'. walk before quote digits sha256 w' ys)
  unfolding walk
  walk-append w [] ys = refl
  walk-append w (r ∷ rs) ys = go (visit before quote digits sha256 w r) (λ w'. walk-append w' rs ys)
    where
      go :
          (s : Step)
          → ((w' : Walk)
              → walk before quote digits sha256 w' (rs ++ ys)
                ≡ and_then
                    (walk before quote digits sha256 w' rs)
                    (λ w''. walk before quote digits sha256 w'' ys))
          → and_then s (λ w'. walk before quote digits sha256 w' (rs ++ ys))
            ≡ and_then
                (and_then s (λ w'. walk before quote digits sha256 w' rs))
                (λ w''. walk before quote digits sha256 w'' ys)
      go (broken res) k = refl
      go (going w') k = k w'

  visit-head :
      (w : Walk) (r : AuditRow) (found : Option String) {w' : Walk}
      → IsStored r
      → w.expected_prev ≡ or_genesis found
      → visit before quote digits sha256 w r ≡ going w'
      → w'.expected_prev ≡ or_genesis (hash_or r.entry_hash found)
  unfolding visit hash_input
  visit-head w r found {w'} stored e h = elim (Option-cases r.entry_hash) [
    | inl bare ↦ elim (Bool-cases w.started) [
      | inl on ↦ cc (rw (bare, visit, on) at h)
      | inr off ↦ rw bare (sym (ap head_of (rw (bare, visit, off) at h)) ∙ e)
    ]
    | inr (x, has) ↦ elim (Bool-cases (str_eq (or_empty r.prev_hash) w.expected_prev)) [
      | inr cut ↦ cc (rw (has, visit, stored x has, cut) at h)
      | inl linked ↦
          elim (Bool-cases
            (str_eq (compute_entry_hash before quote digits sha256 (or_empty r.prev_hash) r) x)) [
              | inr wrong ↦ cc (rw (has, visit, stored x has, linked, wrong) at h)
              | inl right ↦
                  rw has (sym (ap head_of (rw (has, visit, stored x has, linked, right) at h)))
            ]
    ]
  ]

  pub walk-head :
      (org : ℕ) (w : Walk) (rs : List AuditRow) (found : Option String) {w' : Walk}
      → All (λ r. mine org r ≡ true) rs
      → All IsStored rs
      → w.expected_prev ≡ or_genesis found
      → walk before quote digits sha256 w rs ≡ going w'
      → w'.expected_prev ≡ or_genesis (last_hash org rs found)
  unfolding walk
  walk-head org w [] found own stored e h = sym (ap head_of h) ∙ e
  walk-head org w (r ∷ rs) found {w'} own stored e h =
      go (visit before quote digits sha256 w r)
        (λ w1 first rest. rw own.0 (
          walk-head org w1 rs (hash_or r.entry_hash found) own.1 stored.1
            (visit-head w r found stored.0 e first) rest))
        refl h
    where
      go :
          (s : Step)
          → ((w1 : Walk)
              → visit before quote digits sha256 w r ≡ going w1
              → walk before quote digits sha256 w1 rs ≡ going w'
              → w'.expected_prev ≡ or_genesis (last_hash org (r ∷ rs) found))
          → visit before quote digits sha256 w r ≡ s
          → and_then s (λ w1. walk before quote digits sha256 w1 rs) ≡ going w'
          → w'.expected_prev ≡ or_genesis (last_hash org (r ∷ rs) found)
      go (broken res) k first rest = cc
      go (going w1) k first rest = k w1 first rest

  -- The walk after a row that it accepts.
  abbrev pub accepted : Walk → ℕ → String → Walk
  accepted w id h = record {
    total_rows = w.total_rows + 1;
    legacy_rows = w.legacy_rows;
    hashed_rows = w.hashed_rows + 1;
    started = true;
    expected_prev = h;
    last_id = some id;
  }

  visit-accepted :
      (w : Walk) (r : AuditRow)
      → is_falsy r.entry_hash ≡ false
      → str_eq (or_empty r.prev_hash) w.expected_prev ≡ true
      → str_eq
          (compute_entry_hash before quote digits sha256 (or_empty r.prev_hash) r)
          (or_empty r.entry_hash)
        ≡ true
      → visit before quote digits sha256 w r ≡ going (accepted w r.id (or_empty r.entry_hash))
  unfolding visit
  visit-accepted w r full linked right = rw (full, linked, right) refl

  walk-one :
      (w : Walk) (r : AuditRow) {w' : Walk}
      → visit before quote digits sha256 w r ≡ going w'
      → walk before quote digits sha256 w (r ∷ []) ≡ going w'
  unfolding walk
  walk-one w r h = ap (λ s. and_then s going) h

  abbrev pub new_row : List AuditRow → ℕ → NewEntry → ℕ → String → AuditRow
  new_row log org e id now =
      hashed before quote digits sha256 log (inserted before quote digits sha256 log org e id now)

  -- A digest is never the empty text.
  module _ (digest : (s : String) → str_eq (sha256 s) "" ≡ false) where
    -- The row that an append writes is accepted at the head of the chain.
    append-visit :
        (log : List AuditRow) (org : ℕ) (e : NewEntry) (id : ℕ) (now : String) (w : Walk)
        → w.expected_prev ≡ or_genesis (last_hash org log none)
        → visit before quote digits sha256 w (new_row log org e id now)
          ≡ going (accepted w id (or_empty (new_row log org e id now).entry_hash))
    unfolding hash_input
    append-visit log org e id now w head =
        let r = inserted before quote digits sha256 log org e id now in
        let prev = or_genesis (last_hash org log none) in
        visit-accepted w (new_row log org e id now)
          (digest (hash_input before quote digits sha256 prev r)) (rw head (str_eq_refl prev))
          (str_eq_refl (sha256 (hash_input before quote digits sha256 prev r)))

    pub append_audit_entry-walk :
        (log : List AuditRow) (org : ℕ) (e : NewEntry) (id : ℕ) (now : String) (w : Walk)
        → All IsStored log
        → walk before quote digits sha256 start (keep (mine org) log) ≡ going w
        → walk before quote digits sha256 start
            (keep (mine org) (append_audit_entry before quote digits sha256 log org e id now))
          ≡ going (accepted w id (or_empty (new_row log org e id now).entry_hash))
    unfolding append_audit_entry
    append_audit_entry-walk log org e id now w stored intact =
        let r = new_row log org e id now in
        let rows = keep (mine org) log in
        let head : w.expected_prev ≡ or_genesis (last_hash org log none) =
          walk-head org start rows none (All-of_keep (mine org) log)
            (All-keep IsStored (mine org) log stored) refl intact
          ∙ ap or_genesis (last_hash-keep org log none) in
        let own : keep (mine org) (r ∷ []) ≡ r ∷ [] = rw (==-refl org) refl in
        ap (walk before quote digits sha256 start)
          (keep-append (mine org) log (r ∷ []) ∙ ap (λ l. rows ++ l) own)
        ∙ walk-append start rows (r ∷ [])
        ∙ ap (λ s. and_then s (λ w'. walk before quote digits sha256 w' (r ∷ []))) intact
        ∙ walk-one w r (append-visit log org e id now w head)
