-- ===== src/Audit/Chain/Append.antt =====
-- What the verification says after an append.
use project_flakey.Prelude.{
  ℕ, ◌+◌, ◌≤◌, ◌<◌, ◌≡◌, refl, sym, ap, subst, ◌∙◌, Bool-cases, inl, inr, String, Bool, true, false,
  some, List, [], ◌∷◌, keep, str_eq, All, Distinct-snoc,
}
use project_flakey.Audit.Chain.{
  AuditRow, NewEntry, Walk, start, Step, broken, going, visit, and_then, walk, is_falsy,
  compute_entry_hash, conclude, AuditVerifyResult, append_audit_entry, or_empty, verify_audit_chain,
}
use project_flakey.Audit.Chain.Laws.{mine, IsStored, append_audit_entry-walk, new_row}
use project_flakey.Audit.Chain.Batches.{IsAscending, verify_audit_chain-walk}

pub some_inj : {x y : AuditVerifyResult} → some x ≡ some y → x ≡ y
some_inj e = cc

module _ (before : String → String → Bool) (quote : String → String) (digits : ℕ → String)
    (sha256 : String → String) where
  -- A broken result is not ok.
  abbrev pub IsHonest : Step → Type 0
  IsHonest (broken res) = res.ok ≡ false
  IsHonest (going w) = w ≡ w

  visit-IsHonest : (w : Walk) (r : AuditRow) → IsHonest (visit before quote digits sha256 w r)
  unfolding visit
  visit-IsHonest w r = elim (Bool-cases (is_falsy r.entry_hash)) [
    | inl bare ↦ elim (Bool-cases w.started) [
      | inl on ↦ rw (bare, on) refl
      | inr off ↦ rw (bare, off) refl
    ]
    | inr full ↦ elim (Bool-cases (str_eq (or_empty r.prev_hash) w.expected_prev)) [
      | inr cut ↦ rw (full, cut) refl
      | inl linked ↦
          elim (Bool-cases (
            str_eq (compute_entry_hash before quote digits sha256 (or_empty r.prev_hash) r)
              (or_empty r.entry_hash))) [
                | inr wrong ↦ rw (full, linked, wrong) refl
                | inl right ↦ rw (full, linked, right) refl
              ]
    ]
  ]

  pub walk-IsHonest :
      (w : Walk) (rs : List AuditRow) → IsHonest (walk before quote digits sha256 w rs)
  unfolding walk
  walk-IsHonest w [] = refl
  walk-IsHonest w (r ∷ rs) =
      go (visit before quote digits sha256 w r) (visit-IsHonest w r) (λ w'. walk-IsHonest w' rs)
    where
      go :
          (s : Step)
          → IsHonest s
          → ((w' : Walk) → IsHonest (walk before quote digits sha256 w' rs))
          → IsHonest (and_then s (λ w'. walk before quote digits sha256 w' rs))
      go (broken res) h k = h
      go (going w') h k = k w'

  module _ (digest : (s : String) → str_eq (sha256 s) "" ≡ false) where
    appended :
        (log : List AuditRow) (org : ℕ) (e : NewEntry) (id : ℕ) (now : String)
        → All IsStored log
        → (s : Step) → walk before quote digits sha256 start (keep (mine org) log) ≡ s
        → (conclude s).ok ≡ true
        → conclude (
            walk before quote digits sha256 start
              (keep (mine org) (append_audit_entry before quote digits sha256 log org e id now)))
          ≡ record (conclude s) {
            total_rows = (conclude s).total_rows + 1;
            hashed_rows = (conclude s).hashed_rows + 1;
          }
    appended log org e id now stored (going w) intact ok =
        ap conclude (
          append_audit_entry-walk before quote digits sha256 digest log org e id now w stored
            intact)
    appended log org e id now stored (broken res) intact ok =
        let honest : res.ok ≡ false =
          subst IsHonest intact (walk-IsHonest start (keep (mine org) log)) in
        cc

    append-IsAscending :
        (log : List AuditRow) (org : ℕ) (e : NewEntry) (id : ℕ) (now : String)
        → IsAscending log
        → All (λ r. r.id < id) log
        → IsAscending (append_audit_entry before quote digits sha256 log org e id now)
    unfolding append_audit_entry
    append-IsAscending log org e id now up fresh =
        Distinct-snoc (λ a b. a.id < b.id) log (new_row before quote digits sha256 log org e id now)
          fresh up

    -- Where an organisation's chain verifies, it still verifies after an entry was appended under a
    -- larger id, in batches of any positive sizes, and the result counts one more row and one more
    -- hashed row. This asks that ids ascend, that no stored hash is the empty text, and that no
    -- digest is.
    pub append_audit_entry-verify_audit_chain :
        (log : List AuditRow) (org : ℕ) (e : NewEntry) (id : ℕ) (now : String) (batch batch' : ℕ)
        (res : AuditVerifyResult)
        → 1 ≤ batch
        → 1 ≤ batch'
        → IsAscending log
        → All (λ r. r.id < id) log
        → All IsStored log
        → verify_audit_chain before quote digits sha256 log org batch ≡ some res
        → res.ok ≡ true
        → verify_audit_chain before quote digits sha256
            (append_audit_entry before quote digits sha256 log org e id now)
            org
            batch'
          ≡ some (record res { total_rows = res.total_rows + 1; hashed_rows = res.hashed_rows + 1 })
    append_audit_entry-verify_audit_chain log org e id now batch batch' res b b' up fresh stored
          intact ok =
        let rows = keep (mine org) log in
        let seen : conclude (walk before quote digits sha256 start rows) ≡ res =
          some_inj (
            sym (verify_audit_chain-walk before quote digits sha256 log org batch b up) ∙ intact) in
        verify_audit_chain-walk before quote digits sha256
          (append_audit_entry before quote digits sha256 log org e id now) org batch' b'
          (append-IsAscending log org e id now up fresh)
        ∙ ap some (
            appended log org e id now stored (walk before quote digits sha256 start rows) refl
              (rw seen ok))
        ∙ ap
            (λ (q : AuditVerifyResult).
              some (record q { total_rows = q.total_rows + 1; hashed_rows = q.hashed_rows + 1 }))
            seen
