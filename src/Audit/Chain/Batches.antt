-- ===== src/Audit/Chain/Batches.antt =====
-- The verification in batches is one walk over the organisation's rows.
use project_flakey.Prelude.{
  ℕ, zero, suc, ◌+◌, ◌≤◌, ◌<◌, ◌≡◌, refl, sym, ap, subst, ◌∙◌, String, Bool, true, false, ◌||◌,
  Option, none, some, List, [], ◌∷◌, ◌++◌, ◌==◌, ltb, lt→ltb, str_eq, keep, keep-keep, All-of_keep,
  Distinct-keep, drop_none, keep_full, All, All-imp, take, drop, take-append-drop, length,
  length-append, length-keep, count_if-le, All-const, Distinct, arith, Bool-cases, inl, inr,
}
use project_flakey.Audit.Chain.{
  AuditRow, Walk, start, Step, broken, going, visit, and_then, walk, conclude, beyond,
  verify_batches, verify_audit_chain, or_empty, is_falsy, compute_entry_hash,
}
use project_flakey.Audit.Chain.Laws.{mine, walk-append}

-- Ids ascend along the table.
abbrev pub IsAscending : List AuditRow → Type 0
IsAscending = Distinct (λ a b. a.id < b.id)

-- The cursor after some rows.
abbrev pub cursor : List AuditRow → Option ℕ → Option ℕ
cursor [] at_ = at_
cursor (r ∷ rs) at_ = cursor rs (some r.id)

kept_le : (p : AuditRow → Bool) (rows : List AuditRow) → length (keep p rows) ≤ length rows
kept_le p rows = omega (arith, length-keep p rows, count_if-le p rows)

-- A cursor on a row that was fetched leaves the rows after it.
beyond_next :
    (rows zs : List AuditRow) (x : AuditRow) (at_ : Option ℕ)
    → IsAscending rows
    → keep (beyond at_) rows ≡ x ∷ zs
    → keep (beyond (some x.id)) rows ≡ zs
beyond_next rows zs x at_ up e =
    let sorted = Distinct-keep (λ a b. a.id < b.id) (beyond at_) rows up in
    let passed = All-of_keep (beyond at_) rows in
    let first : beyond at_ x ≡ true = (subst (All (λ r. beyond at_ r ≡ true)) e passed).0 in
    let later : All (λ r. x.id < r.id) zs = (subst IsAscending e sorted).0 in
    sym (keep-keep (beyond at_) (beyond (some x.id)) (further at_ first) rows)
    ∙ ap (keep (beyond (some x.id))) e
    ∙ out
    ∙ keep_full (beyond (some x.id)) zs (
        All-imp (λ r. x.id < r.id) (λ r. beyond (some x.id) r ≡ true) (λ r lt. lt→ltb x.id r.id lt)
          zs later)
  where
    further :
        (c : Option ℕ)
        → beyond c x ≡ true
        → (r : AuditRow) → beyond (some x.id) r ≡ true
        → beyond c r ≡ true
    further none h r q = refl
    further (some n) h r q = ground arith

    out : keep (beyond (some x.id)) (x ∷ zs) ≡ keep (beyond (some x.id)) zs
    out = let self : ltb x.id x.id ≡ false = ground arith in rw self refl

pub beyond-cursor :
    (rows xs ys : List AuditRow) (at_ : Option ℕ)
    → IsAscending rows
    → keep (beyond at_) rows ≡ xs ++ ys
    → keep (beyond (cursor xs at_)) rows ≡ ys
beyond-cursor rows [] ys at_ up e = e
beyond-cursor rows (x ∷ xs) ys at_ up e =
    beyond-cursor rows xs ys (some x.id) up (beyond_next rows (xs ++ ys) x at_ up e)

module _ (before : String → String → Bool) (quote : String → String) (digits : ℕ → String)
    (sha256 : String → String) where
  last_of : Step → Option ℕ
  last_of (going w) = w.last_id
  last_of (broken res) = none

  visit-last :
      (w : Walk) (r : AuditRow) {w' : Walk}
      → visit before quote digits sha256 w r ≡ going w'
      → w'.last_id ≡ some r.id
  unfolding visit last_of
  visit-last w r h = elim (Bool-cases (is_falsy r.entry_hash)) [
    | inl bare ↦ elim (Bool-cases w.started) [
      | inl on ↦ cc (rw (bare, on) at h)
      | inr off ↦ sym (ap last_of (rw (bare, off) at h))
    ]
    | inr full ↦ elim (Bool-cases (str_eq (or_empty r.prev_hash) w.expected_prev)) [
      | inr cut ↦ cc (rw (full, cut) at h)
      | inl linked ↦
          elim (Bool-cases (
            str_eq (compute_entry_hash before quote digits sha256 (or_empty r.prev_hash) r)
              (or_empty r.entry_hash))) [
                | inr wrong ↦ cc (rw (full, linked, wrong) at h)
                | inl right ↦ sym (ap last_of (rw (full, linked, right) at h))
              ]
    ]
  ]

  walk-last :
      (w : Walk) (rs : List AuditRow) {w' : Walk}
      → walk before quote digits sha256 w rs ≡ going w'
      → w'.last_id ≡ cursor rs w.last_id
  unfolding walk last_of
  walk-last w [] h = sym (ap last_of h)
  walk-last w (r ∷ rs) {w'} h =
      go (visit before quote digits sha256 w r)
        (λ w1 first rest. walk-last w1 rs rest ∙ ap (cursor rs) (visit-last w r first)) refl h
    where
      go :
          (s : Step)
          → ((w1 : Walk)
              → visit before quote digits sha256 w r ≡ going w1
              → walk before quote digits sha256 w1 rs ≡ going w'
              → w'.last_id ≡ cursor rs (some r.id))
          → visit before quote digits sha256 w r ≡ s
          → and_then s (λ w1. walk before quote digits sha256 w1 rs) ≡ going w'
          → w'.last_id ≡ cursor rs (some r.id)
      go (broken res) k first rest = cc
      go (going w1) k first rest = k w1 first rest

  module _ (log : List AuditRow) (org batch : ℕ) (some_rows : 1 ≤ batch)
      (up : IsAscending log) where
    rest_of : Walk → List AuditRow
    rest_of w = keep (beyond w.last_id) (keep (mine org) log)

    rest_after :
        (w w' : Walk)
        → walk before quote digits sha256 w (take batch (rest_of w)) ≡ going w'
        → rest_of w' ≡ drop batch (rest_of w)
    unfolding rest_of
    rest_after w w' e =
        ap (λ c. keep (beyond c) (keep (mine org) log)) (walk-last w (take batch (rest_of w)) e)
        ∙ beyond-cursor (keep (mine org) log) (take batch (rest_of w)) (drop batch (rest_of w))
            w.last_id (Distinct-keep (λ a b. a.id < b.id) (mine org) log up)
            (sym (take-append-drop batch (rest_of w)))

    -- One batch, for each outcome of its walk.
    one_batch :
        (fuel : ℕ) (w : Walk)
        → length (rest_of w) < fuel + 1
        → ((w' : Walk)
            → length (rest_of w') < fuel
            → verify_batches before quote digits sha256 fuel log org batch w'
              ≡ some (conclude (walk before quote digits sha256 w' (rest_of w'))))
        → (s : Step) → walk before quote digits sha256 w (take batch (rest_of w)) ≡ s
        → verify_batches before quote digits sha256 (suc fuel) log org batch w
          ≡ some (
              conclude
                (and_then s (λ w'. walk before quote digits sha256 w' (drop batch (rest_of w)))))
    unfolding rest_of verify_batches walk
    one_batch fuel w enough k (broken res) e = rw (verify_batches, e) refl
    one_batch fuel w enough k (going w') e =
        let got = take batch (rest_of w) in
        elim (Bool-cases (length got == 0 || ltb (length got) batch)) [
          | inl stop ↦
              let none_left : drop batch (rest_of w) ≡ [] =
                drop_none batch (rest_of w) (ground arith) in
              rw (verify_batches, e, stop)
                (ap (λ l. some (conclude (walk before quote digits sha256 w' l))) (sym none_left))
          | inr more ↦
              rw (verify_batches, e, more)
                (k w' (fewer more)
                  ∙ ap (λ l. some (conclude (walk before quote digits sha256 w' l)))
                      (rest_after w w' e))
        ]
      where
        fewer :
            (length (take batch (rest_of w)) == 0 || ltb (length (take batch (rest_of w))) batch)
              ≡ false
            → length (rest_of w') < fuel
        fewer more =
            let left = ap length (rest_after w w' e) in
            let whole = ap length (take-append-drop batch (rest_of w)) in
            let both = length-append (take batch (rest_of w)) (drop batch (rest_of w)) in
            let got : 0 < length (take batch (rest_of w)) = ground arith in omega arith

    verify_batches-walk :
        (fuel : ℕ) (w : Walk)
        → length (rest_of w) < fuel
        → verify_batches before quote digits sha256 fuel log org batch w
          ≡ some (conclude (walk before quote digits sha256 w (rest_of w)))
    verify_batches-walk zero w enough = ground arith
    verify_batches-walk (suc fuel) w enough =
        let rest = rest_of w in
        one_batch fuel w (ground arith) (verify_batches-walk fuel)
          (walk before quote digits sha256 w (take batch rest)) refl
        ∙ ap (λ s. some (conclude s))
            (sym (walk-append before quote digits sha256 w (take batch rest) (drop batch rest))
              ∙ ap (walk before quote digits sha256 w) (take-append-drop batch rest))

    -- Verifying in batches of any positive size is one walk over all rows of the organisation, and
    -- as many batches as the log has rows and one more are enough.
    pub verify_audit_chain-walk :
        verify_audit_chain before quote digits sha256 log org batch
        ≡ some (conclude (walk before quote digits sha256 start (keep (mine org) log)))
    unfolding verify_audit_chain rest_of
    verify_audit_chain-walk =
        let all_rows : rest_of start ≡ keep (mine org) log =
          keep_full (beyond none) (keep (mine org) log)
            (All-const (λ r. beyond none r ≡ true) (λ r. refl) (keep (mine org) log)) in
        verify_batches-walk (length log + 1) start
          (omega (arith, kept_le (beyond none) (keep (mine org) log), kept_le (mine org) log))
        ∙ ap (λ l. some (conclude (walk before quote digits sha256 start l))) all_rows
