-- ===== src/Audit/Chain/Tamper.antt =====
-- Two intact chains with one head: either the same text was hashed for every row, or a collision of
-- the digest is at hand.
use mathlib.Core.Path.{ap₂}
use Prim.Native.Char.{Char}
use Prim.Native.String.append
use project_flakey.Prelude.{
  ℕ, ◌+◌, ◌≤◌, ◌≡◌, All, All-keep, All-of_keep, ◌≢◌, ◌⊎◌, refl, sym, ap, ◌∙◌, subst, String, Bool,
  true, false, not, keep, none, some, List, [], ◌∷◌, map, length, str_eq, str_eq_iff, arith,
  Bool-cases, inl, inr,
}
use project_flakey.Audit.Chain.{
  AuditRow, Walk, Step, broken, going, genesis_hash, hash_input, compute_entry_hash, start,
  conclude, AuditVerifyResult, or_genesis, last_hash, verify_audit_chain, visit, walk, and_then,
  or_empty, is_falsy,
}
use project_flakey.Audit.Chain.Laws.{mine, IsStored, walk-head, last_hash-keep}
use project_flakey.Audit.Chain.Batches.{IsAscending, verify_audit_chain-walk}
use project_flakey.Audit.Chain.Append.{IsHonest, walk-IsHonest, some_inj}

abbrev pub size : String → ℕ
size String.[] = 0
size (String.◌∷◌ c s) = size s + 1

first_char : Char → String → Char
first_char other String.[] = other
first_char other (String.◌∷◌ c s) = c

rest_chars : String → String
rest_chars String.[] = ""
rest_chars (String.◌∷◌ c s) = s

-- Texts with beginnings of one size are equal only if the beginnings are.
prefix_inj :
    (a b s t : String)
    → size a ≡ size b
    → Prim.Native.String.◌++◌ a s ≡ Prim.Native.String.◌++◌ b t
    → a ≡ b
unfolding first_char rest_chars
prefix_inj String.[] String.[] s t n e = refl
prefix_inj String.[] (String.◌∷◌ c b) s t n e = ground arith
prefix_inj (String.◌∷◌ c a) String.[] s t n e = ground arith
prefix_inj (String.◌∷◌ c a) (String.◌∷◌ d b) s t n e =
    let e' = sym (append.cons c a s) ∙ e ∙ append.cons d b t in
    ap₂ (λ (x : Char) (l : String). String.◌∷◌ x l) (ap (first_char c) e')
      (prefix_inj a b s t (omega arith) (ap rest_chars e'))

module _ (before : String → String → Bool) (quote : String → String) (digits : ℕ → String)
    (sha256 : String → String) where
  -- The text that was hashed for a stored row.
  abbrev pub hashed_text : AuditRow → String
  hashed_text r = hash_input before quote digits sha256 (or_empty r.prev_hash) r

  abbrev pub Collision : Type 0
  Collision = (a : String) × (b : String) × (a ≢ b) × (sha256 a ≡ sha256 b)

  abbrev pub has_hash : AuditRow → Bool
  has_hash r = not (is_falsy r.entry_hash)

  -- Each row names its predecessor's digest.
  abbrev IsLinked : String → List AuditRow → String → Type 0
  IsLinked p [] h = p ≡ h
  IsLinked p (r ∷ rs) h = (or_empty r.prev_hash ≡ p) × IsLinked (sha256 (hashed_text r)) rs h

  -- What an accepted row says.
  abbrev Accepts : Walk → AuditRow → Walk → Type 0
  Accepts w r w' =
      ((has_hash r ≡ false)
        × (w'.expected_prev ≡ w.expected_prev)
        × (w'.hashed_rows ≡ w.hashed_rows))
      ⊎ ((has_hash r ≡ true)
          × (or_empty r.prev_hash ≡ w.expected_prev)
          × (w'.expected_prev ≡ sha256 (hashed_text r))
          × (w'.hashed_rows ≡ w.hashed_rows + 1))

  prev_of : Step → String
  prev_of (going w) = w.expected_prev
  prev_of (broken res) = ""

  count_of : Step → ℕ
  count_of (going w) = w.hashed_rows
  count_of (broken res) = 0

  visit-Accepts :
      (w : Walk) (r : AuditRow) {w' : Walk}
      → visit before quote digits sha256 w r ≡ going w'
      → Accepts w r w'
  unfolding visit prev_of count_of
  visit-Accepts w r h = elim (Bool-cases (is_falsy r.entry_hash)) [
    | inl bare ↦ elim (Bool-cases w.started) [
      | inl on ↦ cc (rw (bare, on) at h)
      | inr off ↦
          let s = rw (bare, off) at h in inl (rw bare refl, sym (ap prev_of s), sym (ap count_of s))
    ]
    | inr full ↦ elim (Bool-cases (str_eq (or_empty r.prev_hash) w.expected_prev)) [
      | inr cut ↦ cc (rw (full, cut) at h)
      | inl linked ↦
          elim (Bool-cases (
            str_eq (compute_entry_hash before quote digits sha256 (or_empty r.prev_hash) r)
              (or_empty r.entry_hash))) [
                | inr wrong ↦ cc (rw (full, linked, wrong) at h)
                | inl right ↦
                    let s = rw (full, linked, right) at h in
                    inr (
                      rw full refl,
                      (str_eq_iff (or_empty r.prev_hash) w.expected_prev).0 linked,
                      sym (ap prev_of s)
                          ∙ sym (
                              (str_eq_iff
                                  (compute_entry_hash before quote digits sha256
                                    (or_empty r.prev_hash) r)
                                  (or_empty r.entry_hash)).0
                                right),
                      sym (ap count_of s),
                    )
              ]
    ]
  ]

  walk-IsLinked :
      (w : Walk) (rs : List AuditRow) {w' : Walk}
      → walk before quote digits sha256 w rs ≡ going w'
      → IsLinked w.expected_prev (keep has_hash rs) w'.expected_prev
        × (w'.hashed_rows ≡ w.hashed_rows + length (keep has_hash rs))
  unfolding walk prev_of count_of
  walk-IsLinked w [] h = (ap prev_of h, sym (ap count_of h) ∙ omega arith)
  walk-IsLinked w (r ∷ rs) {w'} h =
      go (visit before quote digits sha256 w r)
        (λ w1 first rest.
          linked_step w w1 w' r rs (visit-Accepts w r first) (walk-IsLinked w1 rs rest))
        refl h
    where
      linked_step :
          (v w1 w2 : Walk) (x : AuditRow) (xs : List AuditRow)
          → Accepts v x w1
          → IsLinked w1.expected_prev (keep has_hash xs) w2.expected_prev
            × (w2.hashed_rows ≡ w1.hashed_rows + length (keep has_hash xs))
          → IsLinked v.expected_prev (keep has_hash (x ∷ xs)) w2.expected_prev
            × (w2.hashed_rows ≡ v.hashed_rows + length (keep has_hash (x ∷ xs)))
      linked_step v w1 w2 x xs (inl (bare, same, n)) (links, count) =
          rw bare
            (subst (λ z. IsLinked z (keep has_hash xs) w2.expected_prev) same links, omega arith)
      linked_step v w1 w2 x xs (inr (full, prev, next, n)) (links, count) = rw full (
        (prev, subst (λ z. IsLinked z (keep has_hash xs) w2.expected_prev) next links),
        omega arith,
      )

      go :
          (s : Step)
          → ((w1 : Walk)
              → visit before quote digits sha256 w r ≡ going w1
              → walk before quote digits sha256 w1 rs ≡ going w'
              → IsLinked w.expected_prev (keep has_hash (r ∷ rs)) w'.expected_prev
                × (w'.hashed_rows ≡ w.hashed_rows + length (keep has_hash (r ∷ rs))))
          → visit before quote digits sha256 w r ≡ s
          → and_then s (λ w1. walk before quote digits sha256 w1 rs) ≡ going w'
          → IsLinked w.expected_prev (keep has_hash (r ∷ rs)) w'.expected_prev
            × (w'.hashed_rows ≡ w.hashed_rows + length (keep has_hash (r ∷ rs)))
      go (broken res) k first rest = cc
      go (going w1) k first rest = k w1 first rest

  apart : {a b : String} → str_eq a b ≡ false → a ≢ b
  apart {a} {b} h e = let hit = (str_eq_iff a b).1 e in cc

  prev_same :
      (a b : String) (x y : AuditRow)
      → size a ≡ size b
      → hash_input before quote digits sha256 a x ≡ hash_input before quote digits sha256 b y
      → a ≡ b
  unfolding hash_input
  prev_same a b x y n e = prefix_inj a b _ _ n e

  going_of :
      (s : Step) (res : AuditVerifyResult)
      → IsHonest before quote digits sha256 s
      → conclude s ≡ res
      → res.ok ≡ true
      → (w : Walk) × (s ≡ going w) × (res.hashed_rows ≡ w.hashed_rows)
  going_of (going w) res honest e ok =
      (w, refl, ap (λ (q : AuditVerifyResult). q.hashed_rows) (sym e))
  going_of (broken r) res honest e ok = let bad : r.ok ≡ false = honest in cc

  -- A log that verifies, as a linked list of its hashed rows.
  verified_links :
      (log : List AuditRow) (org batch : ℕ) (res : AuditVerifyResult)
      → 1 ≤ batch
      → IsAscending log
      → All IsStored log
      → verify_audit_chain before quote digits sha256 log org batch ≡ some res
      → res.ok ≡ true
      → IsLinked genesis_hash
          (keep has_hash (keep (mine org) log))
          (or_genesis (last_hash org log none))
        × (res.hashed_rows ≡ length (keep has_hash (keep (mine org) log)))
  verified_links log org batch res b up stored seen ok =
      let rows = keep (mine org) log in
      let s = walk before quote digits sha256 start rows in
      let (w, at_end, count) =
        going_of s res (walk-IsHonest before quote digits sha256 start rows)
          (some_inj
            (sym (verify_audit_chain-walk before quote digits sha256 log org batch b up) ∙ seen))
          ok in
      let (links, n) = walk-IsLinked start rows at_end in
      let head =
        walk-head before quote digits sha256 org start rows none (All-of_keep (mine org) log)
          (All-keep IsStored (mine org) log stored) refl at_end
        ∙ ap or_genesis (last_hash-keep org log none) in
      (subst (IsLinked genesis_hash (keep has_hash rows)) head links, omega arith)

  module _ (full_size : (s : String) → size (sha256 s) ≡ 64) where
    -- Two linked lists of one length with one end.
    linked_same :
        (p q : String) (xs ys : List AuditRow) (h : String)
        → size p ≡ 64
        → size q ≡ 64
        → length xs ≡ length ys
        → IsLinked p xs h
        → IsLinked q ys h
        → ((map hashed_text xs ≡ map hashed_text ys) × (p ≡ q)) ⊎ Collision
    linked_same p q [] [] h np nq n ex ey = inl (refl, ex ∙ sym ey)
    linked_same p q [] (y ∷ ys) h np nq n ex ey = ground arith
    linked_same p q (x ∷ xs) [] h np nq n ex ey = ground arith
    linked_same p q (x ∷ xs) (y ∷ ys) h np nq n (px, ex) (py, ey) =
        elim (linked_same (sha256 (hashed_text x)) (sha256 (hashed_text y)) xs ys h
          (full_size (hashed_text x)) (full_size (hashed_text y)) (omega arith) ex ey) [
            | inr found ↦ inr found
            | inl (texts, digests) ↦ elim (Bool-cases (str_eq (hashed_text x) (hashed_text y))) [
              | inr other ↦ inr (hashed_text x, hashed_text y, apart other, digests)
              | inl eq ↦
                  let same = (str_eq_iff (hashed_text x) (hashed_text y)).0 eq in
                  inl (
                    ap₂ (λ (a : String) (l : List String). a ∷ l) same texts,
                    sym px
                        ∙ prev_same (or_empty x.prev_hash) (or_empty y.prev_hash) x y
                            (ap size px ∙ np ∙ sym nq ∙ sym (ap size py)) same
                        ∙ py,
                  )
            ]
          ]

    -- Take two logs of an organisation that both verify, with as many hashed rows and with the same
    -- last hash. Then the same texts were hashed for their rows, in the same order, or two different
    -- texts with one digest are found. This asks that ids ascend, that no stored hash is the empty
    -- text, and that a digest has 64 characters.
    pub verify_audit_chain_attested :
        (log log' : List AuditRow) (org batch : ℕ) (res res' : AuditVerifyResult)
        → 1 ≤ batch
        → IsAscending log × All IsStored log
        → IsAscending log' × All IsStored log'
        → (verify_audit_chain before quote digits sha256 log org batch ≡ some res) × (res.ok ≡ true)
        → (verify_audit_chain before quote digits sha256 log' org batch ≡ some res')
          × (res'.ok ≡ true)
        → res.hashed_rows ≡ res'.hashed_rows
        → last_hash org log none ≡ last_hash org log' none
        → (map hashed_text (keep has_hash (keep (mine org) log))
            ≡ map hashed_text (keep has_hash (keep (mine org) log')))
          ⊎ Collision
    verify_audit_chain_attested log log' org batch res res' b (up, st) (up', st') (v, ok) (v', ok')
          n head =
        let (links, k) = verified_links log org batch res b up st v ok in
        let (links', k') = verified_links log' org batch res' b up' st' v' ok' in
        let xs = keep has_hash (keep (mine org) log) in
        let ys = keep has_hash (keep (mine org) log') in
        elim (linked_same genesis_hash genesis_hash xs ys (or_genesis (last_hash org log' none))
          refl refl (omega arith) (subst (λ z. IsLinked genesis_hash xs (or_genesis z)) head links)
          links') [ inl (texts, _) ↦ inl texts | inr found ↦ inr found ]
