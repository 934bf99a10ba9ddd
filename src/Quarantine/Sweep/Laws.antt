-- ===== src/Quarantine/Sweep/Laws.antt =====
-- What a sweep removes and what it leaves.
use project_flakey.Prelude.{
  ℕ, ◌≡◌, refl, sym, ◌∙◌, subst, Bool, true, false, ◌&&◌, not, Option, none, List, [], ◌∷◌, ◌==◌,
  ==-refl, keep, keep-keep, keep_after, keep_eq, any, any-keep_self, All, All-keep, All-imp_both,
  keep_full, All-of_keep, All-const, arith, Bool-cases, inl, inr,
}
use project_flakey.Quarantine.Lifecycle.{is_quarantine_expired}
use project_flakey.Quarantine.Table.{QuarantineRow}
use project_flakey.Quarantine.Sweep.{
  time_of, past_sql, expired_rows, delete_expired, delete_each, before_failure, expire_quarantines,
}

-- The rows that the database does not see as past.
abbrev pub lasting : ℕ → QuarantineRow → Bool
lasting db_now r = not (past_sql db_now r.expires_at)

-- Expired for the database and for the predicate.
abbrev pub is_due : ℕ → ℕ → QuarantineRow → Bool
is_due db_now now r =
    past_sql db_now r.expires_at && is_quarantine_expired (time_of r.expires_at) now

module _ (org db_now : ℕ) where
  removes : List QuarantineRow → QuarantineRow → Bool
  removes rs q = q.org_id == org && past_sql db_now q.expires_at && any (λ x. q.id == x.id) rs

  delete_each-keep :
      (rs rows : List QuarantineRow)
      → delete_each rs org db_now rows ≡ keep (λ q. not (removes rs q)) rows
  unfolding delete_each removes
  delete_each-keep [] rows = sym (
      keep_full (λ q. not (removes [] q)) rows
        (All-const (λ q. not (removes [] q) ≡ true) (λ q. ground arith) rows))
  delete_each-keep (r ∷ rs) rows =
      delete_each-keep rs (delete_expired rows org db_now r.id)
      ∙ keep_after (λ q. not (removes rs q))
          (λ q. not (q.org_id == org && q.id == r.id && past_sql db_now q.expires_at)) rows
      ∙ keep_eq
          (λ q.
            not (q.org_id == org && q.id == r.id && past_sql db_now q.expires_at)
            && not (removes rs q))
          (λ q. not (removes (r ∷ rs) q)) rows
          (All-const
            (λ q.
              (not (q.org_id == org && q.id == r.id && past_sql db_now q.expires_at)
                && not (removes rs q))
              ≡ not (removes (r ∷ rs) q))
            (λ q. ground arith) rows)

  delete_each-lasting :
      (rs rows : List QuarantineRow)
      → keep (lasting db_now) (delete_each rs org db_now rows) ≡ keep (lasting db_now) rows
  unfolding delete_each
  delete_each-lasting [] rows = refl
  delete_each-lasting (r ∷ rs) rows =
      delete_each-lasting rs (delete_expired rows org db_now r.id)
      ∙ keep-keep (λ q. not (q.org_id == org && q.id == r.id && past_sql db_now q.expires_at))
          (lasting db_now) (λ q h. ground arith) rows

  delete_each-All :
      (P : QuarantineRow → Type 0) (rs rows : List QuarantineRow)
      → All P rows
      → All P (delete_each rs org db_now rows)
  unfolding delete_each
  delete_each-All P [] rows h = h
  delete_each-All P (r ∷ rs) rows h = delete_each-All P rs (delete_expired rows org db_now r.id) (
      All-keep P (λ q. not (q.org_id == org && q.id == r.id && past_sql db_now q.expires_at)) rows
        h)

  -- The candidates that the predicate keeps, as one test.
  due_here : ℕ → QuarantineRow → Bool
  due_here now q =
      (q.org_id == org && past_sql db_now q.expires_at)
      && is_quarantine_expired (time_of q.expires_at) now

  due_listed :
      (now : ℕ) (rows : List QuarantineRow)
      → All
          (λ q.
            due_here now q ≡ true
            → any (λ x. q.id == x.id) (expired_rows rows org db_now now) ≡ true)
          rows
  unfolding expired_rows due_here
  due_listed now rows =
      subst (λ l. All (λ q. due_here now q ≡ true → any (λ x. q.id == x.id) l ≡ true) rows)
        (sym (
          keep_after (λ r. is_quarantine_expired (time_of r.expires_at) now)
            (λ r. r.org_id == org && past_sql db_now r.expires_at) rows))
        (any-keep_self (λ y x. y.id == x.id) (λ x. ==-refl x.id) (due_here now) rows)

  -- Deleting by the ids of all due rows leaves none of them.
  expired_rows-gone :
      (now : ℕ) (rows : List QuarantineRow)
      → All
          (λ q. q.org_id ≡ org → is_due db_now now q ≡ false)
          (delete_each (expired_rows rows org db_now now) org db_now rows)
  unfolding expired_rows due_here removes
  expired_rows-gone now rows =
      let rs = expired_rows rows org db_now now in
      subst (All (λ q. q.org_id ≡ org → is_due db_now now q ≡ false))
        (sym (delete_each-keep rs rows))
        (All-imp_both (λ q. due_here now q ≡ true → any (λ x. q.id == x.id) rs ≡ true)
          (λ q. not (removes rs q) ≡ true) (λ q. q.org_id ≡ org → is_due db_now now q ≡ false)
          (λ q listed stays here. due_gone now rs q listed stays here)
          (keep (λ q. not (removes rs q)) rows)
          (All-keep (λ q. due_here now q ≡ true → any (λ x. q.id == x.id) rs ≡ true)
            (λ q. not (removes rs q)) rows (due_listed now rows))
          (All-of_keep (λ q. not (removes rs q)) rows))
    where
      due_gone :
          (now : ℕ) (rs : List QuarantineRow) (q : QuarantineRow)
          → (due_here now q ≡ true → any (λ x. q.id == x.id) rs ≡ true)
          → not (removes rs q) ≡ true
          → q.org_id ≡ org
          → is_due db_now now q ≡ false
      due_gone now rs q listed stays here = elim (Bool-cases (is_due db_now now q)) [
        | inr other ↦ other
        | inl due ↦ let hit = listed (ground arith) in ground arith
      ]

module _ (failing : ℕ → Option ℕ) (db_now now : ℕ) where
  sweep-All :
      (P : QuarantineRow → Type 0) (orgs : List ℕ) (rows : List QuarantineRow)
      → All P rows
      → All P (expire_quarantines failing orgs db_now now rows)
  unfolding expire_quarantines
  sweep-All P [] rows h = h
  sweep-All P (org ∷ orgs) rows h =
      let rs = before_failure (failing org) (expired_rows rows org db_now now) in
      sweep-All P orgs (delete_each rs org db_now rows) (delete_each-All org db_now P rs rows h)

  -- The sweep leaves every row that has no expiry before the database's time, in its order, whatever
  -- organisations it visits and wherever it fails.
  pub expire_quarantines_safe :
      (orgs : List ℕ) (rows : List QuarantineRow)
      → keep (lasting db_now) (expire_quarantines failing orgs db_now now rows)
        ≡ keep (lasting db_now) rows
  unfolding expire_quarantines
  expire_quarantines_safe [] rows = refl
  expire_quarantines_safe (org ∷ orgs) rows =
      let rs = before_failure (failing org) (expired_rows rows org db_now now) in
      expire_quarantines_safe orgs (delete_each rs org db_now rows)
      ∙ delete_each-lasting org db_now rs rows

  -- After the sweep, an organisation that it visited and that did not fail has no row left that is
  -- expired for the database and for the predicate, whether or not other organisations failed.
  pub expire_quarantines_complete :
      (orgs : List ℕ) (rows : List QuarantineRow)
      → All
          (λ org.
            failing org ≡ none
            → All
                (λ q. q.org_id ≡ org → is_due db_now now q ≡ false)
                (expire_quarantines failing orgs db_now now rows))
          orgs
  unfolding expire_quarantines
  expire_quarantines_complete [] rows = tt
  expire_quarantines_complete (org ∷ orgs) rows = (
    λ fine.
        sweep-All (λ q. q.org_id ≡ org → is_due db_now now q ≡ false) orgs
          (delete_each (before_failure (failing org) (expired_rows rows org db_now now)) org db_now
            rows)
          (rw fine (expired_rows-gone org db_now now rows)),
    expire_quarantines_complete orgs (
        delete_each (before_failure (failing org) (expired_rows rows org db_now now)) org db_now
          rows),
  )
