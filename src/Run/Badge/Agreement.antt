-- ===== src/Run/Badge/Agreement.antt =====
-- The badge and GET /runs/status give the same ship answer, and a green one is a clean pass.
use mathlib.Core.Path.{fun_ext}
use project_flakey.Prelude.{
  ◌+◌, ◌≡◌, refl, ◌↔◌, String, false, Option, none, some, List, str_eq, find, keep, arith, All,
  All-keep, Option-cases, inl, inr, ◌∙◌, ap, [], ◌∷◌, ltb, Bool-cases,
}
use project_flakey.Run.Data.{IsBalanced}
use project_flakey.Run.Status.{
  ShipStatus, input_of, is_none, classify_run_status_iff, classify_run_status-IsBalanced,
}
use project_flakey.Run.Store.{RunRow, Db}
use project_flakey.Run.Upload.Balance.{IsBalancedDb}
use project_flakey.Run.Badge.{
  latest, green, status_of, run_badge, of_suite, Org, badge, ok, run_status, selected, badge_for,
  status_for,
}

run_badge-green : (r : RunRow) → ((run_badge r).color ≡ green) ↔ (status_of r ≡ ShipStatus.passed)
unfolding run_badge
run_badge-green r = (λ h. ground arith, λ h. ground arith)

All-latest :
    (P : RunRow → Type 0) (rows : List RunRow) {r : RunRow}
    → All P rows
    → latest rows ≡ some r
    → P r
unfolding latest
All-latest P [] h e = cc
All-latest P (x ∷ xs) {r} h e = elim (Option-cases (latest xs)) [
  | inl last ↦ let same : x ≡ r = cc (rw last at e) in rw (← same) h.0
  | inr (b, more) ↦ elim (Bool-cases (ltb x.created_at b.created_at)) [
    | inl older ↦ All-latest P xs h.1 (more ∙ rw (more, older) at e)
    | inr newer ↦ let same : x ≡ r = cc (rw (more, newer) at e) in rw (← same) h.0
  ]
]

badge_for_green :
    (o : Option RunRow)
    → ((badge_for o).color ≡ green) ↔ ((r : RunRow) × (status_for o ≡ ok ShipStatus.passed r))
unfolding badge_for status_for
badge_for_green none = (λ h. cc, λ h. cc h.1)
badge_for_green (some r) =
    (λ h. (r, ap (λ s. ok s r) ((run_badge-green r).0 h)), λ h. (run_badge-green r).1 (cc h.1))

module _ (orgs : List Org) (db : Db) (slug suite : String) {org : Org}
    (known : find (λ o. str_eq o.slug slug) orgs ≡ some org) where
  badge-latest :
      badge orgs db slug suite ≡ badge_for (latest (keep (of_suite org.id suite) db.runs))
  unfolding badge
  badge-latest = rw (known, badge)

  run_status-latest :
      str_eq suite "" ≡ false
      → run_status db org.id none (some suite)
        ≡ status_for (latest (keep (of_suite org.id suite) db.runs))
  unfolding run_status
  run_status-latest named =
      let same : selected org.id none (some suite) ≡ of_suite org.id suite =
        fun_ext (λ r. rw named) in
      rw (named, run_status) (ap (λ p. status_for (latest (keep p db.runs))) same)

  -- For a suite of an existing organisation the badge is green exactly when GET /runs/status answers
  -- "passed" for that suite.
  pub badge-agrees :
      str_eq suite "" ≡ false
      → ((badge orgs db slug suite).color ≡ green)
        ↔ ((r : RunRow) × (run_status db org.id none (some suite) ≡ ok ShipStatus.passed r))
  badge-agrees named =
      rw (badge-latest, run_status-latest named)
        (badge_for_green (latest (keep (of_suite org.id suite) db.runs)))

latest_green :
    (o : Option RunRow)
    → (badge_for o).color ≡ green
    → (r : RunRow) × (o ≡ some r) × (status_of r ≡ ShipStatus.passed)
unfolding badge_for
latest_green none h = cc
latest_green (some r) h = (r, refl, (run_badge-green r).0 h)

-- In a database whose counters balance, a green badge means that the suite's latest run finished,
-- was not aborted, has no failed and no pending test, and its total is passed + skipped.
pub badge_green_sound :
    (orgs : List Org) (db : Db) (slug suite : String) {org : Org}
    → find (λ o. str_eq o.slug slug) orgs ≡ some org
    → IsBalancedDb db
    → (badge orgs db slug suite).color ≡ green
    → (r : RunRow) × (latest (keep (of_suite org.id suite) db.runs) ≡ some r)
      × (r.aborted ≡ false)
      × (is_none r.finished_at ≡ false)
      × (r.stats.failed ≡ 0)
      × (r.stats.pending ≡ 0)
      × (r.stats.total ≡ r.stats.passed + r.stats.skipped)
badge_green_sound orgs db slug suite {org} known h g =
    let rows = keep (of_suite org.id suite) db.runs in
    let (r, last, passed_r) =
      latest_green (latest rows) (rw (badge-latest orgs db slug suite known) at g) in
    let balanced =
      All-latest (λ x. IsBalanced x.stats) rows
        (All-keep (λ x. IsBalanced x.stats) (of_suite org.id suite) db.runs h.runs) last in
    let clean = (classify_run_status_iff (input_of r.stats r.aborted r.finished_at)).0 passed_r in
    let (no_failed, no_pending, all) =
      classify_run_status-IsBalanced r.stats r.aborted r.finished_at balanced passed_r in
    (r, last, clean.not_aborted, clean.finished, no_failed, no_pending, all)
