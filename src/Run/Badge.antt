-- ===== src/Run/Badge.antt =====
-- backend/src/routes/badge.ts (GET /badge/:orgSlug/:suiteName) and GET /runs/status of
-- backend/src/routes/runs.ts: the two ship signals that a CI job can read. The texts of the badge
-- are given by their template and its values; the SVG markup round them is left out, and so is
-- the reply to a failing database.
pub mod Agreement
use project_flakey.Prelude.{
  ℕ, String, Bool, true, false, ◌&&◌, Option, none, some, List, [], ◌∷◌, ◌==◌, str_eq, ltb, find,
  keep, if◌then◌else◌,
}
use project_flakey.Run.Status.{
  ShipStatus, incomplete, RunStatusInput, classify_run_status, input_of, is_none,
}
use project_flakey.Run.Store.{RunRow, Db}

-- ORDER BY created_at DESC LIMIT 1
unfoldable pub latest : List RunRow → Option RunRow
latest [] = none
latest (r ∷ rs) = elim (latest rs) [
  | none ↦ some r
  | some b ↦ if ltb r.created_at b.created_at then some b else some r
]

pub data Color : Type 0 where
  grey red orange yellow green : Color

pub data Message : Type 0 where
  not_found no_data aborted in_progress : Message
  failures : ℕ → Message
  ratio : (passed total : ℕ) → Message
  passes : ℕ → Message

pub record Badge : Type 0 where
  pub message : Message
  pub color : Color

abbrev pub status_of : RunRow → ShipStatus
status_of r = classify_run_status (input_of r.stats r.aborted r.finished_at)

-- The if chain of the handler, by the status and whether the run has finished.
unfoldable pub run_badge : RunRow → Badge
run_badge r = elim (status_of r) [
  | ShipStatus.failed ↦ record { message = failures r.stats.failed; color = red }
  | ShipStatus.aborted ↦ record { message = aborted; color = orange }
  | ShipStatus.incomplete ↦
      if is_none r.finished_at
      then record { message = in_progress; color = grey }
      else record { message = ratio r.stats.passed r.stats.total; color = yellow }
  | ShipStatus.passed ↦ record {
    message =
        if ltb 0 r.stats.skipped then ratio r.stats.passed r.stats.total else passes r.stats.passed;
    color = green;
  }
]

abbrev pub of_suite : ℕ → String → RunRow → Bool
of_suite org suite r = str_eq r.suite_name suite && r.org_id == org

badge_for : Option RunRow → Badge
badge_for none = record { message = no_data; color = grey }
badge_for (some r) = run_badge r

pub record Org : Type 0 where
  pub id : ℕ
  pub slug : String

unfoldable pub badge : List Org → Db → String → String → Badge
unfolding badge_for
badge orgs db slug suite = elim (find (λ (o : Org). str_eq o.slug slug) orgs) [
  | none ↦ record { message = not_found; color = grey }
  | some org ↦ badge_for (latest (keep (of_suite org.id suite) db.runs))
]

pub data StatusReply : Type 0 where
  bad_request no_run : StatusReply
  ok : ShipStatus → RunRow → StatusReply

-- `if (x)` on an optional query parameter
abbrev given : Option String → Bool
given none = false
given (some s) = if str_eq s "" then false else true

abbrev matches : Option String → String → Bool
matches none s = true
matches (some q) s = if str_eq q "" then true else str_eq s q

-- The row filter: the tenant's rows, and each condition that was given.
abbrev pub selected : ℕ → Option String → Option String → RunRow → Bool
selected org ci suite r = matches ci r.ci_run_id && (matches suite r.suite_name && r.org_id == org)

status_for : Option RunRow → StatusReply
status_for none = no_run
status_for (some r) = ok (status_of r) r

unfoldable pub run_status : Db → ℕ → Option String → Option String → StatusReply
unfolding status_for
run_status db org ci suite = elim (given ci) [
  | true ↦ status_for (latest (keep (selected org ci suite) db.runs))
  | false ↦ elim (given suite) [
    | true ↦ status_for (latest (keep (selected org ci suite) db.runs))
    | false ↦ bad_request
  ]
]
