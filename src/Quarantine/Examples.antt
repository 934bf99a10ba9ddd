-- ===== src/Quarantine/Examples.antt =====
-- Quarantines at concrete data, and the theorems on them at these inputs.
use project_flakey.Prelude.{
  ℕ, ◌≤◌, ◌<◌, ◌≡◌, refl, ◌↔◌, String, true, false, Option, none, some, List, [], ◌∷◌, keep, All,
  any, Bool, ◌==◌, if◌then◌else◌, arith,
}
use project_flakey.Prelude.Js.{at}
use project_flakey.Run.Data.{Stats, passed, failed, has_status, NormalizedRun}
use project_flakey.Quarantine.Lifecycle.{
  time, valid, parse_expires_at, is_quarantine_expired, is_quarantine_expired_iff,
  parse_expires_at_valid,
}
use project_flakey.Quarantine.Table.{
  Table, Body, Reply, created, removed, post_quarantine, upsert_quarantine, delete_quarantine,
}
use project_flakey.Quarantine.Table.Laws.{Outcome, post_quarantine-Outcome}
use project_flakey.Quarantine.Auto.{
  FlakyTest, count_flips, AutoPolicy, insert_auto, quarantine_all, quarantine_found,
  evaluate_auto_quarantine,
}
use project_flakey.Quarantine.Auto.Laws.{
  HasAdded, IsEntered, evaluate_auto_quarantine-HasGrown, evaluate_auto_quarantine_complete,
}
use project_flakey.Quarantine.Gate.{
  compute_all_failures_quarantined, failed_titles, success, commit_state, commit_state_sound,
  IsCovered,
}
use project_flakey.Quarantine.Sweep.{expired_rows, delete_each, expire_quarantines}
use project_flakey.Quarantine.Sweep.Laws.{
  lasting, is_due, expire_quarantines_safe, expire_quarantines_complete,
}

is_quarantine_expired_iff_example :
    (is_quarantine_expired (at 7) 7 ≡ true) ↔ ((ms : ℕ) × (at 7 ≡ at ms) × (ms ≤ 7))
is_quarantine_expired_iff_example = is_quarantine_expired_iff (at 7) 7

accepted : parse_expires_at (time (at 8)) 7 ≡ valid 8
unfolding parse_expires_at
accepted = refl

parse_expires_at_valid_example :
    (7 < 8) × (time (at 8) ≡ time (at 8)) × (is_quarantine_expired (at 8) 7 ≡ false)
parse_expires_at_valid_example = parse_expires_at_valid (time (at 8)) 7 accepted

abbrev empty_table : Table
empty_table = record { rows = []; next = 1 }

abbrev ask : Body
ask = record {
  full_title = "shop > pays";
  file_path = "shop.ts";
  suite_name = "web";
  reason = none;
  expires_at = time (at 100);
  error_fingerprint = "";
}

abbrev muted : Table × Reply
muted = post_quarantine empty_table 1 3 "admin" ask 50

muted_reply : muted.1 ≡ created 1
unfolding post_quarantine parse_expires_at upsert_quarantine
muted_reply = refl

post_quarantine-Outcome_example : Outcome empty_table 1 ask 50 muted
post_quarantine-Outcome_example = post_quarantine-Outcome empty_table 1 3 "admin" ask 50

unmuted :
    delete_quarantine muted.0 1 "admin" "shop > pays" "web"
    ≡ (record { rows = []; next = 2 }, removed)
unfolding post_quarantine delete_quarantine parse_expires_at upsert_quarantine
unmuted = refl

abbrev flips_often : FlakyTest
flips_often = record {
  full_title = "shop > pays";
  file_path = none;
  total_runs = 4;
  timeline = passed ∷ failed ∷ failed ∷ passed ∷ [];
  flip_count = 2;
}

two_flips : count_flips flips_often.timeline ≡ 2
unfolding count_flips
two_flips = refl

abbrev policy : AutoPolicy
policy = record { enabled = true; min_flips = 2; min_runs = 4 }

abbrev never : FlakyTest → Bool
never test = false

abbrev found : ℕ → Option (List FlakyTest)
found window = some (flips_often ∷ [])

auto_added : (evaluate_auto_quarantine never (some policy) found 1 "web" 9 empty_table).1 ≡ 1
unfolding evaluate_auto_quarantine quarantine_found quarantine_all insert_auto
auto_added = refl

evaluate_auto_quarantine-HasGrown_example :
    HasAdded policy 1 "web" false muted.0
      (evaluate_auto_quarantine never (some policy) found 1 "web" 9 muted.0)
evaluate_auto_quarantine-HasGrown_example =
    evaluate_auto_quarantine-HasGrown never policy 1 "web" 9 found muted.0

evaluate_auto_quarantine_complete_example :
    let after = evaluate_auto_quarantine never (some policy) found 1 "web" 9 empty_table in
    All (IsEntered policy 1 "web" after.0) (flips_often ∷ [])
    × (evaluate_auto_quarantine never (some policy) found 1 "web" 9 after.0 ≡ (after.0, 0))
evaluate_auto_quarantine_complete_example =
    evaluate_auto_quarantine_complete never policy 1 "web" 9 found (flips_often ∷ []) empty_table
      refl refl refl

abbrev one_failed : Stats
one_failed = record { total = 1; passed = 0; failed = 1; skipped = 0; pending = 0; duration_ms = 6 }

abbrev red_run : NormalizedRun
red_run = record {
  meta = record {
    suite_name = "web";
    branch = "main";
    commit_sha = "c0ffee";
    ci_run_id = "ci-1";
    started_at = none;
    finished_at = none;
    reporter = "jest";
    release = none;
    environment = none;
  };
  stats = one_failed;
  specs =
      record {
        file_path = "shop.ts";
        title = "shop";
        stats = one_failed;
        tests =
            record {
              title = "pays";
              full_title = "shop > pays";
              status = failed;
              duration_ms = 6;
              error = none;
              screenshot_paths = [];
            }
            ∷ [];
      }
      ∷ [];
}

softened : commit_state red_run (some ("shop > pays" ∷ [])) ≡ success
unfolding commit_state compute_all_failures_quarantined failed_titles
softened = refl

commit_state_sound_example :
    (quarantined : List String) × (some ("shop > pays" ∷ []) ≡ some quarantined)
    × (any (λ s. any (has_status failed) s.tests) red_run.specs ≡ true)
    × All (λ s. All (IsCovered quarantined) s.tests) red_run.specs
commit_state_sound_example =
    commit_state_sound red_run (some ("shop > pays" ∷ [])) (omega arith) softened

-- Organisation 2 fails at its first deletion.
abbrev failing : ℕ → Option ℕ
failing n = if n == 2 then some 0 else none

swept_rows : expire_quarantines failing (2 ∷ 1 ∷ []) 101 101 muted.0.rows ≡ []
unfolding post_quarantine parse_expires_at upsert_quarantine expire_quarantines expired_rows
    delete_each is_quarantine_expired
swept_rows = refl

expire_quarantines_safe_example :
    keep (lasting 101) (expire_quarantines failing (2 ∷ 1 ∷ []) 101 101 muted.0.rows)
    ≡ keep (lasting 101) muted.0.rows
expire_quarantines_safe_example = expire_quarantines_safe failing 101 101 (2 ∷ 1 ∷ []) muted.0.rows

expire_quarantines_complete_example :
    All
      (λ org.
        failing org ≡ none
        → All
            (λ q. q.org_id ≡ org → is_due 101 101 q ≡ false)
            (expire_quarantines failing (2 ∷ 1 ∷ []) 101 101 muted.0.rows))
      (2 ∷ 1 ∷ [])
expire_quarantines_complete_example =
    expire_quarantines_complete failing 101 101 (2 ∷ 1 ∷ []) muted.0.rows
