-- ===== src/Audit/Export/Examples.antt =====
-- A log of two entries and its export, with a delivery whose cursor is not saved.
use project_flakey.Prelude.{ℕ, ◌≡◌, String, Bool, true, none, some, List, [], ◌∷◌, ◌++◌, arith}
use project_flakey.Audit.Json.{object, no_fields}
use project_flakey.Audit.Chain.{AuditRow, NewEntry}
use project_flakey.Audit.Export.{Export, unsaved, saved, pending, flush_config}
use project_flakey.Audit.Export.Drained.{flush_config-IsDrained}
use project_flakey.Audit.Export.History.{
  History, Event, appends, ticks, happen_all, IsCovered, happen_all-IsCovered,
}

abbrev before : String → String → Bool
before s t = true

abbrev quote : String → String
quote s = s

abbrev digits : ℕ → String
digits n = "1"

abbrev digest : String → String
digest s = "d"

abbrev entry : NewEntry
entry = record {
  user_id = some 3;
  action = "release.sign_off";
  target_type = none;
  target_id = none;
  detail = object no_fields;
}

abbrev row : ℕ → AuditRow
row n = record {
  id = n;
  org_id = 1;
  user_id = none;
  action = "auth.login";
  target_type = none;
  target_id = none;
  detail = object no_fields;
  created_at = "t";
  prev_hash = none;
  entry_hash = none;
}

-- Row 4 was exported before.
abbrev export : Export
export = record {
  config = record {
    id = 1;
    org_id = 1;
    last_exported_id = 4;
    consecutive_failures = 0;
    last_error = none;
    last_success_at = none;
  };
  received = [];
}

abbrev history : History
history = record { log = row 4 ∷ row 6 ∷ []; next_id = 9; export = export }

-- The first tick does not save its cursor; the second sends the rows again.
abbrev events : List Event
events = ticks (λ n. unsaved) ∷ appends 1 entry "t2" ∷ ticks (λ n. saved 70) ∷ []

flush_config-IsDrained_example :
    let after = flush_config (λ n. saved 70) history.log export in
    (pending history.log after.config ≡ [])
    × (after.received ≡ [] ++ pending history.log export.config)
flush_config-IsDrained_example =
    flush_config-IsDrained history.log (λ n. 70) export ((omega arith, tt), (tt, tt)) (omega arith)

happen_all-IsCovered_example : IsCovered 4 (happen_all before quote digits digest history events)
happen_all-IsCovered_example =
    happen_all-IsCovered before quote digits digest history events
      (((omega arith, tt), (tt, tt)), (omega arith, (omega arith, tt)), omega arith, omega arith)
