-- ===== src/Release/Steps.antt =====
-- backend/src/routes/releases.ts: every sequence of the handlers, from the empty tables.
use project_flakey.Prelude.{
  ℕ, String, Bool, Option, none, some, ◌==◌, ◌||◌, not, if◌then◌else◌, any, find, All-const, arith,
  Bool-cases, Option-cases, inl, inr,
}
use project_flakey.Release.Data.{Tables, Session, is_viewer, is_active, is_failure, is_not_run}
use project_flakey.Release.Testing.{is_at, has}
use project_flakey.Release.Results.{
  Observation, record_result, record_valid, write_result, auto_complete, remaining,
  complete_session, finish, accept_result, unaccept_result, file_bug, find_session, valid_steps,
  observed, update_result,
}
use project_flakey.Release.Sessions.{AreSessions, map-AreSessions}
use project_flakey.Release.Deferrals.{
  AreResults, observe-AreResults, clear-AreResults, accept-AreResults, file-AreResults,
}
use project_flakey.Release.Signatures.{AreReleases}

-- What holds of the tables after every step.
abbrev pub IsConsistent : Tables → Type 0
IsConsistent db =
    AreSessions db.next_id db.sessions × AreResults db.results × AreReleases db.releases

abbrev Always : Session → Type 0
Always s = Unit

finish-AreSessions :
    (db : Tables) (session now : ℕ)
    → AreSessions db.next_id db.sessions
    → AreSessions db.next_id (complete_session session now db).sessions
unfolding complete_session
finish-AreSessions db session now h =
    map-AreSessions (λ (s : Session). if s.id == session then finish now s else s)
      (λ s. elim (Bool-cases (s.id == session)) [ inl e ↦ rw e | inr e ↦ rw e ])
      (λ s. elim (Bool-cases (s.id == session)) [ inl e ↦ rw e | inr e ↦ rw e ]) db.next_id Always
      (λ a b u v apart. elim (Bool-cases (a.id == session)) [
        | inl ea ↦ rw ea (let one = apart.1 in ground arith)
        | inr na ↦ elim (Bool-cases (b.id == session)) [
          | inl eb ↦ rw (na, eb) (ground arith)
          | inr nb ↦ rw (na, nb) apart.1
        ]
      ])
      db.sessions (All-const Always (λ s. tt) db.sessions) h

auto_complete-IsConsistent :
    (session now : ℕ) (db : Tables)
    → IsConsistent db
    → IsConsistent (auto_complete session now db).1
unfolding auto_complete complete_session
auto_complete-IsConsistent session now db h =
    elim (Bool-cases (remaining session db.results == 0)) [
      | inl done ↦ rw (auto_complete, done) (finish-AreSessions db session now h.0, h.1, h.2)
      | inr left ↦ rw (auto_complete, left) h
    ]

pub record_result-IsConsistent :
    (db : Tables) (role : String) (user release session test : ℕ) (o : Observation) (now : ℕ)
    → IsConsistent db
    → IsConsistent (record_result db role user release session test o now).1
unfolding record_result record_valid write_result update_result
record_result-IsConsistent db role user release session test o now h =
    elim (Bool-cases (is_viewer role)) [
      | inl viewer ↦ rw (record_result, viewer) h
      | inr member ↦ elim (Option-cases o.status) [
        | inl absent ↦ rw (record_result, member, absent) h
        | inr (status, given) ↦
            elim (Bool-cases (is_not_run status || not (valid_steps o.step_results))) [
              | inl bad ↦ rw (record_result, member, given, record_valid, bad) h
              | inr good ↦ elim (Option-cases (find_session release session db)) [
                | inl none_ ↦ rw (record_result, member, given, record_valid, good, none_) h
                | inr (s, found) ↦ elim (Bool-cases (is_active s.status)) [
                  | inr closed ↦
                      rw (record_result, member, given, record_valid, good, found, closed) h
                  | inl open_ ↦ elim (Bool-cases (any (is_at session test) db.results)) [
                    | inr out ↦
                        rw
                          (
                            record_result, member, given, record_valid, good, found, open_,
                            write_result, out,
                          )
                          h
                    | inl in_scope ↦
                        rw
                          (
                            record_result, member, given, record_valid, good, found, open_,
                            write_result, in_scope,
                          )
                          (auto_complete-IsConsistent session now
                            (update_result session test (observed status o user now) db)
                            (h.0, observe-AreResults db session test status o user now h.1, h.2))
                  ]
                ]
              ]
            ]
      ]
    ]

pub accept_result-IsConsistent :
    (db : Tables) (role : String) (user release session test : ℕ) (ref : Option (Option String))
    (now : ℕ)
    → IsConsistent db
    → IsConsistent (accept_result db role user release session test ref now).1
unfolding accept_result update_result
accept_result-IsConsistent db role user release session test none now h = h
accept_result-IsConsistent db role user release session test (some ref) now h =
    elim (Bool-cases (is_viewer role)) [
      | inl viewer ↦ rw (accept_result, viewer) h
      | inr member ↦ elim (Option-cases (find_session release session db)) [
        | inl no_session ↦ rw (accept_result, member, no_session) h
        | inr (s, has_session) ↦ elim (Option-cases (find (is_at session test) db.results)) [
          | inl absent ↦ rw (accept_result, member, has_session, absent) h
          | inr (r, found) ↦ elim (Bool-cases (is_failure r.status)) [
            | inr fine ↦ rw (accept_result, member, has_session, found, fine) h
            | inl failure ↦
                rw (accept_result, member, has_session, found, failure)
                  (h.0, accept-AreResults db session test found failure ref user now h.1, h.2)
          ]
        ]
      ]
    ]

pub unaccept_result-IsConsistent :
    (db : Tables) (role : String) (release session test : ℕ)
    → IsConsistent db
    → IsConsistent (unaccept_result db role release session test).1
unfolding unaccept_result update_result
unaccept_result-IsConsistent db role release session test h = elim (Bool-cases (is_viewer role)) [
  | inl viewer ↦ rw (unaccept_result, viewer) h
  | inr member ↦ elim (Option-cases (find_session release session db)) [
    | inl no_session ↦ rw (unaccept_result, member, no_session) h
    | inr (s, has_session) ↦
        rw (unaccept_result, member, has_session) (h.0, clear-AreResults db session test h.1, h.2)
  ]
]

pub file_bug-IsConsistent :
    (db : Tables) (role : String) (configured : Bool) (user release session test : ℕ)
    (issue : String × String) (mark_known : Bool) (now : ℕ)
    → IsConsistent db
    → IsConsistent (file_bug db role configured user release session test issue mark_known now).1
unfolding file_bug update_result
file_bug-IsConsistent db role configured user release session test issue mark_known now h =
    elim (Bool-cases (is_viewer role)) [
      | inl viewer ↦ rw (file_bug, viewer) h
      | inr member ↦ elim (Bool-cases configured) [
        | inr missing ↦ rw (file_bug, member, missing) h
        | inl set_ ↦ elim (Option-cases (find_session release session db)) [
          | inl no_session ↦ rw (file_bug, member, set_, no_session) h
          | inr (s, has_session) ↦ elim (Option-cases (find (is_at session test) db.results)) [
            | inl absent ↦ rw (file_bug, member, set_, has_session, absent) h
            | inr (r, found) ↦ elim (Bool-cases (has r.filed_bug)) [
              | inl old ↦ rw (file_bug, member, set_, has_session, found, old) h
              | inr new ↦ elim (Bool-cases (is_failure r.status)) [
                | inr fine ↦ rw (file_bug, member, set_, has_session, found, new, fine) h
                | inl failure ↦
                    rw (file_bug, member, set_, has_session, found, new, failure)
                      (
                        h.0,
                        file-AreResults db session test found failure issue mark_known user now h.1,
                        h.2,
                      )
              ]
            ]
          ]
        ]
      ]
    ]
