-- ===== src/Audit/Export/Ticks.antt =====
-- backend/src/audit-export.ts: what one tick of the export sends, and where it leaves the cursor.
use project_flakey.Prelude.{
  ℕ, zero, suc, ◌≤◌, ◌<◌, ◌≡◌, refl, sym, ap, ◌∙◌, Bool, true, false, ◌&&◌, some, List, [], ◌∷◌,
  ◌++◌, append-nil, append_assoc, leb, keep, take, drop, take-append-drop, length, Distinct-keep,
  All, All-keep, if◌then◌else◌, arith, Bool-cases, inl, inr,
}
use project_flakey.Audit.Chain.{AuditRow, beyond}
use project_flakey.Audit.Chain.Laws.{mine}
use project_flakey.Audit.Chain.Batches.{IsAscending, cursor, beyond-cursor}
use project_flakey.Audit.Export.{
  ExportConfig, Export, Attempt, unread, undelivered, lost, unsaved, saved, pending, read_batch,
  last_id, success, attempt, is_nil, flush_batches, flush_config, batch_size, max_batches_per_tick,
}

-- From the first export to the second, the log that is pending lost a first part, which the destination
-- received in order, and the destination may have received a batch that is still pending.
pub record IsAdvanced (size : ℕ) (log : List AuditRow) (e after : Export) : Type 0 where
  pub sent : List AuditRow
  pub again : ℕ
  pub bounded : again ≤ size
  pub moved : pending log e.config ≡ sent ++ pending log after.config
  pub arrived : after.received ≡ e.received ++ (sent ++ take again (pending log after.config))

cursor-last_id : (rows : List AuditRow) (at_ : ℕ) → cursor rows (some at_) ≡ some (last_id at_ rows)
cursor-last_id [] at_ = refl
cursor-last_id (r ∷ rs) at_ = cursor-last_id rs r.id

-- Saving the cursor leaves what comes after the batch.
pub saved-pending :
    (size now : ℕ) (log : List AuditRow) (c : ExportConfig)
    → IsAscending log
    → pending log (success now (read_batch size log c) c) ≡ drop size (pending log c)
saved-pending size now log c up =
    ap (λ at. keep (beyond at) (keep (mine c.org_id) log))
      (sym (cursor-last_id (read_batch size log c) c.last_exported_id))
    ∙ beyond-cursor (keep (mine c.org_id) log) (take size (pending log c))
        (drop size (pending log c)) (some c.last_exported_id)
        (Distinct-keep (λ a b. a.id < b.id) (mine c.org_id) log up)
        (sym (take-append-drop size (pending log c)))

still : (size : ℕ) (log : List AuditRow) (e : Export) → IsAdvanced size log e e
still size log e = record {
  sent = [];
  again = 0;
  bounded = omega arith;
  moved = refl;
  arrived = sym (append-nil e.received);
}

module _ (size : ℕ) (log : List AuditRow) (up : IsAscending log) where
  saved-IsAdvanced :
      (now : ℕ) (e : Export)
      → IsAdvanced size log e (attempt (saved now) (read_batch size log e.config) e).0
  unfolding attempt
  saved-IsAdvanced now e = record {
    sent = read_batch size log e.config;
    again = 0;
    bounded = omega arith;
    moved =
        sym (take-append-drop size (pending log e.config))
        ∙ ap (λ l. read_batch size log e.config ++ l)
            (sym (saved-pending size now log e.config up));
    arrived = ap (λ l. e.received ++ l) (sym (append-nil (read_batch size log e.config)));
  }

  later-IsAdvanced :
      (now : ℕ) (e after : Export)
      → IsAdvanced size log (attempt (saved now) (read_batch size log e.config) e).0 after
      → IsAdvanced size log e after
  unfolding attempt saved-IsAdvanced
  later-IsAdvanced now e after h =
      let rows = read_batch size log e.config in
      let first = saved-IsAdvanced now e in
      record {
        sent = rows ++ h.sent;
        again = h.again;
        bounded = h.bounded;
        moved =
            first.moved
            ∙ ap (λ l. rows ++ l) h.moved
            ∙ sym (append_assoc rows h.sent (pending log after.config));
        arrived =
            h.arrived
            ∙ append_assoc e.received rows (h.sent ++ take h.again (pending log after.config))
            ∙ ap (λ l. e.received ++ l)
                (sym (append_assoc rows h.sent (take h.again (pending log after.config))));
      }

  -- One batch, for each outcome of its attempt.
  attempt-IsAdvanced :
      (a : Attempt) (e rest : Export)
      → (let first = (attempt a (read_batch size log e.config) e).0 in
          IsAdvanced size log first rest)
      → (go_on : Bool)
      → let first = attempt a (read_batch size log e.config) e in
        IsAdvanced size log e (if first.1 && go_on then rest else first.0)
  unfolding attempt
  attempt-IsAdvanced unread e rest k go_on = still size log e
  attempt-IsAdvanced (undelivered reason) e rest k go_on = record {
    sent = [];
    again = 0;
    bounded = omega arith;
    moved = refl;
    arrived = sym (append-nil e.received);
  }
  attempt-IsAdvanced (lost reason) e rest k go_on = record {
    sent = [];
    again = size;
    bounded = omega arith;
    moved = refl;
    arrived = refl;
  }
  attempt-IsAdvanced unsaved e rest k go_on = record {
    sent = [];
    again = size;
    bounded = omega arith;
    moved = refl;
    arrived = refl;
  }
  attempt-IsAdvanced (saved now) e rest k true = later-IsAdvanced now e rest k
  attempt-IsAdvanced (saved now) e rest k false = saved-IsAdvanced now e

  flush_batches-IsAdvanced :
      (budget : ℕ) (outcome : ℕ → Attempt) (e : Export)
      → IsAdvanced size log e (flush_batches size budget outcome log e)
  unfolding flush_batches
  flush_batches-IsAdvanced zero outcome e = still size log e
  flush_batches-IsAdvanced (suc budget) outcome e =
      let rows = read_batch size log e.config in
      let first = attempt (outcome budget) rows e in
      elim (Bool-cases (is_nil rows)) [
        | inl empty ↦ rw (flush_batches, empty) (still size log e)
        | inr filled ↦
            rw (flush_batches, filled)
              (attempt-IsAdvanced (outcome budget) e (flush_batches size budget outcome log first.0)
                (flush_batches-IsAdvanced budget outcome first.0) (leb size (length rows)))
      ]

-- Whatever becomes of its attempts, a tick moves the cursor past a first part of the rows that were
-- pending, and the destination received just these rows, once and in order, followed by at most one
-- further batch, with which the cursor has not moved and which the next tick sends again: no row is
-- passed by that was not delivered. This asks that the log is in the order of its ids.
pub flush_config-IsAdvanced :
    (log : List AuditRow) (outcome : ℕ → Attempt) (e : Export)
    → IsAscending log
    → IsAdvanced batch_size log e (flush_config outcome log e)
unfolding flush_config
flush_config-IsAdvanced log outcome e up =
    flush_batches-IsAdvanced batch_size log up max_batches_per_tick outcome e

-- The configuration stays of its organisation, and its cursor below what the ids are below.
abbrev pub IsBelow : ℕ → ℕ → ExportConfig → Type 0
IsBelow org next c = (c.org_id ≡ org) × (c.last_exported_id < next)

last_id-lt :
    (next at_ : ℕ) (rows : List AuditRow)
    → at_ < next
    → All (λ (r : AuditRow). r.id < next) rows
    → last_id at_ rows < next
last_id-lt next at_ [] h below = h
last_id-lt next at_ (r ∷ rs) h below = last_id-lt next r.id rs below.0 below.1

All-take :
    (next n : ℕ) (rows : List AuditRow)
    → All (λ (r : AuditRow). r.id < next) rows
    → All (λ (r : AuditRow). r.id < next) (take n rows)
All-take next zero rows h = tt
All-take next (suc n) [] h = tt
All-take next (suc n) (r ∷ rs) h = (h.0, All-take next n rs h.1)

module _ (org next size : ℕ) (log : List AuditRow)
    (below : All (λ (r : AuditRow). r.id < next) log) where
  batch_below : (c : ExportConfig) → All (λ (r : AuditRow). r.id < next) (read_batch size log c)
  batch_below c = All-take next size (pending log c) (
      All-keep (λ (r : AuditRow). r.id < next) (beyond (some c.last_exported_id))
        (keep (mine c.org_id) log)
        (All-keep (λ (r : AuditRow). r.id < next) (mine c.org_id) log below))

  attempt-IsBelow :
      (a : Attempt) (e : Export)
      → IsBelow org next e.config
      → IsBelow org next (attempt a (read_batch size log e.config) e).0.config
  unfolding attempt
  attempt-IsBelow unread e h = h
  attempt-IsBelow (undelivered reason) e h = h
  attempt-IsBelow (lost reason) e h = h
  attempt-IsBelow unsaved e h = h
  attempt-IsBelow (saved now) e h = (
    h.0,
    last_id-lt next e.config.last_exported_id (read_batch size log e.config) h.1
        (batch_below e.config),
  )

  flush_batches-IsBelow :
      (budget : ℕ) (outcome : ℕ → Attempt) (e : Export)
      → IsBelow org next e.config
      → IsBelow org next (flush_batches size budget outcome log e).config
  unfolding flush_batches
  flush_batches-IsBelow zero outcome e h = h
  flush_batches-IsBelow (suc budget) outcome e h =
      let rows = read_batch size log e.config in
      let first = attempt (outcome budget) rows e in
      let now = attempt-IsBelow (outcome budget) e h in
      elim (Bool-cases (is_nil rows)) [
        | inl empty ↦ rw (flush_batches, empty) h
        | inr filled ↦ elim (Bool-cases (first.1 && leb size (length rows))) [
          | inl on ↦
              rw (flush_batches, filled, on) (flush_batches-IsBelow budget outcome first.0 now)
          | inr stop ↦ rw (flush_batches, filled, stop) now
        ]
      ]

pub flush_config-IsBelow :
    (org next : ℕ) (log : List AuditRow)
    → All (λ (r : AuditRow). r.id < next) log
    → (outcome : ℕ → Attempt) (e : Export) → IsBelow org next e.config
    → IsBelow org next (flush_config outcome log e).config
unfolding flush_config
flush_config-IsBelow org next log below outcome e h =
    flush_batches-IsBelow org next batch_size log below max_batches_per_tick outcome e h
