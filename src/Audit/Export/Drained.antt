-- ===== src/Audit/Export/Drained.antt =====
-- backend/src/audit-export.ts: a tick without failures.
use project_flakey.Prelude.{
  ℕ, zero, suc, ◌*◌, ◌≤◌, ◌<◌, ◌≡◌, refl, sym, ap, ◌∙◌, true, false, List, [], ◌∷◌, ◌++◌,
  append-nil, append_assoc, leb, leb→le, take, drop, drop_none, take-append-drop, length,
  length-append, arith, Bool-cases, inl, inr,
}
use project_flakey.Audit.Chain.{AuditRow}
use project_flakey.Audit.Chain.Batches.{IsAscending}
use project_flakey.Audit.Export.{
  Export, Attempt, saved, pending, read_batch, attempt, is_nil, flush_batches, flush_config,
}
use project_flakey.Audit.Export.Ticks.{saved-pending}

-- A batch is empty only where nothing is pending.
no_batch : (rows : List AuditRow) → is_nil (take 500 rows) ≡ true → rows ≡ []
no_batch [] h = refl
no_batch (r ∷ rs) h = cc

short : (n : ℕ) → leb 500 n ≡ false → n < 500
short n h = ground arith

no_rows : (rows : List AuditRow) → length rows ≤ 0 → rows ≡ []
no_rows [] h = refl
no_rows (r ∷ rs) h = ground arith

ended : (got rows : List AuditRow) → rows ≡ [] → got ≡ got ++ rows
ended got rows e = sym (append-nil got) ∙ ap (λ l. got ++ l) (sym e)

module _ (log : List AuditRow) (up : IsAscending log) (times : ℕ → ℕ) where
  abbrev fine : ℕ → Attempt
  fine n = saved (times n)

  abbrev IsDrained : Export → Export → Type 0
  IsDrained e after =
      (pending log after.config ≡ []) × (after.received ≡ e.received ++ pending log e.config)

  flush_batches-IsDrained :
      (budget : ℕ) (e : Export)
      → length (pending log e.config) ≤ 500 * budget
      → IsDrained e (flush_batches 500 budget fine log e)
  unfolding flush_batches attempt
  flush_batches-IsDrained zero e h =
      let none_ = no_rows (pending log e.config) (omega arith) in
      (none_, ended e.received (pending log e.config) none_)
  flush_batches-IsDrained (suc budget) e h =
      let rows = read_batch 500 log e.config in
      let first = attempt (fine budget) rows e in
      let left = saved-pending 500 (times budget) log e.config up in
      elim (Bool-cases (is_nil rows)) [
        | inl empty ↦
            rw (flush_batches, empty)
              (let none_ = no_batch (pending log e.config) empty in
                (none_, ended e.received (pending log e.config) none_))
        | inr filled ↦ elim (Bool-cases (leb 500 (length rows))) [
          | inl on ↦
              rw (flush_batches, filled, on)
                (let (gone, got) = flush_batches-IsDrained budget first.0 (fewer left on) in
                  (
                    gone,
                    got
                        ∙ ap (λ l. (e.received ++ rows) ++ l) left
                        ∙ append_assoc e.received rows (drop 500 (pending log e.config))
                        ∙ ap (λ l. e.received ++ l) (take-append-drop 500 (pending log e.config)),
                  ))
          | inr stop ↦
              rw (flush_batches, filled, stop)
                (let over : drop 500 (pending log e.config) ≡ [] =
                    drop_none 500 (pending log e.config) (short (length rows) stop) in
                  (
                    left ∙ over,
                    ap (λ l. e.received ++ l)
                        (sym (append-nil rows)
                          ∙ ap (λ l. rows ++ l) (sym over)
                          ∙ take-append-drop 500 (pending log e.config)),
                  ))
        ]
      ]
    where
      fewer :
          {after : List AuditRow}
          → after ≡ drop 500 (pending log e.config)
          → leb 500 (length (read_batch 500 log e.config)) ≡ true
          → length after ≤ 500 * budget
      fewer left on =
          let same = ap length left in
          let whole = ap length (take-append-drop 500 (pending log e.config)) in
          let both =
            length-append (take 500 (pending log e.config)) (drop 500 (pending log e.config)) in
          let got : 500 ≤ length (take 500 (pending log e.config)) =
            leb→le 500 (length (take 500 (pending log e.config))) on in
          omega arith

-- A tick in which every attempt succeeds ends within its budget of 20 batches: where at most 10,000
-- rows are pending, none is afterwards, and the destination has received exactly the pending rows,
-- once and in order. This asks that the log is in the order of its ids.
pub flush_config-IsDrained :
    (log : List AuditRow) (times : ℕ → ℕ) (e : Export)
    → IsAscending log
    → length (pending log e.config) ≤ 10000
    → let after = flush_config (λ n. saved (times n)) log e in
      (pending log after.config ≡ []) × (after.received ≡ e.received ++ pending log e.config)
unfolding flush_config
flush_config-IsDrained log times e up few = flush_batches-IsDrained log up times 20 e (omega arith)
