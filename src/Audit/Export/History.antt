-- ===== src/Audit/Export/History.antt =====
-- backend/src/audit-export.ts with backend/src/audit.ts: ticks of the export among appends to the log.
use project_flakey.Prelude.{
  ℕ, suc, ◌<◌, ◌≡◌, refl, sym, ap, subst, ◌∙◌, String, Bool, true, some, List, [], ◌∷◌, ◌++◌,
  append_assoc, keep, keep-append, take, All, All-append, All-imp, Distinct-snoc, lt→ltb, arith,
  Bool-cases, inl, inr,
}
use project_flakey.Audit.Chain.{AuditRow, NewEntry, beyond, append_audit_entry}
use project_flakey.Audit.Chain.Laws.{mine, new_row}
use project_flakey.Audit.Chain.Batches.{IsAscending}
use project_flakey.Audit.Export.{Export, Attempt, pending, flush_config}
use project_flakey.Audit.Export.Ticks.{flush_config-IsAdvanced, flush_config-IsBelow}

-- The log, the next id of its sequence, and one destination.
pub record History : Type 0 where
  pub log : List AuditRow
  pub next_id : ℕ
  pub export : Export

pub data Event : Type 0 where
  appends : ℕ → NewEntry → String → Event
  ticks : (ℕ → Attempt) → Event

-- A row that stands in a list.
pub data IsIn (r : AuditRow) : List AuditRow → Type 0 where
  first : (rs : List AuditRow) → IsIn r (r ∷ rs)
  later : (x : AuditRow) (rs : List AuditRow) → IsIn r rs → IsIn r (x ∷ rs)

in-append : {r : AuditRow} (xs ys : List AuditRow) → IsIn r xs → IsIn r (xs ++ ys)
in-append _ ys (first rs) = first (rs ++ ys)
in-append _ ys (later x rs h) = later x (rs ++ ys) (in-append rs ys h)

in-after : {r : AuditRow} (xs ys : List AuditRow) → IsIn r ys → IsIn r (xs ++ ys)
in-after [] ys h = h
in-after (x ∷ xs) ys h = later x (xs ++ ys) (in-after xs ys h)

every_in : (rs : List AuditRow) → All (λ r. IsIn r rs) rs
every_in [] = tt
every_in (r ∷ rs) = (
  first rs,
  All-imp (λ x. IsIn x rs) (λ x. IsIn x (r ∷ rs)) (λ x h. later r rs h) rs (every_in rs),
)

-- What the organisation's log holds after the id at which the export began.
abbrev pub wanted : ℕ → History → List AuditRow
wanted start h = keep (beyond (some start)) (keep (mine h.export.config.org_id) h.log)

-- The rows up to the cursor were received, and the rest is pending.
pub record IsCovered (start : ℕ) (h : History) : Type 0 where
  pub done : List AuditRow
  pub whole : wanted start h ≡ done ++ pending h.log h.export.config
  pub received : All (λ r. IsIn r h.export.received) done

-- Ids ascend, and neither they nor the cursor have reached the next one.
abbrev pub IsOrdered : ℕ → History → Type 0
IsOrdered start h =
    IsAscending h.log
    × All (λ (r : AuditRow). r.id < h.next_id) h.log
    × (start < h.next_id)
    × (h.export.config.last_exported_id < h.next_id)

-- What a cursor leaves of one row whose id it has not reached.
one_left :
    (org c : ℕ) (x : AuditRow)
    → c < x.id
    → keep (beyond (some c)) (keep (mine org) (x ∷ [])) ≡ keep (mine org) (x ∷ [])
one_left org c x h =
    let far : beyond (some c) x ≡ true = lt→ltb c x.id h in
    elim (Bool-cases (mine org x)) [ inl own ↦ rw (own, far) | inr other ↦ rw other ]

grown :
    (org c : ℕ) (log : List AuditRow) (x : AuditRow)
    → c < x.id
    → keep (beyond (some c)) (keep (mine org) (log ++ x ∷ []))
      ≡ keep (beyond (some c)) (keep (mine org) log) ++ keep (mine org) (x ∷ [])
grown org c log x h =
    ap (keep (beyond (some c))) (keep-append (mine org) log (x ∷ []))
    ∙ keep-append (beyond (some c)) (keep (mine org) log) (keep (mine org) (x ∷ []))
    ∙ ap (λ l. keep (beyond (some c)) (keep (mine org) log) ++ l) (one_left org c x h)

module _ (before : String → String → Bool) (quote : String → String) (digits : ℕ → String)
    (sha256 : String → String) where
  unfoldable pub happen : History → Event → History
  happen h (appends org entry now) = record h {
    log = append_audit_entry before quote digits sha256 h.log org entry h.next_id now;
    next_id = suc h.next_id;
  }
  happen h (ticks outcome) = record h { export = flush_config outcome h.log h.export }

  unfoldable pub happen_all : History → List Event → History
  happen_all h [] = h
  happen_all h (e ∷ es) = happen_all (happen h e) es

  -- The invariant, with the organisation of the destination.
  abbrev IsKept : ℕ → ℕ → History → Type 0
  IsKept org start h = (h.export.config.org_id ≡ org) × IsOrdered start h × IsCovered start h

  append-IsKept :
      (start org : ℕ) (h : History) (o : ℕ) (entry : NewEntry) (now : String)
      → IsKept org start h
      → IsKept org start (happen h (appends o entry now))
  unfolding happen append_audit_entry
  append-IsKept start org h o entry now k =
      let (own, (up, below, begun, behind), covered) = k in
      let x = new_row before quote digits sha256 h.log o entry h.next_id now in
      let c = h.export.config in
      (
        own,
        (
          Distinct-snoc (λ a b. a.id < b.id) h.log x below up,
          All-append (λ (r : AuditRow). r.id < suc h.next_id) h.log (x ∷ [])
              (All-imp (λ (r : AuditRow). r.id < h.next_id) (λ (r : AuditRow). r.id < suc h.next_id)
                (λ r lt. omega (arith, lt)) h.log below)
              (omega arith, tt),
          omega arith,
          omega arith,
        ),
        record {
          done = covered.done;
          whole =
              grown c.org_id start h.log x begun
              ∙ ap (λ l. l ++ keep (mine c.org_id) (x ∷ [])) covered.whole
              ∙ append_assoc covered.done (pending h.log c) (keep (mine c.org_id) (x ∷ []))
              ∙ ap (λ l. covered.done ++ l)
                  (sym (grown c.org_id c.last_exported_id h.log x behind));
          received = covered.received;
        },
      )

  tick-IsKept :
      (start org : ℕ) (h : History) (outcome : ℕ → Attempt)
      → IsKept org start h
      → IsKept org start (happen h (ticks outcome))
  unfolding happen
  tick-IsKept start org h outcome k =
      let (own, (up, below, begun, behind), covered) = k in
      let e = h.export in
      let after = flush_config outcome h.log e in
      let moved = flush_config-IsAdvanced h.log outcome e up in
      let held =
        flush_config-IsBelow e.config.org_id h.next_id h.log below outcome e (refl, behind) in
      (
        held.0 ∙ own,
        (up, below, begun, held.1),
        record {
          done = covered.done ++ moved.sent;
          whole =
              ap (λ o. keep (beyond (some start)) (keep (mine o) h.log)) held.0
              ∙ covered.whole
              ∙ ap (λ l. covered.done ++ l) moved.moved
              ∙ sym (append_assoc covered.done moved.sent (pending h.log after.config));
          received =
              subst (λ l. All (λ r. IsIn r l) (covered.done ++ moved.sent)) (sym moved.arrived)
                (All-append
                  (λ r.
                    IsIn r
                      (e.received ++ (moved.sent ++ take moved.again (pending h.log after.config))))
                  covered.done moved.sent
                  (All-imp (λ r. IsIn r e.received)
                    (λ r.
                      IsIn r (
                        e.received
                        ++ (moved.sent ++ take moved.again (pending h.log after.config))))
                    (λ r.
                      in-append e.received
                        (moved.sent ++ take moved.again (pending h.log after.config)))
                    covered.done covered.received)
                  (All-imp (λ r. IsIn r moved.sent)
                    (λ r.
                      IsIn r (
                        e.received
                        ++ (moved.sent ++ take moved.again (pending h.log after.config))))
                    (λ r inside.
                      in-after e.received
                        (moved.sent ++ take moved.again (pending h.log after.config))
                        (in-append moved.sent (take moved.again (pending h.log after.config))
                          inside))
                    moved.sent (every_in moved.sent)));
        },
      )

  happen_all-IsKept :
      (start org : ℕ) (h : History) (es : List Event)
      → IsKept org start h
      → IsKept org start (happen_all h es)
  unfolding happen_all
  happen_all-IsKept start org h [] k = k
  happen_all-IsKept start org h (appends o entry now ∷ es) k =
      happen_all-IsKept start org (happen h (appends o entry now)) es
        (append-IsKept start org h o entry now k)
  happen_all-IsKept start org h (ticks outcome ∷ es) k =
      happen_all-IsKept start org (happen h (ticks outcome)) es (tick-IsKept start org h outcome k)

  -- A destination that starts after some id, without failures or with any, loses nothing: after any
  -- sequence of appends to the log and ticks of the export, whatever becomes of their attempts, the
  -- organisation's entries after that id are those that the destination has received and, after
  -- them, those that are still pending. This asks that the log is in the order of its ids and that the
  -- sequence of ids is ahead of it and of the start.
  pub happen_all-IsCovered :
      (h : History) (es : List Event)
      → IsOrdered h.export.config.last_exported_id h
      → IsCovered h.export.config.last_exported_id (happen_all h es)
  happen_all-IsCovered h es ordered =
      (happen_all-IsKept h.export.config.last_exported_id h.export.config.org_id h es
        (refl, ordered, record { done = []; whole = refl; received = tt })).2
