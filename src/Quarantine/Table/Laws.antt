-- ===== src/Quarantine/Table/Laws.antt =====
-- What the quarantine handlers leave in the table, on every reply.
use project_flakey.Prelude.{
  ℕ, ◌<◌, ◌≡◌, refl, ap, ◌∙◌, ◌⊎◌, String, false, ◌||◌, not, Option, none, some, ◌==◌, ==-refl,
  str_eq, str_eq_refl, find, find-map, find-snoc, keep, find-keep-not, if◌then◌else◌, arith,
  Bool-cases, Option-cases, inl, inr,
}
use project_flakey.Quarantine.Lifecycle.{
  RawExpiry, ParsedExpiry, absent, valid, invalid, parse_expires_at, parse_expires_at_valid,
  is_md5_hex,
}
use project_flakey.Quarantine.Table.{
  QuarantineRow, Table, Body, Reply, removed, created, is_entry, overwrite, fresh_entry,
  upsert_quarantine, save, checked, post_quarantine, delete_quarantine,
}

is_entry-overwrite :
    (org : ℕ) (title suite : String) (n : ℕ) (b : Body) (user now : ℕ) (expiry : Option ℕ)
    (q : QuarantineRow)
    → is_entry org title suite (if q.id == n then overwrite b user now expiry q else q)
      ≡ is_entry org title suite q
is_entry-overwrite org title suite n b user now expiry q = ground arith

module _ (t : Table) (org user : ℕ) (b : Body) (now : ℕ) (expiry : Option ℕ) where
  upsert_entry :
      (r : QuarantineRow) × (find
          (is_entry org b.full_title b.suite_name)
          (upsert_quarantine t org user b now expiry).0.rows
        ≡ some r)
      × (r.id ≡ (upsert_quarantine t org user b now expiry).1)
      × (r.expires_at ≡ expiry)
  unfolding upsert_quarantine
  upsert_entry = elim (Option-cases (find (is_entry org b.full_title b.suite_name) t.rows)) [
    | inl new ↦
        rw (new, upsert_quarantine)
          (
            fresh_entry t.next org user b now expiry,
            find-snoc (is_entry org b.full_title b.suite_name) t.rows
                  (fresh_entry t.next org user b now expiry)
                ∙ rw (new, ==-refl org, str_eq_refl b.full_title, str_eq_refl b.suite_name),
            refl,
            refl,
          )
    | inr (r, old) ↦
        rw (old, upsert_quarantine)
          (
            overwrite b user now expiry r,
            find-map (is_entry org b.full_title b.suite_name)
                  (λ q. if q.id == r.id then overwrite b user now expiry q else q)
                  (is_entry-overwrite org b.full_title b.suite_name r.id b user now expiry) t.rows
                ∙ rw (old, ==-refl r.id),
            refl,
            refl,
          )
  ]

-- No expiry, or one after now.
abbrev pub IsFuture : Option ℕ → ℕ → Type 0
IsFuture expiry now = (expiry ≡ none) ⊎ ((ms : ℕ) × (expiry ≡ some ms) × (now < ms))

-- What a reply of POST says about the table.
abbrev pub Outcome : Table → ℕ → Body → ℕ → Table × Reply → Type 0
Outcome t org b now (t', created id) =
    (r : QuarantineRow) × (find (is_entry org b.full_title b.suite_name) t'.rows ≡ some r)
    × (r.id ≡ id)
    × IsFuture r.expires_at now
Outcome t org b now (t', _) = t' ≡ t

save-Outcome :
    (t : Table) (org user : ℕ) (b : Body) (now : ℕ) (expiry : Option ℕ)
    → IsFuture expiry now
    → Outcome t org b now (save t org user b now expiry)
unfolding save
save-Outcome t org user b now expiry h =
    let (r, found, same, kept) = upsert_entry t org user b now expiry in (r, found, same, rw kept h)

checked-Outcome :
    (t : Table) (org user : ℕ) (b : Body) (now : ℕ) (raw : RawExpiry) (parsed : ParsedExpiry)
    → parse_expires_at raw now ≡ parsed
    → Outcome t org b now (checked parsed t org user b now)
unfolding checked
checked-Outcome t org user b now raw (invalid why) e = refl
checked-Outcome t org user b now raw absent e =
    elim (Bool-cases (str_eq b.error_fingerprint "" || is_md5_hex b.error_fingerprint)) [
      | inl ok ↦ rw ok (save-Outcome t org user b now none (inl refl))
      | inr bad ↦ rw bad refl
    ]
checked-Outcome t org user b now raw (valid ms) e =
    elim (Bool-cases (str_eq b.error_fingerprint "" || is_md5_hex b.error_fingerprint)) [
      | inl ok ↦ rw ok (
          save-Outcome t org user b now (some ms)
            (inr (ms, refl, (parse_expires_at_valid raw now e).0)))
      | inr bad ↦ rw bad refl
    ]

-- A quarantine that is created is then the entry of its test, under the id in the reply, without an
-- expiry or with one after now; on any other reply the table is unchanged.
pub post_quarantine-Outcome :
    (t : Table) (org user : ℕ) (role : String) (b : Body) (now : ℕ)
    → Outcome t org b now (post_quarantine t org user role b now)
unfolding post_quarantine
post_quarantine-Outcome t org user role b now = elim (Bool-cases (str_eq role "viewer")) [
  | inl viewer ↦ rw viewer refl
  | inr writer ↦ rw writer (elim (Bool-cases (str_eq b.full_title "" || str_eq b.suite_name "")) [
    | inl missing ↦ rw missing refl
    | inr present ↦
        rw present
          (checked-Outcome t org user b now b.expires_at (parse_expires_at b.expires_at now) refl)
  ])
]

-- DELETE replies that it removed a test exactly for a caller who may write and who named the test;
-- no entry of the test is left then, and rows that are not of the test all stay, in their order.
pub delete_quarantine_exact :
    (t : Table) (org : ℕ) (role title suite : String) (t' : Table)
    → delete_quarantine t org role title suite ≡ (t', removed)
    → (find (is_entry org title suite) t'.rows ≡ none)
      × (keep (λ r. not (is_entry org title suite r)) t.rows ≡ t'.rows)
      × (str_eq role "viewer" ≡ false)
unfolding delete_quarantine
delete_quarantine_exact t org role title suite t' e = elim (Bool-cases (str_eq role "viewer")) [
  | inl viewer ↦ cc (rw viewer at e)
  | inr writer ↦ elim (Bool-cases (str_eq title "" || str_eq suite "")) [
    | inl missing ↦ cc (rw (writer, missing) at e)
    | inr present ↦
        let rows = ap (λ x. x.0.rows) (rw (writer, present) at e) in
        (rw (← rows) (find-keep-not (is_entry org title suite) t.rows), rows, writer)
  ]
]
