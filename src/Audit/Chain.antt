-- ===== src/Audit/Chain.antt =====
-- backend/src/audit.ts (appendAuditEntry) and backend/src/audit-chain.ts (computeEntryHash,
-- verifyAuditChain). The table audit_log is the list of its rows by ascending id; times are ISO
-- strings. SHA-256, JSON.stringify and the string order of sort are parameters. The advisory lock
-- makes an append one step.
pub mod Laws
pub mod Batches
pub mod Append
pub mod Tamper
use mathlib.Core.Option
use project_flakey.Prelude.{
  ℕ, ◌+◌, ◌<◌, ◌≡◌, String, Bool, true, false, ◌&&◌, ◌||◌, not, Option, none, some, List, [], ◌∷◌,
  ◌++◌, ◌==◌, str_eq, zero, suc, ltb, keep, take, length, if◌then◌else◌,
}
use project_flakey.Audit.Json.{
  Json, null, number, text, array, Items, no_items, item, canonical_json, ◌<>◌,
}

abbrev pub genesis_hash : String
genesis_hash = "0000000000000000000000000000000000000000000000000000000000000000"

pub record AuditRow : Type 0 where
  pub id : ℕ
  pub org_id : ℕ
  pub user_id : Option ℕ
  pub action : String
  pub target_type : Option String
  pub target_id : Option String
  pub detail : Json
  pub created_at : String
  pub prev_hash : Option String
  pub entry_hash : Option String

-- What the caller of an append gives.
pub record NewEntry : Type 0 where
  pub user_id : Option ℕ
  pub action : String
  pub target_type : Option String
  pub target_id : Option String
  pub detail : Json

pub data BrokenReason : Type 0 where
  hash_cleared not_linked modified : BrokenReason

pub record AuditVerifyResult : Type 0 where
  pub ok : Bool
  pub total_rows : ℕ
  pub legacy_rows : ℕ
  pub hashed_rows : ℕ
  pub first_broken_id : Option ℕ
  pub reason : Option BrokenReason

-- The variables of the walk.
pub record Walk : Type 0 where
  pub total_rows : ℕ
  pub legacy_rows : ℕ
  pub hashed_rows : ℕ
  pub started : Bool
  pub expected_prev : String
  pub last_id : Option ℕ

abbrev pub start : Walk
start = record {
  total_rows = 0;
  legacy_rows = 0;
  hashed_rows = 0;
  started = false;
  expected_prev = genesis_hash;
  last_id = none;
}

pub data Step : Type 0 where
  broken : AuditVerifyResult → Step
  going : Walk → Step

-- `!s` for a nullable string
abbrev pub is_falsy : Option String → Bool
is_falsy none = true
is_falsy (some s) = str_eq s ""

-- `s ?? ""`
abbrev pub or_empty : Option String → String
or_empty none = ""
or_empty (some s) = s

abbrev pub fail : Walk → ℕ → BrokenReason → Step
fail w id why = broken (record {
  ok = false;
  total_rows = w.total_rows;
  legacy_rows = w.legacy_rows;
  hashed_rows = w.hashed_rows;
  first_broken_id = some id;
  reason = some why;
})

abbrev pub finish : Walk → AuditVerifyResult
finish w = record {
  ok = true;
  total_rows = w.total_rows;
  legacy_rows = w.legacy_rows;
  hashed_rows = w.hashed_rows;
  first_broken_id = none;
  reason = none;
}

-- A later hash takes the place of an earlier one.
abbrev pub hash_or : Option String → Option String → Option String
hash_or none found = found
hash_or (some h) found = some h

-- The entry hash of the organisation's last row that has one.
abbrev pub last_hash : ℕ → List AuditRow → Option String → Option String
last_hash org [] found = found
last_hash org (r ∷ rs) found =
    last_hash org rs (if r.org_id == org then hash_or r.entry_hash found else found)

-- `s ?? GENESIS_HASH`
abbrev pub or_genesis : Option String → String
or_genesis none = genesis_hash
or_genesis (some s) = s

abbrev optional_number : Option ℕ → Json
optional_number none = null
optional_number (some n) = number n

abbrev optional_text : Option String → Json
optional_text none = null
optional_text (some s) = text s

-- a.id > cursor
abbrev pub beyond : Option ℕ → AuditRow → Bool
beyond none r = true
beyond (some n) r = ltb n r.id

-- WHERE a.org_id = $1 AND a.id > cursor ORDER BY a.id ASC LIMIT batch
abbrev pub fetch : List AuditRow → ℕ → ℕ → Walk → List AuditRow
fetch log org batch w = take batch (keep (beyond w.last_id) (keep (λ r. r.org_id == org) log))

-- A walk that goes on after a step.
abbrev pub and_then : Step → (Walk → Step) → Step
and_then (broken res) k = broken res
and_then (going w) k = k w

-- The result that a walk to the end of the rows gives.
abbrev pub conclude : Step → AuditVerifyResult
conclude (broken res) = res
conclude (going w) = finish w

module _ (before : String → String → Bool) (quote : String → String) (digits : ℕ → String)
    (sha256 : String → String) where
  -- The text that is hashed for a row: its predecessor's hash and its content.
  unfoldable pub hash_input : String → AuditRow → String
  hash_input prev r =
      prev
      <> "\n"
      <> canonical_json before quote digits (
          array (
            item (text (digits r.id)) (
              item (number r.org_id) (
                item (optional_number r.user_id) (
                  item (text r.action) (
                    item (optional_text r.target_type) (
                      item (optional_text r.target_id) (
                        item (text (canonical_json before quote digits r.detail))
                          (item (text r.created_at) no_items)))))))))

  abbrev pub compute_entry_hash : String → AuditRow → String
  compute_entry_hash prev r = sha256 (hash_input prev r)

  -- The INSERT with the predecessor's hash; `id` and `now` are the database's.
  abbrev pub inserted : List AuditRow → ℕ → NewEntry → ℕ → String → AuditRow
  inserted log org e id now = record {
    id = id;
    org_id = org;
    user_id = e.user_id;
    action = e.action;
    target_type = e.target_type;
    target_id = e.target_id;
    detail = e.detail;
    created_at = now;
    prev_hash = some (or_genesis (last_hash org log none));
    entry_hash = none;
  }

  -- The row after the UPDATE that sets its entry hash.
  abbrev pub hashed : List AuditRow → AuditRow → AuditRow
  hashed log r = record r {
    entry_hash = some (compute_entry_hash (or_genesis (last_hash r.org_id log none)) r);
  }

  unfoldable pub append_audit_entry : List AuditRow → ℕ → NewEntry → ℕ → String → List AuditRow
  append_audit_entry log org e id now = log ++ hashed log (inserted log org e id now) ∷ []

  -- The body of the loop over the rows of a batch.
  unfoldable pub visit : Walk → AuditRow → Step
  visit w r =
      let seen = record w { total_rows = w.total_rows + 1; last_id = some r.id } in
      if is_falsy r.entry_hash
      then if w.started
        then fail seen r.id hash_cleared
        else going (record seen { legacy_rows = w.legacy_rows + 1 })
      else if str_eq (or_empty r.prev_hash) w.expected_prev
      then if str_eq (compute_entry_hash (or_empty r.prev_hash) r) (or_empty r.entry_hash)
        then going (record seen {
          started = true;
          hashed_rows = w.hashed_rows + 1;
          expected_prev = or_empty r.entry_hash;
        })
        else fail seen r.id modified
      else fail seen r.id not_linked

  unfoldable pub walk : Walk → List AuditRow → Step
  walk w [] = going w
  walk w (r ∷ rs) = and_then (visit w r) (λ w'. walk w' rs)

  -- The loop over the batches, at most `fuel` of them.
  unfoldable pub verify_batches : ℕ → List AuditRow → ℕ → ℕ → Walk → Option AuditVerifyResult
  verify_batches zero log org batch w = none
  verify_batches (suc fuel) log org batch w = elim (walk w (fetch log org batch w)) [
    | broken res ↦ some res
    | going w' ↦
        if length (fetch log org batch w) == 0 || ltb (length (fetch log org batch w)) batch
        then some (finish w')
        else verify_batches fuel log org batch w'
  ]

  -- Every batch but the last has a row, so as many batches as rows and one more are enough.
  unfoldable pub verify_audit_chain : List AuditRow → ℕ → ℕ → Option AuditVerifyResult
  verify_audit_chain log org batch = verify_batches (length log + 1) log org batch start
