-- ===== src/Audit/Examples.antt =====
-- An audit log at concrete data, and the theorems on the chain at these inputs.
use project_flakey.Prelude.{
  ℕ, ◌+◌, ◌<◌, ◌≡◌, ◌⊎◌, refl, All, String, Bool, true, none, some, List, [], map, keep, leb, arith,
}
use project_flakey.Audit.Json.{number, text, object, no_fields, field, canonical_json, IsOrder}
use project_flakey.Audit.Chain.{
  AuditRow, NewEntry, AuditVerifyResult, genesis_hash, append_audit_entry, verify_audit_chain,
  visit, walk, verify_batches,
}
use project_flakey.Audit.Chain.Laws.{mine, IsStored}
use project_flakey.Audit.Chain.Batches.{IsAscending, verify_audit_chain-walk}
use project_flakey.Audit.Chain.Append.{append_audit_entry-verify_audit_chain}
use project_flakey.Audit.Chain.Tamper.{
  hashed_text, has_hash, Collision, verify_audit_chain_attested,
}
use project_flakey.Audit.Chain.{start, conclude}

abbrev length_of : String → ℕ
length_of String.[] = 0
length_of (String.◌∷◌ c s) = length_of s + 1

-- An order that tells texts of different lengths apart.
abbrev shorter : String → String → Bool
shorter s t = leb (length_of s) (length_of t)

shorter-IsOrder : IsOrder shorter
shorter-IsOrder = record { total = λ s t h. ground arith; trans = λ s t u h k. ground arith }

quoted :
    canonical_json shorter
      (λ s. s)
      (λ n. "1")
      (object (field "bb" (number 1) (field "a" (text "x") no_fields)))
    ≡ "{a:x,bb:1}"
unfolding canonical_json
quoted = refl

-- A digest of 64 characters.
abbrev digest : String → String
digest s = genesis_hash

abbrev entry : NewEntry
entry = record {
  user_id = some 3;
  action = "quarantine.add";
  target_type = some "test";
  target_id = none;
  detail = object no_fields;
}

abbrev first_log : List AuditRow
first_log = append_audit_entry shorter (λ s. s) (λ n. "1") digest [] 1 entry 7 "t0"

abbrev first_result : AuditVerifyResult
first_result = record {
  ok = true;
  total_rows = 1;
  legacy_rows = 0;
  hashed_rows = 1;
  first_broken_id = none;
  reason = none;
}

first_verified :
    verify_audit_chain shorter (λ s. s) (λ n. "1") digest first_log 1 2 ≡ some first_result
unfolding append_audit_entry verify_audit_chain verify_batches walk visit
first_verified = refl

first-IsStored : All IsStored first_log
unfolding append_audit_entry
first-IsStored = (λ h e. let same : genesis_hash ≡ h = cc in rw (← same) refl, tt)

first-IsAscending : IsAscending first_log
unfolding append_audit_entry
first-IsAscending = (tt, tt)

first_below : All (λ r. r.id < 9) first_log
unfolding append_audit_entry
first_below = (omega arith, tt)

verify_audit_chain-walk_example :
    verify_audit_chain shorter (λ s. s) (λ n. "1") digest first_log 1 2
    ≡ some (conclude (walk shorter (λ s. s) (λ n. "1") digest start (keep (mine 1) first_log)))
verify_audit_chain-walk_example =
    verify_audit_chain-walk shorter (λ s. s) (λ n. "1") digest first_log 1 2 (omega arith)
      first-IsAscending

append_audit_entry-verify_audit_chain_example :
    verify_audit_chain shorter
      (λ s. s)
      (λ n. "1")
      digest
      (append_audit_entry shorter (λ s. s) (λ n. "1") digest first_log 1 entry 9 "t1")
      1
      1
    ≡ some (record first_result { total_rows = 2; hashed_rows = 2 })
append_audit_entry-verify_audit_chain_example =
    append_audit_entry-verify_audit_chain shorter (λ s. s) (λ n. "1") digest (λ s. refl) first_log 1
      entry 9 "t1" 2 1 first_result (omega arith) (omega arith) first-IsAscending first_below
      first-IsStored first_verified refl

verify_audit_chain_attested_example :
    (map
        (hashed_text shorter (λ s. s) (λ n. "1") digest)
        (keep (has_hash shorter (λ s. s) (λ n. "1") digest) (keep (mine 1) first_log))
      ≡ map
          (hashed_text shorter (λ s. s) (λ n. "1") digest)
          (keep (has_hash shorter (λ s. s) (λ n. "1") digest) (keep (mine 1) first_log)))
    ⊎ Collision shorter (λ s. s) (λ n. "1") digest
verify_audit_chain_attested_example =
    verify_audit_chain_attested shorter (λ s. s) (λ n. "1") digest (λ s. refl) first_log first_log 1
      2 first_result first_result (omega arith) (first-IsAscending, first-IsStored)
      (first-IsAscending, first-IsStored) (first_verified, refl) (first_verified, refl) refl refl
