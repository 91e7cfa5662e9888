-- ===== src/Persistence/Idempotency/Claim.antt =====
-- The whole of `claimIdempotency` of
-- vscode-extension/src/local/persistence/postgresPersistenceAdapter.ts: an INSERT, a SELECT and an
-- UPDATE, with what other clients run between them.
use shared_dev_context_layer.Base.{
  ℕ, String, Bool, true, false, Option, none, some, List, if◌then◌else◌,
}
use shared_dev_context_layer.Base.Table.{lookup}
use shared_dev_context_layer.Persistence.RunLock.{after_seconds}
use shared_dev_context_layer.Persistence.Idempotency.{
  command_key_Eq, ClaimRow, ClaimTable, ClaimInput, Statement, insert_claim, reclaim, execute_all,
  is_in_progress,
}

pub data ClaimStatus : Type 0 where
  claimed reclaimed busy replay : ClaimStatus

-- `busy` is the source's "in_progress", `replay` its "completed".
pub record ClaimResult : Type 0 where
  pub status : ClaimStatus
  pub claim_id : Option String
  pub owner : Option String
  pub lease_expires_at : Option ℕ
  pub response_json : Option String

unfoldable pub granted : ClaimStatus → ℕ → ClaimInput → ClaimResult
granted status now input = record {
  status = status;
  claim_id = some input.claim_id;
  owner = some input.owner;
  lease_expires_at = some (after_seconds now input.ttl_seconds);
  response_json = none;
}

unfoldable pub replayed : ClaimRow → ClaimResult
replayed row = record {
  status = replay;
  claim_id = row.claim_id;
  owner = row.owner;
  lease_expires_at = row.lease_expires_at;
  response_json = some row.response_json;
}

unfoldable pub refused : ClaimRow → ClaimResult
refused row = record {
  status = busy;
  claim_id = row.claim_id;
  owner = row.owner;
  lease_expires_at = row.lease_expires_at;
  response_json = none;
}

-- The rest of `claimIdempotency` after the SELECT has returned `row`.
unfoldable pub claim_existing :
    ℕ → ClaimInput → List (ℕ × Statement) → ClaimRow → ClaimTable → ClaimTable × ClaimResult
claim_existing now input before_update row t =
    if is_in_progress row.status
    then (let (t', done) = reclaim now input (execute_all before_update t).0 in
        (t', if done then granted reclaimed now input else refused row))
    else (t, replayed row)

unfoldable pub claim_selected :
    ℕ
    → ClaimInput
    → List (ℕ × Statement)
    → Option ClaimRow
    → ClaimTable
    → ClaimTable × Option ClaimResult
claim_selected now input before_update none t = (t, none)
claim_selected now input before_update (some row) t =
    let (t', result) = claim_existing now input before_update row t in (t', some result)

unfoldable pub claim_inserted :
    ℕ
    → ClaimInput
    → (before_select before_update : List (ℕ × Statement)) → ClaimTable
    → Bool
    → ClaimTable × Option ClaimResult
claim_inserted now input before_select before_update t true = (t, some (granted claimed now input))
claim_inserted now input before_select before_update t false =
    let t' = (execute_all before_select t).0 in
    claim_selected now input before_update (lookup input.key t') t'

-- `claimIdempotency`; `none` is its thrown error. The lists are the statements that others run
-- between its INSERT and its SELECT, and between that and its UPDATE.
unfoldable pub claim_idempotency :
    ℕ
    → ClaimInput
    → (before_select before_update : List (ℕ × Statement)) → ClaimTable
    → ClaimTable × Option ClaimResult
unfolding granted replayed refused claim_existing claim_selected claim_inserted
claim_idempotency now input before_select before_update t =
    let (t', done) = insert_claim now input t in
    claim_inserted now input before_select before_update t' done
