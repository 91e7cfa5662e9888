-- ===== src/Persistence/Idempotency/Replay.antt =====
-- What `claimIdempotency` (vscode-extension/src/local/persistence/postgresPersistenceAdapter.ts)
-- answers to a command that is over, or that another claim is carrying out.
use shared_dev_context_layer.Base.{
  ℕ, ◌<◌, ◌≡◌, ◌≢◌, refl, ◌∙◌, String, true, false, Option, none, some, List, [], arith,
}
use shared_dev_context_layer.Base.Table.{
  lookup, insert, insert_absent_refused, update_where_refused, lookup-insert_absent,
  lookup-insert_self, lookup-insert_other, lookup-update_where,
}
use shared_dev_context_layer.Persistence.Idempotency.{
  CommandKey, command_key_Eq, ClaimRow, ClaimTable, ClaimInput, Statement, claimed_row, reclaimable,
  reclaimed_row, insert_claim, reclaim, execute_all, is_in_progress, SaveResultInput, save_on,
  save_idempotent_result, resolve_idempotent_result,
}
use shared_dev_context_layer.Persistence.Idempotency.Claim.{
  claim_idempotency, claim_inserted, claim_selected, claim_existing, replayed, refused,
}
use shared_dev_context_layer.Persistence.Idempotency.Record.{AllAt}
use shared_dev_context_layer.Persistence.Idempotency.Finality.{ByClaim, IsFinal, finished-IsFinal}
use shared_dev_context_layer.Persistence.Idempotency.Fencing.{IsClaimed}

module _ (now : ℕ) (i : ClaimInput) (t : ClaimTable) (row : ClaimRow)
    (found : lookup i.key t ≡ some row) where
  insert_refused : (insert_claim now i t).1 ≡ false
  unfolding insert_claim
  insert_refused = (lookup-insert_absent i.key i.key (claimed_row now i) t).0 ∙ rw found refl

  insert_unchanged : (insert_claim now i t).0 ≡ t
  unfolding insert_claim
  insert_unchanged = insert_absent_refused i.key (claimed_row now i) t insert_refused

  final-not_running : IsFinal row.status → is_in_progress row.status ≡ false
  final-not_running final = ground arith

  -- A finished command is answered with its record, which stays.
  pub claim_idempotency-replays :
      (before_select before_update : List (ℕ × Statement))
      → IsFinal row.status
      → AllAt i.key (λ _ s. ByClaim s) before_select
      → (claim_idempotency now i before_select before_update t
          ≡ ((execute_all before_select t).0, some (replayed row)))
        × (lookup i.key (execute_all before_select t).0 ≡ some row)
  unfolding claim_idempotency claim_inserted claim_selected claim_existing
  claim_idempotency-replays before_select before_update final by_claim =
      let (still, _) = finished-IsFinal i.key row before_select t found final by_claim in
      (rw (insert_refused, insert_unchanged, still, final-not_running final) refl, still)

  reclaim_refused :
      (end : ℕ) (c : String) → IsClaimed c end row → now < end → (reclaim now i t).1 ≡ false
  unfolding reclaim
  reclaim_refused end c claim before =
      (lookup-update_where i.key i.key (reclaimable now) (reclaimed_row now i) t).0
      ∙ rw found (ground arith)

  reclaim_unchanged :
      (end : ℕ) (c : String) → IsClaimed c end row → now < end → (reclaim now i t).0 ≡ t
  unfolding reclaim
  reclaim_unchanged end c claim before =
      update_where_refused i.key (reclaimable now) (reclaimed_row now i) t
        (reclaim_refused end c claim before)

  -- While a lease runs, a claim is refused.
  pub claim_idempotency-busy :
      (end : ℕ) (c : String)
      → IsClaimed c end row
      → now < end
      → claim_idempotency now i [] [] t ≡ (t, some (refused row))
  unfolding claim_idempotency claim_inserted claim_selected claim_existing execute_all
  claim_idempotency-busy end c claim before =
      let running : is_in_progress row.status ≡ true = rw claim.running refl in
      rw
        (
          insert_refused,
          insert_unchanged,
          found,
          running,
          reclaim_refused end c claim before,
          reclaim_unchanged end c claim before,
        )
        refl

save_on-response :
    (now : ℕ) (i : SaveResultInput) (found : Option ClaimRow)
    → (save_on now i found).response_json ≡ i.response_json
unfolding save_on
save_on-response now i none = refl
save_on-response now i (some row) = refl

resolve-insert :
    (key : CommandKey) (row : ClaimRow) (t : ClaimTable)
    → resolve_idempotent_result key (insert key row t) ≡ some row.response_json
unfolding resolve_idempotent_result
resolve-insert key row t = rw (resolve_idempotent_result, lookup-insert_self key row t) refl

-- A saved result is the one that is found.
pub resolve-save :
    (now : ℕ) (i : SaveResultInput) (t : ClaimTable)
    → resolve_idempotent_result i.key (save_idempotent_result now i t) ≡ some i.response_json
unfolding save_idempotent_result save_on
resolve-save now i t =
    resolve-insert i.key (save_on now i (lookup i.key t)) t
    ∙ rw (save_on-response now i (lookup i.key t)) refl

resolve-insert_other :
    (key other : CommandKey) (row : ClaimRow) (t : ClaimTable)
    → other ≢ key
    → resolve_idempotent_result other (insert key row t) ≡ resolve_idempotent_result other t
unfolding resolve_idempotent_result
resolve-insert_other key other row t ne =
    rw (resolve_idempotent_result, lookup-insert_other key other row t ne) refl

-- A saved result leaves those of other commands.
pub resolve-save_other :
    (now : ℕ) (i : SaveResultInput) (other : CommandKey) (t : ClaimTable)
    → other ≢ i.key
    → resolve_idempotent_result other (save_idempotent_result now i t)
      ≡ resolve_idempotent_result other t
unfolding save_idempotent_result save_on
resolve-save_other now i other t ne =
    resolve-insert_other i.key other (save_on now i (lookup i.key t)) t ne
