-- ===== src/Persistence/Idempotency/Ownership.antt =====
-- What `claimIdempotency` answers, and what it leaves in the table.
use shared_dev_context_layer.Base.{
  ℕ, ◌≡◌, refl, sym, ◌∙◌, inl, inr, true, false, Option, none, some, List, arith, Bool-cases, ◌≢◌,
}
use mathlib.Core.Bool.{false≢true}
use shared_dev_context_layer.Base.Table.{lookup, insert_absent_refused, update_where_refused}
use shared_dev_context_layer.Persistence.RunLock.{after_seconds}
use shared_dev_context_layer.Persistence.Idempotency.{
  command_key_Eq, ClaimRow, ClaimTable, ClaimInput, in_progress, Statement, insert_stmt,
  reclaim_stmt, claimed_row, reclaimable, reclaimed_row, insert_claim, reclaim, execute,
  execute_all, is_in_progress,
}
use shared_dev_context_layer.Persistence.Idempotency.Claim.{
  ClaimResult, ClaimStatus, claimed, reclaimed, busy, replay, claim_existing, claim_selected,
  claim_inserted, claim_idempotency, replayed, refused, granted,
}
use shared_dev_context_layer.Persistence.Idempotency.Record.{record_step, execute_same}
use shared_dev_context_layer.Persistence.Idempotency.Fencing.{IsClaimed}

module _ (now : ℕ) (i : ClaimInput) where
  -- The record of the command in `t` is in progress under the new claim.
  abbrev pub HasClaim : ClaimTable → Type 0
  HasClaim t =
      (row : ClaimRow) × (lookup i.key t ≡ some row)
      × IsClaimed i.claim_id (after_seconds now i.ttl_seconds) row

  insert_step :
      (o : Option ClaimRow)
      → (record_step now (insert_stmt i) o).1 ≡ true
      → (record_step now (insert_stmt i) o).0 ≡ some (claimed_row now i)
  unfolding record_step
  insert_step none h = refl
  insert_step (some row) h = cc

  reclaim_step :
      (o : Option ClaimRow)
      → (record_step now (reclaim_stmt i) o).1 ≡ true
      → (row : ClaimRow) × ((record_step now (reclaim_stmt i) o).0 ≡ some row)
        × IsClaimed i.claim_id (after_seconds now i.ttl_seconds) row
  unfolding record_step
  reclaim_step none h = absurd (false≢true h)
  reclaim_step (some row) h = (reclaimed_row now i row, ground arith, ground arith)

  insert_claim-HasClaim :
      (t : ClaimTable) → (insert_claim now i t).1 ≡ true → HasClaim (insert_claim now i t).0
  unfolding execute
  insert_claim-HasClaim t h =
      let (answer, row) = execute_same i.key now t (insert_stmt i) refl in
      (claimed_row now i, row ∙ insert_step (lookup i.key t) (sym answer ∙ h), ground arith)

  reclaim-HasClaim : (t : ClaimTable) → (reclaim now i t).1 ≡ true → HasClaim (reclaim now i t).0
  unfolding execute
  reclaim-HasClaim t h =
      let (answer, row) = execute_same i.key now t (reclaim_stmt i) refl in
      let (taken, kept, claim) = reclaim_step (lookup i.key t) (sym answer ∙ h) in
      (taken, row ∙ kept, claim)

  -- What an answer of `claimIdempotency` says of the table `t'` that it leaves.
  abbrev pub Says :
      ClaimStatus
      → (before_select before_update : List (ℕ × Statement)) (t t' : ClaimTable) → ClaimResult
      → Type 0
  Says claimed before_select before_update t t' result = HasClaim t'
  Says reclaimed before_select before_update t t' result = HasClaim t'
  Says replay before_select before_update t t' result =
      (t' ≡ (execute_all before_select t).0)
      × ((row : ClaimRow) × (lookup i.key t' ≡ some row)
          × (row.status ≢ in_progress)
          × (result.response_json ≡ some row.response_json))
  Says busy before_select before_update t t' result =
      t' ≡ (execute_all before_update (execute_all before_select t).0).0

  abbrev pub Justified :
      (before_select before_update : List (ℕ × Statement))
      → ClaimTable
      → ClaimTable × Option ClaimResult
      → Type 0
  Justified before_select before_update t (t', none) = t' ≡ (execute_all before_select t).0
  Justified before_select before_update t (t', some result) =
      Says result.status before_select before_update t t' result

  reclaim_refused-unchanged :
      (t : ClaimTable) → (reclaim now i t).1 ≡ false → (reclaim now i t).0 ≡ t
  unfolding reclaim
  reclaim_refused-unchanged t h =
      update_where_refused i.key (reclaimable now) (reclaimed_row now i) t h

  insert_claim_refused-unchanged :
      (t : ClaimTable) → (insert_claim now i t).1 ≡ false → (insert_claim now i t).0 ≡ t
  unfolding insert_claim
  insert_claim_refused-unchanged t h = insert_absent_refused i.key (claimed_row now i) t h

  claim_existing-Justified :
      (before_select before_update : List (ℕ × Statement)) (t : ClaimTable) (row : ClaimRow)
      → lookup i.key (execute_all before_select t).0 ≡ some row
      → let (t', r) = claim_existing now i before_update row (execute_all before_select t).0 in
        Justified before_select before_update t (t', some r)
  unfolding claim_existing replayed refused granted
  claim_existing-Justified before_select before_update t row found =
      let u = (execute_all before_update (execute_all before_select t).0).0 in
      elim (Bool-cases (is_in_progress row.status)) [
        | inl running ↦ elim (Bool-cases (reclaim now i u).1) [
          | inl done ↦ rw (running, done) (reclaim-HasClaim u done)
          | inr late ↦ rw (running, late) (reclaim_refused-unchanged u late)
        ]
        | inr over ↦ rw over (refl, (row, found, λ e. ground arith, refl))
      ]

  claim_selected-Justified :
      (before_select before_update : List (ℕ × Statement)) (t : ClaimTable) (o : Option ClaimRow)
      → lookup i.key (execute_all before_select t).0 ≡ o
      → Justified before_select before_update t
          (claim_selected now i before_update o (execute_all before_select t).0)
  unfolding claim_selected
  claim_selected-Justified before_select before_update t none found = refl
  claim_selected-Justified before_select before_update t (some row) found =
      claim_existing-Justified before_select before_update t row found

-- Whatever other clients do between its statements: when `claimIdempotency` answers that the command
-- is claimed or reclaimed, the record in the table is in progress under the caller's claim id with
-- the lease of its time to live; when it answers that the command is over, the record is not in
-- progress and the answer is the recorded one; then, and when the claim is refused or the record
-- has vanished, the table is what the other clients' statements alone made of it.
pub claim_idempotency-Justified :
    (now : ℕ) (i : ClaimInput) (before_select before_update : List (ℕ × Statement)) (t : ClaimTable)
    → Justified now i before_select before_update t
        (claim_idempotency now i before_select before_update t)
unfolding claim_idempotency claim_inserted
claim_idempotency-Justified now i before_select before_update t =
    elim (Bool-cases (insert_claim now i t).1) [
      | inl done ↦ rw (done, claim_inserted) (insert_claim-HasClaim now i t done)
      | inr present ↦
          rw (present, claim_inserted)
            (rw (insert_claim_refused-unchanged now i t present)
              (claim_selected-Justified now i before_select before_update t _ refl))
    ]
