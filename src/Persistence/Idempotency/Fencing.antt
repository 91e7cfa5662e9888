-- ===== src/Persistence/Idempotency/Fencing.antt =====
-- Who may still act on a command: a live claim excludes others, and a lost one is worthless.
use shared_dev_context_layer.Base.{
  ℕ, ◌<◌, String, ◌≡◌, ◌≢◌, ◌↔◌, true, false, Option, none, some, List, arith, string_Eq,
}
use shared_dev_context_layer.Base.Table.{lookup}
use shared_dev_context_layer.Persistence.Idempotency.{
  CommandKey, command_key_Eq, ClaimRow, ClaimTable, in_progress, Statement, insert_stmt,
  reclaim_stmt, renew_stmt, complete_stmt, fail_stmt, save_stmt, has_claim_id, execute_all,
}
use shared_dev_context_layer.Persistence.Idempotency.Record.{
  record_step, AllAt, AllAnswers, execute_all_keep,
}
use shared_dev_context_layer.Persistence.Idempotency.Finality.{ByClaim, claim_of}

-- The record is in progress under claim `c`, whose lease ends at `end`.
pub record IsClaimed (c : String) (end : ℕ) (row : ClaimRow) : Type 0 where
  pub running : row.status ≡ in_progress
  pub claim : row.claim_id ≡ some c
  pub lease : row.lease_expires_at ≡ some end

-- A statement of another claim, run before the lease ends.
pub record OtherClaimBefore (c : String) (end now : ℕ) (s : Statement) : Type 0 where
  pub by_claim : ByClaim s
  pub before : now < end
  pub other : claim_of s ≢ some c

claimed_step :
    (c : String) (end : ℕ) (row : ClaimRow)
    → IsClaimed c end row
    → (now : ℕ) (s : Statement) (o : Option ClaimRow) → o ≡ some row
    → OtherClaimBefore c end now s
    → ((record_step now s o).0 ≡ some row) × ((record_step now s o).1 ≡ false)
unfolding record_step
claimed_step c end row h now (insert_stmt i) o here g = ground arith
claimed_step c end row h now (reclaim_stmt i) o here g = ground arith
claimed_step c end row h now (renew_stmt i) o here g =
    ground (arith, string_Eq.equals_iff c i.claim_id)
claimed_step c end row h now (complete_stmt i) o here g =
    ground (arith, string_Eq.equals_iff c i.claim_id)
claimed_step c end row h now (fail_stmt i) o here g =
    ground (arith, string_Eq.equals_iff c i.claim_id)
claimed_step c end row h now (save_stmt i) o here g = absurd g.by_claim

-- While a claim's lease runs, every statement that presents another claim id is refused and the
-- record stays as it is: nobody else claims, takes over, renews or finishes the command.
pub live_claim_exclusive :
    (k : CommandKey) (c : String) (end : ℕ) (row : ClaimRow) (ss : List (ℕ × Statement))
    (t : ClaimTable)
    → lookup k t ≡ some row
    → IsClaimed c end row
    → AllAt k (OtherClaimBefore c end) ss
    → (lookup k (execute_all ss t).0 ≡ some row)
      × AllAnswers k (λ s answer. answer ≡ false) ss (execute_all ss t).1
live_claim_exclusive k c end row ss t here claim others =
    execute_all_keep k (λ o. o ≡ some row) (OtherClaimBefore c end) (λ s answer. answer ≡ false)
      (claimed_step c end row claim) ss t here others

-- No record, or one under another claim id.
abbrev pub NotClaimedBy : String → Option ClaimRow → Type 0
NotClaimedBy c none = Unit
NotClaimedBy c (some row) = row.claim_id ≢ some c

-- `c` does not claim or take over anew.
abbrev pub IsNoNewClaim : String → Statement → Type 0
IsNoNewClaim c (insert_stmt i) = i.claim_id ≢ c
IsNoNewClaim c (reclaim_stmt i) = i.claim_id ≢ c
IsNoNewClaim c _ = Unit

has_claim_id_iff : (c : String) (o : Option String) → (has_claim_id c o ≡ true) ↔ (o ≡ some c)
has_claim_id_iff c none = ground arith
has_claim_id_iff c (some d) = ground (arith, string_Eq.equals_iff d c)

lost_step :
    (c : String) (now : ℕ) (s : Statement) (o : Option ClaimRow)
    → NotClaimedBy c o
    → IsNoNewClaim c s
    → NotClaimedBy c (record_step now s o).0
      × (claim_of s ≡ some c → (record_step now s o).1 ≡ false)
unfolding record_step
lost_step c now (insert_stmt i) none lost fresh = ground arith
lost_step c now (insert_stmt i) (some row) lost fresh = ground arith
lost_step c now (reclaim_stmt i) none lost fresh = ground arith
lost_step c now (reclaim_stmt i) (some row) lost fresh = ground arith
lost_step c now (renew_stmt i) none lost fresh = ground arith
lost_step c now (renew_stmt i) (some row) lost fresh =
    ground (arith, has_claim_id_iff i.claim_id row.claim_id)
lost_step c now (complete_stmt i) none lost fresh = ground arith
lost_step c now (complete_stmt i) (some row) lost fresh =
    ground (arith, has_claim_id_iff i.claim_id row.claim_id)
lost_step c now (fail_stmt i) none lost fresh = ground arith
lost_step c now (fail_stmt i) (some row) lost fresh =
    ground (arith, has_claim_id_iff i.claim_id row.claim_id)
lost_step c now (save_stmt i) none lost fresh = ground arith
lost_step c now (save_stmt i) (some row) lost fresh = ground arith

-- A claim that was taken over, or never granted, and is not claimed anew can no longer renew,
-- complete or fail the command, whatever statements follow at whatever clock readings.
pub lost_claim_fenced :
    (k : CommandKey) (c : String) (ss : List (ℕ × Statement)) (t : ClaimTable)
    → NotClaimedBy c (lookup k t)
    → AllAt k (λ now s. IsNoNewClaim c s) ss
    → NotClaimedBy c (lookup k (execute_all ss t).0)
      × AllAnswers k (λ s answer. claim_of s ≡ some c → answer ≡ false) ss (execute_all ss t).1
lost_claim_fenced k c ss t lost fresh =
    execute_all_keep k (NotClaimedBy c) (λ now s. IsNoNewClaim c s)
      (λ s answer. claim_of s ≡ some c → answer ≡ false) (lost_step c) ss t lost fresh
