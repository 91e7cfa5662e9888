-- ===== src/PostRun/Accepted.antt =====
-- From a reconciled run to its review, as `localRunCodex` of
-- vscode-extension/src/local/localCommandService.ts passes it on: a run that lost the lease of its
-- lock counts as blocked.
use shared_dev_context_layer.Base.{ℕ, String, ◌≡◌, Bool, true, false, [], arith, if◌then◌else◌}
use shared_dev_context_layer.Base.Strings.{Locale}
use shared_dev_context_layer.PostRun.Types.{
  ExecutionOutcome, blocked, applied_changes, accept, scoped,
}
use shared_dev_context_layer.PostRun.Reviewer.{PostRunReviewInput, review}
use shared_dev_context_layer.PostRun.Reviewer.Decision.{review-decision}
use shared_dev_context_layer.PostRun.Reconciler.{Ports, PostRunReconciliationResult, reconcile}
use shared_dev_context_layer.PostRun.Reconciler.Flow.{ScopedDone, before_reindex, reconcile-applied}

unfoldable pub effective_outcome : Bool → ExecutionOutcome → ExecutionOutcome
effective_outcome lease_lost outcome = if lease_lost then blocked else outcome

abbrev pub review_input : Bool → String → String → PostRunReconciliationResult → PostRunReviewInput
review_input lease_lost execution_id task_id reconciled = record {
  source_execution_id = execution_id;
  source_task_id = task_id;
  execution_result = reconciled.execution_result;
  workspace_diff = reconciled.workspace_diff;
  classified_outcome = effective_outcome lease_lost reconciled.classification.outcome;
  pending_risks = reconciled.review_payload.pending_risks;
  reindex_result = reconciled.reindex_result;
}

effective_outcome-applied :
    (lease_lost : Bool) (outcome : ExecutionOutcome)
    → effective_outcome lease_lost outcome ≡ applied_changes
    → (lease_lost ≡ false) × (outcome ≡ applied_changes)
unfolding effective_outcome
effective_outcome-applied lease_lost outcome h = ground arith

-- Where the review of a reconciled run says "accept", the lease was not lost, the run ended well
-- without warnings, was not cancelled and did not time out, no file was deleted, and its changed
-- paths, some and no more than the limit, were given to a scoped run of the indexer after the run,
-- which answered with a message and not with an error.
pub review-accepted :
    {S : Type 0} (ports : Ports S) (locale : Locale) (max_paths : ℕ) (s : S) (lease_lost : Bool)
    (execution_id task_id : String)
    → let r = (reconcile ports locale max_paths s).1 in
      (review locale (review_input lease_lost execution_id task_id r)).review_decision ≡ accept
      → (lease_lost ≡ false)
        × ((r.execution_result.ok ≡ true)
            × (r.execution_result.cancelled ≡ false)
            × (r.timeout_flag ≡ false)
            × (r.reindex_result.mode ≡ scoped)
            × (r.reindex_result.ok ≡ true)
            × ScopedDone ports max_paths r.reindex_result.changed_paths (before_reindex ports s))
        × (r.execution_result.warnings_count ≡ 0)
        × (r.workspace_diff.deleted_files ≡ [])
review-accepted ports locale max_paths s lease_lost execution_id task_id h =
    let r = (reconcile ports locale max_paths s).1 in
    let (acceptable, quiet) =
      (review-decision locale (review_input lease_lost execution_id task_id r)).0.0 h in
    let (held, applied) =
      effective_outcome-applied lease_lost r.classification.outcome acceptable.changed in
    (held, reconcile-applied ports locale max_paths s applied, quiet, acceptable.kept_files)
