-- ===== src/PostRun/Reviewer/Decision.antt =====
-- What a decision of the review says of the run.
use shared_dev_context_layer.Base.{
  ◌<◌, ◌≡◌, ◌≢◌, ◌↔◌, ◌⊎◌, Bool, true, false, ◌||◌, not, [], arith, ltb,
}
use shared_dev_context_layer.Base.Strings.{Locale}
use shared_dev_context_layer.PostRun.Types.{
  ExecutionOutcome, blocked, failed, timeout, cancelled, no_op, applied_changes, partial_changes,
  ReviewDecision, accept, accept_with_warnings, needs_manual_review, retry_recommended, reject,
  fallback_full,
}
use shared_dev_context_layer.PostRun.Classifier.{is_fallback_full, is_nonempty}
use shared_dev_context_layer.PostRun.Reviewer.{
  PostRunReviewInput, first_decision, escalate, decide, review,
}

-- A run that changed files and deleted none, with an index renewed by a scoped reindex.
pub record Acceptable (input : PostRunReviewInput) : Type 0 where
  pub changed : input.classified_outcome ≡ applied_changes
  pub kept_files : input.workspace_diff.deleted_files ≡ []
  pub reindexed : input.reindex_result.ok ≡ true
  pub scoped_reindex : input.reindex_result.mode ≢ fallback_full

-- The decision for an outcome other than "applied_changes".
abbrev pub settled : ExecutionOutcome → ReviewDecision
settled blocked = ReviewDecision.blocked
settled failed = reject
settled timeout = retry_recommended
settled cancelled = retry_recommended
settled no_op = retry_recommended
settled partial_changes = needs_manual_review
settled applied_changes = needs_manual_review

decision_from :
    (o : ExecutionOutcome) (deleted warned risky : Bool)
    → let d = (escalate (first_decision o deleted warned).0 risky).0 in
      ((d ≡ accept)
        ↔ ((o ≡ applied_changes) × (deleted ≡ false) × (risky ≡ false) × (warned ≡ false)))
      × ((d ≡ accept_with_warnings)
          ↔ ((o ≡ applied_changes) × (deleted ≡ false) × (risky ≡ false) × (warned ≡ true)))
      × ((d ≡ accept) ⊎ (d ≡ accept_with_warnings) ⊎ (d ≡ settled o))
unfolding first_decision escalate
decision_from o deleted warned risky = ground arith

-- The review accepts a run exactly when it is acceptable: it is classified as "applied_changes", no
-- file was deleted, and the index was renewed without a full reindex; "accept" is for a run without
-- warnings, "accept_with_warnings" for one with some; every other run gets the fixed decision of
-- its outcome.
pub review-decision :
    (locale : Locale) (input : PostRunReviewInput)
    → let d = (review locale input).review_decision in
      ((d ≡ accept) ↔ (Acceptable input × (input.execution_result.warnings_count ≡ 0)))
      × ((d ≡ accept_with_warnings)
          ↔ (Acceptable input × (0 < input.execution_result.warnings_count)))
      × ((d ≡ accept) ⊎ (d ≡ accept_with_warnings) ⊎ (d ≡ settled input.classified_outcome))
unfolding review decide
review-decision locale input = ground (
  arith,
  decision_from input.classified_outcome (is_nonempty input.workspace_diff.deleted_files)
      (ltb 0 input.execution_result.warnings_count)
      (is_fallback_full input.reindex_result.mode || not input.reindex_result.ok),
)
