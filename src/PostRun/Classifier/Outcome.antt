-- ===== src/PostRun/Classifier/Outcome.antt =====
-- What an outcome says of the run that was classified.
use shared_dev_context_layer.Base.{
  String, ◌≡◌, ◌≢◌, ◌↔◌, Bool, true, false, List, [], ◌∷◌, arith, string_Eq,
}
use shared_dev_context_layer.Base.Strings.{Locale}
use shared_dev_context_layer.PostRun.Types.{
  ExecutionOutcome, blocked, failed, timeout, cancelled, no_op, applied_changes, partial_changes,
  Severity, info, warning, error, ReindexMode, fallback_full,
}
use shared_dev_context_layer.PostRun.Timeout.{is_timeout_message}
use shared_dev_context_layer.PostRun.Classifier.{
  ExecutionOutcomeClassifierInput, extract_severe_warning_reasons, has_reason, is_nonempty,
  anomaly_reasons, changed_outcome, classify_execution_outcome,
}

-- The run was stopped by nothing, ended well and changed files.
pub record Finished (input : ExecutionOutcomeClassifierInput) : Type 0 where
  pub unblocked : has_reason input.blocked_reason ≡ false
  pub uncancelled : input.execution.cancelled ≡ false
  pub in_time : is_timeout_message input.execution.error ≡ false
  pub succeeded : input.execution.ok ≡ true
  pub changed : input.workspace_diff.changed_files_count ≢ 0

-- Nothing speaks against its result.
pub record Clean (locale : Locale) (input : ExecutionOutcomeClassifierInput) : Type 0 where
  pub no_warning : extract_severe_warning_reasons locale input.warning_reasons ≡ []
  pub reindexed : input.reindex_ok ≡ true
  pub scoped_reindex : input.reindex_mode ≢ fallback_full

anomaly_reasons_nil :
    (severe : List String) (ok : Bool) (mode : ReindexMode)
    → (is_nonempty (anomaly_reasons severe ok mode) ≡ false)
      ↔ ((severe ≡ []) × (ok ≡ true) × (mode ≢ fallback_full))
unfolding anomaly_reasons
anomaly_reasons_nil [] true mode = ground arith
anomaly_reasons_nil [] false mode = ground arith
anomaly_reasons_nil (r ∷ rs) ok mode = ground arith

changed_outcome_iff :
    (severe anomalies : List String)
    → ((changed_outcome severe anomalies).outcome ≡ applied_changes)
      ↔ (is_nonempty anomalies ≡ false)
unfolding changed_outcome
changed_outcome_iff severe anomalies = ground arith

-- A run is classified as "applied_changes" exactly when nothing blocked it, it was not cancelled,
-- its error is no timeout, it ended well, it changed files, no severe warning was among its warning
-- reasons, the index was renewed and no full reindex was needed for that.
pub applied_changes_iff :
    (locale : Locale) (input : ExecutionOutcomeClassifierInput)
    → ((classify_execution_outcome locale input).outcome ≡ applied_changes)
      ↔ (Finished input × Clean locale input)
unfolding classify_execution_outcome
applied_changes_iff locale input =
    let severe = extract_severe_warning_reasons locale input.warning_reasons in
    ground (
      arith,
      anomaly_reasons_nil severe input.reindex_ok input.reindex_mode,
      changed_outcome_iff severe (anomaly_reasons severe input.reindex_ok input.reindex_mode),
    )

-- The severity that goes with an outcome.
abbrev pub severity_of : ExecutionOutcome → Severity
severity_of blocked = error
severity_of cancelled = error
severity_of timeout = error
severity_of failed = error
severity_of no_op = info
severity_of partial_changes = warning
severity_of applied_changes = info

changed_outcome_severity :
    (severe anomalies : List String)
    → ((changed_outcome severe anomalies).severity
        ≡ severity_of (changed_outcome severe anomalies).outcome)
      × (is_nonempty (changed_outcome severe anomalies).reasons ≡ true)
unfolding changed_outcome
changed_outcome_severity severe anomalies = ground arith

-- On every path the severity is the one of the outcome, and a reason is given.
classify-severity :
    (locale : Locale) (input : ExecutionOutcomeClassifierInput)
    → let c = classify_execution_outcome locale input in
      (c.severity ≡ severity_of c.outcome) × (is_nonempty c.reasons ≡ true)
unfolding classify_execution_outcome
classify-severity locale input =
    let severe = extract_severe_warning_reasons locale input.warning_reasons in
    ground (
      arith,
      changed_outcome_severity severe (anomaly_reasons severe input.reindex_ok input.reindex_mode),
    )
