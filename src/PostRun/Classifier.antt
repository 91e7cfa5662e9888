-- ===== src/PostRun/Classifier.antt =====
-- The classification of a run: vscode-extension/src/local/executionOutcomeClassifier.ts.
pub mod Outcome
use Prim.Native.String
use shared_dev_context_layer.Base.{
  ℕ, String, Bool, true, false, ◌&&◌, ◌||◌, not, Option, none, some, List, [], ◌∷◌, ◌++◌, map,
  nat_eq, if◌then◌else◌, ltb, length, string_Eq, filter_by, ◌==◌,
}
use shared_dev_context_layer.Base.Strings.{trim_str, is_empty, is_blank_str, Locale, locale_le}
use shared_dev_context_layer.Base.Sorting.{sort, unique, includes}
use shared_dev_context_layer.PostRun.Types.{
  CodexExecutionResult, WorkspaceDiffSummary, ExecutionOutcome, blocked, failed, timeout, cancelled,
  no_op, applied_changes, partial_changes, Severity, info, warning, error, ReindexMode, scoped,
  fallback_full, skipped, ExecutionOutcomeClassification,
}
use shared_dev_context_layer.PostRun.Timeout.{is_timeout_message}

pub record ExecutionOutcomeClassifierInput : Type 0 where
  pub execution : CodexExecutionResult
  pub workspace_diff : WorkspaceDiffSummary
  pub warning_reasons : List String
  pub reindex_mode : ReindexMode
  pub reindex_ok : Bool
  pub blocked_reason : Option String

-- SEVERE_WARNING_REASONS
abbrev pub is_severe : String → Bool
is_severe reason = reason == "stderr_error" || reason == "transport_warning"

module _ (locale : Locale) where
  -- The loop over `warningReasons`; `seen` holds the normalized reasons met so far.
  severe_from : List String → List String → List String
  severe_from seen [] = []
  severe_from seen (reason ∷ reasons) =
      let normalized = locale.to_lower (trim_str reason) in
      elim (is_empty normalized || includes seen normalized) [
        | true ↦ severe_from seen reasons
        | false ↦
            let rest = severe_from (normalized ∷ seen) reasons in
            if is_severe normalized then normalized ∷ rest else rest
      ]

  unfoldable pub extract_severe_warning_reasons : List String → List String
  unfolding severe_from
  extract_severe_warning_reasons reasons = sort (locale_le locale) (severe_from [] reasons)

abbrev pub has_reason : Option String → Bool
has_reason none = false
has_reason (some s) = not (is_blank_str s)

abbrev pub reason_text : Option String → String
reason_text none = ""
reason_text (some s) = trim_str s

abbrev pub is_fallback_full : ReindexMode → Bool
is_fallback_full fallback_full = true
is_fallback_full _ = false

abbrev pub is_nonempty {ℓ} : {A : Type ℓ} → List A → Bool
is_nonempty [] = false
is_nonempty (x ∷ xs) = true

unfoldable pub anomaly_reasons : List String → Bool → ReindexMode → List String
anomaly_reasons severe reindex_ok mode =
    map (λ reason. String.◌++◌ "severe_warning:" reason) severe
    ++ ((if reindex_ok then [] else "reindex_failed" ∷ [])
        ++ (if is_fallback_full mode then "fallback_full_reindex" ∷ [] else []))

abbrev pub classification :
    ExecutionOutcome → List String → List String → Severity → ExecutionOutcomeClassification
classification outcome reasons flags severity = record {
  outcome = outcome;
  reasons = reasons;
  anomaly_flags = flags;
  severity = severity;
}

-- The part for a run that changed files.
unfoldable pub changed_outcome : List String → List String → ExecutionOutcomeClassification
changed_outcome severe anomalies =
    if is_nonempty anomalies
    then classification partial_changes anomalies anomalies warning
    else classification applied_changes ("execution_ok_with_changes" ∷ []) severe info

unfoldable pub classify_execution_outcome :
    Locale → ExecutionOutcomeClassifierInput → ExecutionOutcomeClassification
classify_execution_outcome locale input =
    let severe = extract_severe_warning_reasons locale input.warning_reasons in
    if has_reason input.blocked_reason
    then classification blocked (String.◌++◌ "blocked:" (reason_text input.blocked_reason) ∷ [])
        severe error
    else if input.execution.cancelled
    then classification cancelled ("execution_cancelled" ∷ []) severe error
    else if is_timeout_message input.execution.error
    then classification timeout ("execution_timeout" ∷ []) severe error
    else if not input.execution.ok
    then classification failed ("execution_failed" ∷ []) severe error
    else if nat_eq input.workspace_diff.changed_files_count 0
    then classification no_op ("execution_ok_without_changes" ∷ []) severe info
    else changed_outcome severe (anomaly_reasons severe input.reindex_ok input.reindex_mode)
