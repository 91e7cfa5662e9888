-- ===== src/PostRun/Tests.antt =====
-- The classification, the review and the comparison on concrete runs.
mod Demo
use Prim.Native.String
use shared_dev_context_layer.Base.{
  ℕ, ◌<◌, String, ◌≡◌, refl, ◌↔◌, ◌⊎◌, Bool, true, false, none, some, List, [], ◌∷◌, arith,
  if◌then◌else◌, ◌≤◌, length, string_Eq,
}
use shared_dev_context_layer.Base.Strings.{Locale, trim_str, is_blank_str}
use shared_dev_context_layer.Base.Sorting.{sort}
use shared_dev_context_layer.PostRun.Timeout.{
  is_timeout_message, matches_timeout, scan, time_out_here,
}
use shared_dev_context_layer.PostRun.Timeout.Subsumed.{matches_timeout_once}
use shared_dev_context_layer.Base.Strings.{codes}
use shared_dev_context_layer.Base.Text.{is_space}
use shared_dev_context_layer.PostRun.Types.{
  CodexExecutionResult, WorkspaceDiffSummary, applied_changes, scoped, accept, accept_with_warnings,
  WorkspaceDiffSummary,
}
use shared_dev_context_layer.PostRun.Classifier.{
  ExecutionOutcomeClassifierInput, classify_execution_outcome, is_nonempty,
  extract_severe_warning_reasons,
}
use shared_dev_context_layer.PostRun.Classifier.Outcome.{
  Finished, Clean, severity_of, applied_changes_iff,
}
use shared_dev_context_layer.PostRun.Reviewer.{PostRunReviewInput, review}
use shared_dev_context_layer.PostRun.Reviewer.Decision.{Acceptable, settled, review-decision}
use shared_dev_context_layer.PostRun.Diff.{
  WorkspaceFileSnapshotEntry, analyze, to_comparable_map, diff_key_list,
}
use shared_dev_context_layer.PostRun.Diff.Changes.{analyze_complete, analyze-count}
use shared_dev_context_layer.PostRun.Diff.Moved.{last_at, Unmoved}
use shared_dev_context_layer.Base.Sorting.{Distinct, includes}
use shared_dev_context_layer.PostRun.Reconciler.{
  Ports, done, PostRunReconciliationResult, reconcile, default_max_scoped_reindex_paths,
  run_post_run_reindex,
}
use shared_dev_context_layer.PostRun.Reconciler.Flow.{
  ScopedDone, run_post_run_reindex-mode, reconcile-applied,
}
use shared_dev_context_layer.PostRun.Diff.{
  kind_of, summary, diff_keys, comparable_map_from, has_entry_changed, add_path,
}
use shared_dev_context_layer.PostRun.Classifier.{anomaly_reasons, changed_outcome}
use shared_dev_context_layer.PostRun.Reconciler.{
  compute_changed_paths, after_scoped, warning_reasons_from_request_preview,
}
use shared_dev_context_layer.Paths.{
  to_comparable_path_key, normalize_project_path, normalize_slashes, strip_trailing,
  collapse_separators, strip_dot_prefix, path_le,
}
use shared_dev_context_layer.Base.Sorting.{unique}
use shared_dev_context_layer.Base.Table.{insert, lookup}
use shared_dev_context_layer.PostRun.Accepted.{review_input, effective_outcome, review-accepted}

-- Texts compared by their code points.
abbrev plain : Locale
plain = record { to_lower = λ s. s; locale_compare = String.compare }

abbrev good_run : CodexExecutionResult
good_run = record {
  ok = true;
  cancelled = false;
  error = none;
  warnings_count = 0;
  final_message = some "done";
  stderr_warning_reasons = none;
  prompt = none;
}

abbrev one_change : WorkspaceDiffSummary
one_change = record {
  created_files = "src/a.ts" ∷ [];
  modified_files = [];
  deleted_files = [];
  unchanged_files = [];
  changed_files_count = 1;
  changed_files_preview = "src/a.ts" ∷ [];
  unchanged_count = 0;
}

abbrev clean_input : ExecutionOutcomeClassifierInput
clean_input = record {
  execution = good_run;
  workspace_diff = one_change;
  warning_reasons = "codex_state_db_migration" ∷ [];
  reindex_mode = scoped;
  reindex_ok = true;
  blocked_reason = none;
}

applied_changes_iff_example :
    ((classify_execution_outcome plain clean_input).outcome ≡ applied_changes)
    ↔ (Finished clean_input × Clean plain clean_input)
applied_changes_iff_example = applied_changes_iff plain clean_input

clean_is_applied : (classify_execution_outcome plain clean_input).outcome ≡ applied_changes
unfolding is_timeout_message extract_severe_warning_reasons trim_str is_blank_str is_space sort
clean_is_applied = (applied_changes_iff plain clean_input).1 (
  record {
    unblocked = refl;
    uncancelled = refl;
    in_time = refl;
    succeeded = refl;
    changed = ground arith;
  },
  record { no_warning = refl; reindexed = refl; scoped_reindex = ground arith },
)

abbrev sample_review : PostRunReviewInput
sample_review = record {
  source_execution_id = "exec-1";
  source_task_id = "task-1";
  execution_result = good_run;
  workspace_diff = one_change;
  classified_outcome = applied_changes;
  pending_risks = [];
  reindex_result = record {
    mode = scoped;
    ok = true;
    message = "";
    trigger_reason = "";
    changed_paths = "src/a.ts" ∷ [];
    error = none;
  };
}

review-decision_example :
    let d = (review plain sample_review).review_decision in
    ((d ≡ accept)
      ↔ (Acceptable sample_review × (sample_review.execution_result.warnings_count ≡ 0)))
    × ((d ≡ accept_with_warnings)
        ↔ (Acceptable sample_review × (0 < sample_review.execution_result.warnings_count)))
    × ((d ≡ accept) ⊎ (d ≡ accept_with_warnings) ⊎ (d ≡ settled applied_changes))
review-decision_example = review-decision plain sample_review

abbrev entry : String → ℕ → WorkspaceFileSnapshotEntry
entry path size = record {
  relative_path = path;
  exists = true;
  size_bytes = size;
  content_hash = none;
  modified_at = none;
}

abbrev snapshot : List WorkspaceFileSnapshotEntry
snapshot = entry "src/a.ts" 3 ∷ entry "b.md" 5 ∷ []

analyze_complete_example :
    ((analyze plain snapshot snapshot).changed_files_count ≡ 0)
    ↔ ((key : String) → Unmoved (last_at plain key snapshot) (last_at plain key snapshot))
analyze_complete_example = analyze_complete plain snapshot snapshot

abbrev grown : List WorkspaceFileSnapshotEntry
grown = entry "src/a.ts" 4 ∷ entry "b.md" 5 ∷ entry "c.md" 1 ∷ []

analyze-count_example :
    (keys : List String) × Distinct keys
    × ((key : String)
        → (includes keys key ≡ true)
          ↔ (¬ Unmoved (last_at plain key snapshot) (last_at plain key grown)))
    × ((analyze plain snapshot grown).changed_files_count ≡ length keys)
analyze-count_example = analyze-count plain snapshot grown

matches_timeout_once_example :
    matches_timeout (codes "run timeout") ≡ scan time_out_here false (codes "run timeout")
matches_timeout_once_example = matches_timeout_once (codes "run timeout")
