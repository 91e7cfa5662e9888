-- ===== src/PostRun/Tests/Demo.antt =====
-- A run from its start to its review.
use shared_dev_context_layer.Base.{
  String, ◌≡◌, ◌≢◌, refl, ◌↔◌, Bool, true, false, List, [], ◌∷◌, arith, if◌then◌else◌,
}
use shared_dev_context_layer.Base.Strings.{trim_str, is_blank_str}
use shared_dev_context_layer.Base.Sorting.{sort}
use shared_dev_context_layer.PostRun.Timeout.{is_timeout_message}
use shared_dev_context_layer.Base.Text.{is_space}
use shared_dev_context_layer.PostRun.Types.{applied_changes, scoped, skipped, fallback_full, accept}
use shared_dev_context_layer.PostRun.Classifier.{
  classify_execution_outcome, extract_severe_warning_reasons,
}
use shared_dev_context_layer.PostRun.Reviewer.{review}
use shared_dev_context_layer.PostRun.Reviewer.Decision.{review-decision}
use shared_dev_context_layer.PostRun.Diff.{analyze, to_comparable_map, diff_key_list}
use shared_dev_context_layer.PostRun.Reconciler.{
  Ports, done, PostRunReconciliationResult, reconcile, default_max_scoped_reindex_paths,
  run_post_run_reindex,
}
use shared_dev_context_layer.PostRun.Reconciler.Flow.{
  ScopedDone, before_reindex, run_post_run_reindex-mode, reconcile-applied,
}
use shared_dev_context_layer.PostRun.Diff.{
  kind_of, summary, diff_keys, comparable_map_from, has_entry_changed, add_path,
}
use shared_dev_context_layer.PostRun.Classifier.{anomaly_reasons, changed_outcome}
use shared_dev_context_layer.PostRun.Reconciler.{
  compute_changed_paths, after_scoped, warning_reasons_from_request_preview,
}
use shared_dev_context_layer.Paths.{
  to_comparable_path_key, normalize_project_path, normalize_slashes, strip_trailing,
  collapse_separators, strip_dot_prefix, path_le,
}
use shared_dev_context_layer.Base.Sorting.{unique}
use shared_dev_context_layer.Base.Table.{insert, lookup}
use shared_dev_context_layer.PostRun.Accepted.{review_input, effective_outcome, review-accepted}
use shared_dev_context_layer.PostRun.Tests.{plain, good_run, entry}

-- A run that writes one file: the state says whether it has run.
abbrev demo : Ports Bool
demo = record {
  capture = λ seeds ran. (ran, (if ran then entry "a" 1 ∷ [] else []));
  execute = λ ran. (true, good_run);
  run_index_by_paths = λ paths ran. (ran, done "indexed");
  run_index = λ ran. (ran, done "indexed");
}

demo-applied :
    (reconcile demo plain default_max_scoped_reindex_paths false).1.classification.outcome
    ≡ applied_changes
unfolding reconcile classify_execution_outcome is_timeout_message analyze summary sort diff_keys
    diff_key_list unique to_comparable_map comparable_map_from insert to_comparable_path_key
    normalize_project_path normalize_slashes trim_str strip_trailing collapse_separators
    is_blank_str lookup is_space path_le strip_dot_prefix anomaly_reasons compute_changed_paths
    run_post_run_reindex after_scoped kind_of has_entry_changed add_path
    extract_severe_warning_reasons warning_reasons_from_request_preview changed_outcome
demo-applied = refl

abbrev demo_result : PostRunReconciliationResult
demo_result = (reconcile demo plain default_max_scoped_reindex_paths false).1

demo-nothing_deleted : demo_result.workspace_diff.deleted_files ≡ []
unfolding reconcile classify_execution_outcome is_timeout_message analyze summary sort diff_keys
    diff_key_list unique to_comparable_map comparable_map_from insert to_comparable_path_key
    normalize_project_path normalize_slashes trim_str strip_trailing collapse_separators
    is_blank_str lookup is_space path_le strip_dot_prefix anomaly_reasons compute_changed_paths
    run_post_run_reindex after_scoped kind_of has_entry_changed add_path
    extract_severe_warning_reasons warning_reasons_from_request_preview changed_outcome
demo-nothing_deleted = refl

demo-no_warnings : demo_result.execution_result.warnings_count ≡ 0
unfolding reconcile
demo-no_warnings = refl

reconcile-applied_example :
    (demo_result.execution_result.ok ≡ true)
    × (demo_result.execution_result.cancelled ≡ false)
    × (demo_result.timeout_flag ≡ false)
    × (demo_result.reindex_result.mode ≡ scoped)
    × (demo_result.reindex_result.ok ≡ true)
    × ScopedDone demo default_max_scoped_reindex_paths demo_result.reindex_result.changed_paths
        (before_reindex demo false)
reconcile-applied_example =
    reconcile-applied demo plain default_max_scoped_reindex_paths false demo-applied

demo-accepted :
    (review plain (review_input false "exec-1" "task-1" demo_result)).review_decision ≡ accept
unfolding effective_outcome
demo-accepted =
    let (ok, cancelled, time, mode, reindexed, scanned) =
      reconcile-applied demo plain default_max_scoped_reindex_paths false demo-applied in
    (review-decision plain (review_input false "exec-1" "task-1" demo_result)).0.1 (
      record {
        changed = demo-applied;
        kept_files = demo-nothing_deleted;
        reindexed = reindexed;
        scoped_reindex = λ e. ground arith;
      },
      demo-no_warnings,
    )

review-accepted_example :
    (false ≡ false)
    × ((demo_result.execution_result.ok ≡ true)
        × (demo_result.execution_result.cancelled ≡ false)
        × (demo_result.timeout_flag ≡ false)
        × (demo_result.reindex_result.mode ≡ scoped)
        × (demo_result.reindex_result.ok ≡ true)
        × ScopedDone demo default_max_scoped_reindex_paths demo_result.reindex_result.changed_paths
            (before_reindex demo false))
    × (demo_result.execution_result.warnings_count ≡ 0)
    × (demo_result.workspace_diff.deleted_files ≡ [])
review-accepted_example =
    review-accepted demo plain default_max_scoped_reindex_paths false false "exec-1" "task-1"
      demo-accepted

run_post_run_reindex-mode_example :
    let r = (run_post_run_reindex demo 200 ("a" ∷ []) true).1 in
    ((r.mode ≡ skipped) ↔ (◌≡◌ {A = List String} ("a" ∷ []) []))
    × ((r.mode ≡ scoped) ↔ ScopedDone demo 200 ("a" ∷ []) true)
    × (r.mode ≢ fallback_full → r.ok ≡ true)
    × (r.changed_paths ≡ "a" ∷ [])
run_post_run_reindex-mode_example = run_post_run_reindex-mode demo 200 ("a" ∷ []) true
