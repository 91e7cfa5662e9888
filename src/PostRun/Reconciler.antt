-- ===== src/PostRun/Reconciler.antt =====
-- The reconciliation of a run with the index: `PostRunReconciler` of
-- vscode-extension/src/local/postRunReconciler.ts. `Ports` are the snapshotter, the run itself and
-- the indexer, each a step on the state `S` of the world; an exception of the indexer is its error
-- message, one of the others ends the reconciliation. Latencies, the envelope of the execution, the
-- plan and the metrics of the reindex, copies of what is here, are left out.
pub mod Flow
use Prim.Native.String
use Prim.Native.Char.{Char, code}
use shared_dev_context_layer.Base.{
  ℕ, String, Bool, true, false, not, Option, none, some, List, [], ◌∷◌, ◌++◌, map, length, nat_eq,
  if◌then◌else◌, ltb, string_Eq, filter_by,
}
use shared_dev_context_layer.Base.Strings.{Locale, locale_le, trim_str, is_empty}
use shared_dev_context_layer.Base.Sorting.{sort, unique}
use shared_dev_context_layer.Paths.{path_le}
use shared_dev_context_layer.PostRun.Types.{
  CodexExecutionResult, WorkspaceDiffSummary, ExecutionOutcome, ReindexMode, scoped, fallback_full,
  skipped, PostRunReindexResult, ExecutionOutcomeClassification, blocked, failed, timeout,
  cancelled, no_op, applied_changes, partial_changes,
}
use shared_dev_context_layer.PostRun.Timeout.{is_timeout_message}
use shared_dev_context_layer.PostRun.Diff.{WorkspaceFileSnapshotEntry, analyze}
use shared_dev_context_layer.PostRun.Classifier.{
  ExecutionOutcomeClassifierInput, classify_execution_outcome, is_nonempty,
}

-- The message of the indexer, or its error.
pub data Indexed : Type 0 where
  done : String → Indexed
  threw : String → Indexed

pub record Ports (S : Type 0) : Type 0 where
  -- `snapshotter.capture`, with the paths that it looks at again
  pub capture : List String → S → S × List WorkspaceFileSnapshotEntry
  pub execute : S → S × CodexExecutionResult
  pub run_index_by_paths : List String → S → S × Indexed
  pub run_index : S → S × Indexed

abbrev pub default_max_scoped_reindex_paths : ℕ
default_max_scoped_reindex_paths = 200

pub record PostRunReviewPayload : Type 0 where
  pub final_message : Option String
  pub warnings : List String
  pub pending_risks : List String
  pub next_action : String

pub record PostRunReconciliationResult : Type 0 where
  pub execution_result : CodexExecutionResult
  pub timeout_flag : Bool
  pub before_entries : List WorkspaceFileSnapshotEntry
  pub after_entries : List WorkspaceFileSnapshotEntry
  pub workspace_diff : WorkspaceDiffSummary
  pub classification : ExecutionOutcomeClassification
  pub reindex_result : PostRunReindexResult
  pub review_payload : PostRunReviewPayload

abbrev pub reasons_of : Option (List String) → List String
reasons_of none = []
reasons_of (some reasons) = reasons

unfoldable pub warning_reasons_from_request_preview : Locale → Option (List String) → List String
warning_reasons_from_request_preview locale preview = sort (locale_le locale) (
    unique (
      filter_by (λ r. not (is_empty r))
        (map (λ r. locale.to_lower (trim_str r)) (reasons_of preview))))

unfoldable pub compute_changed_paths : Locale → WorkspaceDiffSummary → List String
compute_changed_paths locale diff =
    sort (path_le locale)
      (unique (diff.created_files ++ (diff.modified_files ++ diff.deleted_files)))

unfoldable pub next_action_hint : ExecutionOutcome → String
next_action_hint no_op = "No hubo cambios. Ajusta la intención o el prompt y vuelve a ejecutar."
next_action_hint applied_changes =
    "Revisa los archivos afectados y ejecuta validaciones locales del proyecto."
next_action_hint partial_changes = "Valida manualmente cambios y advertencias antes de continuar."
next_action_hint failed = "Corrige el fallo de ejecución y reintenta."
next_action_hint timeout = "Reduce alcance de la tarea o aumenta tolerancia operativa y reintenta."
next_action_hint cancelled = "Reanuda la ejecución cuando tengas alcance y contexto cerrados."
next_action_hint blocked = "Corrige la precondición bloqueante y vuelve a correr."

-- What follows a prefix, where the text has it.
unfoldable pub after_prefix : String → String → Option String
after_prefix String.[] s = some s
after_prefix (String.◌∷◌ p ps) String.[] = none
after_prefix (String.◌∷◌ p ps) (String.◌∷◌ c s) =
    let rest = after_prefix ps s in if nat_eq (code p) (code c) then rest else none

abbrev pub severe_risk : Option String → List String
severe_risk none = []
severe_risk (some reason) = String.◌++◌ "Warning severo detectado: " reason ∷ []

unfoldable pub severe_risks : List String → List String
severe_risks [] = []
severe_risks (reason ∷ reasons) =
    severe_risk (after_prefix "severe_warning:" reason) ++ severe_risks reasons

abbrev pub is_fallback : ReindexMode → Bool
is_fallback fallback_full = true
is_fallback _ = false

unfoldable pub build_pending_risks : List String → PostRunReindexResult → List String
build_pending_risks reasons reindex =
    severe_risks reasons
    ++ (if not reindex.ok
        then "Reindex post-run no exitoso." ∷ []
        else if is_fallback reindex.mode
        then "Reindex cayó a full scan; revisar costo y precisión del scope." ∷ []
        else [])

abbrev pub full_result : List String → String → Indexed → PostRunReindexResult
full_result changed reason (done message) = record {
  mode = fallback_full;
  ok = true;
  message = message;
  trigger_reason = reason;
  changed_paths = changed;
  error = none;
}
full_result changed reason (threw error) = record {
  mode = fallback_full;
  ok = false;
  message = "Reindex post-run falló en fallback full.";
  trigger_reason = reason;
  changed_paths = changed;
  error = some error;
}

module _ {S : Type 0} (ports : Ports S) where
  unfoldable pub run_fallback_full_reindex : List String → String → S → S × PostRunReindexResult
  run_fallback_full_reindex changed reason s =
      let (s', answer) = ports.run_index s in (s', full_result changed reason answer)

  unfoldable pub after_scoped : List String → S → Indexed → S × PostRunReindexResult
  after_scoped changed s (done message) = (
    s,
    record {
      mode = scoped;
      ok = true;
      message = message;
      trigger_reason = "changed_scope";
      changed_paths = changed;
      error = none;
    },
  )
  after_scoped changed s (threw error) = run_fallback_full_reindex changed error s

  unfoldable pub run_post_run_reindex : ℕ → List String → S → S × PostRunReindexResult
  run_post_run_reindex max_paths [] s = (
    s,
    record {
      mode = skipped;
      ok = true;
      message = "Sin cambios en workspace; no se ejecutó reindex.";
      trigger_reason = "no_changes";
      changed_paths = [];
      error = none;
    },
  )
  run_post_run_reindex max_paths (path ∷ paths) s =
      if ltb max_paths (length (path ∷ paths))
      then run_fallback_full_reindex (path ∷ paths) "changed_paths_limit_exceeded" s
      else (let (s', answer) = ports.run_index_by_paths (path ∷ paths) s in
          after_scoped (path ∷ paths) s' answer)

  -- The paths of the entries that exist.
  abbrev pub seed_paths : List WorkspaceFileSnapshotEntry → List String
  seed_paths entries = map (λ e. e.relative_path) (filter_by (λ e. e.exists) entries)

  abbrev pub classifier_input :
      Locale
      → CodexExecutionResult
      → WorkspaceDiffSummary
      → PostRunReindexResult
      → ExecutionOutcomeClassifierInput
  classifier_input locale execution diff reindex = record {
    execution = execution;
    workspace_diff = diff;
    warning_reasons = warning_reasons_from_request_preview locale execution.stderr_warning_reasons;
    reindex_mode = reindex.mode;
    reindex_ok = reindex.ok;
    blocked_reason = none;
  }

  abbrev pub review_payload_of :
      Locale
      → CodexExecutionResult
      → PostRunReindexResult
      → ExecutionOutcomeClassification
      → PostRunReviewPayload
  review_payload_of locale execution reindex classification = record {
    final_message = execution.final_message;
    warnings = warning_reasons_from_request_preview locale execution.stderr_warning_reasons;
    pending_risks = build_pending_risks classification.reasons reindex;
    next_action = next_action_hint classification.outcome;
  }

  unfoldable pub reconcile : Locale → ℕ → S → S × PostRunReconciliationResult
  reconcile locale max_paths s =
      let (s1, before) = ports.capture [] s in
      let (s2, execution) = ports.execute s1 in
      let (s3, after) = ports.capture (seed_paths before) s2 in
      let diff = analyze locale before after in
      let (s4, reindex) = run_post_run_reindex max_paths (compute_changed_paths locale diff) s3 in
      let classification =
        classify_execution_outcome locale (classifier_input locale execution diff reindex) in
      (
        s4,
        record {
          execution_result = execution;
          timeout_flag = is_timeout_message execution.error;
          before_entries = before;
          after_entries = after;
          workspace_diff = diff;
          classification = classification;
          reindex_result = reindex;
          review_payload = review_payload_of locale execution reindex classification;
        },
      )
