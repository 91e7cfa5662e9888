-- ===== src/PostRun/Reviewer.antt =====
-- The review of a run: vscode-extension/src/local/postRunReviewer.ts. The text `review_summary` is
-- left out: it prints the decision, the outcome and two counts.
pub mod Decision
use Prim.Native.String
use shared_dev_context_layer.Base.{
  ℕ, String, Bool, true, false, ◌&&◌, ◌||◌, not, Option, List, [], ◌∷◌, ◌++◌, map, if◌then◌else◌,
  ltb, length, take, string_Eq, filter_by,
}
use shared_dev_context_layer.Base.Strings.{trim_str, is_empty, Locale, locale_le}
use shared_dev_context_layer.Base.Sorting.{sort, unique, includes}
use shared_dev_context_layer.Paths.{path_le}
use shared_dev_context_layer.PostRun.Types.{
  ExecutionOutcome, blocked, failed, timeout, cancelled, no_op, applied_changes, partial_changes,
  ReviewDecision, accept, accept_with_warnings, needs_manual_review, retry_recommended, reject,
  CodexExecutionResult, WorkspaceDiffSummary, PostRunReindexResult, OperatorReviewResult,
}
use shared_dev_context_layer.PostRun.Classifier.{is_fallback_full, is_nonempty}

pub record PostRunReviewInput : Type 0 where
  pub source_execution_id : String
  pub source_task_id : String
  pub execution_result : CodexExecutionResult
  pub workspace_diff : WorkspaceDiffSummary
  pub classified_outcome : ExecutionOutcome
  -- `review_payload.pending_risks`
  pub pending_risks : List String
  pub reindex_result : PostRunReindexResult

abbrev pub outcome_name : ExecutionOutcome → String
outcome_name blocked = "blocked"
outcome_name failed = "failed"
outcome_name timeout = "timeout"
outcome_name cancelled = "cancelled"
outcome_name no_op = "no_op"
outcome_name applied_changes = "applied_changes"
outcome_name partial_changes = "partial_changes"

normalize_unique : Locale → List String → List String
normalize_unique locale values =
    sort (locale_le locale) (unique (filter_by (λ v. not (is_empty v)) (map trim_str values)))

build_changed_files_focus : Locale → WorkspaceDiffSummary → List String
build_changed_files_focus locale diff = take 12 (
    sort (path_le locale)
      (unique (diff.deleted_files ++ (diff.modified_files ++ diff.created_files))))

join : List String → String
join [] = ""
join (s ∷ []) = s
join (s ∷ t ∷ ss) = String.◌++◌ s (String.◌++◌ ", " (join (t ∷ ss)))

focus_text : List String → String
focus_text [] = "No hay archivos foco para revisión."
focus_text (f ∷ fs) = String.◌++◌ "Archivos foco: " (String.◌++◌ (join (take 4 (f ∷ fs))) ".")

plan_text : ReviewDecision → String
plan_text accept = " Ejecutar validaciones locales y continuar con la siguiente tarea."
plan_text accept_with_warnings = " Revisar warnings reportados y validar antes de continuar."
plan_text needs_manual_review = " Realizar revisión manual de cambios y riesgos antes de aceptar."
plan_text retry_recommended = " Ajustar alcance/prompt y reintentar ejecución controlada."
plan_text ReviewDecision.blocked = " Corregir precondición bloqueante y reejecutar."
plan_text reject = " Rechazar resultado y preparar nueva tarea con restricciones más claras."

build_next_action_plan : ReviewDecision → List String → String
build_next_action_plan decision focus = String.◌++◌ (focus_text focus) (plan_text decision)

-- The `switch` on the outcome: the decision, and the reason codes that it adds. The type has no
-- further outcome, so the `default` is never taken.
first_decision : ExecutionOutcome → Bool → Bool → ReviewDecision × List String
first_decision blocked deleted warned = (ReviewDecision.blocked, [])
first_decision failed deleted warned = (reject, [])
first_decision timeout deleted warned = (retry_recommended, [])
first_decision cancelled deleted warned = (retry_recommended, [])
first_decision no_op deleted warned = (retry_recommended, [])
first_decision partial_changes deleted warned = (needs_manual_review, [])
first_decision applied_changes deleted warned =
    if deleted
    then (needs_manual_review, "deleted_files_present" ∷ [])
    else if warned
    then (accept_with_warnings, "warnings_present" ∷ [])
    else (accept, [])

abbrev is_accepting : ReviewDecision → Bool
is_accepting accept = true
is_accepting accept_with_warnings = true
is_accepting _ = false

-- The escalation after the `switch`.
escalate : ReviewDecision → Bool → ReviewDecision × List String
escalate decision risky =
    if is_accepting decision && risky
    then (needs_manual_review, "decision_escalated_reindex_risk" ∷ [])
    else (decision, [])

add_warning : Bool → List String → List String
add_warning warned codes =
    if warned && not (includes codes "warnings_present")
    then codes ++ "warnings_present" ∷ []
    else codes

-- The decision and the reason codes before they are normalized.
decide : PostRunReviewInput → ReviewDecision × List String
decide input =
    let deleted = is_nonempty input.workspace_diff.deleted_files in
    let warned = ltb 0 input.execution_result.warnings_count in
    let fallback = is_fallback_full input.reindex_result.mode in
    let not_ok = not input.reindex_result.ok in
    let (first, codes) = first_decision input.classified_outcome deleted warned in
    let (decision, escalated) = escalate first (fallback || not_ok) in
    (
      decision,
      add_warning warned (
          (String.◌++◌ "outcome:" (outcome_name input.classified_outcome) ∷ [])
          ++ (codes
              ++ ((if fallback then "reindex_fallback_full" ∷ [] else [])
                  ++ ((if not_ok then "reindex_not_ok" ∷ [] else []) ++ escalated)))),
    )

review_risks : Locale → PostRunReviewInput → List String
review_risks locale input = normalize_unique locale (
    input.pending_risks
    ++ ((if is_nonempty input.workspace_diff.deleted_files
          then "Hay archivos borrados; validar impacto lateral." ∷ []
          else [])
        ++ ((if is_fallback_full input.reindex_result.mode
              then "Reindex post-run ejecutado en modo fallback_full; validar cobertura del cambio."
                ∷ []
              else [])
            ++ (if input.reindex_result.ok then [] else "Reindex post-run no exitoso." ∷ []))))

pub review : Locale → PostRunReviewInput → OperatorReviewResult
review locale input =
    let (decision, codes) = decide input in
    let focus = build_changed_files_focus locale input.workspace_diff in
    record {
      review_decision = decision;
      review_risks = review_risks locale input;
      changed_files_focus = focus;
      next_action_plan = build_next_action_plan decision focus;
      source_execution_id = input.source_execution_id;
      source_task_id = input.source_task_id;
      reason_codes = normalize_unique locale codes;
    }
