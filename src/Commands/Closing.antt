-- ===== src/Commands/Closing.antt =====
-- What a run writes when it is over: the transaction of `localRunCodex` of
-- vscode-extension/src/local/localCommandService.ts with the execution, its eleven artifacts, the
-- decision and the event, and the result that the run reports (of its details those that are not
-- copies of the execution, of the review or of a telemetry).
use Prim.Native.String
use shared_dev_context_layer.Base.{
  ℕ, String, not, Option, none, some, List, [], ◌∷◌, map, if◌then◌else◌, filter_by,
}
use shared_dev_context_layer.Base.Strings.{is_empty, trim_str, utf16}
use shared_dev_context_layer.Base.Text.{Text}
use shared_dev_context_layer.PostRun.Types.{
  CodexExecutionResult, ExecutionOutcomeClassification, OperatorReviewResult, ReviewDecision,
  accept, accept_with_warnings, needs_manual_review, retry_recommended, blocked, reject,
}
use shared_dev_context_layer.PostRun.Reconciler.{PostRunReconciliationResult, reasons_of}
use shared_dev_context_layer.PostRun.Accepted.{review_input}
use shared_dev_context_layer.PostRun.Reviewer.{outcome_name}
use shared_dev_context_layer.Persistence.Records.{
  save_execution, save_execution_artifact, save_decision, save_event,
}
use shared_dev_context_layer.Persistence.Idempotency.Claim.{
  ClaimStatus, claimed, reclaimed, busy, replay,
}
use shared_dev_context_layer.Commands.Types.{
  LocalCommandResult, CommandStatus, Json, null_json, text_json, flag_json, number_json, texts_json,
}
use shared_dev_context_layer.Commands.Session.{
  Action, ◌>>=◌, pure, from_result, Turn, write, run_in_transaction, Heartbeat, ActiveClaim,
}
use shared_dev_context_layer.Commands.Deps.{
  Deps, Document, trace_document, snapshot_document, change_document, manifest_document,
  outcome_document, reindex_document, review_document, decision_document,
}
use shared_dev_context_layer.Commands.Capping.{cap_text}
use shared_dev_context_layer.Commands.Reports.{make_result, build_idempotency_key}
use shared_dev_context_layer.Commands.Execution.{
  is_lost, lost_reason, effective_classification, effective_message, final_task_state_from_outcome,
}

unfoldable pub extract_prompt_from_preview : Option Text → Text
extract_prompt_from_preview none = []
extract_prompt_from_preview (some prompt) = prompt

unfoldable pub extract_warning_reasons_from_preview : Option (List String) → List String
extract_warning_reasons_from_preview preview =
    filter_by (λ r. not (is_empty r)) (map trim_str (reasons_of preview))

abbrev pub text_or_empty : Option String → Text
text_or_empty none = []
text_or_empty (some s) = utf16 s

abbrev pub decision_name : ReviewDecision → String
decision_name accept = "accept"
decision_name accept_with_warnings = "accept_with_warnings"
decision_name needs_manual_review = "needs_manual_review"
decision_name retry_recommended = "retry_recommended"
decision_name blocked = "blocked"
decision_name reject = "reject"

-- What a run is about, and how it ended.
pub record Ending : Type 0 where
  pub project : String
  pub task : String
  pub run_key : String
  pub heartbeat : Option Heartbeat
  pub reconciled : PostRunReconciliationResult

-- The ids of what has been written.
pub record Persisted : Type 0 where
  pub execution : String
  pub artifacts : List String
  pub operator_artifact : String
  pub decision : String
  pub event : String
  pub review : OperatorReviewResult

module _ (end : Ending) where
  abbrev pub execution_of : CodexExecutionResult
  execution_of = end.reconciled.execution_result

  abbrev pub classification_of : ExecutionOutcomeClassification
  classification_of = effective_classification end.heartbeat end.reconciled.classification

  abbrev pub message_of : String
  message_of = effective_message end.heartbeat execution_of classification_of.outcome

module _ (deps : Deps) where
  abbrev pub capped : Document → ℕ → Text
  capped document max_chars = cap_text (deps.stringify document) max_chars

  abbrev pub prompt_artifact : Ending → String × Text
  prompt_artifact end =
      ("codex_exec_prompt", cap_text (extract_prompt_from_preview (execution_of end).prompt) 12000)

  abbrev pub trace_artifact : Ending → String × Text
  trace_artifact end = (
    "codex_exec_trace",
    capped
        (trace_document (execution_of end)
          (extract_warning_reasons_from_preview (execution_of end).stderr_warning_reasons))
        18000,
  )

  abbrev pub result_artifact : Ending → String × Text
  result_artifact end =
      ("codex_exec_result", cap_text (text_or_empty (execution_of end).final_message) 6000)

  abbrev pub before_snapshot_artifact : Ending → String × Text
  before_snapshot_artifact end = (
    "workspace_before_snapshot_summary",
    capped (snapshot_document end.reconciled.before_entries) 8000,
  )

  abbrev pub after_snapshot_artifact : Ending → String × Text
  after_snapshot_artifact end = (
    "workspace_after_snapshot_summary",
    capped (snapshot_document end.reconciled.after_entries) 8000,
  )

  abbrev pub workspace_change_artifact : Ending → String × Text
  workspace_change_artifact end =
      ("workspace_change_summary", capped (change_document end.reconciled.workspace_diff) 8000)

  -- This one is not cut.
  abbrev pub changed_files_manifest_artifact : Ending → String × Text
  changed_files_manifest_artifact end =
      ("changed_files_manifest", deps.stringify (manifest_document end.reconciled.workspace_diff))

  abbrev pub outcome_artifact : Ending → String × Text
  outcome_artifact end = (
    "execution_outcome_classification",
    capped
        (outcome_document (classification_of end) (execution_of end).warnings_count
          (is_lost end.heartbeat) (lost_reason end.heartbeat))
        4000,
  )

  abbrev pub reindex_artifact : Ending → String × Text
  reindex_artifact end =
      ("post_run_reindex_summary", capped (reindex_document end.reconciled.reindex_result) 6000)

  abbrev pub review_payload_artifact : Ending → String × Text
  review_payload_artifact end =
      ("post_run_review_payload", capped (review_document end.reconciled.review_payload) 8000)

  -- The artifacts that are written before the review, in their order.
  unfoldable pub artifacts_of : Ending → List (String × Text)
  artifacts_of end =
      prompt_artifact end
      ∷ trace_artifact end
      ∷ result_artifact end
      ∷ before_snapshot_artifact end
      ∷ after_snapshot_artifact end
      ∷ workspace_change_artifact end
      ∷ changed_files_manifest_artifact end
      ∷ outcome_artifact end
      ∷ reindex_artifact end
      ∷ review_payload_artifact end
      ∷ []

  abbrev pub operator_content : OperatorReviewResult → Text
  operator_content review = capped (decision_document review) 8000

  module _ (turns : ℕ → Turn) where
    unfoldable pub write_artifact : String → String → String × Text → Action String
    write_artifact project execution (type, content) = write turns (λ id records. some (
        save_execution_artifact id
          (record {
            project_id = project;
            execution_id = execution;
            artifact_type = type;
            content = content;
          })
          records))

    unfoldable pub write_artifacts : String → String → List (String × Text) → Action (List String)
    write_artifacts project execution [] = pure []
    write_artifacts project execution (artifact ∷ artifacts) =
        write_artifact project execution artifact >>= λ id.
        write_artifacts project execution artifacts >>= λ ids. pure (id ∷ ids)

    unfoldable pub write_execution : Ending → Action String
    write_execution end = write turns (λ id records. some (
        save_execution id
          (record {
            project_id = end.project;
            task_id = end.task;
            result = execution_of end;
            idempotency_key = some end.run_key;
          })
          records))

    unfoldable pub write_decision : Ending → String → OperatorReviewResult → Action String
    write_decision end execution review = write turns (λ id records. some (
        save_decision id
          (record {
            project_id = end.project;
            title = String.◌++◌ "Operator review: " (decision_name review.review_decision);
            source = String.◌++◌ "execution:" execution;
          })
          records))

    unfoldable pub write_event : Ending → String → Action String
    write_event end execution = write turns (λ id records.
        save_event 0 0 id
          (record {
            project_id = end.project;
            task_id = some end.task;
            execution_id = some execution;
            event_type = "local_run_codex";
            severity = (classification_of end).severity;
            message = message_of end;
            idempotency_key = some (
                build_idempotency_key deps "event.local_run_codex.final"
                  (end.project ∷ execution ∷ end.run_key ∷ []));
          })
          records)

    unfoldable pub write_review :
        Ending → String → List String → OperatorReviewResult → Action Persisted
    write_review end execution artifacts review =
        write_artifact end.project execution ("post_run_operator_decision", operator_content review)
        >>= λ operator. write_decision end execution review >>= λ decision.
            write_event end execution >>= λ event. pure (record {
              execution = execution;
              artifacts = artifacts;
              operator_artifact = operator;
              decision = decision;
              event = event;
              review = review;
            })

    unfoldable pub write_ending : Ending → Action Persisted
    write_ending end = write_execution end >>= λ execution.
        write_artifacts end.project execution (artifacts_of end) >>= λ artifacts.
        from_result
          (deps.review (review_input (is_lost end.heartbeat) execution end.task end.reconciled))
        >>= write_review end execution artifacts

    unfoldable pub persist_ending : Ending → Action Persisted
    persist_ending end = run_in_transaction turns (write_ending end)

abbrev pub claim_status_name : ClaimStatus → String
claim_status_name claimed = "claimed"
claim_status_name reclaimed = "reclaimed"
claim_status_name busy = "in_progress"
claim_status_name replay = "completed"

abbrev pub text_or_null : Option String → Json
text_or_null none = null_json
text_or_null (some s) = text_json s

abbrev pub claim_status_json : Option ClaimStatus → Json
claim_status_json none = null_json
claim_status_json (some status) = text_json (claim_status_name status)

unfoldable pub run_result :
    Ending → Persisted → Option ClaimStatus → ActiveClaim → LocalCommandResult
run_result end persisted claim_status claim =
    make_result "local_run_codex"
      (if is_lost end.heartbeat
        then CommandStatus.error
        else if (execution_of end).ok
        then CommandStatus.ok
        else CommandStatus.error)
      (message_of end)
      (some (
        ("project_id", text_json end.project)
        ∷ ("task_id", text_json end.task)
        ∷ ("execution_id", text_json persisted.execution)
        ∷ ("decision_id", text_json persisted.decision)
        ∷ ("event_id", text_json persisted.event)
        ∷ ("classified_outcome", text_json (outcome_name (classification_of end).outcome))
        ∷ ("review_decision", text_json (decision_name persisted.review.review_decision))
        ∷ ("changed_files_count", number_json end.reconciled.workspace_diff.changed_files_count)
        ∷ ("classification_reasons", texts_json (classification_of end).reasons)
        ∷ ("task_state", text_json (final_task_state_from_outcome (classification_of end).outcome))
        ∷ ("idempotency_key", text_json end.run_key)
        ∷ ("idempotency_claim_status", claim_status_json claim_status)
        ∷ ("idempotency_claim_id", text_json claim.claim_id)
        ∷ ("lock_lease_lost", flag_json (is_lost end.heartbeat))
        ∷ (
          "blocked_reason",
          (if is_lost end.heartbeat then text_json "lock_lease_lost" else null_json),
        )
        ∷ []))
