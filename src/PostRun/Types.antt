-- ===== src/PostRun/Types.antt =====
-- The data of a run and of its classification: `ExecutionOutcome`, `CodexExecutionResult`,
-- `WorkspaceDiffSummary`, `PostRunReindexResult`, `ReviewDecision`, `OutcomeClassificationV2` of
-- vscode-extension/src/local/types.ts. Of a record only the fields that the modelled code reads.
use shared_dev_context_layer.Base.{ℕ, String, Bool, Option, List}
use shared_dev_context_layer.Base.Text.{Text}

pub data ExecutionOutcome : Type 0 where
  blocked failed timeout cancelled no_op applied_changes partial_changes : ExecutionOutcome

pub data Severity : Type 0 where
  info warning error : Severity

pub data ReindexMode : Type 0 where
  scoped fallback_full skipped : ReindexMode

pub record CodexExecutionResult : Type 0 where
  pub ok : Bool
  pub cancelled : Bool
  pub error : Option String
  pub warnings_count : ℕ
  pub final_message : Option String
  -- `request_preview.stderr_warning_reasons`, where the preview has such an array
  pub stderr_warning_reasons : Option (List String)
  -- `request_preview.prompt`, where it is a text
  pub prompt : Option Text

pub record WorkspaceDiffSummary : Type 0 where
  pub created_files : List String
  pub modified_files : List String
  pub deleted_files : List String
  pub unchanged_files : List String
  pub changed_files_count : ℕ
  pub changed_files_preview : List String
  pub unchanged_count : ℕ

pub record ExecutionOutcomeClassification : Type 0 where
  pub outcome : ExecutionOutcome
  pub reasons : List String
  pub anomaly_flags : List String
  pub severity : Severity

pub data ReviewDecision : Type 0 where
  accept accept_with_warnings needs_manual_review retry_recommended blocked reject : ReviewDecision

pub record PostRunReindexResult : Type 0 where
  pub mode : ReindexMode
  pub ok : Bool
  pub message : String
  pub trigger_reason : String
  pub changed_paths : List String
  pub error : Option String

pub record OperatorReviewResult : Type 0 where
  pub review_decision : ReviewDecision
  pub review_risks : List String
  pub changed_files_focus : List String
  pub next_action_plan : String
  pub source_execution_id : String
  pub source_task_id : String
  pub reason_codes : List String
