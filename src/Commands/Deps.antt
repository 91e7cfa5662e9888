-- ===== src/Commands/Deps.antt =====
-- What a command is given: `LocalCommandServiceDeps` of
-- vscode-extension/src/local/localCommandService.ts and the parts of the platform that it calls. The
-- collaborators are behind interfaces (vscode-extension/src/local/ports.ts), so they are functions
-- here. The reconciler runs `execute` once, between a first capture of the workspace and the rest of
-- its work, and passes exceptions on (PostRun.Reconciler models it). `stringify` and `read_payload`
-- are the writing and reading of JSON, `sha256_hex` the hash of node:crypto.
use shared_dev_context_layer.Base.{ℕ, String, Bool, Option, List}
use shared_dev_context_layer.Base.Text.{Text}
use shared_dev_context_layer.PostRun.Types.{
  CodexExecutionResult, WorkspaceDiffSummary, PostRunReindexResult, ExecutionOutcomeClassification,
  OperatorReviewResult,
}
use shared_dev_context_layer.PostRun.Diff.{WorkspaceFileSnapshotEntry}
use shared_dev_context_layer.PostRun.Reconciler.{PostRunReconciliationResult, PostRunReviewPayload}
use shared_dev_context_layer.PostRun.Reviewer.{PostRunReviewInput}
use shared_dev_context_layer.Commands.Types.{
  LocalCommandResult, LocalTaskDraft, Details, DbStatus, EnvironmentSnapshot,
}
use shared_dev_context_layer.Commands.Session.{Result}

-- `assertSnapshot` of the workspace root, the repository root and the active file, with the message
-- and the details of its error, and `safeCandidateFiles`.
pub record BoundaryGuard : Type 0 where
  pub assert_snapshot :
      (workspace_root repo_root active_file : Option String) → Option (String × Details)
  pub safe_candidate_files : List String → String → List String

pub record PersistenceHealthcheck : Type 0 where
  pub ok : Bool
  pub db_status : DbStatus
  pub error : Option String

pub record CodexExecutionRequest : Type 0 where
  pub task : LocalTaskDraft
  pub repo_root : Option String
  pub workspace_root : Option String
  pub branch : Option String
  pub active_file : Option String

-- The fields of a recorded answer that have the expected type.
pub record Payload : Type 0 where
  pub status : Option String
  pub ok : Option Bool
  pub message : Option String
  pub details : Option Details

-- The objects that a run writes as JSON.
pub data Document : Type 0 where
  trace_document : CodexExecutionResult → List String → Document
  snapshot_document : List WorkspaceFileSnapshotEntry → Document
  change_document manifest_document : WorkspaceDiffSummary → Document
  outcome_document :
      ExecutionOutcomeClassification → ℕ → (lost : Bool) (reason : Option String) → Document
  reindex_document : PostRunReindexResult → Document
  review_document : PostRunReviewPayload → Document
  decision_document : OperatorReviewResult → Document

pub record Deps : Type 0 where
  pub inspect : Result EnvironmentSnapshot
  pub operation_profile : String
  pub codex_cli_command : String
  pub boundary_guard : Option BoundaryGuard
  pub healthcheck : PersistenceHealthcheck
  pub ensure_project : EnvironmentSnapshot → String
  pub capture : Result Unit
  pub reconcile_rest : CodexExecutionResult → Result PostRunReconciliationResult
  -- the Boolean is whether the abort signal is set, for a run by its end
  pub codex_healthcheck : String → Bool → Result CodexExecutionResult
  pub codex_run : CodexExecutionRequest → String → Bool → Result CodexExecutionResult
  -- how often the timer of the heartbeat fires before Codex starts, while it runs, during the second
  -- capture and the reindex, and while the run is closed
  pub beats_before : ℕ
  pub beats_during : ℕ
  pub beats_reconciling : ℕ
  pub beats_closing : ℕ
  pub review : PostRunReviewInput → Result OperatorReviewResult
  pub lock_uuid : String
  pub claim_uuid : String
  pub sha256_hex : String → String
  pub to_json : LocalCommandResult → String
  pub read_payload : String → Payload
  pub stringify : Document → Text
