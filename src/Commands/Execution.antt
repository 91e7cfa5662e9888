-- ===== src/Commands/Execution.antt =====
-- The middle of a run: what `localRunCodex` of vscode-extension/src/local/localCommandService.ts gives
-- to the reconciler as `execute`, `failedRunFromHealthcheck`, `cancelledExecution`,
-- `finalTaskStateFromOutcome`, `executionMessage`, and the outcome after a lost lease.
use Prim.Native.String
use shared_dev_context_layer.Base.{
  ℕ, suc, ltb, String, Bool, true, false, Option, none, some, [], ◌∷◌, ◌++◌, if◌then◌else◌,
}
use shared_dev_context_layer.PostRun.Types.{
  CodexExecutionResult, ExecutionOutcome, blocked, failed, timeout, cancelled, no_op,
  applied_changes, partial_changes, Severity, ExecutionOutcomeClassification,
}
use shared_dev_context_layer.PostRun.Reconciler.{PostRunReconciliationResult}
use shared_dev_context_layer.PostRun.Accepted.{effective_outcome}
use shared_dev_context_layer.Persistence.TaskState.{TaskKey, TaskStore, transition_task_state}
use shared_dev_context_layer.Commands.Session.{
  value, threw, Action, Call, ◌>>=◌, ◌>>◌, pure, from_result, gets, set_locals, Turn, Tables,
  Result, call, ActiveClaim, Heartbeat,
}
use shared_dev_context_layer.Commands.Deps.{Deps, CodexExecutionRequest}
use shared_dev_context_layer.Commands.Heartbeat.{run_timer, lease_lost}

unfoldable pub failed_run_from_healthcheck : CodexExecutionResult → CodexExecutionResult
failed_run_from_healthcheck healthcheck = record healthcheck {
  ok = false;
  final_message = none;
  stderr_warning_reasons = none;
  prompt = none;
}

unfoldable pub cancelled_execution : String → CodexExecutionResult
cancelled_execution reason = record {
  ok = false;
  cancelled = true;
  error = some reason;
  warnings_count = 0;
  final_message = none;
  stderr_warning_reasons = none;
  prompt = none;
}

unfoldable pub final_task_state_from_outcome : ExecutionOutcome → String
final_task_state_from_outcome applied_changes = "completed"
final_task_state_from_outcome no_op = "completed"
final_task_state_from_outcome partial_changes = "partial"
final_task_state_from_outcome cancelled = "cancelled"
final_task_state_from_outcome timeout = "timeout"
final_task_state_from_outcome failed = "failed"
final_task_state_from_outcome blocked = "blocked"

unfoldable pub outcome_message : CodexExecutionResult → ExecutionOutcome → String
outcome_message execution blocked = "Ejecucion Codex bloqueada por precondiciones."
outcome_message execution timeout = "Ejecucion Codex expirada por timeout."
outcome_message execution failed = "Ejecucion Codex fallo."
outcome_message execution no_op = "Ejecucion Codex completada sin cambios en workspace."
outcome_message execution partial_changes =
    "Ejecucion Codex completada con cambios parciales/anomalías."
outcome_message execution applied_changes =
    if ltb 0 execution.warnings_count
    then "Ejecucion Codex completada con advertencias no severas."
    else "Ejecucion Codex completada con cambios aplicados."
outcome_message execution cancelled = "Ejecucion Codex cancelada por usuario."

unfoldable pub execution_message : CodexExecutionResult → ExecutionOutcome → String
execution_message execution outcome =
    if execution.cancelled
    then "Ejecucion Codex cancelada por usuario."
    else outcome_message execution outcome

abbrev pub is_lost : Option Heartbeat → Bool
is_lost none = false
is_lost (some h) = lease_lost h

abbrev pub lost_reason : Option Heartbeat → Option String
lost_reason none = none
lost_reason (some h) = h.lease_lost_reason

abbrev pub reason_or_unknown : Option String → String
reason_or_unknown none = "unknown"
reason_or_unknown (some reason) = reason

unfoldable pub effective_classification :
    Option Heartbeat → ExecutionOutcomeClassification → ExecutionOutcomeClassification
effective_classification heartbeat classification =
    if is_lost heartbeat
    then record classification {
      outcome = effective_outcome true classification.outcome;
      reasons =
          classification.reasons
          ++ String.◌++◌ "lease_lost:" (reason_or_unknown (lost_reason heartbeat)) ∷ [];
      anomaly_flags = classification.anomaly_flags ++ "lock_lease_lost" ∷ [];
      severity = Severity.error;
    }
    else classification

unfoldable pub effective_message :
    Option Heartbeat → CodexExecutionResult → ExecutionOutcome → String
effective_message heartbeat execution outcome =
    if is_lost heartbeat
    then "Ejecucion abortada por perdida de lease de concurrencia."
    else execution_message execution outcome

abbrev pub transitioned_to : Option TaskStore → Tables → Tables × Result Unit
transitioned_to none t = (t, threw "Transición inválida o task no encontrada")
transitioned_to (some tasks) t = (record t { tasks = tasks }, value tt)

unfoldable pub transition_call : TaskKey → Option String → String → Call Unit
transition_call task from to turn t =
    transitioned_to
      (transition_task_state (record { key = task; from_state = from; to_state = to }) t.tasks) t

-- `internalAbortController.signal.aborted`
abbrev pub is_aborted : Action Bool
is_aborted = gets (λ s. s.aborted)

abbrev pub count_run : Action Unit
count_run s = (value tt, record s { runs = suc s.runs })

module _ (deps : Deps) (turns : ℕ → Turn) (project lock command : String) (claim : ActiveClaim)
    (request : CodexExecutionRequest) where
  abbrev pub task_key : TaskKey
  task_key = record { project_id = project; task_id = request.task.id }

  unfoldable pub mark_unless : Bool → Action Unit
  mark_unless true = pure tt
  mark_unless false =
      call turns (transition_call task_key (some "running") "reconciling")
      >> set_locals (λ l. record l { transitioned_to_reconciling = true })

  -- `if (!transitionedToReconciling) { … }`
  unfoldable pub mark_reconciling : Action Unit
  mark_reconciling = gets (λ s. s.locals.transitioned_to_reconciling) >>= mark_unless

  abbrev pub mark_and_return : CodexExecutionResult → Action CodexExecutionResult
  mark_and_return result = mark_reconciling >> pure result

  unfoldable pub run_to_end : Bool → Action CodexExecutionResult
  run_to_end aborted = from_result (deps.codex_run request command aborted) >>= mark_and_return

  unfoldable pub run_codex : Action CodexExecutionResult
  run_codex =
      count_run
      >> run_timer turns project lock claim deps.beats_during
      >> (is_aborted >>= run_to_end)

  unfoldable pub execute_unless_aborted : Bool → Action CodexExecutionResult
  execute_unless_aborted aborted =
      if aborted
      then mark_and_return (cancelled_execution "Cancelled before run started.")
      else run_codex

  unfoldable pub execute_healthy : CodexExecutionResult → Action CodexExecutionResult
  execute_healthy health =
      if health.ok
      then is_aborted >>= execute_unless_aborted
      else mark_and_return (failed_run_from_healthcheck health)

  unfoldable pub check_health : Bool → Action CodexExecutionResult
  check_health aborted = from_result (deps.codex_healthcheck command aborted) >>= execute_healthy

  unfoldable pub execute : Action CodexExecutionResult
  execute = run_timer turns project lock claim deps.beats_before >> (is_aborted >>= check_health)

  abbrev pub reconcile_after : CodexExecutionResult → Action PostRunReconciliationResult
  reconcile_after execution =
      run_timer turns project lock claim deps.beats_reconciling
      >> from_result (deps.reconcile_rest execution)

  unfoldable pub reconcile_run : Action PostRunReconciliationResult
  reconcile_run = from_result deps.capture >> (execute >>= reconcile_after)
