-- ===== src/Commands/Reports.antt =====
-- How the commands report: `makeResult`, `pushResult`, `applyEnvironment`, `updateDbStatus`,
-- `resultFromIdempotent`, `buildIdempotencyKey` of
-- vscode-extension/src/local/localCommandService.ts, over the runtime snapshot.
use Prim.Native.String
use shared_dev_context_layer.Base.{
  ℕ, ◌-◌, String, Bool, true, false, Option, none, some, List, [], ◌∷◌, ◌++◌, length, drop,
  if◌then◌else◌, ◌==◌, string_Eq,
}
use shared_dev_context_layer.Commands.Types.{
  LocalCommandResult, CommandStatus, ok, error, blocked, Details, ProjectRuntimeSnapshot,
  RuntimeState, idle, ready, running, EnvironmentSnapshot, InspectorStatus, no_workspace, DbStatus,
}
use shared_dev_context_layer.Commands.Session.{Action, update_store}
use shared_dev_context_layer.Commands.Deps.{Deps, Payload}

abbrev pub is_ok : CommandStatus → Bool
is_ok ok = true
is_ok _ = false

unfoldable pub make_result : String → CommandStatus → String → Option Details → LocalCommandResult
make_result command status message details = record {
  command = command;
  status = status;
  ok = is_ok status;
  message = message;
  details = details;
}

abbrev pub settled : RuntimeState → RuntimeState
settled running = ready
settled state = state

-- `list.slice(-count)`
unfoldable pub slice_last : ℕ → List String → List String
slice_last count list = drop (length list - count) list

abbrev pub max_errors : ℕ
max_errors = 8

unfoldable pub pushed :
    String → LocalCommandResult → Bool → ProjectRuntimeSnapshot → ProjectRuntimeSnapshot
pushed profile result is_error current = record current {
  operation_profile = profile;
  runtime_state = if is_error then RuntimeState.error else settled current.runtime_state;
  last_result = some result;
  errors =
      if is_error
      then slice_last max_errors (current.errors ++ result.message ∷ [])
      else current.errors;
}

abbrev pub state_for : InspectorStatus → RuntimeState → RuntimeState
state_for InspectorStatus.error state = RuntimeState.error
state_for no_workspace state = idle
state_for _ state = state

unfoldable pub with_environment :
    String
    → EnvironmentSnapshot
    → String
    → RuntimeState
    → ProjectRuntimeSnapshot
    → ProjectRuntimeSnapshot
with_environment profile environment action state current = record current {
  operation_profile = profile;
  workspace_root = environment.workspace_root;
  repo_root = environment.repo_root;
  branch = environment.branch;
  active_file = environment.active_file;
  runtime_state = state_for environment.inspector_status state;
  last_action = some action;
}

unfoldable pub with_db_status :
    DbStatus → Option String → ProjectRuntimeSnapshot → ProjectRuntimeSnapshot
with_db_status status problem current = record current { db_status = status; db_error = problem }

abbrev pub status_of : String → Option CommandStatus
status_of text =
    if text == "ok"
    then some ok
    else if text == "error"
    then some error
    else if text == "blocked"
    then some blocked
    else none

abbrev pub status_in : Option String → Option CommandStatus
status_in none = none
status_in (some text) = status_of text

unfoldable pub result_from_fields :
    String
    → Option CommandStatus
    → Option Bool
    → Option String
    → Option Details
    → LocalCommandResult
result_from_fields command (some status) (some flag) (some message) details = record {
  command = command;
  status = status;
  ok = flag;
  message = message;
  details = details;
}
result_from_fields command _ _ _ details =
    make_result command error "Resultado idempotente inválido." none

unfoldable pub result_from_idempotent : String → Payload → LocalCommandResult
result_from_idempotent command payload =
    result_from_fields command (status_in payload.status) payload.ok payload.message payload.details

-- `parts.join("|")`
unfoldable pub join_bar : String → List String → String
join_bar s [] = s
join_bar s (t ∷ ts) = String.◌++◌ s (String.◌++◌ "|" (join_bar t ts))

module _ (deps : Deps) where
  unfoldable pub build_idempotency_key : String → List String → String
  build_idempotency_key command parts = deps.sha256_hex (join_bar command parts)

  unfoldable pub push_result : LocalCommandResult → Bool → Action Unit
  push_result result is_error = update_store (pushed deps.operation_profile result is_error)

  unfoldable pub apply_environment : EnvironmentSnapshot → String → RuntimeState → Action Unit
  apply_environment environment action state =
      update_store (with_environment deps.operation_profile environment action state)

unfoldable pub update_db_status : DbStatus → Option String → Action Unit
update_db_status status problem = update_store (with_db_status status problem)
