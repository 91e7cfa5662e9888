-- ===== src/Commands/Stages.antt =====
-- The part of `localRunCodex` of vscode-extension/src/local/localCommandService.ts that works under
-- the lock of the project, cut where a guard returns or a variable is set.
use Prim.Native.String
use shared_dev_context_layer.Base.{
  ℕ, String, Bool, true, not, Option, none, some, [], ◌∷◌, if◌then◌else◌, ◌==◌, string_Eq,
}
use shared_dev_context_layer.CommandValidation.{
  InvalidReason, unclosed_quote, embedded_arguments, empty_executable, CodexCommandValidationResult,
  executable, invalid, validate_codex_executable_command,
}
use shared_dev_context_layer.Persistence.Idempotency.{CommandKey}
use shared_dev_context_layer.Persistence.Idempotency.Claim.{
  ClaimResult, ClaimStatus, claimed, reclaimed, busy, replay,
}
use shared_dev_context_layer.Persistence.TaskState.{TaskKey, get_task_lifecycle_state}
use shared_dev_context_layer.Persistence.Records.{save_event}
use shared_dev_context_layer.PostRun.Types.{Severity}
use shared_dev_context_layer.Commands.Types.{
  LocalCommandResult, Details, text_json, LocalTaskDraft, EnvironmentSnapshot,
}
use shared_dev_context_layer.Commands.Session.{
  Result, value, threw, Action, ◌>>=◌, ◌>>◌, pure, gets, set_locals, attempt, Turn, call, write,
  ActiveClaim,
}
use shared_dev_context_layer.Commands.Deps.{Deps, CodexExecutionRequest}
use shared_dev_context_layer.Commands.Reports.{build_idempotency_key, result_from_idempotent, is_ok}
use shared_dev_context_layer.Commands.Heartbeat.{start_lease_heartbeat}
use shared_dev_context_layer.Commands.Execution.{transition_call, reconcile_run}
use shared_dev_context_layer.PostRun.Reconciler.{PostRunReconciliationResult}
use shared_dev_context_layer.Commands.Session.{Heartbeat}
use shared_dev_context_layer.Commands.Closing.{Ending, text_or_null, claim_status_name}
use shared_dev_context_layer.Commands.Calls.{
  run_name, run_error, acquire_call, claim_call, return_pushed, with_open_claim, fail_claim,
  close_run,
}

abbrev pub reason_text : InvalidReason → String
reason_text unclosed_quote = "unclosed_quote"
reason_text embedded_arguments = "embedded_arguments"
reason_text empty_executable = "empty_executable"

module _ (deps : Deps) (turns : ℕ → Turn) where
  module _ (environment : EnvironmentSnapshot) (draft : LocalTaskDraft)
      (project run_key : String) where
    abbrev pub request_of : CodexExecutionRequest
    request_of = record {
      task = draft;
      repo_root = environment.repo_root;
      workspace_root = environment.workspace_root;
      branch = environment.branch;
      active_file = environment.active_file;
    }

    abbrev pub task_of : TaskKey
    task_of = record { project_id = project; task_id = draft.id }

    abbrev pub run_details : Details → Details
    run_details more =
        ("classified_outcome", text_json "blocked")
        ∷ ("project_id", text_json project)
        ∷ ("task_id", text_json draft.id)
        ∷ more

    abbrev pub ending_of : PostRunReconciliationResult → Option Heartbeat → Ending
    ending_of reconciled heartbeat = record {
      project = project;
      task = draft.id;
      run_key = run_key;
      heartbeat = heartbeat;
      reconciled = reconciled;
    }

    unfoldable pub run_reconciled :
        ActiveClaim → PostRunReconciliationResult → Action LocalCommandResult
    run_reconciled claim reconciled = gets (λ s. s.locals.heartbeat) >>= λ heartbeat.
        close_run deps turns (ending_of reconciled heartbeat) claim

    -- The task is `prepared`.
    unfoldable pub run_prepared : String → ActiveClaim → Action LocalCommandResult
    run_prepared command claim =
        call turns (transition_call task_of (some "prepared") "running")
        >> set_locals (λ l. record l { state_transition_started = true })
        >> reconcile_run deps turns project deps.lock_uuid command claim request_of
        >>= run_reconciled claim

    abbrev pub not_prepared : String → LocalCommandResult
    not_prepared state =
        run_error
          (String.◌++◌ "Task en estado inválido para ejecución: "
            (String.◌++◌ state ". Requiere 'prepared'."))
          (run_details (("task_state", text_json state) ∷ []))

    unfoldable pub run_in_state : String → ActiveClaim → Option String → Action LocalCommandResult
    run_in_state command claim none =
        call turns (transition_call task_of none "prepared") >> run_prepared command claim
    run_in_state command claim (some state) =
        if state == "prepared"
        then run_prepared command claim
        else return_pushed deps (not_prepared state) true

    unfoldable pub run_task : String → ActiveClaim → Action LocalCommandResult
    run_task command claim =
        set_locals (λ l. record l { draft_id_for_state = some draft.id })
        >> call turns (λ turn t. (t, value (get_task_lifecycle_state task_of t.tasks)))
        >>= run_in_state command claim

    -- The id of the event, or none where it could not be saved.
    abbrev pub or_null : Result String → Option String
    or_null (value id) = some id
    or_null (threw e) = none

    unfoldable pub record_invalid_command_configuration_event : Action (Option String)
    record_invalid_command_configuration_event =
        attempt (
          write turns (λ id records.
            save_event 0 0 id
              (record {
                project_id = project;
                task_id = some draft.id;
                execution_id = none;
                event_type = run_name;
                severity = Severity.error;
                message = "Configuración inválida de codexCliCommand.";
                idempotency_key = some (
                    build_idempotency_key deps "event.invalid_codex_command"
                      (project ∷ draft.id ∷ deps.codex_cli_command ∷ []));
              })
              records))
        >>= λ answer. pure (or_null answer)

    abbrev pub invalid_config : InvalidReason → Option String → LocalCommandResult
    invalid_config reason event =
        run_error
          "Configuración inválida de wisContextSync.codexCliCommand. Usa solo el ejecutable/ruta, sin argumentos embebidos."
          (run_details (
            ("event_id", text_or_null event)
            ∷ ("error_code", text_json "invalid_command_configuration")
            ∷ ("configured_command", text_json deps.codex_cli_command)
            ∷ ("error", text_json (reason_text reason))
            ∷ []))

    unfoldable pub run_invalid :
        ActiveClaim → InvalidReason → Option String → Action LocalCommandResult
    run_invalid claim reason event =
        with_open_claim deps turns
          (fail_claim deps turns (reason_text reason) (invalid_config reason event))
        >> return_pushed deps (invalid_config reason event) true

    unfoldable pub run_validated :
        ActiveClaim → CodexCommandValidationResult → Action LocalCommandResult
    run_validated claim (executable command) = run_task command claim
    run_validated claim (invalid reason) =
        record_invalid_command_configuration_event >>= run_invalid claim reason

    -- The claim is this run's.
    unfoldable pub run_claimed : ActiveClaim → Action LocalCommandResult
    run_claimed claim =
        set_locals (λ l. record l { active_claim = some claim })
        >> start_lease_heartbeat turns project deps.lock_uuid claim
        >> run_validated claim (validate_codex_executable_command deps.codex_cli_command)

    abbrev pub run_command_key : CommandKey
    run_command_key = record { project_id = project; command = run_name; idempotency_key = run_key }

    abbrev pub claim_details : ClaimResult → String → Details
    claim_details result reason = run_details (
        ("blocked_reason", text_json reason)
        ∷ ("idempotency_key", text_json run_key)
        ∷ ("idempotency_claim_status", text_json (claim_status_name result.status))
        ∷ ("idempotency_claim_id", text_or_null result.claim_id)
        ∷ [])

    abbrev pub with_claim_details : ClaimResult → Option Details → Details
    with_claim_details result details =
        ("idempotency_claim_status", text_json (claim_status_name result.status))
        ∷ ("idempotency_claim_id", text_or_null result.claim_id)
        ∷ elim details [ none ↦ [] | some earlier ↦ earlier ]

    unfoldable pub replayed_result : ClaimResult → String → LocalCommandResult
    replayed_result result response =
        let earlier = result_from_idempotent run_name (deps.read_payload response) in
        record earlier { details = some (with_claim_details result earlier.details) }

    unfoldable pub run_replayed : ClaimResult → Option String → Action LocalCommandResult
    run_replayed result none =
        return_pushed deps
          (run_error "Claim de idempotencia completado sin payload de replay."
            (claim_details result "invalid_idempotency_replay"))
          true
    run_replayed result (some response) =
        let again = replayed_result result response in
        return_pushed deps again (not (is_ok again.status))

    abbrev pub or_claim : Option String → String
    or_claim none = deps.claim_uuid
    or_claim (some id) = id

    abbrev pub own_claim : ClaimResult → ActiveClaim
    own_claim result = record { key = run_command_key; claim_id = or_claim result.claim_id }

    unfoldable pub run_with_claim : ClaimResult → ClaimStatus → Action LocalCommandResult
    run_with_claim result replay = run_replayed result result.response_json
    run_with_claim result busy =
        return_pushed deps
          (run_error "Comando duplicado en progreso para este task. Espera cierre del claim activo."
            (claim_details result "idempotency_in_progress"))
          true
    run_with_claim result claimed = run_claimed (own_claim result)
    run_with_claim result reclaimed = run_claimed (own_claim result)

    unfoldable pub run_with_answer : ClaimResult → Action LocalCommandResult
    run_with_answer result =
        set_locals (λ l. record l { claim_status = some result.status })
        >> run_with_claim result result.status

    unfoldable pub run_locked : Action LocalCommandResult
    run_locked = call turns (claim_call run_command_key deps.claim_uuid) >>= run_with_answer

    unfoldable pub run_acquired : Bool → Action LocalCommandResult
    run_acquired acquired =
        if acquired
        then run_locked
        else return_pushed deps
            (run_error
              "Proyecto bloqueado por ejecución activa. Espera a que termine el run en curso."
              (run_details (("lock_status", text_json "busy") ∷ [])))
            true

    unfoldable pub run_locking : Action LocalCommandResult
    run_locking = call turns (acquire_call project deps.lock_uuid) >>= run_acquired

    unfoldable pub run_rooted : Action LocalCommandResult
    run_rooted = set_locals (λ l. record l { lock_id = some deps.lock_uuid }) >> run_locking
