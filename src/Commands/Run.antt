-- ===== src/Commands/Run.antt =====
-- `localRunCodex` of vscode-extension/src/local/localCommandService.ts: `run_environment` and what it
-- calls are its `try` block, cut where a guard returns or a variable is set; `on_exception` is its
-- `catch`, `clean_up` its `finally`. The abort signal that the caller passes is the flag of the
-- session; the playbooks that a result may list are left out.
use shared_dev_context_layer.Base.{
  ℕ, String, true, false, Option, none, some, [], ◌∷◌, if◌then◌else◌, ◌==◌, string_Eq,
}
use shared_dev_context_layer.Persistence.TaskState.{TaskKey, get_task_lifecycle_state}
use shared_dev_context_layer.Commands.Types.{
  LocalCommandResult, CommandStatus, text_json, LocalTaskDraft, running, EnvironmentSnapshot,
  ProjectRuntimeSnapshot,
}
use shared_dev_context_layer.Commands.Session.{
  value, Action, ◌>>=◌, ◌>>◌, pure, from_result, gets, set_locals, attempt, catching, finishing,
  Turn, call, Locals, ActiveClaim,
}
use shared_dev_context_layer.Commands.Deps.{Deps, PersistenceHealthcheck}
use shared_dev_context_layer.Commands.Reports.{
  make_result, apply_environment, build_idempotency_key,
}
use shared_dev_context_layer.Commands.Guards.{
  ensure_local_profile, enforce_workspace_boundary, with_sanitized_draft_candidate_files,
  refresh_persistence_status, ensure_project_from_environment, is_present, or_else,
}
use shared_dev_context_layer.Commands.Execution.{transition_call}
use shared_dev_context_layer.Commands.Closing.{text_or_null}
use shared_dev_context_layer.Commands.Calls.{
  run_name, run_error, release_call, fail_call, return_pushed, with_open_claim, set_completed,
}
use shared_dev_context_layer.Commands.Stages.{run_rooted}

abbrev pub text_of : Option String → String
text_of none = ""
text_of (some s) = s

abbrev pub no_locals : Locals
no_locals = record {
  lock_id = none;
  project_id_for_lock = none;
  draft_id_for_state = none;
  state_transition_started = false;
  transitioned_to_reconciling = false;
  active_claim = none;
  claim_completed = false;
  claim_status = none;
  heartbeat = none;
}

module _ (deps : Deps) (turns : ℕ → Turn) where
  unfoldable pub run_key_of : String → LocalTaskDraft → ProjectRuntimeSnapshot → String
  run_key_of project draft snapshot = build_idempotency_key deps run_name (
      project
      ∷ draft.id
      ∷ draft.created_at
      ∷ text_of snapshot.repo_root
      ∷ text_of snapshot.branch
      ∷ [])

  unfoldable pub run_in_project :
      EnvironmentSnapshot
      → ProjectRuntimeSnapshot
      → LocalTaskDraft
      → String
      → Action LocalCommandResult
  run_in_project environment snapshot draft project =
      set_locals (λ l. record l { project_id_for_lock = some project })
      >> (if is_present (or_else environment.repo_root environment.workspace_root)
          then run_rooted deps turns environment draft project (run_key_of project draft snapshot)
          else return_pushed deps
              (run_error
                "No se pudo resolver repo_root/workspace_root para reconciliación post-run."
                (("classified_outcome", text_json "blocked")
                  ∷ ("project_id", text_json project)
                  ∷ []))
              true)

  unfoldable pub run_drafted :
      EnvironmentSnapshot → ProjectRuntimeSnapshot → LocalTaskDraft → Action LocalCommandResult
  run_drafted environment snapshot draft =
      ensure_project_from_environment deps turns environment
      >>= run_in_project environment snapshot draft

  unfoldable pub run_healthy :
      EnvironmentSnapshot
      → ProjectRuntimeSnapshot
      → Option LocalTaskDraft
      → Action LocalCommandResult
  run_healthy environment snapshot none =
      return_pushed deps
        (run_error "No hay task_draft. Ejecuta primero 'WIS: Local Prepare Task'."
          (("classified_outcome", text_json "blocked") ∷ []))
        true
  run_healthy environment snapshot (some draft) =
      run_drafted environment snapshot (with_sanitized_draft_candidate_files deps draft environment)

  unfoldable pub run_with_snapshot : EnvironmentSnapshot → Action LocalCommandResult
  run_with_snapshot environment =
      gets (λ s. s.runtime) >>= λ snapshot. run_healthy environment snapshot snapshot.task_draft

  unfoldable pub run_with_health :
      EnvironmentSnapshot → PersistenceHealthcheck → Action LocalCommandResult
  run_with_health environment health =
      if health.ok
      then run_with_snapshot environment
      else return_pushed deps
          (run_error "Persistencia PostgreSQL no disponible para ejecutar Codex." (
            ("classified_outcome", text_json "blocked")
            ∷ ("db_error", text_or_null health.error)
            ∷ []))
          true

  unfoldable pub run_inside : EnvironmentSnapshot → Action LocalCommandResult
  run_inside environment = refresh_persistence_status deps turns >>= run_with_health environment

  unfoldable pub run_guarded :
      EnvironmentSnapshot → Option LocalCommandResult → Action LocalCommandResult
  run_guarded environment none = run_inside environment
  run_guarded environment (some refusal) = return_pushed deps refusal true

  unfoldable pub run_in : EnvironmentSnapshot → Action LocalCommandResult
  run_in environment =
      apply_environment deps environment run_name running
      >> run_guarded environment (enforce_workspace_boundary deps run_name environment)

  unfoldable pub run_environment : Action LocalCommandResult
  run_environment = from_result deps.inspect >>= run_in

  unfoldable pub safe_fail_idempotency_claim :
      String → LocalCommandResult → ActiveClaim → Action Unit
  safe_fail_idempotency_claim message result claim =
      attempt (call turns (fail_call deps claim message result)) >> set_completed

  -- From `running` or `reconciling` to `failed`.
  unfoldable pub fail_from : TaskKey → Option String → Action Unit
  fail_from task none = pure tt
  fail_from task (some state) =
      if state == "running"
      then call turns (transition_call task (some "running") "failed")
      else if state == "reconciling"
      then call turns (transition_call task (some "reconciling") "failed")
      else pure tt

  unfoldable pub try_transition_task_to_failure : TaskKey → Action Unit
  try_transition_task_to_failure task =
      attempt (
        call turns (λ turn t. (t, value (get_task_lifecycle_state task t.tasks)))
        >>= fail_from task)
      >> pure tt

  unfoldable pub fail_started_task : Locals → Option String → Option String → Action Unit
  fail_started_task l (some project) (some draft) =
      if l.state_transition_started
      then try_transition_task_to_failure (record { project_id = project; task_id = draft })
      else pure tt
  fail_started_task l _ _ = pure tt

  unfoldable pub on_exception : String → Action LocalCommandResult
  on_exception message =
      let result = make_result run_name CommandStatus.error message none in
      with_open_claim deps turns (safe_fail_idempotency_claim message result)
      >> gets (λ s. s.locals)
      >>= (λ l. fail_started_task l l.project_id_for_lock l.draft_id_for_state)
      >> return_pushed deps result true

  unfoldable pub release_held : Option String → Option String → Action Unit
  release_held (some project) (some lock) =
      attempt (call turns (release_call project lock)) >> pure tt
  release_held _ _ = pure tt

  unfoldable pub clean_up : Action Unit
  clean_up = gets (λ s. s.locals) >>= λ l. release_held l.project_id_for_lock l.lock_id

  unfoldable pub run_unblocked : Option LocalCommandResult → Action LocalCommandResult
  run_unblocked (some refusal) = return_pushed deps refusal true
  run_unblocked none =
      set_locals (λ l. no_locals) >> finishing (catching run_environment on_exception) clean_up

  unfoldable pub local_run_codex : Action LocalCommandResult
  local_run_codex = run_unblocked (ensure_local_profile deps run_name)
