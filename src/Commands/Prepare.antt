-- ===== src/Commands/Prepare.antt =====
-- `localRefresh` and `localPrepareTask` of vscode-extension/src/local/localCommandService.ts. The
-- retriever and the task builder are behind interfaces; of a retrieved context the lengths of its two
-- lists are read. `saveTaskContext` writes a row that this code does not read; its new id is kept.
pub mod Fresh
pub mod Stale
mod Tests
use shared_dev_context_layer.Base.{
  ℕ, String, Bool, true, false, not, Option, none, some, List, [], ◌∷◌, length, if◌then◌else◌,
}
use shared_dev_context_layer.Base.Strings.{is_empty, trim_str}
use shared_dev_context_layer.Persistence.Idempotency.{
  CommandKey, RecordStatus, resolve_idempotent_result, save_idempotent_result,
}
use shared_dev_context_layer.Persistence.TaskState.{TaskKey, save_task}
use shared_dev_context_layer.Commands.Types.{
  LocalCommandResult, CommandStatus, text_json, number_json, LocalTaskDraft, EnvironmentSnapshot,
  ProjectRuntimeSnapshot, running, ready, disconnected,
}
use shared_dev_context_layer.Commands.Session.{
  Result, value, Action, Call, ◌>>=◌, ◌>>◌, pure, from_result, gets, update_store, catching, Turn,
  call, write,
}
use shared_dev_context_layer.Commands.Deps.{Deps, PersistenceHealthcheck}
use shared_dev_context_layer.Commands.Reports.{
  make_result, is_ok, apply_environment, update_db_status, build_idempotency_key,
  result_from_idempotent,
}
use shared_dev_context_layer.Commands.Guards.{
  ensure_local_profile, enforce_workspace_boundary, with_sanitized_draft_candidate_files,
  refresh_persistence_status, ensure_project_from_environment,
}
use shared_dev_context_layer.Commands.Execution.{transition_call}
use shared_dev_context_layer.Commands.Closing.{text_or_null}
use shared_dev_context_layer.Commands.Calls.{return_pushed}

pub record RetrievedContext : Type 0 where
  pub selected_chunks : ℕ
  pub ranking_evidence : ℕ

pub record PrepareDeps : Type 0 where
  pub retrieve : (intent project : String) → ProjectRuntimeSnapshot → Result RetrievedContext
  pub build_task : String → RetrievedContext → ProjectRuntimeSnapshot → Result LocalTaskDraft
  -- `toLowerCase` of an intent
  pub to_lower : String → String

abbrev pub prepare_name : String
prepare_name = "local_prepare_task"

abbrev pub refresh_name : String
refresh_name = "local_refresh"

abbrev pub text_or_blank : Option String → String
text_or_blank none = ""
text_or_blank (some s) = s

unfoldable pub save_task_call : TaskKey → String → Call Unit
save_task_call key state turn t = (record t { tasks = save_task key state t.tasks }, value tt)

unfoldable pub resolve_call : CommandKey → Call (Option String)
resolve_call key turn t = (t, value (resolve_idempotent_result key t.claims))

-- `status: result.status`, for the results that are recorded.
unfoldable pub save_result_call : CommandKey → String → Call Unit
save_result_call key response turn t = (
  record t {
    claims =
        save_idempotent_result turn.now
          (record { key = key; response_json = response; status = RecordStatus.ok }) t.claims;
  },
  value tt,
)

module _ (deps : Deps) (turns : ℕ → Turn) where
  unfoldable pub refresh_with_health :
      EnvironmentSnapshot → PersistenceHealthcheck → Action LocalCommandResult
  refresh_with_health environment health =
      if health.ok
      then return_pushed deps
          (make_result refresh_name CommandStatus.ok "Estado local actualizado." (
            some (
              ("workspace_root", text_or_null environment.workspace_root)
              ∷ ("repo_root", text_or_null environment.repo_root)
              ∷ [])))
          false
      else return_pushed deps
          (make_result refresh_name CommandStatus.error
            "Conexión PostgreSQL no disponible. Revisa wisContextSync.localDb.* y el estado del contenedor."
            (some (("db_error", text_or_null health.error) ∷ [])))
          true

  unfoldable pub refresh_in : EnvironmentSnapshot → Action LocalCommandResult
  refresh_in environment =
      apply_environment deps environment refresh_name ready
      >> (refresh_persistence_status deps turns >>= refresh_with_health environment)

  unfoldable pub on_refresh_error : String → Action LocalCommandResult
  on_refresh_error message =
      return_pushed deps (make_result refresh_name CommandStatus.error message none) true
      >>= λ result. update_db_status disconnected (some message) >> pure result

  unfoldable pub refresh_unblocked : Option LocalCommandResult → Action LocalCommandResult
  refresh_unblocked (some refusal) = return_pushed deps refusal true
  refresh_unblocked none = catching (from_result deps.inspect >>= refresh_in) on_refresh_error

  unfoldable pub local_refresh : Action LocalCommandResult
  local_refresh = refresh_unblocked (ensure_local_profile deps refresh_name)

  module _ (prepare : PrepareDeps) where
    abbrev pub prepare_key : String → String → CommandKey
    prepare_key project key = record {
      project_id = project;
      command = prepare_name;
      idempotency_key = key;
    }

    unfoldable pub prepare_key_of : String → String → ProjectRuntimeSnapshot → String
    prepare_key_of intent project snapshot = build_idempotency_key deps prepare_name (
        project
        ∷ prepare.to_lower intent
        ∷ text_or_blank snapshot.repo_root
        ∷ text_or_blank snapshot.branch
        ∷ text_or_blank snapshot.active_file
        ∷ [])

    unfoldable pub prepared_result :
        String → String → LocalTaskDraft → RetrievedContext → String → LocalCommandResult
    prepared_result project key draft context context_id =
        make_result prepare_name CommandStatus.ok "Tarea local preparada." (
          some (
            ("project_id", text_json project)
            ∷ ("task_id", text_json draft.id)
            ∷ ("task_context_id", text_json context_id)
            ∷ ("candidate_files", number_json (length draft.candidate_files))
            ∷ ("selected_chunks", number_json context.selected_chunks)
            ∷ ("evidence_items", number_json context.ranking_evidence)
            ∷ ("objective", text_json draft.objective)
            ∷ ("task_state", text_json "prepared")
            ∷ ("idempotency_key", text_json key)
            ∷ []))

    unfoldable pub with_draft : LocalTaskDraft → ProjectRuntimeSnapshot → ProjectRuntimeSnapshot
    with_draft draft current = record current { task_draft = some draft; runtime_state = ready }

    -- After the transition to prepared.
    unfoldable pub store_draft :
        String → String → LocalTaskDraft → LocalCommandResult → Action LocalCommandResult
    store_draft project key draft result = update_store (with_draft draft) >>= λ _.
        call turns (save_result_call (prepare_key project key) (deps.to_json result)) >>= λ _.
        return_pushed deps result false

    -- After the task has been saved with its context.
    unfoldable pub announce_task :
        String → String → LocalTaskDraft → LocalCommandResult → Action LocalCommandResult
    announce_task project key draft result =
        call turns (
          transition_call (record { project_id = project; task_id = draft.id }) (some "draft")
            "prepared")
        >>= λ _. store_draft project key draft result

    unfoldable pub save_prepared :
        String → String → RetrievedContext → LocalTaskDraft → Action LocalCommandResult
    save_prepared project key context draft =
        let task : TaskKey = record { project_id = project; task_id = draft.id } in
        call turns (save_task_call task "draft") >>= λ _.
        write turns (λ id records. some (records, id)) >>= λ context_id.
        call turns (save_task_call task "draft") >>= λ _.
        announce_task project key draft (prepared_result project key draft context context_id)

    unfoldable pub prepare_fresh :
        EnvironmentSnapshot
        → ProjectRuntimeSnapshot
        → (intent project key : String) → Action LocalCommandResult
    prepare_fresh environment snapshot intent project key =
        from_result (prepare.retrieve intent project snapshot) >>= λ context.
        from_result (prepare.build_task intent context snapshot) >>= λ draft.
        save_prepared project key context
          (with_sanitized_draft_candidate_files deps draft environment)

    unfoldable pub prepare_resolved :
        EnvironmentSnapshot
        → ProjectRuntimeSnapshot
        → (intent project key : String) → Option String
        → Action LocalCommandResult
    prepare_resolved environment snapshot intent project key none =
        prepare_fresh environment snapshot intent project key
    prepare_resolved environment snapshot intent project key (some response) =
        let replayed = result_from_idempotent prepare_name (deps.read_payload response) in
        return_pushed deps replayed (not (is_ok replayed.status))

    unfoldable pub prepare_in_project :
        EnvironmentSnapshot → String → String → ProjectRuntimeSnapshot → Action LocalCommandResult
    prepare_in_project environment intent project snapshot =
        let key = prepare_key_of intent project snapshot in
        call turns (resolve_call (prepare_key project key))
        >>= prepare_resolved environment snapshot intent project key

    unfoldable pub prepare_with_health :
        EnvironmentSnapshot → String → PersistenceHealthcheck → Action LocalCommandResult
    prepare_with_health environment intent health =
        if health.ok
        then (ensure_project_from_environment deps turns environment >>= λ project.
            gets (λ s. s.runtime) >>= prepare_in_project environment intent project)
        else return_pushed deps
            (make_result prepare_name CommandStatus.error
              "Persistencia PostgreSQL no disponible para preparar tarea."
              (some (("db_error", text_or_null health.error) ∷ [])))
            true

    unfoldable pub prepare_guarded :
        EnvironmentSnapshot → String → Option LocalCommandResult → Action LocalCommandResult
    prepare_guarded environment intent (some refusal) = return_pushed deps refusal true
    prepare_guarded environment intent none =
        refresh_persistence_status deps turns >>= prepare_with_health environment intent

    unfoldable pub prepare_in : String → EnvironmentSnapshot → Action LocalCommandResult
    prepare_in intent environment =
        apply_environment deps environment prepare_name running
        >> prepare_guarded environment intent
            (enforce_workspace_boundary deps prepare_name environment)

    unfoldable pub on_prepare_error : String → Action LocalCommandResult
    on_prepare_error message =
        return_pushed deps (make_result prepare_name CommandStatus.error message none) true

    unfoldable pub prepare_intent : String → Action LocalCommandResult
    prepare_intent intent =
        if is_empty intent
        then return_pushed deps
            (make_result prepare_name CommandStatus.error "La intención no puede estar vacía." none)
            true
        else catching (from_result deps.inspect >>= prepare_in intent) on_prepare_error

    unfoldable pub prepare_unblocked :
        String → Option LocalCommandResult → Action LocalCommandResult
    prepare_unblocked intent (some refusal) = return_pushed deps refusal true
    prepare_unblocked intent none = prepare_intent (trim_str intent)

    unfoldable pub local_prepare_task : String → Action LocalCommandResult
    local_prepare_task intent = prepare_unblocked intent (ensure_local_profile deps prepare_name)
