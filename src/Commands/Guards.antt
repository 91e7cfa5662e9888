-- ===== src/Commands/Guards.antt =====
-- What stands before the work of a command: `ensureLocalProfile`, `enforceWorkspaceBoundary`,
-- `withSanitizedDraftCandidateFiles`, `refreshPersistenceStatus`, `ensureProjectFromEnvironment` of
-- vscode-extension/src/local/localCommandService.ts. An empty path counts as absent.
use shared_dev_context_layer.Base.{
  ℕ, String, Bool, true, false, Option, none, some, List, [], ◌∷◌, take, if◌then◌else◌, ◌==◌,
  string_Eq,
}
use shared_dev_context_layer.Base.Strings.{is_empty}
use shared_dev_context_layer.Commands.Types.{
  LocalCommandResult, CommandStatus, Json, text_json, LocalTaskDraft, EnvironmentSnapshot,
  disconnected,
}
use shared_dev_context_layer.Commands.Session.{
  Result, value, threw, Action, ◌>>=◌, ◌>>◌, pure, attempt, Turn, call,
}
use shared_dev_context_layer.Commands.Deps.{Deps, BoundaryGuard, PersistenceHealthcheck}
use shared_dev_context_layer.Commands.Reports.{make_result, update_db_status}

abbrev pub is_present : Option String → Bool
is_present none = false
is_present (some path) = if is_empty path then false else true

-- `a ?? b`
abbrev pub or_else : Option String → Option String → Option String
or_else none b = b
or_else (some a) b = some a

abbrev pub refused : String → String × List (String × Json) → LocalCommandResult
refused command (message, details) =
    make_result command CommandStatus.blocked
      "Boundary de workspace/repo inválido para ejecutar comando local."
      (some (
        ("blocked_reason", text_json "workspace_boundary_violation")
        ∷ ("boundary_error", text_json message)
        ∷ details))

abbrev pub refused_by : String → Option (String × List (String × Json)) → Option LocalCommandResult
refused_by command none = none
refused_by command (some problem) = some (refused command problem)

-- The candidate files replaced, in the brief by the first eight of them.
abbrev pub with_candidate_files : LocalTaskDraft → List String → LocalTaskDraft
with_candidate_files draft files = record draft {
  candidate_files = files;
  brief_candidate_files = elim draft.brief_candidate_files [
    | none ↦ none
    | some _ ↦ some (take 8 files)
  ];
}

abbrev pub sanitized_with : BoundaryGuard → LocalTaskDraft → Option String → LocalTaskDraft
sanitized_with guard draft none = with_candidate_files draft []
sanitized_with guard draft (some root) =
    if is_empty root
    then with_candidate_files draft []
    else with_candidate_files draft (guard.safe_candidate_files draft.candidate_files root)

module _ (deps : Deps) where
  -- `none` where the command may go on.
  unfoldable pub ensure_local_profile : String → Option LocalCommandResult
  ensure_local_profile command =
      if deps.operation_profile == "local_private"
      then none
      else some (
          make_result command CommandStatus.blocked
            "Comando local bloqueado. Cambia wisContextSync.operationProfile a 'local_private'."
            (some (
              ("required_profile", text_json "local_private")
              ∷ ("current_profile", text_json deps.operation_profile)
              ∷ [])))

  unfoldable pub enforce_workspace_boundary :
      String → EnvironmentSnapshot → Option LocalCommandResult
  enforce_workspace_boundary command environment = elim deps.boundary_guard [
    | none ↦ none
    | some guard ↦ refused_by command (
        guard.assert_snapshot environment.workspace_root environment.repo_root
          environment.active_file)
  ]

  unfoldable pub with_sanitized_draft_candidate_files :
      LocalTaskDraft → EnvironmentSnapshot → LocalTaskDraft
  with_sanitized_draft_candidate_files draft environment = elim deps.boundary_guard [
    | none ↦ draft
    | some guard ↦
        sanitized_with guard draft (or_else environment.repo_root environment.workspace_root)
  ]

  module _ (turns : ℕ → Turn) where
    unfoldable pub health_from : Result PersistenceHealthcheck → Action PersistenceHealthcheck
    health_from (value health) = update_db_status health.db_status health.error >> pure health
    health_from (threw message) =
        update_db_status disconnected (some message)
        >> pure (record { ok = false; db_status = disconnected; error = some message })

    unfoldable pub refresh_persistence_status : Action PersistenceHealthcheck
    refresh_persistence_status =
        attempt (call turns (λ turn t. (t, value deps.healthcheck))) >>= health_from

    unfoldable pub ensure_project_from_environment : EnvironmentSnapshot → Action String
    ensure_project_from_environment environment =
        call turns (λ turn t. (t, value (deps.ensure_project environment)))
