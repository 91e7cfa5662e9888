-- ===== src/Commands/Index.antt =====
-- `localIndex` of vscode-extension/src/local/localCommandService.ts, over an interface for the
-- indexer. Of the data of a result the strings are kept, and the counts of the indexer.
pub mod Closed
mod Tests
use Prim.Native.String
use shared_dev_context_layer.Base.{
  ℕ, String, Bool, true, false, Option, none, some, List, [], ◌∷◌, if◌then◌else◌,
}
use shared_dev_context_layer.Persistence.IndexRuns.{
  IndexRunCounts, no_counts, created_run, create_index_run, complete_index_run,
  create_or_update_index_run_metrics,
}
use shared_dev_context_layer.Commands.Types.{
  LocalCommandResult, CommandStatus, text_json, number_json, EnvironmentSnapshot,
  ProjectRuntimeSnapshot, running,
}
use shared_dev_context_layer.Commands.Session.{
  Result, value, Action, Call, ◌>>=◌, ◌>>◌, from_result, gets, catching, Turn, call,
}
use shared_dev_context_layer.Commands.Deps.{Deps, PersistenceHealthcheck}
use shared_dev_context_layer.Commands.Reports.{make_result, apply_environment}
use shared_dev_context_layer.Commands.Guards.{
  ensure_local_profile, enforce_workspace_boundary, refresh_persistence_status,
  ensure_project_from_environment,
}
use shared_dev_context_layer.Commands.Closing.{text_or_null}
use shared_dev_context_layer.Commands.Calls.{return_pushed}

-- `metrics`, with its numbers in the order of the columns
pub record WorkspaceIndexResult : Type 0 where
  pub message : String
  pub root_path : Option String
  pub metrics : IndexRunCounts

abbrev pub RunIndex : Type 0
RunIndex = String → ProjectRuntimeSnapshot → Result WorkspaceIndexResult

abbrev pub index_name : String
index_name = "local_index"

unfoldable pub create_call : String → Call String
create_call project turn t = (
  record t {
    index_runs =
        create_index_run turn.fresh_id (created_run project "started" none turn.now) t.index_runs;
  },
  value turn.fresh_id,
)

unfoldable pub count_call : String → IndexRunCounts → Call Unit
count_call id counts turn t =
    (record t { index_runs = create_or_update_index_run_metrics id counts t.index_runs }, value tt)

unfoldable pub complete_call : String → String → String → Call Unit
complete_call id status summary turn t = (
  record t { index_runs = complete_index_run turn.now id status (some summary) t.index_runs },
  value tt,
)

abbrev pub one_error : IndexRunCounts
one_error = record no_counts { error_count = 1 }

module _ (deps : Deps) (turns : ℕ → Turn) (run_index : RunIndex) where
  unfoldable pub indexed_result : String → String → WorkspaceIndexResult → LocalCommandResult
  indexed_result project id indexed =
      let m = indexed.metrics in
      make_result index_name CommandStatus.ok indexed.message (
        some (
          ("project_id", text_json project)
          ∷ ("index_run_id", text_json id)
          ∷ ("root_path", text_or_null indexed.root_path)
          ∷ ("scanned", number_json m.scanned_count)
          ∷ ("new", number_json m.new_count)
          ∷ ("modified", number_json m.modified_count)
          ∷ ("deleted", number_json m.deleted_count)
          ∷ ("skipped", number_json m.skipped_count)
          ∷ ("chunks_written", number_json m.chunk_count)
          ∷ ("errors", number_json m.error_count)
          ∷ []))

  unfoldable pub record_indexed : String → String → WorkspaceIndexResult → Action LocalCommandResult
  record_indexed project id indexed = call turns (count_call id indexed.metrics) >>= λ _.
      call turns (complete_call id "completed" indexed.message) >>= λ _.
      return_pushed deps (indexed_result project id indexed) false

  unfoldable pub index_run : String → String → Action LocalCommandResult
  index_run project id = gets (λ s. s.runtime) >>= λ snapshot.
      from_result (run_index project snapshot) >>= record_indexed project id

  unfoldable pub failed_result : String → String → String → LocalCommandResult
  failed_result project id message =
      make_result index_name CommandStatus.error (String.◌++◌ "Indexación local falló: " message)
        (some (("project_id", text_json project) ∷ ("index_run_id", text_json id) ∷ []))

  unfoldable pub on_run_error : String → String → String → Action LocalCommandResult
  on_run_error project id message = call turns (count_call id one_error) >>= λ _.
      call turns (complete_call id "failed" message) >>= λ _.
      return_pushed deps (failed_result project id message) true

  unfoldable pub index_created : String → String → Action LocalCommandResult
  index_created project id = catching (index_run project id) (on_run_error project id)

  unfoldable pub index_project : String → Action LocalCommandResult
  index_project project = call turns (create_call project) >>= index_created project

  unfoldable pub index_with_health :
      EnvironmentSnapshot → PersistenceHealthcheck → Action LocalCommandResult
  index_with_health environment health =
      if health.ok
      then (ensure_project_from_environment deps turns environment >>= index_project)
      else return_pushed deps
          (make_result index_name CommandStatus.error
            "Persistencia PostgreSQL no disponible para Local Index."
            (some (("db_error", text_or_null health.error) ∷ [])))
          true

  unfoldable pub index_guarded :
      EnvironmentSnapshot → Option LocalCommandResult → Action LocalCommandResult
  index_guarded environment (some refusal) = return_pushed deps refusal true
  index_guarded environment none =
      refresh_persistence_status deps turns >>= index_with_health environment

  unfoldable pub index_in : EnvironmentSnapshot → Action LocalCommandResult
  index_in environment =
      apply_environment deps environment index_name running
      >> index_guarded environment (enforce_workspace_boundary deps index_name environment)

  unfoldable pub on_index_error : String → Action LocalCommandResult
  on_index_error message =
      return_pushed deps (make_result index_name CommandStatus.error message none) true

  unfoldable pub index_unblocked : Option LocalCommandResult → Action LocalCommandResult
  index_unblocked (some refusal) = return_pushed deps refusal true
  index_unblocked none = catching (from_result deps.inspect >>= index_in) on_index_error

  unfoldable pub local_index : Action LocalCommandResult
  local_index = index_unblocked (ensure_local_profile deps index_name)
