-- ===== src/Commands/Prepare/Fresh.antt =====
-- The end of a preparation that is not answered from a record.
use shared_dev_context_layer.Base.{ℕ, ◌≡◌, String, some}
use shared_dev_context_layer.Base.Table.{lookup}
use shared_dev_context_layer.Persistence.Idempotency.{command_key_Eq, resolve_idempotent_result}
use shared_dev_context_layer.Persistence.TaskState.{TaskKey, task_key_Eq}
use shared_dev_context_layer.Commands.Types.{LocalCommandResult, LocalTaskDraft}
use shared_dev_context_layer.Commands.Session.{Result, value, Turn, works, Tables, Session}
use shared_dev_context_layer.Commands.Deps.{Deps}
use shared_dev_context_layer.Commands.Prepare.{PrepareDeps, prepare_key}

-- `result` has been returned, the task is prepared and in the store, and the result is recorded.
pub record IsPrepared (deps : Deps) (turns : ℕ → Turn) (prepare : PrepareDeps)
    (project key : String) (draft : LocalTaskDraft) (result : LocalCommandResult)
    (x : Result LocalCommandResult × Session) : Type 0 where
  pub returned : x.0 ≡ value result
  pub state :
      lookup (record { project_id = project; task_id = draft.id }) x.1.tables.tasks.lifecycle
      ≡ some "prepared"
  pub in_store : x.1.runtime.task_draft ≡ some draft
  pub recorded :
      resolve_idempotent_result (prepare_key deps turns prepare project key) x.1.tables.claims
      ≡ some (deps.to_json result)

module _ (deps : Deps) (turns : ℕ → Turn) (prepare : PrepareDeps)
    (working : (n : ℕ) → (turns n).fault ≡ works)
    (alone : (n : ℕ) (t : Tables) → ((turns n).others t).tasks ≡ t.tasks) (project key : String)
    (draft : LocalTaskDraft) where
  abbrev task_of_draft : TaskKey
  task_of_draft = record { project_id = project; task_id = draft.id }
