-- ===== src/Commands/Prepare/Stale.antt =====
-- A preparation that is repeated after the preparation of another task.
use shared_dev_context_layer.Base.{ℕ, String, ◌≡◌, some}
use shared_dev_context_layer.Persistence.Idempotency.{
  CommandKey, command_key_Eq, resolve_idempotent_result,
}
use shared_dev_context_layer.Commands.Types.{
  LocalCommandResult, EnvironmentSnapshot, ProjectRuntimeSnapshot,
}
use shared_dev_context_layer.Commands.Session.{Turn, works, Tables, Session}
use shared_dev_context_layer.Commands.Deps.{Deps}
use shared_dev_context_layer.Commands.Keeps.{Keeps}
use shared_dev_context_layer.Commands.Reports.{result_from_idempotent}
use shared_dev_context_layer.Commands.Prepare.{
  PrepareDeps, prepare_name, prepare_key, prepare_key_of,
}

module _ (deps : Deps) (turns : ℕ → Turn) (prepare : PrepareDeps)
    (alone : (n : ℕ) (t : Tables) → ((turns n).others t).claims ≡ t.claims) (project : String)
    (kept : CommandKey) (response : String) where
  -- The result of another command is recorded.
  abbrev IsRecorded : Session → Type 0
  IsRecorded s = resolve_idempotent_result kept s.tables.claims ≡ some response

module _ (deps : Deps) (turns : ℕ → Turn) (prepare : PrepareDeps)
    (working : (n : ℕ) → (turns n).fault ≡ works)
    (claims_alone : (n : ℕ) (t : Tables) → ((turns n).others t).claims ≡ t.claims)
    (project : String) (environment : EnvironmentSnapshot) (intent : String)
    (snapshot : ProjectRuntimeSnapshot) (response : String) where
  abbrev repeated_key : CommandKey
  repeated_key =
      prepare_key deps turns prepare project
        (prepare_key_of deps turns prepare intent project snapshot)

  abbrev recorded_result : LocalCommandResult
  recorded_result = result_from_idempotent prepare_name (deps.read_payload response)
