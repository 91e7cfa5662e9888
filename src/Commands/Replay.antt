-- ===== src/Commands/Replay.antt =====
-- What a run does with the record of an earlier one.
use shared_dev_context_layer.Base.{◌≡◌, some, string_Eq}
use shared_dev_context_layer.Base.Table.{lookup}
use shared_dev_context_layer.Persistence.Idempotency.{CommandKey, command_key_Eq, ClaimRow}
use shared_dev_context_layer.Commands.Types.{LocalCommandResult}
use shared_dev_context_layer.Commands.Session.{Result, value, Session}
use shared_dev_context_layer.Commands.Deps.{Deps}

-- The run has returned `result`, started nothing, and left the tasks and the record at `key`.
pub record HasReplayed (result : LocalCommandResult) (key : CommandKey) (row : ClaimRow)
    (s : Session) (x : Result LocalCommandResult × Session) : Type 0 where
  pub returned : x.0 ≡ value result
  pub not_run : x.1.runs ≡ s.runs
  pub tasks : x.1.tables.tasks ≡ s.tables.tasks
  pub recorded : lookup key x.1.tables.claims ≡ some row
