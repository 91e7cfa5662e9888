-- ===== src/Commands/Types.antt =====
-- The data of the local commands: `LocalCommandResult`, `LocalTaskDraft`, `ProjectRuntimeSnapshot` of
-- vscode-extension/src/local/types.ts and `EnvironmentSnapshot` of
-- vscode-extension/src/environment/environmentInspector.ts. Of a record only the fields that the
-- modelled code reads or writes; time stamps are left out.
use shared_dev_context_layer.Base.{String, Bool, Option, List, ℕ}

pub data CommandStatus : Type 0 where
  ok error blocked : CommandStatus

-- The values in the details of a result.
pub data Json : Type 0 where
  null_json : Json
  text_json : String → Json
  flag_json : Bool → Json
  number_json : ℕ → Json
  texts_json : List String → Json

abbrev pub Details : Type 0
Details = List (String × Json)

pub record LocalCommandResult : Type 0 where
  pub command : String
  pub status : CommandStatus
  pub ok : Bool
  pub message : String
  pub details : Option Details

-- `candidate_files` of the draft, and of its execution brief where it has one.
pub record LocalTaskDraft : Type 0 where
  pub id : String
  pub objective : String
  pub created_at : String
  pub candidate_files : List String
  pub brief_candidate_files : Option (List String)

pub data InspectorStatus : Type 0 where
  ok error no_workspace no_repo : InspectorStatus

pub record EnvironmentSnapshot : Type 0 where
  pub inspector_status : InspectorStatus
  pub workspace_root : Option String
  pub repo_root : Option String
  pub branch : Option String
  pub active_file : Option String

pub data DbStatus : Type 0 where
  unknown connected disconnected : DbStatus

pub data RuntimeState : Type 0 where
  idle ready running error : RuntimeState

pub record ProjectRuntimeSnapshot : Type 0 where
  pub operation_profile : String
  pub workspace_root : Option String
  pub repo_root : Option String
  pub branch : Option String
  pub active_file : Option String
  pub runtime_state : RuntimeState
  pub last_action : Option String
  pub last_result : Option LocalCommandResult
  pub errors : List String
  pub db_status : DbStatus
  pub db_error : Option String
  pub task_draft : Option LocalTaskDraft
