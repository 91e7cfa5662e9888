-- ===== src/Commands/Tests.antt =====
-- Runs of the commands at concrete tables, and the theorems about them there.
use shared_dev_context_layer.Base.{
  ℕ, ◌*◌, String, true, false, none, some, [], ◌∷◌, refl, nat_eq, if◌then◌else◌, arith, inl, inr,
  Bool-cases,
}
use shared_dev_context_layer.PostRun.Types.{
  CodexExecutionResult, applied_changes, info, scoped, accept,
}
use shared_dev_context_layer.PostRun.Reconciler.{PostRunReconciliationResult}
use shared_dev_context_layer.Commands.Types.{
  LocalTaskDraft, EnvironmentSnapshot, ProjectRuntimeSnapshot, InspectorStatus, ready, connected,
  LocalCommandResult,
}
use shared_dev_context_layer.Commands.Session.{Result, value, Turn, works, fails, Session, Fault}
use shared_dev_context_layer.Commands.Deps.{Deps, Payload}
use shared_dev_context_layer.Base.Table.{lookup}
use shared_dev_context_layer.Persistence.TaskState.{task_key_eq, task_key_Eq}
use shared_dev_context_layer.Persistence.TaskState.Settled.{IsIdle}
use shared_dev_context_layer.Persistence.Idempotency.{
  CommandKey, command_key_Eq, ClaimRow, completed, in_progress,
}
use shared_dev_context_layer.Commands.Settled.Run.{local_run_codex-IsIdle}
use shared_dev_context_layer.Commands.Released.{NoLock, local_run_codex-releases}
use shared_dev_context_layer.Commands.Errors.{HasFewErrors, local_run_codex-few_errors}
use shared_dev_context_layer.Commands.Closed.Whole.{IsWhole}
use shared_dev_context_layer.Commands.Closed.{local_run_codex-IsWhole}
use shared_dev_context_layer.Commands.Run.{no_locals, local_run_codex}

abbrev good_run : CodexExecutionResult
good_run = record {
  ok = true;
  cancelled = false;
  error = none;
  warnings_count = 0;
  final_message = some "done";
  stderr_warning_reasons = none;
  prompt = none;
}

abbrev pub draft : LocalTaskDraft
draft = record {
  id = "T";
  objective = "o";
  created_at = "2026";
  candidate_files = [];
  brief_candidate_files = none;
}

abbrev pub environment : EnvironmentSnapshot
environment = record {
  inspector_status = InspectorStatus.ok;
  workspace_root = some "/w";
  repo_root = some "/w";
  branch = some "main";
  active_file = none;
}

abbrev reconciled_from : CodexExecutionResult → PostRunReconciliationResult
reconciled_from execution = record {
  execution_result = execution;
  timeout_flag = false;
  before_entries = [];
  after_entries = [];
  workspace_diff = record {
    created_files = "a" ∷ [];
    modified_files = [];
    deleted_files = [];
    unchanged_files = [];
    changed_files_count = 1;
    changed_files_preview = "a" ∷ [];
    unchanged_count = 0;
  };
  classification = record {
    outcome = applied_changes;
    reasons = [];
    anomaly_flags = [];
    severity = info;
  };
  reindex_result = record {
    mode = scoped;
    ok = true;
    message = "";
    trigger_reason = "";
    changed_paths = "a" ∷ [];
    error = none;
  };
  review_payload = record {
    final_message = none;
    warnings = [];
    pending_risks = [];
    next_action = "";
  };
}

abbrev payload : Payload
payload = record { status = some "ok"; ok = some true; message = some "done"; details = none }

abbrev pub deps : Deps
deps = record {
  inspect = value environment;
  operation_profile = "local_private";
  codex_cli_command = "";
  boundary_guard = none;
  healthcheck = record { ok = true; db_status = connected; error = none };
  ensure_project = λ e. "P";
  capture = value tt;
  reconcile_rest = λ e. value (reconciled_from e);
  codex_healthcheck = λ c a. value good_run;
  codex_run = λ r c a. value good_run;
  beats_before = 0;
  beats_during = 1;
  beats_reconciling = 1;
  beats_closing = 1;
  review = λ i. value (record {
    review_decision = accept;
    review_risks = [];
    changed_files_focus = [];
    next_action_plan = "";
    source_execution_id = "E";
    source_task_id = "T";
    reason_codes = [];
  });
  lock_uuid = "L";
  claim_uuid = "C";
  sha256_hex = λ s. s;
  to_json = λ r. r.message;
  read_payload = λ s. payload;
  stringify = λ d. [];
}

abbrev pub turns_with : (ℕ → Fault) → ℕ → Turn
turns_with faults n = record {
  now = 1000 * n;
  others = λ t. t;
  user_aborts = false;
  fault = faults n;
  fresh_id = "id";
  before_select = [];
  before_update = [];
}

abbrev pub calm : ℕ → Turn
calm = turns_with (λ n. works)

abbrev pub runtime : ProjectRuntimeSnapshot
runtime = record {
  operation_profile = "local_private";
  workspace_root = none;
  repo_root = none;
  branch = none;
  active_file = none;
  runtime_state = ready;
  last_action = none;
  last_result = none;
  errors = [];
  db_status = connected;
  db_error = none;
  task_draft = some draft;
}

abbrev pub start_in : String → Session
start_in state = record {
  tables = record {
    locks = [];
    claims = [];
    tasks = record { lifecycle = (record { project_id = "P"; task_id = "T" }, state) ∷ [] };
    index_runs = [];
  };
  records = record { executions = []; artifacts = []; decisions = []; events = [] };
  runtime = runtime;
  locals = no_locals;
  aborted = false;
  calls = 0;
  runs = 0;
}

demo : Result LocalCommandResult × Session
demo = local_run_codex deps calm (start_in "prepared")

no_locks_held : NoLock "L" []
unfolding lookup
no_locks_held q = tt

-- The call with number 12 fails.
abbrev bad_calls : ℕ → Fault
bad_calls n = if nat_eq n 12 then fails "down" else works

local_run_codex-releases_example :
    NoLock "L" (local_run_codex deps calm (start_in "prepared")).1.tables.locks
local_run_codex-releases_example =
    local_run_codex-releases deps calm (start_in "prepared") (λ n t q h. h) no_locks_held tt

local_run_codex-few_errors_example :
    HasFewErrors (local_run_codex deps (turns_with bad_calls) (start_in "prepared")).1.runtime
local_run_codex-few_errors_example =
    local_run_codex-few_errors deps (turns_with bad_calls) (start_in "prepared") (omega arith)

local_run_codex-IsWhole_example :
    IsWhole deps (local_run_codex deps (turns_with bad_calls) (start_in "prepared")).1.records
local_run_codex-IsWhole_example =
    local_run_codex-IsWhole deps (turns_with bad_calls) (start_in "prepared")
      (record { closings = (refl, refl) })

IsIdle-start : IsIdle (start_in "prepared").tables.tasks
unfolding lookup
IsIdle-start k = elim (Bool-cases (task_key_eq (record { project_id = "P"; task_id = "T" }) k)) [
  | inl e ↦ rw e refl
  | inr e ↦ rw e refl
]

local_run_codex-IsIdle_example :
    IsIdle (local_run_codex deps calm (start_in "prepared")).1.tables.tasks
local_run_codex-IsIdle_example =
    local_run_codex-IsIdle deps calm (start_in "prepared") (λ n. refl) (λ n t. refl) IsIdle-start

abbrev run_command : CommandKey
run_command = record { project_id = "P"; command = "local_run_codex"; idempotency_key = "K" }

abbrev over : ClaimRow
over = record {
  status = completed;
  response_json = "done";
  claim_id = some "C0";
  owner = some "local_run_codex";
  lease_expires_at = none;
  started_at = some 0;
  finished_at = some 1;
  last_error = none;
  updated_at = 1;
}

abbrev claimed_by_run : ClaimRow
claimed_by_run = record {
  status = in_progress;
  response_json = "{}";
  claim_id = some "C";
  owner = some "local_run_codex";
  lease_expires_at = some 180000;
  started_at = some 0;
  finished_at = none;
  last_error = none;
  updated_at = 0;
}

abbrev start_with : ClaimRow → Session
start_with row =
    let s = start_in "prepared" in
    record s { tables = record s.tables { claims = (run_command, row) ∷ [] } }
