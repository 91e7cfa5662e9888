-- ===== src/Persistence/Records.antt =====
-- What a run leaves in the database: the writes of `executions`, `execution_artifacts`, `decisions`
-- and `events` that stand in `saveExecutionWithClient`, `saveExecutionArtifactWithClient`,
-- `saveDecisionWithClient`, `saveEventWithClient` of
-- vscode-extension/src/local/persistence/postgresPersistenceAdapter.ts, and their rollback. New rows
-- stand first. The random id of a new row is an argument. The metadata of artifacts, the statement
-- of a decision, the payload of an event, the output columns of an execution and the times, which
-- this code does not read, are left out; `seq_no` is never given by the callers.
pub mod Sequence
use shared_dev_context_layer.Base.{
  ℕ, String, Bool, true, false, ◌&&◌, not, max, suc, Option, none, some, List, [], ◌∷◌,
  if◌then◌else◌, ◌==◌, string_Eq, ◌||◌, any, drop, nat_eq,
}
use shared_dev_context_layer.Base.Strings.{is_empty, trim_str}
use shared_dev_context_layer.Base.Text.{Text}
use shared_dev_context_layer.PostRun.Types.{CodexExecutionResult, Severity}
use shared_dev_context_layer.PostRun.Timeout.{is_timeout_message}

pub record ExecutionRow : Type 0 where
  pub id : String
  pub task_id : String
  pub project_id : String
  pub status : String
  pub error : Option String
  pub warnings_count : ℕ
  pub timeout : Bool
  pub idempotency_key : Option String

pub record ArtifactRow : Type 0 where
  pub id : String
  pub execution_id : String
  pub project_id : String
  pub artifact_type : String
  pub content : Text

pub record DecisionRow : Type 0 where
  pub id : String
  pub project_id : String
  pub title : String
  pub source : String

pub record EventRow : Type 0 where
  pub id : String
  pub project_id : String
  pub task_id : Option String
  pub execution_id : Option String
  pub seq_no : Option ℕ
  pub event_type : String
  pub severity : Severity
  pub message : String
  pub idempotency_key : Option String

pub record Records : Type 0 where
  pub executions : List ExecutionRow
  pub artifacts : List ArtifactRow
  pub decisions : List DecisionRow
  pub events : List EventRow

pub record SaveExecutionInput : Type 0 where
  pub project_id : String
  pub task_id : String
  pub result : CodexExecutionResult
  pub idempotency_key : Option String

pub record SaveExecutionArtifactInput : Type 0 where
  pub project_id : String
  pub execution_id : String
  pub artifact_type : String
  pub content : Text

pub record SaveDecisionInput : Type 0 where
  pub project_id : String
  pub title : String
  pub source : String

pub record SaveEventInput : Type 0 where
  pub project_id : String
  pub task_id : Option String
  pub execution_id : Option String
  pub event_type : String
  pub severity : Severity
  pub message : String
  pub idempotency_key : Option String

abbrev pub execution_status : CodexExecutionResult → String
execution_status result =
    if result.cancelled then "cancelled" else if result.ok then "ok" else "error"

-- The id of the new row.
unfoldable pub save_execution : String → SaveExecutionInput → Records → Records × String
save_execution id input records = (
  record records {
    executions =
        record {
          id = id;
          task_id = input.task_id;
          project_id = input.project_id;
          status = execution_status input.result;
          error = input.result.error;
          warnings_count = input.result.warnings_count;
          timeout = is_timeout_message input.result.error;
          idempotency_key = input.idempotency_key;
        }
        ∷ records.executions;
  },
  id,
)

unfoldable pub save_execution_artifact :
    String → SaveExecutionArtifactInput → Records → Records × String
save_execution_artifact id input records = (
  record records {
    artifacts =
        record {
          id = id;
          execution_id = input.execution_id;
          project_id = input.project_id;
          artifact_type = input.artifact_type;
          content = input.content;
        }
        ∷ records.artifacts;
  },
  id,
)

unfoldable pub save_decision : String → SaveDecisionInput → Records → Records × String
save_decision id input records = (
  record records {
    decisions =
        record {
          id = id;
          project_id = input.project_id;
          title = input.title;
          source = input.source;
        }
        ∷ records.decisions;
  },
  id,
)

-- A comparison with NULL is not true.
abbrev pub has_text : String → Option String → Bool
has_text s none = false
has_text s (some t) = t == s

abbrev pub is_duplicate : SaveEventInput → String → EventRow → Bool
is_duplicate input key row =
    row.project_id == input.project_id
    && row.event_type == input.event_type
    && has_text key row.idempotency_key

-- SELECT id … LIMIT 1
unfoldable pub find_event : SaveEventInput → String → List EventRow → Option String
find_event input key [] = none
find_event input key (row ∷ rows) =
    let rest = find_event input key rows in if is_duplicate input key row then some row.id else rest

unfoldable pub existing_event : SaveEventInput → List EventRow → Option String → Option String
existing_event input rows none = none
existing_event input rows (some key) =
    let found = find_event input key rows in if is_empty (trim_str key) then none else found

abbrev pub seq_or_zero : Option ℕ → ℕ
seq_or_zero none = 0
seq_or_zero (some n) = n

-- COALESCE(MAX(seq_no), 0) of the events of an execution
unfoldable pub max_seq : String → List EventRow → ℕ
max_seq execution [] = 0
max_seq execution (row ∷ rows) =
    let rest = max_seq execution rows in
    if has_text execution row.execution_id then max (seq_or_zero row.seq_no) rest else rest

abbrev pub next_seq : Option String → List EventRow → Option ℕ
next_seq none rows = none
next_seq (some execution) rows =
    if is_empty execution then none else some (suc (max_seq execution rows))

abbrev pub event_row : String → SaveEventInput → List EventRow → EventRow
event_row id input rows = record {
  id = id;
  project_id = input.project_id;
  task_id = input.task_id;
  execution_id = input.execution_id;
  seq_no = next_seq input.execution_id rows;
  event_type = input.event_type;
  severity = input.severity;
  message = input.message;
  idempotency_key = input.idempotency_key;
}

-- The same value, where NULL is the same as nothing.
abbrev pub same_text : Option String → Option String → Bool
same_text none b = false
same_text (some a) b = has_text a b

abbrev pub same_number : Option ℕ → Option ℕ → Bool
same_number (some m) (some n) = nat_eq m n
same_number _ _ = false

-- The unique indexes idx_events_execution_seq and idx_events_project_type_idempotency.
abbrev pub takes_number : EventRow → EventRow → Bool
takes_number new row =
    same_text new.execution_id row.execution_id && same_number new.seq_no row.seq_no

abbrev pub takes_key : EventRow → EventRow → Bool
takes_key new row =
    row.project_id == new.project_id
    && row.event_type == new.event_type
    && same_text new.idempotency_key row.idempotency_key

-- INSERT; `none` is the error of a unique index.
unfoldable pub insert_event : EventRow → List EventRow → Option (List EventRow)
insert_event new rows =
    if any (λ row. takes_number new row || takes_key new row) rows then none else some (new ∷ rows)

abbrev pub with_events : String → Records → Option (List EventRow) → Option (Records × String)
with_events id records none = none
with_events id records (some events) = some (record records { events = events }, id)

unfoldable pub save_event_on :
    String → SaveEventInput → List EventRow → Records → Option String → Option (Records × String)
save_event_on id input seen records (some existing) = some (records, existing)
save_event_on id input seen records none =
    with_events id records (insert_event (event_row id input seen) records.events)

-- The id of the event: of the one with this idempotency key, if there is one. The two SELECTs and
-- the INSERT are statements of their own. Events are never deleted and the newest stands first, so
-- what a SELECT has seen is the table without the newest rows: those that other clients have
-- inserted after the first SELECT, and after the second.
unfoldable pub save_event :
    (after_find after_max : ℕ) → String → SaveEventInput → Records → Option (Records × String)
save_event after_find after_max id input records =
    save_event_on id input (drop after_max records.events) records
      (existing_event input (drop after_find records.events) input.idempotency_key)

-- One call of `saveEvent`, at its INSERT.
pub record SavedEvent : Type 0 where
  pub after_find : ℕ
  pub after_max : ℕ
  pub id : String
  pub input : SaveEventInput

abbrev pub or_unchanged : Records → Option (Records × String) → Records
or_unchanged records none = records
or_unchanged records (some (saved, id)) = saved

-- Calls of any clients in the order of their INSERTs; one that throws changes nothing.
unfoldable pub save_events : List SavedEvent → Records → Records
save_events [] records = records
save_events (e ∷ rest) records =
    save_events rest
      (or_unchanged records (save_event e.after_find e.after_max e.id e.input records))
