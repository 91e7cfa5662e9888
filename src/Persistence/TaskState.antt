-- ===== src/Persistence/TaskState.antt =====
-- The lifecycle of tasks: `getTaskLifecycleState`, `transitionTaskState`, `saveTask` of
-- vscode-extension/src/local/persistence/postgresPersistenceAdapter.ts over the column
-- `lifecycle_state` of `tasks`. A state is its text, and an id is unique among the tasks of all
-- projects. `none` is the thrown error of an invalid transition. Of a transition the UPDATE is
-- modelled. The INSERT into task_state_transitions, a second statement that no code reads, is not:
-- where it fails the caller has an error after the UPDATE, as from a call whose answer is lost
-- (`unanswered` of Commands.Session).
pub mod Settled
mod Tests
use shared_dev_context_layer.Base.{
  ℕ, String, Bool, true, false, ◌&&◌, Option, none, some, List, [], ◌∷◌, if◌then◌else◌, ◌==◌,
  string_Eq, Eq, ◌≡◌, ◌↔◌, arith,
}
use shared_dev_context_layer.Base.Table.{lookup, insert}

pub record TaskKey : Type 0 where
  pub project_id : String
  pub task_id : String

unfoldable pub task_key_eq : TaskKey → TaskKey → Bool
task_key_eq a b = a.project_id == b.project_id && a.task_id == b.task_id

pub task_key_eq_iff : (a b : TaskKey) → (task_key_eq a b ≡ true) ↔ (a ≡ b)
unfolding task_key_eq
task_key_eq_iff a b = ground (
  arith,
  string_Eq.equals_iff a.project_id b.project_id,
  string_Eq.equals_iff a.task_id b.task_id,
)

instance abbrev pub task_key_Eq : Eq TaskKey
task_key_Eq = record { equals = task_key_eq; equals_iff = task_key_eq_iff }

pub record TransitionTaskStateInput : Type 0 where
  pub key : TaskKey
  pub from_state : Option String
  pub to_state : String

pub record TaskStore : Type 0 where
  pub lifecycle : List (TaskKey × String)

unfoldable pub get_task_lifecycle_state : TaskKey → TaskStore → Option String
get_task_lifecycle_state key store = lookup key store.lifecycle

-- `$5::text IS NULL OR lifecycle_state = $5`
abbrev pub is_from : Option String → String → Bool
is_from none current = true
is_from (some from) current = current == from

unfoldable pub transition_on :
    TransitionTaskStateInput → TaskStore → Option String → Option TaskStore
transition_on input store none = none
transition_on input store (some current) =
    if is_from input.from_state current
    then some (record { lifecycle = insert input.key input.to_state store.lifecycle })
    else none

unfoldable pub transition_task_state : TransitionTaskStateInput → TaskStore → Option TaskStore
transition_task_state input store = transition_on input store (lookup input.key store.lifecycle)

-- `saveTask`: INSERT, or UPDATE of the task that has the id; the lifecycle state is written in both.
unfoldable pub save_task : TaskKey → String → TaskStore → TaskStore
save_task key state store = record store { lifecycle = insert key state store.lifecycle }
