-- ===== src/Persistence/TaskState/Tests.antt =====
-- Transitions of a concrete task.
use shared_dev_context_layer.Base.{String, none, some, [], ◌∷◌, ◌≡◌, refl}
use shared_dev_context_layer.Base.Table.{lookup, insert}
use shared_dev_context_layer.Persistence.TaskState.{
  TaskKey, task_key_eq, TransitionTaskStateInput, TaskStore, transition_on, transition_task_state,
}

abbrev task : TaskKey
task = record { project_id = "p"; task_id = "t" }

abbrev move : String → String → TransitionTaskStateInput
move from to = record { key = task; from_state = some from; to_state = to }

abbrev tasks : TaskStore
tasks = record { lifecycle = (task, "draft") ∷ [] }

valid_move :
    transition_task_state (move "draft" "prepared") tasks
    ≡ some (record { lifecycle = (task, "prepared") ∷ [] })
unfolding transition_task_state transition_on lookup insert task_key_eq
valid_move = refl

invalid_move : transition_task_state (move "running" "failed") tasks ≡ none
unfolding transition_task_state transition_on lookup task_key_eq
invalid_move = refl
