-- ===== src/Persistence/TaskState/Settled.antt =====
-- Transitions and the tasks that are under way.
use shared_dev_context_layer.Base.{
  ◌≡◌, refl, ◌≢◌, inl, inr, String, Bool, false, ◌||◌, Option, none, some, if◌then◌else◌, ◌==◌,
  string_Eq, arith, Bool-cases,
}
use shared_dev_context_layer.Base.Table.{lookup, insert, lookup-insert}
use shared_dev_context_layer.Persistence.TaskState.{
  TaskKey, task_key_Eq, task_key_eq, task_key_eq_iff, TransitionTaskStateInput, TaskStore,
  transition_on, transition_task_state,
}

abbrev pub is_active : Option String → Bool
is_active none = false
is_active (some state) = state == "running" || state == "reconciling"

-- No task but `task` is running or reconciling.
abbrev pub IdleBut : TaskKey → TaskStore → Type 0
IdleBut task store = (k : TaskKey) → k ≢ task → is_active (lookup k store.lifecycle) ≡ false

abbrev pub IsIdle : TaskStore → Type 0
IsIdle store = (k : TaskKey) → is_active (lookup k store.lifecycle) ≡ false

transition_on_lem :
    (input : TransitionTaskStateInput) (store t : TaskStore) (o : Option String) (k : TaskKey)
    → transition_on input store o ≡ some t
    → lookup k t.lifecycle
      ≡ (if task_key_eq input.key k then some input.to_state else lookup k store.lifecycle)
unfolding transition_on
transition_on_lem input store t none k h = ground arith
transition_on_lem input store t (some current) k h =
    ground (arith, lookup-insert input.key k input.to_state store.lifecycle)

module _ (input : TransitionTaskStateInput) (store t : TaskStore)
    (done : transition_task_state input store ≡ some t) where
  pub transition-lookup :
      (k : TaskKey)
      → lookup k t.lifecycle
        ≡ (if task_key_eq input.key k then some input.to_state else lookup k store.lifecycle)
  unfolding transition_task_state
  transition-lookup k = transition_on_lem input store t (lookup input.key store.lifecycle) k done

  pub transition-IdleBut : IdleBut input.key store → IdleBut input.key t
  transition-IdleBut idle k other =
      ground (arith, transition-lookup k, idle k other, task_key_eq_iff input.key k)

  pub transition-IsIdle :
      is_active (some input.to_state) ≡ false → IdleBut input.key store → IsIdle t
  transition-IsIdle settled idle k = elim (Bool-cases (task_key_eq input.key k)) [
    | inl e ↦ rw (transition-lookup k, e) settled
    | inr e ↦
        rw (transition-lookup k, e) (idle k (λ same. ground (arith, task_key_eq_iff input.key k)))
  ]

-- A transition from the state that the task has succeeds.
pub transition_from-some :
    (task : TaskKey) (from to : String) (store : TaskStore)
    → lookup task store.lifecycle ≡ some from
    → (t : TaskStore) × (transition_task_state
          (record { key = task; from_state = some from; to_state = to })
          store
        ≡ some t)
unfolding transition_task_state transition_on
transition_from-some task from to store found = (
  record { lifecycle = insert task to store.lifecycle },
  rw (found, (string_Eq.equals_iff from from).1 refl) refl,
)
