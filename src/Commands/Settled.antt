-- ===== src/Commands/Settled.antt =====
-- The tasks when a run is over.
pub mod Closing
pub mod Run
use shared_dev_context_layer.Base.{
  ℕ, ◌≡◌, refl, ◌≢◌, sym, ◌∙◌, ◌⊎◌, inl, inr, String, Bool, true, false, ◌||◌, Option, none, some,
  if◌then◌else◌, ◌==◌, string_Eq, arith, Bool-cases, ap,
}
use shared_dev_context_layer.Base.Table.{lookup}
use shared_dev_context_layer.PostRun.Types.{
  ExecutionOutcome, blocked, failed, timeout, cancelled, no_op, applied_changes, partial_changes,
}
use shared_dev_context_layer.PostRun.Reconciler.{PostRunReconciliationResult}
use shared_dev_context_layer.Persistence.Idempotency.Claim.{ClaimStatus}
use shared_dev_context_layer.Persistence.TaskState.{
  TaskKey, task_key_Eq, TaskStore, get_task_lifecycle_state, transition_task_state,
}
use shared_dev_context_layer.Persistence.TaskState.Settled.{
  is_active, IdleBut, IsIdle, transition-IdleBut, transition-IsIdle, transition_from-some,
}
use shared_dev_context_layer.Commands.Types.{
  LocalCommandResult, LocalTaskDraft, EnvironmentSnapshot, CommandStatus,
}
use shared_dev_context_layer.Commands.Session.{
  Result, value, threw, Action, Call, continue, ◌>>=◌, ◌>>◌, pure, gets, set_locals, attempt, Turn,
  Fault, works, fails, unanswered, Tables, Session, Locals, ActiveClaim, enter, answer_with, call,
  recover,
}
use shared_dev_context_layer.Commands.Deps.{Deps}
use shared_dev_context_layer.Commands.Keeps.{Keeps, Enters, call-Keeps, continue-Keeps}
use shared_dev_context_layer.Commands.Execution.{
  transitioned_to, transition_call, reconcile_run, final_task_state_from_outcome,
}
use shared_dev_context_layer.Commands.Calls.{return_pushed}
use shared_dev_context_layer.Commands.Quiet.{IsQuiet, return_pushed-Keeps}
use shared_dev_context_layer.Commands.Run.{
  fail_from, try_transition_task_to_failure, fail_started_task,
}

-- A final state, or one before the run.
final_state-inactive :
    (outcome : ExecutionOutcome) → is_active (some (final_task_state_from_outcome outcome)) ≡ false
unfolding final_task_state_from_outcome
final_state-inactive blocked = refl
final_state-inactive failed = refl
final_state-inactive timeout = refl
final_state-inactive cancelled = refl
final_state-inactive no_op = refl
final_state-inactive applied_changes = refl
final_state-inactive partial_changes = refl

abbrev tasks_of : Session → TaskStore
tasks_of s = s.tables.tasks

module _ (turns : ℕ → Turn) (working : (n : ℕ) → (turns n).fault ≡ works)
    (alone : (n : ℕ) (t : Tables) → ((turns n).others t).tasks ≡ t.tasks) where
  -- A predicate on the tasks passes to the next call.
  enters_tasks :
      (P : TaskStore → Type 0) (s : Session)
      → P (tasks_of s)
      → P (tasks_of (enter (turns s.calls) s))
  enters_tasks P s h = rw (alone s.calls s.tables) h

  answered_working :
      {A : Type 0} (fault : Fault) (op : Call A) (turn : Turn) (s : Session) (Q : Session → Type 0)
      → fault ≡ works
      → Q (record s { tables = (op turn s.tables).0 })
      → Q (answer_with fault op turn s).1
  answered_working fault op turn s Q e h = rw e h

  call_working :
      {A : Type 0} (op : Call A) (P : TaskStore → Type 0) (Q : Session → Type 0) (s : Session)
      → P (tasks_of s)
      → ((turn : Turn) (u : Session)
          → P (tasks_of u)
          → Q (record u { tables = (op turn u.tables).0 }))
      → Q (call turns op s).1
  unfolding call
  call_working op P Q s h step =
      let turn = turns s.calls in
      answered_working turn.fault op turn (enter turn s) Q (working s.calls)
        (step turn (enter turn s) (enters_tasks P s h))

  transitioned-IsIdle :
      (o : Option TaskStore) (u : Session)
      → ((t : TaskStore) → o ≡ some t → IsIdle t)
      → (t : TaskStore) × (o ≡ some t)
      → IsIdle (transitioned_to o u.tables).0.tasks
  transitioned-IsIdle none u idle (t, e) = λ k. ground arith
  transitioned-IsIdle (some t) u idle _ = idle t refl

  -- From a state that the task has, to one that is not active.
  fail_transition-IsIdle :
      (task : TaskKey) (from : String) (s : Session)
      → lookup task (tasks_of s).lifecycle ≡ some from
      → IdleBut task (tasks_of s)
      → IsIdle (tasks_of (call turns (transition_call task (some from) "failed") s).1)
  unfolding transition_call
  fail_transition-IsIdle task from s found idle =
      call_working (transition_call task (some from) "failed")
        (λ store. (lookup task store.lifecycle ≡ some from) × IdleBut task store)
        (λ u. IsIdle (tasks_of u)) s (found, idle)
        (λ turn u (found', idle').
          transitioned-IsIdle _ u
            (λ t e.
              transition-IsIdle (record { key = task; from_state = some from; to_state = "failed" })
                (tasks_of u) t e refl idle')
            (transition_from-some task from "failed" (tasks_of u) found'))

  settled_state :
      (task : TaskKey) (store : TaskStore) (o : Option String)
      → lookup task store.lifecycle ≡ o
      → is_active o ≡ false
      → IdleBut task store
      → IsIdle store
  settled_state task store o found inactive idle k = elim (Bool-cases (task_key_Eq.equals k task)) [
    | inl e ↦ let same = (task_key_Eq.equals_iff k task).0 e in rw (same, found) inactive
    | inr e ↦ idle k (λ same. ground (arith, task_key_Eq.equals_iff k task))
  ]

  fail_from-IsIdle :
      (deps : Deps) (task : TaskKey) (o : Option String) (s : Session)
      → lookup task (tasks_of s).lifecycle ≡ o
      → IdleBut task (tasks_of s)
      → IsIdle (tasks_of (fail_from deps turns task o s).1)
  unfolding fail_from
  fail_from-IsIdle deps task none s found idle =
      settled_state task (tasks_of s) none found refl idle
  fail_from-IsIdle deps task (some state) s found idle = elim (Bool-cases (state == "running")) [
    | inl e ↦
        let is_running = (string_Eq.equals_iff state "running").0 e in
        rw e (fail_transition-IsIdle task "running" s (found ∙ ap (λ x. some x) is_running) idle)
    | inr not_running ↦ elim (Bool-cases (state == "reconciling")) [
      | inl e ↦
          let is_reconciling = (string_Eq.equals_iff state "reconciling").0 e in
          rw (not_running, e)
            (fail_transition-IsIdle task "reconciling" s (found ∙ ap (λ x. some x) is_reconciling)
              idle)
      | inr e ↦
          rw (not_running, e)
            (settled_state task (tasks_of s) (some state) found (rw (not_running, e) refl) idle)
    ]
  ]

  try_transition-IsIdle :
      (deps : Deps) (task : TaskKey) (s : Session)
      → IdleBut task (tasks_of s)
      → IsIdle (tasks_of (try_transition_task_to_failure deps turns task s).1)
  unfolding try_transition_task_to_failure get_task_lifecycle_state call
  try_transition-IsIdle deps task s idle =
      let turn = turns s.calls in
      let u = enter turn s in
      rw (working s.calls) (
        fail_from-IsIdle deps task (lookup task (tasks_of u).lifecycle) u refl
          (enters_tasks (IdleBut task) s idle))

  module _ (deps : Deps) where
    -- The run has moved task `d` of project `p` on.
    pub record Started (p d : String) (s : Session) : Type 0 where
      pub project : s.locals.project_id_for_lock ≡ some p
      pub draft : s.locals.draft_id_for_state ≡ some d
      pub started : s.locals.state_transition_started ≡ true
      pub elsewhere : IdleBut (record { project_id = p; task_id = d }) (tasks_of s)

    -- No task is under way.
    abbrev pub Idle : Session → Type 0
    Idle s = IsIdle (tasks_of s)

    Idle-IsQuiet : IsQuiet deps turns Idle
    Idle-IsQuiet = record {
      enters = λ s h. enters_tasks IsIdle s h;
      claims = λ s t h. h;
      pushes = λ s _ _ h. h;
      environs = λ s _ _ _ h. h;
      connects = λ s _ _ h. h;
      aborts = λ s b h. h;
      counts = λ s n h. h;
      flags = λ s l _ _ _ _ h. h;
    }

    fail_started-Idle :
        (p d : String) (l : Locals) (project draft : Option String) (s : Session)
        → project ≡ some p
        → draft ≡ some d
        → l.state_transition_started ≡ true
        → IdleBut (record { project_id = p; task_id = d }) (tasks_of s)
        → Idle (fail_started_task deps turns l project draft s).1
    unfolding fail_started_task
    fail_started-Idle p d l project draft s of_project of_draft started idle =
        rw (of_project, of_draft, started)
          (try_transition-IsIdle deps (record { project_id = p; task_id = d }) s idle)

    abbrev pub report : Locals → Action Unit
    report l = fail_started_task deps turns l l.project_id_for_lock l.draft_id_for_state

    reported-Idle :
        (p d : String) (result : LocalCommandResult) (x : Result Unit × Session)
        → x.0 ≡ value tt
        → Started p d x.1
        → Idle
            (continue
              (λ _. return_pushed deps result true)
              (continue report (continue (λ _. gets (λ s. s.locals)) x))).1
    reported-Idle p d result (value _, s) e h =
        continue-Keeps Idle (λ _. return_pushed deps result true) (report s.locals s)
          (λ _. return_pushed-Keeps deps turns Idle Idle-IsQuiet result true)
          (fail_started-Idle p d s.locals s.locals.project_id_for_lock s.locals.draft_id_for_state s
            h.project h.draft h.started h.elsewhere)
    reported-Idle p d result (threw _, s) e h = λ k. ground arith
