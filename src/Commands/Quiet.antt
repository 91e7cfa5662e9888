-- ===== src/Commands/Quiet.antt =====
-- What the steps of the commands keep that touch neither the locks nor the records: the calls for
-- claims, the reports, the exceptions of `localRunCodex` of
-- vscode-extension/src/local/localCommandService.ts.
use shared_dev_context_layer.Base.{
  ℕ, ◌≡◌, refl, String, Bool, true, false, Option, none, some, if◌then◌else◌, ◌==◌, string_Eq, ◌&&◌,
  not,
}
use shared_dev_context_layer.Persistence.Idempotency.{ClaimTable}
use shared_dev_context_layer.Persistence.TaskState.{
  get_task_lifecycle_state, transition_task_state, TaskKey, TaskStore,
}
use shared_dev_context_layer.Commands.Types.{
  CommandStatus, LocalCommandResult, EnvironmentSnapshot, RuntimeState, DbStatus,
}
use shared_dev_context_layer.Commands.Session.{
  value, Action, ◌>>=◌, ◌>>◌, pure, gets, attempt, Turn, Session, Locals, ActiveClaim, call,
}
use shared_dev_context_layer.Commands.Deps.{Deps}
use shared_dev_context_layer.Commands.Keeps.{
  Keeps, Enters, bind-Keeps, then-Keeps, if-Keeps, call-Keeps,
}
use shared_dev_context_layer.Commands.Reports.{
  is_ok, make_result, pushed, with_environment, with_db_status, push_result,
}
use shared_dev_context_layer.Commands.Execution.{transitioned_to, is_lost, transition_call}
use shared_dev_context_layer.Commands.Closing.{Ending, message_of}
use shared_dev_context_layer.Commands.Calls.{
  return_pushed, on_open_claim, with_open_claim, set_completed, fail_call, fail_claim,
  complete_call, completed_or_throw, complete_claim, finish_claim, run_name,
}
use shared_dev_context_layer.Commands.Run.{
  fail_from, try_transition_task_to_failure, fail_started_task, safe_fail_idempotency_claim,
  on_exception,
}

-- `I` passes each of these steps; `flags` leaves the variables that say which
-- lock is held and which task has been started.
pub record IsQuiet (deps : Deps) (turns : ℕ → Turn) (I : Session → Type 0) : Type 0 where
  pub enters : Enters I turns
  pub claims :
      (s : Session) (t : ClaimTable)
      → I s
      → I (record s { tables = record s.tables { claims = t } })
  pub pushes :
      (s : Session) (result : LocalCommandResult) (is_error : Bool)
      → I s
      → I (record s { runtime = pushed deps.operation_profile result is_error s.runtime })
  pub environs :
      (s : Session) (environment : EnvironmentSnapshot) (action : String) (state : RuntimeState)
      → I s
      → I (record s {
        runtime = with_environment deps.operation_profile environment action state s.runtime;
      })
  pub connects :
      (s : Session) (status : DbStatus) (problem : Option String)
      → I s
      → I (record s { runtime = with_db_status status problem s.runtime })
  pub aborts : (s : Session) (b : Bool) → I s → I (record s { aborted = b })
  pub counts : (s : Session) (n : ℕ) → I s → I (record s { runs = n })
  pub flags :
      (s : Session) (l : Locals)
      → l.lock_id ≡ s.locals.lock_id
      → l.project_id_for_lock ≡ s.locals.project_id_for_lock
      → l.draft_id_for_state ≡ s.locals.draft_id_for_state
      → l.state_transition_started ≡ s.locals.state_transition_started
      → I s
      → I (record s { locals = l })

module _ (deps : Deps) (turns : ℕ → Turn) (I : Session → Type 0) (inv : IsQuiet deps turns I) where
  pub return_pushed-Keeps :
      (result : LocalCommandResult) (is_error : Bool) → Keeps I (return_pushed deps result is_error)
  unfolding return_pushed push_result
  return_pushed-Keeps result is_error s i = inv.pushes s result is_error i

  transitioned :
      (o : Option TaskStore) (s : Session)
      → ((t : TaskStore) → o ≡ some t → I (record s { tables = record s.tables { tasks = t } }))
      → I s
      → I (record s { tables = (transitioned_to o s.tables).0 })
  transitioned none s tasks i = i
  transitioned (some t) s tasks i = tasks t refl

  pub transition-Keeps :
      (task : TaskKey) (from : Option String) (to : String)
      → ((s : Session) (t : TaskStore)
          → transition_task_state
              (record { key = task; from_state = from; to_state = to })
              s.tables.tasks
            ≡ some t
          → I s
          → I (record s { tables = record s.tables { tasks = t } }))
      → Keeps I (call turns (transition_call task from to))
  unfolding transition_call
  transition-Keeps task from to tasks =
      call-Keeps I turns (transition_call task from to) inv.enters
        (λ turn s i. transitioned _ s (λ t e. tasks s t e i) i)

  on_open_claim-Keeps :
      (f : ActiveClaim → Action Unit) (completed : Bool) (o : Option ActiveClaim)
      → ((claim : ActiveClaim) → Keeps I (f claim))
      → Keeps I (on_open_claim deps turns f completed o)
  unfolding on_open_claim
  on_open_claim-Keeps f completed none keeps = λ s i. i
  on_open_claim-Keeps f true (some claim) keeps = λ s i. i
  on_open_claim-Keeps f false (some claim) keeps = keeps claim

  pub with_open_claim-Keeps :
      (f : ActiveClaim → Action Unit)
      → ((claim : ActiveClaim) → Keeps I (f claim))
      → Keeps I (with_open_claim deps turns f)
  unfolding with_open_claim
  with_open_claim-Keeps f keeps s i =
      on_open_claim-Keeps f s.locals.claim_completed s.locals.active_claim keeps s i

  set_completed-Keeps : Keeps I set_completed
  set_completed-Keeps s i = inv.flags s _ refl refl refl refl i

  fail_call-Keeps :
      (claim : ActiveClaim) (message : String) (result : LocalCommandResult)
      → Keeps I (call turns (fail_call deps claim message result))
  unfolding fail_call
  fail_call-Keeps claim message result =
      call-Keeps I turns (fail_call deps claim message result) inv.enters
        (λ turn s i. inv.claims s _ i)

  pub fail_claim-Keeps :
      (message : String) (result : LocalCommandResult) (claim : ActiveClaim)
      → Keeps I (fail_claim deps turns message result claim)
  unfolding fail_claim
  fail_claim-Keeps message result claim =
      then-Keeps I (call turns (fail_call deps claim message result)) set_completed
        (fail_call-Keeps claim message result) set_completed-Keeps

  completed_or_throw-Keeps : (b : Bool) → Keeps I (completed_or_throw deps turns b)
  unfolding completed_or_throw
  completed_or_throw-Keeps true = set_completed-Keeps
  completed_or_throw-Keeps false = λ s i. i

  complete_claim-Keeps :
      (result : LocalCommandResult) (claim : ActiveClaim)
      → Keeps I (complete_claim deps turns result claim)
  unfolding complete_claim complete_call
  complete_claim-Keeps result claim =
      bind-Keeps I (call turns (complete_call deps claim result)) (completed_or_throw deps turns)
        (call-Keeps I turns (complete_call deps claim result) inv.enters
          (λ turn s i. inv.claims s _ i))
        completed_or_throw-Keeps

  pub finish_claim-Keeps :
      (end : Ending) (result : LocalCommandResult) (claim : ActiveClaim)
      → Keeps I (finish_claim deps turns end result claim)
  unfolding finish_claim
  finish_claim-Keeps end result claim =
      if-Keeps I (is_ok result.status && not (is_lost end.heartbeat))
        (complete_claim deps turns result claim)
        (fail_claim deps turns (message_of end) result claim) (complete_claim-Keeps result claim)
        (fail_claim-Keeps (message_of end) result claim)

  pub read_state-Keeps :
      (task : TaskKey)
      → Keeps I (call turns (λ turn t. (t, value (get_task_lifecycle_state task t.tasks))))
  read_state-Keeps task =
      call-Keeps I turns (λ turn t. (t, value (get_task_lifecycle_state task t.tasks))) inv.enters
        (λ turn s i. i)

  pub safe_fail-Keeps :
      (message : String) (result : LocalCommandResult) (claim : ActiveClaim)
      → Keeps I (safe_fail_idempotency_claim deps turns message result claim)
  unfolding safe_fail_idempotency_claim
  safe_fail-Keeps message result claim =
      then-Keeps I (attempt (call turns (fail_call deps claim message result))) set_completed
        (fail_call-Keeps claim message result) set_completed-Keeps

  -- Of the transitions to `failed` `I` must be told apart.
  module _
      (tasks : (task : TaskKey) (from : String) (s : Session) (t : TaskStore)
        → transition_task_state
            (record { key = task; from_state = some from; to_state = "failed" })
            s.tables.tasks
          ≡ some t
        → I s
        → I (record s { tables = record s.tables { tasks = t } })) where
    fail_from-Keeps : (task : TaskKey) (o : Option String) → Keeps I (fail_from deps turns task o)
    unfolding fail_from
    fail_from-Keeps task none = λ s i. i
    fail_from-Keeps task (some state) =
        if-Keeps I (state == "running")
          (call turns (transition_call task (some "running") "failed"))
          (if state == "reconciling"
            then call turns (transition_call task (some "reconciling") "failed")
            else pure tt)
          (transition-Keeps task (some "running") "failed" (tasks task "running"))
          (if-Keeps I (state == "reconciling")
            (call turns (transition_call task (some "reconciling") "failed")) (pure tt)
            (transition-Keeps task (some "reconciling") "failed" (tasks task "reconciling"))
            (λ s i. i))

    try_transition-Keeps :
        (task : TaskKey) → Keeps I (try_transition_task_to_failure deps turns task)
    unfolding try_transition_task_to_failure
    try_transition-Keeps task =
        bind-Keeps I (call turns (λ turn t. (t, value (get_task_lifecycle_state task t.tasks))))
          (fail_from deps turns task) (read_state-Keeps task) (fail_from-Keeps task)

    fail_started_task-Keeps :
        (l : Locals) (project draft : Option String)
        → Keeps I (fail_started_task deps turns l project draft)
    unfolding fail_started_task
    fail_started_task-Keeps l (some project) (some draft) =
        if-Keeps I l.state_transition_started
          (try_transition_task_to_failure deps turns
            (record { project_id = project; task_id = draft }))
          (pure tt) (try_transition-Keeps (record { project_id = project; task_id = draft }))
          (λ s i. i)
    fail_started_task-Keeps l none _ = λ s i. i
    fail_started_task-Keeps l (some project) none = λ s i. i

    pub on_exception-Keeps : (message : String) → Keeps I (on_exception deps turns message)
    unfolding on_exception
    on_exception-Keeps message =
        let result = make_result run_name CommandStatus.error message none in
        let fails = safe_fail_idempotency_claim deps turns message result in
        let report : Locals → Action Unit =
          λ l. fail_started_task deps turns l l.project_id_for_lock l.draft_id_for_state in
        then-Keeps I (with_open_claim deps turns fails >> gets (λ s. s.locals) >>= report)
          (return_pushed deps result true)
          (bind-Keeps I (with_open_claim deps turns fails >> gets (λ s. s.locals)) report
            (then-Keeps I (with_open_claim deps turns fails) (gets (λ s. s.locals))
              (with_open_claim-Keeps fails (safe_fail-Keeps message result)) (λ s i. i))
            (λ l. fail_started_task-Keeps l l.project_id_for_lock l.draft_id_for_state))
          (return_pushed-Keeps result true)
