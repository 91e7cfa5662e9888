-- ===== src/Commands/Invariant.antt =====
-- Invariants of `localRunCodex` of vscode-extension/src/local/localCommandService.ts: what each kind
-- of step must keep, and the pieces of the run up to its closing that keep it then.
pub mod Claimed
pub mod Locked
pub mod Unlocked
pub mod Writing
pub mod Whole
use shared_dev_context_layer.Base.{
  ℕ, zero, suc, ◌≡◌, refl, String, Bool, true, false, Option, none, some, if◌then◌else◌,
}
use shared_dev_context_layer.Persistence.RunLock.{
  LockRequest, renew, acquire, serve, on_project, by_lock,
}
use shared_dev_context_layer.Persistence.Idempotency.{ClaimTable}
use shared_dev_context_layer.Persistence.TaskState.{TaskKey, TaskStore, transition_task_state}
use shared_dev_context_layer.Persistence.Records.{SaveEventInput, save_event}
use shared_dev_context_layer.PostRun.Types.{CodexExecutionResult}
use shared_dev_context_layer.Commands.Types.{
  LocalCommandResult, EnvironmentSnapshot, RuntimeState, DbStatus,
}
use shared_dev_context_layer.Commands.Session.{
  Result, value, threw, Action, ◌>>=◌, ◌>>◌, pure, set_locals, gets, from_result, attempt, Turn,
  Session, Locals, Heartbeat, ActiveClaim, call, write,
}
use shared_dev_context_layer.Commands.Deps.{Deps, CodexExecutionRequest}
use shared_dev_context_layer.Commands.Keeps.{
  Keeps, Enters, bind-Keeps, continue-Keeps, then-Keeps, if-Keeps, call-Keeps,
}
use shared_dev_context_layer.Commands.Reports.{
  pushed, with_environment, with_db_status, push_result,
}
use shared_dev_context_layer.Commands.Heartbeat.{
  renew_tick, start_lease_heartbeat, timer_ticks, timer_on, run_timer, renew_lock_call,
  renew_claim_call, after_tick, lease_lost, abort_if, set_heartbeat, quiet,
}
use shared_dev_context_layer.Commands.Execution.{
  transitioned_to, transition_call, mark_unless, mark_reconciling, is_aborted, count_run,
  mark_and_return, run_to_end, run_codex, execute_unless_aborted, check_health, reconcile_after,
  execute_healthy, execute, reconcile_run, failed_run_from_healthcheck, cancelled_execution,
}
use shared_dev_context_layer.Commands.Closing.{Ending, persist_ending}
use shared_dev_context_layer.Commands.Quiet.{IsQuiet, transition-Keeps}

-- `I` passes each step of a run of `project` under the lock id of `deps` that leaves the tasks and
-- the closing alone.
pub record IsLocked (deps : Deps) (turns : ℕ → Turn) (project : String) (I : Session → Type 0)
    : Type 0 where
  pub quiet : IsQuiet deps turns I
  pub served :
      (s : Session) (now : ℕ) (r : LockRequest)
      → on_project r ≡ project
      → by_lock r ≡ deps.lock_uuid
      → I s
      → I (record s { tables = record s.tables { locks = (serve now r s.tables.locks).0 } })
  pub saves :
      (input : SaveEventInput)
      → Keeps I (write turns (λ id records. save_event 0 0 id input records))

-- `I` passes each step of a run of the task `task` of `project` under the lock id of `deps`.
pub record IsInvariant (deps : Deps) (turns : ℕ → Turn) (project task : String)
    (I : Session → Type 0) : Type 0 where
  pub locked : IsLocked deps turns project I
  pub tasks :
      (from : Option String) (to : String) (s : Session) (t : TaskStore)
      → transition_task_state
          (record {
            key = record { project_id = project; task_id = task };
            from_state = from;
            to_state = to;
          })
          s.tables.tasks
        ≡ some t
      → I s
      → I (record s { tables = record s.tables { tasks = t } })
  pub persists : (end : Ending) → Keeps I (persist_ending deps turns end)

module _ (deps : Deps) (turns : ℕ → Turn) (project : String) (I : Session → Type 0)
    (inv : IsLocked deps turns project I) where
  renew_lock-Keeps : Keeps I (call turns (renew_lock_call project deps.lock_uuid))
  unfolding renew_lock_call serve
  renew_lock-Keeps =
      call-Keeps I turns (renew_lock_call project deps.lock_uuid) inv.quiet.enters (λ turn s i.
        inv.served s turn.now
          (renew (record { project_id = project; lock_id = deps.lock_uuid; ttl_seconds = 180 }))
          refl refl i)

  renew_claim-Keeps : (claim : ActiveClaim) → Keeps I (call turns (renew_claim_call claim))
  unfolding renew_claim_call
  renew_claim-Keeps claim =
      call-Keeps I turns (renew_claim_call claim) inv.quiet.enters
        (λ turn s i. inv.quiet.claims s _ i)

  renew_tick-Keeps :
      (claim : ActiveClaim) (h : Heartbeat)
      → Keeps I (renew_tick turns project deps.lock_uuid claim h)
  unfolding renew_tick
  renew_tick-Keeps claim h s i =
      inv.quiet.aborts _ _ (renew_claim-Keeps claim _ (renew_lock-Keeps s i))

  set_heartbeat-Keeps : (h : Heartbeat) → Keeps I (set_heartbeat h)
  set_heartbeat-Keeps h s i = inv.quiet.flags s _ refl refl refl refl i

  pub start_lease_heartbeat-Keeps :
      (claim : ActiveClaim) → Keeps I (start_lease_heartbeat turns project deps.lock_uuid claim)
  unfolding start_lease_heartbeat
  start_lease_heartbeat-Keeps claim =
      bind-Keeps I (renew_tick turns project deps.lock_uuid claim quiet) _
        (renew_tick-Keeps claim quiet) (λ h. set_heartbeat-Keeps _)

  timer_ticks-Keeps :
      (claim : ActiveClaim) (n : ℕ) (h : Heartbeat)
      → Keeps I (timer_ticks turns project deps.lock_uuid claim n h)
  unfolding timer_ticks
  timer_ticks-Keeps claim zero h = λ s i. i
  timer_ticks-Keeps claim (suc n) h =
      bind-Keeps I (renew_tick turns project deps.lock_uuid claim h)
        (timer_ticks turns project deps.lock_uuid claim n) (renew_tick-Keeps claim h)
        (timer_ticks-Keeps claim n)

  timer_on-Keeps :
      (claim : ActiveClaim) (n : ℕ) (o : Option Heartbeat)
      → Keeps I (timer_on turns project deps.lock_uuid claim n o)
  unfolding timer_on
  timer_on-Keeps claim n none = λ s i. i
  timer_on-Keeps claim n (some h) =
      if-Keeps I h.timer (timer_ticks turns project deps.lock_uuid claim n h >>= set_heartbeat)
        (pure tt)
        (bind-Keeps I (timer_ticks turns project deps.lock_uuid claim n h) set_heartbeat
          (timer_ticks-Keeps claim n h) set_heartbeat-Keeps)
        (λ s i. i)

  pub run_timer-Keeps :
      (claim : ActiveClaim) (n : ℕ) → Keeps I (run_timer turns project deps.lock_uuid claim n)
  unfolding run_timer
  run_timer-Keeps claim n s i = timer_on-Keeps claim n s.locals.heartbeat s i

module _ (deps : Deps) (turns : ℕ → Turn) (project : String) (I : Session → Type 0)
    (command : String) (claim : ActiveClaim) (request : CodexExecutionRequest)
    (inv : IsInvariant deps turns project request.task.id I) where
  mark_unless-Keeps :
      (done : Bool)
      → Keeps I (mark_unless deps turns project deps.lock_uuid command claim request done)
  unfolding mark_unless
  mark_unless-Keeps true = λ s i. i
  mark_unless-Keeps false =
      then-Keeps I
        (call turns (
          transition_call (record { project_id = project; task_id = request.task.id })
            (some "running") "reconciling"))
        (set_locals (λ l. record l { transitioned_to_reconciling = true }))
        (transition-Keeps deps turns I inv.locked.quiet _ (some "running") "reconciling"
          (inv.tasks (some "running") "reconciling"))
        (λ s i. inv.locked.quiet.flags s _ refl refl refl refl i)

  mark_and_return-Keeps :
      (result : CodexExecutionResult)
      → Keeps I (mark_and_return deps turns project deps.lock_uuid command claim request result)
  unfolding mark_reconciling
  mark_and_return-Keeps result =
      then-Keeps I (mark_reconciling deps turns project deps.lock_uuid command claim request)
        (pure result) (λ s i. mark_unless-Keeps s.locals.transitioned_to_reconciling s i) (λ s i. i)

  run_to_end-Keeps :
      (aborted : Bool)
      → Keeps I (run_to_end deps turns project deps.lock_uuid command claim request aborted)
  unfolding run_to_end
  run_to_end-Keeps aborted =
      bind-Keeps I (from_result (deps.codex_run request command aborted))
        (mark_and_return deps turns project deps.lock_uuid command claim request) (λ s i. i)
        mark_and_return-Keeps

  run_codex-Keeps : Keeps I (run_codex deps turns project deps.lock_uuid command claim request)
  unfolding run_codex
  run_codex-Keeps =
      then-Keeps I (count_run >> run_timer turns project deps.lock_uuid claim deps.beats_during)
        (is_aborted >>= run_to_end deps turns project deps.lock_uuid command claim request)
        (then-Keeps I count_run (run_timer turns project deps.lock_uuid claim deps.beats_during)
          (λ s i. inv.locked.quiet.counts s _ i)
          (run_timer-Keeps deps turns project I inv.locked claim deps.beats_during))
        (bind-Keeps I is_aborted
          (run_to_end deps turns project deps.lock_uuid command claim request) (λ s i. i)
          run_to_end-Keeps)

  execute_unless_aborted-Keeps :
      (aborted : Bool)
      → Keeps I
          (execute_unless_aborted deps turns project deps.lock_uuid command claim request aborted)
  unfolding execute_unless_aborted
  execute_unless_aborted-Keeps aborted =
      if-Keeps I aborted
        (mark_and_return deps turns project deps.lock_uuid command claim request
          (cancelled_execution "Cancelled before run started."))
        (run_codex deps turns project deps.lock_uuid command claim request)
        (mark_and_return-Keeps (cancelled_execution "Cancelled before run started."))
        run_codex-Keeps

  execute_healthy-Keeps :
      (health : CodexExecutionResult)
      → Keeps I (execute_healthy deps turns project deps.lock_uuid command claim request health)
  unfolding execute_healthy
  execute_healthy-Keeps health =
      if-Keeps I health.ok
        (is_aborted
          >>= execute_unless_aborted deps turns project deps.lock_uuid command claim request)
        (mark_and_return deps turns project deps.lock_uuid command claim request
          (failed_run_from_healthcheck health))
        (bind-Keeps I is_aborted
          (execute_unless_aborted deps turns project deps.lock_uuid command claim request)
          (λ s i. i) execute_unless_aborted-Keeps)
        (mark_and_return-Keeps (failed_run_from_healthcheck health))

  check_health-Keeps :
      (aborted : Bool)
      → Keeps I (check_health deps turns project deps.lock_uuid command claim request aborted)
  unfolding check_health
  check_health-Keeps aborted =
      bind-Keeps I (from_result (deps.codex_healthcheck command aborted))
        (execute_healthy deps turns project deps.lock_uuid command claim request) (λ s i. i)
        execute_healthy-Keeps

  pub reconcile_run-Keeps :
      Keeps I (reconcile_run deps turns project deps.lock_uuid command claim request)
  unfolding reconcile_run execute
  reconcile_run-Keeps =
      let probe =
        is_aborted >>= check_health deps turns project deps.lock_uuid command claim request in
      then-Keeps I (from_result deps.capture)
        (execute deps turns project deps.lock_uuid command claim request
          >>= reconcile_after deps turns project deps.lock_uuid command claim request)
        (λ s i. i)
        (bind-Keeps I (execute deps turns project deps.lock_uuid command claim request)
          (reconcile_after deps turns project deps.lock_uuid command claim request)
          (then-Keeps I (run_timer turns project deps.lock_uuid claim deps.beats_before) probe
            (run_timer-Keeps deps turns project I inv.locked claim deps.beats_before)
            (bind-Keeps I is_aborted
              (check_health deps turns project deps.lock_uuid command claim request) (λ s i. i)
              check_health-Keeps))
          (λ execution.
            then-Keeps I (run_timer turns project deps.lock_uuid claim deps.beats_reconciling)
              (from_result (deps.reconcile_rest execution))
              (run_timer-Keeps deps turns project I inv.locked claim deps.beats_reconciling)
              (λ s i. i)))
