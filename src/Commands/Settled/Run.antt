-- ===== src/Commands/Settled/Run.antt =====
-- No run leaves a task under way.
use shared_dev_context_layer.Base.{
  ℕ, ◌≡◌, refl, inl, inr, String, Bool, true, false, Option, none, some, ◌==◌, string_Eq,
  Bool-cases, ◌∙◌,
}
use shared_dev_context_layer.PostRun.Reconciler.{PostRunReconciliationResult}
use shared_dev_context_layer.Persistence.TaskState.Settled.{
  IsIdle, transition-IdleBut, transition-IsIdle,
}
use shared_dev_context_layer.Commands.Types.{
  LocalCommandResult, LocalTaskDraft, EnvironmentSnapshot, CommandStatus,
}
use shared_dev_context_layer.Commands.Session.{
  Result, value, threw, continue, set_locals, catching, Turn, works, Tables, Session, ActiveClaim,
  enter, recover,
}
use shared_dev_context_layer.Commands.Deps.{Deps}
use shared_dev_context_layer.Commands.Reports.{make_result, push_result}
use shared_dev_context_layer.Commands.Guards.{ensure_local_profile}
use shared_dev_context_layer.Commands.Execution.{reconcile_run}
use shared_dev_context_layer.Commands.Calls.{
  return_pushed, run_name, on_open_claim, with_open_claim,
}
use shared_dev_context_layer.Commands.Stages.{
  request_of, task_of, ending_of, not_prepared, run_reconciled, run_prepared, run_in_state,
}
use shared_dev_context_layer.Commands.Run.{
  no_locals, safe_fail_idempotency_claim, fail_started_task, on_exception, run_environment,
  run_unblocked, local_run_codex,
}
use shared_dev_context_layer.Commands.Quiet.{
  return_pushed-Keeps, with_open_claim-Keeps, safe_fail-Keeps, on_exception-Keeps,
}
use shared_dev_context_layer.Commands.Invariant.{IsLocked, reconcile_run-Keeps}
use shared_dev_context_layer.Commands.Invariant.Claimed.{run_locking-Ends}
use shared_dev_context_layer.Commands.Invariant.Unlocked.{run_environment-Ends}
use shared_dev_context_layer.Commands.Invariant.Writing.{any_write-Keeps}
use shared_dev_context_layer.Commands.Invariant.Whole.{clean_up-Keeps}
use shared_dev_context_layer.Commands.Settled.{tasks_of, enters_tasks, Idle-IsQuiet, reported-Idle}
use shared_dev_context_layer.Commands.Settled.Closing.{
  IsIdleHere, IsStarted, IsGood, idle-IsGood, Started-IsQuiet, Started-IsInvariant,
  transition-cases, close-IsGood,
}

module _ (turns : ℕ → Turn) (working : (n : ℕ) → (turns n).fault ≡ works)
    (alone : (n : ℕ) (t : Tables) → ((turns n).others t).tasks ≡ t.tasks) (deps : Deps) where
  module _ (project : String) (environment : EnvironmentSnapshot) (draft : LocalTaskDraft)
      (run_key : String) where
    reconciled-IsGood :
        (claim : ActiveClaim) (x : Result PostRunReconciliationResult × Session)
        → (IsStarted turns working alone deps) project draft.id x.1
        → (IsGood turns working alone deps)
            (continue (run_reconciled deps turns environment draft project run_key claim) x)
    unfolding run_reconciled
    reconciled-IsGood claim (value reconciled, s) h =
        close-IsGood turns working alone deps
          (ending_of deps turns environment draft project run_key reconciled s.locals.heartbeat)
          claim s h
    reconciled-IsGood claim (threw e, s) h = inr (project, draft.id, h)

    prepared-IsGood :
        (command : String) (claim : ActiveClaim) (s : Session)
        → s.locals.project_id_for_lock ≡ some project
        → s.locals.draft_id_for_state ≡ some draft.id
        → (IsIdleHere turns working alone deps) s
        → (IsGood turns working alone deps)
            (run_prepared deps turns environment draft project run_key command claim s)
    unfolding run_prepared
    prepared-IsGood command claim s of_project of_draft idle =
        let task = task_of deps turns environment draft project run_key in
        let u = enter (turns s.calls) s in
        let idle' = enters_tasks turns working alone IsIdle s idle in
        let request = request_of deps turns environment draft project run_key in
        let work = reconcile_run deps turns project deps.lock_uuid command claim request in
        transition-cases turns working alone deps task (some "prepared") "running" s
          (λ x. (IsGood turns working alone deps) (
            continue (run_reconciled deps turns environment draft project run_key claim) (
              continue (λ _. work)
                (continue (λ _. set_locals (λ l. record l { state_transition_started = true }))
                  x))))
          (λ e. inl idle')
          (λ t done.
            let v = record u {
              tables = record u.tables { tasks = t };
              locals = record u.locals { state_transition_started = true };
            } in
            reconciled-IsGood claim (work v) (
              reconcile_run-Keeps deps turns project
                ((IsStarted turns working alone deps) project draft.id) command claim request
                ((Started-IsInvariant turns working alone deps) project draft.id) v
                (record {
                  project = of_project;
                  draft = of_draft;
                  started = refl;
                  elsewhere =
                      transition-IdleBut
                        (record { key = task; from_state = some "prepared"; to_state = "running" })
                        (tasks_of u) t done (λ k _. idle' k);
                })))

    in_state-IsGood :
        (command : String) (claim : ActiveClaim) (o : Option String) (s : Session)
        → s.locals.project_id_for_lock ≡ some project
        → s.locals.draft_id_for_state ≡ some draft.id
        → (IsIdleHere turns working alone deps) s
        → (IsGood turns working alone deps)
            (run_in_state deps turns environment draft project run_key command claim o s)
    unfolding run_in_state return_pushed push_result
    in_state-IsGood command claim none s of_project of_draft idle =
        let task = task_of deps turns environment draft project run_key in
        let u = enter (turns s.calls) s in
        let idle' = enters_tasks turns working alone IsIdle s idle in
        transition-cases turns working alone deps task none "prepared" s
          (λ x. (IsGood turns working alone deps) (
            continue (λ _. run_prepared deps turns environment draft project run_key command claim)
              x))
          (λ e. inl idle')
          (λ t done.
            prepared-IsGood command claim (record u { tables = record u.tables { tasks = t } })
              of_project of_draft
              (transition-IsIdle (record { key = task; from_state = none; to_state = "prepared" })
                (tasks_of u) t done refl (λ k _. idle' k)))
    in_state-IsGood command claim (some state) s of_project of_draft idle =
        let refusal = not_prepared deps turns environment draft project run_key state in
        elim (Bool-cases (state == "prepared")) [
          | inl e ↦ rw e (prepared-IsGood command claim s of_project of_draft idle)
          | inr e ↦ rw e (
              return_pushed-Keeps deps turns (IsIdleHere turns working alone deps)
                (Idle-IsQuiet turns working alone deps) refusal true s idle)
        ]

  -- Idle, and the project is known.
  abbrev IsIdleIn : String → Session → Type 0
  IsIdleIn p s = (IsIdleHere turns working alone deps) s × (s.locals.project_id_for_lock ≡ some p)

  IdleIn-IsLocked : (p : String) → IsLocked deps turns p (IsIdleIn p)
  IdleIn-IsLocked p = record {
    quiet = record {
      enters = λ s (idle, known). (enters_tasks turns working alone IsIdle s idle, known);
      claims = λ s t h. h;
      pushes = λ s _ _ h. h;
      environs = λ s _ _ _ h. h;
      connects = λ s _ _ h. h;
      aborts = λ s b h. h;
      counts = λ s n h. h;
      flags = λ s l _ project _ _ (idle, known). (idle, project ∙ known);
    };
    served = λ s now r _ _ h. h;
    saves = λ input.
        any_write-Keeps deps turns (IsIdleIn p)
          (λ s (idle, known). (enters_tasks turns working alone IsIdle s idle, known)) (λ s r h. h)
          _;
  }

  run_environment-IsGood :
      (s : Session)
      → (IsIdleHere turns working alone deps) s
      → (IsGood turns working alone deps) (run_environment deps turns s)
  run_environment-IsGood =
      run_environment-Ends deps turns (IsIdleHere turns working alone deps)
        (IsGood turns working alone deps) (Idle-IsQuiet turns working alone deps) (λ s l idle. idle)
        (idle-IsGood turns working alone deps)
        (λ environment draft p run_key s project lock idle.
          run_locking-Ends deps turns p (IsIdleIn p) (IdleIn-IsLocked p)
            (IsGood turns working alone deps)
            (λ r t (idle', _). (idle-IsGood turns working alone deps) r t idle') (λ t d h. h)
            environment draft run_key
            (λ command claim o t drafted (idle', known).
              in_state-IsGood p environment draft run_key command claim o t known drafted idle')
            s (idle, project))

  open_claim-returns :
      (message : String) (result : LocalCommandResult) (completed : Bool) (o : Option ActiveClaim)
      (s : Session)
      → (on_open_claim deps turns
          (safe_fail_idempotency_claim deps turns message result)
          completed
          o
          s).0
        ≡ value tt
  unfolding on_open_claim safe_fail_idempotency_claim
  open_claim-returns message result completed none s = refl
  open_claim-returns message result true (some claim) s = refl
  open_claim-returns message result false (some claim) s = refl

  on_exception-Started :
      (p d : String) (message : String) (s : Session)
      → (IsStarted turns working alone deps) p d s
      → (IsIdleHere turns working alone deps) (on_exception deps turns message s).1
  unfolding on_exception with_open_claim fail_started_task
  on_exception-Started p d message s h =
      let result = make_result run_name CommandStatus.error message none in
      let fails = safe_fail_idempotency_claim deps turns message result in
      reported-Idle turns working alone deps p d result
        (on_open_claim deps turns fails s.locals.claim_completed s.locals.active_claim s)
        (open_claim-returns message result s.locals.claim_completed s.locals.active_claim s)
        (with_open_claim-Keeps deps turns ((IsStarted turns working alone deps) p d)
          ((Started-IsQuiet turns working alone deps) p d) fails
          (safe_fail-Keeps deps turns ((IsStarted turns working alone deps) p d)
            ((Started-IsQuiet turns working alone deps) p d) message result)
          s h)

  recover-IsIdle :
      (x : Result LocalCommandResult × Session)
      → (IsGood turns working alone deps) x
      → (IsIdleHere turns working alone deps) (recover (on_exception deps turns) x).1
  recover-IsIdle (value a, s) idle = idle
  recover-IsIdle (threw e, s) (inl idle) =
      on_exception-Keeps deps turns (IsIdleHere turns working alone deps)
        (Idle-IsQuiet turns working alone deps)
        (λ task from t u done i.
          transition-IsIdle (record { key = task; from_state = some from; to_state = "failed" })
            (tasks_of t) u done refl (λ k _. i k))
        e s idle
  recover-IsIdle (threw e, s) (inr (p, d, h)) = on_exception-Started p d e s h

  run_unblocked-IsIdle :
      (o : Option LocalCommandResult) (s : Session)
      → (IsIdleHere turns working alone deps) s
      → (IsIdleHere turns working alone deps) (run_unblocked deps turns o s).1
  unfolding run_unblocked
  run_unblocked-IsIdle (some refusal) s idle =
      return_pushed-Keeps deps turns (IsIdleHere turns working alone deps)
        (Idle-IsQuiet turns working alone deps) refusal true s idle
  run_unblocked-IsIdle none s idle =
      let start = record s { locals = no_locals } in
      clean_up-Keeps deps turns (IsIdleHere turns working alone deps)
        (Idle-IsQuiet turns working alone deps) (λ t u i. i)
        (catching (run_environment deps turns) (on_exception deps turns) start).1
        (recover-IsIdle (run_environment deps turns start) (run_environment-IsGood start idle))

-- If every call to the database works, and no other client touches the tasks meanwhile: where no
-- task is running or reconciling before a run, none is so afterwards, however the run ends, also
-- when Codex, the reconciliation or the review throws, or a lease is lost.
pub local_run_codex-IsIdle :
    (deps : Deps) (turns : ℕ → Turn) (s : Session)
    → ((n : ℕ) → (turns n).fault ≡ works)
    → ((n : ℕ) (t : Tables) → ((turns n).others t).tasks ≡ t.tasks)
    → IsIdle s.tables.tasks
    → IsIdle (local_run_codex deps turns s).1.tables.tasks
unfolding local_run_codex
local_run_codex-IsIdle deps turns s working alone idle =
    run_unblocked-IsIdle turns working alone deps (ensure_local_profile deps run_name) s idle
