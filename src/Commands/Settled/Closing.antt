-- ===== src/Commands/Settled/Closing.antt =====
-- The closing of a run leaves no task under way, or throws.
use shared_dev_context_layer.Base.{
  ℕ, ◌≡◌, refl, ◌⊎◌, inl, inr, String, Option, none, some, string_Eq, ◌∙◌,
}
use shared_dev_context_layer.Persistence.Idempotency.Claim.{ClaimStatus}
use shared_dev_context_layer.Persistence.TaskState.{TaskKey, TaskStore, transition_task_state}
use shared_dev_context_layer.Persistence.Records.{Records}
use shared_dev_context_layer.Persistence.TaskState.Settled.{
  IdleBut, transition-IdleBut, transition-IsIdle,
}
use shared_dev_context_layer.Commands.Types.{LocalCommandResult}
use shared_dev_context_layer.Commands.Session.{
  Result, value, threw, Call, continue, gets, Turn, Fault, works, Tables, Session, ActiveClaim,
  enter, answer_with, call,
}
use shared_dev_context_layer.Commands.Deps.{Deps}
use shared_dev_context_layer.Commands.Execution.{
  transitioned_to, transition_call, final_task_state_from_outcome,
}
use shared_dev_context_layer.Commands.Closing.{Ending, Persisted, persist_ending, classification_of}
use shared_dev_context_layer.Commands.Calls.{
  report_run, conclude_run, closing_timer, conclude_in_time, close_run,
}
use shared_dev_context_layer.Commands.Quiet.{IsQuiet}
use shared_dev_context_layer.Commands.Invariant.{IsInvariant, run_timer-Keeps}
use shared_dev_context_layer.Commands.Invariant.Locked.{report_run-Keeps}
use shared_dev_context_layer.Commands.Invariant.Writing.{persist_ending-Keeps, any_write-Keeps}
use shared_dev_context_layer.Commands.Settled.{
  tasks_of, final_state-inactive, enters_tasks, Started, Idle, Idle-IsQuiet,
}

module _ (turns : ℕ → Turn) (working : (n : ℕ) → (turns n).fault ≡ works)
    (alone : (n : ℕ) (t : Tables) → ((turns n).others t).tasks ≡ t.tasks) (deps : Deps) where
  abbrev pub IsIdleHere : Session → Type 0
  IsIdleHere s = Idle turns working alone deps s

  abbrev pub IsStarted : String → String → Session → Type 0
  IsStarted p d s = Started turns working alone deps p d s

  -- A run that returns leaves no task under way, one that throws at most its own, as started.
  abbrev pub IsGood : Result LocalCommandResult × Session → Type 0
  IsGood (value _, s) = IsIdleHere s
  IsGood (threw _, s) = IsIdleHere s ⊎ ((p : String) × (d : String) × IsStarted p d s)

  pub idle-IsGood : (r : Result LocalCommandResult) (s : Session) → IsIdleHere s → IsGood (r, s)
  idle-IsGood (value _) s idle = idle
  idle-IsGood (threw _) s idle = inl idle

  pub Started-IsQuiet : (p d : String) → IsQuiet deps turns (IsStarted p d)
  Started-IsQuiet p d = record {
    enters = λ s h. record {
      project = h.project;
      draft = h.draft;
      started = h.started;
      elsewhere =
          enters_tasks turns working alone (IdleBut (record { project_id = p; task_id = d })) s
            h.elsewhere;
    };
    claims = λ s t h. record {
      project = h.project;
      draft = h.draft;
      started = h.started;
      elsewhere = h.elsewhere;
    };
    pushes = λ s _ _ h. record {
      project = h.project;
      draft = h.draft;
      started = h.started;
      elsewhere = h.elsewhere;
    };
    environs = λ s _ _ _ h. record {
      project = h.project;
      draft = h.draft;
      started = h.started;
      elsewhere = h.elsewhere;
    };
    connects = λ s _ _ h. record {
      project = h.project;
      draft = h.draft;
      started = h.started;
      elsewhere = h.elsewhere;
    };
    aborts = λ s b h. record {
      project = h.project;
      draft = h.draft;
      started = h.started;
      elsewhere = h.elsewhere;
    };
    counts = λ s n h. record {
      project = h.project;
      draft = h.draft;
      started = h.started;
      elsewhere = h.elsewhere;
    };
    flags = λ s l _ project draft started h. record {
      project = project ∙ h.project;
      draft = draft ∙ h.draft;
      started = started ∙ h.started;
      elsewhere = h.elsewhere;
    };
  }

  Started-records :
      (p d : String) (s : Session) (r : Records)
      → IsStarted p d s
      → IsStarted p d (record s { records = r })
  Started-records p d s r h = record {
    project = h.project;
    draft = h.draft;
    started = h.started;
    elsewhere = h.elsewhere;
  }

  pub Started-IsInvariant : (p d : String) → IsInvariant deps turns p d (IsStarted p d)
  Started-IsInvariant p d =
      let quiet = Started-IsQuiet p d in
      record {
        locked = record {
          quiet = quiet;
          served = λ s now r _ _ h. record {
            project = h.project;
            draft = h.draft;
            started = h.started;
            elsewhere = h.elsewhere;
          };
          saves = λ input.
              any_write-Keeps deps turns (IsStarted p d) quiet.enters (Started-records p d) _;
        };
        tasks = λ from to s t done h. record {
          project = h.project;
          draft = h.draft;
          started = h.started;
          elsewhere = transition-IdleBut _ (tasks_of s) t done h.elsewhere;
        };
        persists =
            persist_ending-Keeps deps turns (IsStarted p d) quiet.enters (Started-records p d);
      }

  answered :
      {A : Type 0} (fault : Fault) (op : Call A) (turn : Turn) (s : Session)
      (Q : Result A × Session → Type 0)
      → fault ≡ works
      → Q ((op turn s.tables).1, record s { tables = (op turn s.tables).0 })
      → Q (answer_with fault op turn s)
  answered fault op turn s Q e h = rw e h

  transitioned-cases :
      (o : Option TaskStore) (u : Session) (Q : Result Unit × Session → Type 0)
      → ((e : String) → Q (threw e, u))
      → ((t : TaskStore)
          → o ≡ some t
          → Q (value tt, record u { tables = record u.tables { tasks = t } }))
      → Q ((transitioned_to o u.tables).1, record u { tables = (transitioned_to o u.tables).0 })
  transitioned-cases none u Q failed done = failed _
  transitioned-cases (some t) u Q failed done = done t refl

  -- A transition fails and leaves all as it is, or is made.
  pub transition-cases :
      (task : TaskKey) (from : Option String) (to : String) (s : Session)
      (Q : Result Unit × Session → Type 0)
      → ((e : String) → Q (threw e, enter (turns s.calls) s))
      → ((t : TaskStore)
          → transition_task_state
              (record { key = task; from_state = from; to_state = to })
              (tasks_of (enter (turns s.calls) s))
            ≡ some t
          → let u = enter (turns s.calls) s in
            Q (value tt, record u { tables = record u.tables { tasks = t } }))
      → Q (call turns (transition_call task from to) s)
  unfolding call transition_call
  transition-cases task from to s Q failed done =
      let turn = turns s.calls in
      answered turn.fault (transition_call task from to) turn (enter turn s) Q (working s.calls)
        (transitioned-cases _ (enter turn s) Q failed done)

  module _ (end : Ending) (claim : ActiveClaim) where
    report-IsGood :
        (persisted : Persisted) (status : Option ClaimStatus) (s : Session)
        → IsIdleHere s
        → IsGood (report_run deps turns end claim persisted status s)
    report-IsGood persisted status s idle =
        let r = report_run deps turns end claim persisted status s in
        idle-IsGood r.0 r.1 (
          report_run-Keeps deps turns IsIdleHere (Idle-IsQuiet turns working alone deps) end claim
            persisted status s idle)

    conclude-IsGood :
        (persisted : Persisted) (s : Session)
        → IsStarted end.project end.task s
        → IsGood (conclude_run deps turns end claim persisted s)
    unfolding conclude_run
    conclude-IsGood persisted s h =
        let task : TaskKey = record { project_id = end.project; task_id = end.task } in
        let to = final_task_state_from_outcome (classification_of end).outcome in
        let u = enter (turns s.calls) s in
        let h' = (Started-IsQuiet end.project end.task).enters s h in
        transition-cases task (some "reconciling") to s
          (λ x. IsGood (
            continue (report_run deps turns end claim persisted)
              (continue (λ _. gets (λ t. t.locals.claim_status)) x)))
          (λ e. inr (end.project, end.task, h'))
          (λ t done.
            report-IsGood persisted u.locals.claim_status
              (record u { tables = record u.tables { tasks = t } })
              (transition-IsIdle
                (record { key = task; from_state = some "reconciling"; to_state = to }) (tasks_of u)
                t done (final_state-inactive (classification_of end).outcome) h'.elsewhere))

    beaten-IsGood :
        (persisted : Persisted) (x : Result Unit × Session)
        → IsStarted end.project end.task x.1
        → IsGood (continue (λ _. conclude_run deps turns end claim persisted) x)
    beaten-IsGood persisted (value _, s) h = conclude-IsGood persisted s h
    beaten-IsGood persisted (threw e, s) h = inr (end.project, end.task, h)

    persisted-IsGood :
        (x : Result Persisted × Session)
        → IsStarted end.project end.task x.1
        → IsGood (continue (conclude_in_time deps turns end claim) x)
    persisted-IsGood (value persisted, s) h =
        beaten-IsGood persisted (closing_timer deps turns end claim s) (
          run_timer-Keeps deps turns end.project (IsStarted end.project end.task)
            (Started-IsInvariant end.project end.task).locked claim deps.beats_closing s h)
    persisted-IsGood (threw e, s) h = inr (end.project, end.task, h)

    pub close-IsGood :
        (s : Session) → IsStarted end.project end.task s → IsGood (close_run deps turns end claim s)
    unfolding close_run
    close-IsGood s h =
        persisted-IsGood (persist_ending deps turns end s)
          ((Started-IsInvariant end.project end.task).persists end s h)
