-- ===== src/Commands/Invariant/Unlocked.antt =====
-- The guards of `localRunCodex` (vscode-extension/src/local/localCommandService.ts), before it asks
-- for the lock.
use shared_dev_context_layer.Base.{
  ℕ, ◌≡◌, refl, String, Bool, true, false, Option, none, some, if◌then◌else◌,
}
use shared_dev_context_layer.Commands.Types.{
  LocalTaskDraft, EnvironmentSnapshot, LocalCommandResult, ProjectRuntimeSnapshot, disconnected,
  running,
}
use shared_dev_context_layer.Commands.Session.{
  Result, value, threw, Action, continue, attempt, Turn, Session, Locals, call,
}
use shared_dev_context_layer.Commands.Deps.{Deps, PersistenceHealthcheck}
use shared_dev_context_layer.Commands.Keeps.{Keeps, bind-Keeps, call-Keeps}
use shared_dev_context_layer.Commands.Reports.{apply_environment, update_db_status}
use shared_dev_context_layer.Commands.Guards.{
  health_from, refresh_persistence_status, ensure_project_from_environment, is_present, or_else,
  enforce_workspace_boundary, with_sanitized_draft_candidate_files,
}
use shared_dev_context_layer.Commands.Calls.{return_pushed, run_name}
use shared_dev_context_layer.Commands.Stages.{run_locking, run_rooted}
use shared_dev_context_layer.Commands.Run.{
  run_key_of, run_in_project, run_drafted, run_healthy, run_with_snapshot, run_with_health,
  run_inside, run_guarded, run_in, run_environment,
}
use shared_dev_context_layer.Commands.Quiet.{IsQuiet, return_pushed-Keeps}

-- From `I` the action ends in `Q`.
abbrev pub Ends :
    (Session → Type 0)
    → (Result LocalCommandResult × Session → Type 0)
    → Action LocalCommandResult
    → Type 0
Ends I Q m = (s : Session) → I s → Q (m s)

pub continue-Ends :
    {A : Type 0} (I : Session → Type 0) (Q : Result LocalCommandResult × Session → Type 0)
    (f : A → Action LocalCommandResult) (r : Result A × Session)
    → ((r : Result LocalCommandResult) (s : Session) → I s → Q (r, s))
    → ((a : A) → Ends I Q (f a))
    → I r.1
    → Q (continue f r)
continue-Ends I Q f (value a, s) weaken ends i = ends a s i
continue-Ends I Q f (threw e, s) weaken ends i = weaken (threw e) s i

module _ (deps : Deps) (turns : ℕ → Turn) (I : Session → Type 0)
    (Q : Result LocalCommandResult × Session → Type 0) (inv : IsQuiet deps turns I)
    (locals : (s : Session) (l : Locals) → I s → I (record s { locals = l }))
    (weaken : (r : Result LocalCommandResult) (s : Session) → I s → Q (r, s))
    (locking : (environment : EnvironmentSnapshot) (draft : LocalTaskDraft)
        (project run_key : String) (s : Session)
      → s.locals.project_id_for_lock ≡ some project
      → s.locals.lock_id ≡ some deps.lock_uuid
      → I s
      → Q (run_locking deps turns environment draft project run_key s)) where
  return_pushed-Ends :
      (result : LocalCommandResult) (is_error : Bool)
      → Ends I Q (return_pushed deps result is_error)
  return_pushed-Ends result is_error s i =
      weaken _ _ (return_pushed-Keeps deps turns I inv result is_error s i)

  if-Ends :
      (b : Bool) (m k : Action LocalCommandResult) (s : Session)
      → Q (m s)
      → Q (k s)
      → Q ((if b then m else k) s)
  if-Ends true m k s first second = first
  if-Ends false m k s first second = second

  run_in_project-Ends :
      (environment : EnvironmentSnapshot) (snapshot : ProjectRuntimeSnapshot)
      (draft : LocalTaskDraft) (project : String)
      → Ends I Q (run_in_project deps turns environment snapshot draft project)
  unfolding run_in_project run_rooted
  run_in_project-Ends environment snapshot draft project s i =
      let s1 = record s { locals = record s.locals { project_id_for_lock = some project } } in
      let s2 = record s1 { locals = record s1.locals { lock_id = some deps.lock_uuid } } in
      if-Ends (is_present (or_else environment.repo_root environment.workspace_root)) _ _ s1
        (locking environment draft project (run_key_of deps turns project draft snapshot) s2 refl
          refl (locals s1 _ (locals s _ i)))
        (return_pushed-Ends _ true s1 (locals s _ i))

  run_drafted-Ends :
      (environment : EnvironmentSnapshot) (snapshot : ProjectRuntimeSnapshot)
      (draft : LocalTaskDraft)
      → Ends I Q (run_drafted deps turns environment snapshot draft)
  unfolding run_drafted ensure_project_from_environment
  run_drafted-Ends environment snapshot draft s i =
      continue-Ends I Q (run_in_project deps turns environment snapshot draft)
        (ensure_project_from_environment deps turns environment s) weaken
        (run_in_project-Ends environment snapshot draft)
        (call-Keeps I turns (λ turn t. (t, value (deps.ensure_project environment))) inv.enters
          (λ turn t j. j) s i)

  run_healthy-Ends :
      (environment : EnvironmentSnapshot) (snapshot : ProjectRuntimeSnapshot)
      (o : Option LocalTaskDraft)
      → Ends I Q (run_healthy deps turns environment snapshot o)
  unfolding run_healthy
  run_healthy-Ends environment snapshot none = return_pushed-Ends _ true
  run_healthy-Ends environment snapshot (some draft) =
      run_drafted-Ends environment snapshot
        (with_sanitized_draft_candidate_files deps draft environment)

  run_with_health-Ends :
      (environment : EnvironmentSnapshot) (health : PersistenceHealthcheck)
      → Ends I Q (run_with_health deps turns environment health)
  unfolding run_with_health run_with_snapshot
  run_with_health-Ends environment health s i =
      if-Ends health.ok (run_with_snapshot deps turns environment) _ s
        (run_healthy-Ends environment s.runtime s.runtime.task_draft s i)
        (return_pushed-Ends _ true s i)

  health_from-Keeps : (r : Result PersistenceHealthcheck) → Keeps I (health_from deps turns r)
  unfolding health_from update_db_status
  health_from-Keeps (value health) = λ s i. inv.connects s health.db_status health.error i
  health_from-Keeps (threw message) = λ s i. inv.connects s disconnected (some message) i

  run_inside-Ends :
      (environment : EnvironmentSnapshot) → Ends I Q (run_inside deps turns environment)
  unfolding run_inside refresh_persistence_status
  run_inside-Ends environment s i =
      let ask = attempt (call turns (λ turn t. (t, value deps.healthcheck))) in
      continue-Ends I Q (run_with_health deps turns environment)
        (refresh_persistence_status deps turns s) weaken (run_with_health-Ends environment)
        (bind-Keeps I ask (health_from deps turns)
          (call-Keeps I turns (λ turn t. (t, value deps.healthcheck)) inv.enters (λ turn t j. j))
          health_from-Keeps s i)

  run_guarded-Ends :
      (environment : EnvironmentSnapshot) (o : Option LocalCommandResult)
      → Ends I Q (run_guarded deps turns environment o)
  unfolding run_guarded
  run_guarded-Ends environment none = run_inside-Ends environment
  run_guarded-Ends environment (some refusal) = return_pushed-Ends refusal true

  run_in-Ends : (environment : EnvironmentSnapshot) → Ends I Q (run_in deps turns environment)
  unfolding run_in apply_environment
  run_in-Ends environment s i =
      run_guarded-Ends environment (enforce_workspace_boundary deps run_name environment) _
        (inv.environs s environment run_name running i)

  pub run_environment-Ends : Ends I Q (run_environment deps turns)
  unfolding run_environment
  run_environment-Ends s i =
      continue-Ends I Q (run_in deps turns) (deps.inspect, s) weaken run_in-Ends i
