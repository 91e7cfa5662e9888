-- ===== src/Commands/Invariant/Whole.antt =====
-- The whole of `localRunCodex` (vscode-extension/src/local/localCommandService.ts) keeps what its
-- steps keep, for a predicate that does not read the locks and the local variables.
use shared_dev_context_layer.Base.{ℕ, String, true, Option, none, some}
use shared_dev_context_layer.Persistence.RunLock.{LockTable}
use shared_dev_context_layer.Persistence.TaskState.{TaskStore}
use shared_dev_context_layer.Commands.Types.{LocalCommandResult}
use shared_dev_context_layer.Commands.Session.{
  Result, catching, attempt, pure, Turn, Session, Locals, call,
}
use shared_dev_context_layer.Commands.Deps.{Deps}
use shared_dev_context_layer.Commands.Keeps.{Keeps, catching-Keeps, then-Keeps, call-Keeps}
use shared_dev_context_layer.Commands.Guards.{ensure_local_profile}
use shared_dev_context_layer.Commands.Calls.{release_call, run_name}
use shared_dev_context_layer.Commands.Run.{
  no_locals, run_environment, on_exception, release_held, clean_up, run_unblocked, local_run_codex,
}
use shared_dev_context_layer.Commands.Quiet.{IsQuiet, return_pushed-Keeps, on_exception-Keeps}
use shared_dev_context_layer.Commands.Invariant.{IsInvariant}
use shared_dev_context_layer.Commands.Invariant.Locked.{run_locking-Keeps}
use shared_dev_context_layer.Commands.Invariant.Unlocked.{run_environment-Ends}

module _ (deps : Deps) (turns : ℕ → Turn) (I : Session → Type 0) (quiet : IsQuiet deps turns I)
    (locks : (s : Session) (t : LockTable)
      → I s
      → I (record s { tables = record s.tables { locks = t } })) where
  release_held-Keeps :
      (project lock : Option String) → Keeps I (release_held deps turns project lock)
  unfolding release_held release_call
  release_held-Keeps (some project) (some lock) =
      then-Keeps I (attempt (call turns (release_call project lock))) (pure tt)
        (call-Keeps I turns (release_call project lock) quiet.enters (λ turn s i. locks s _ i))
        (λ s i. i)
  release_held-Keeps none _ = λ s i. i
  release_held-Keeps (some project) none = λ s i. i

  pub clean_up-Keeps : Keeps I (clean_up deps turns)
  unfolding clean_up
  clean_up-Keeps s i = release_held-Keeps s.locals.project_id_for_lock s.locals.lock_id s i

module _ (deps : Deps) (turns : ℕ → Turn) (I : Session → Type 0)
    (inv : (p task : String) → IsInvariant deps turns p task I) (quiet : IsQuiet deps turns I)
    (tasks : (s : Session) (t : TaskStore)
      → I s
      → I (record s { tables = record s.tables { tasks = t } }))
    (locals : (s : Session) (l : Locals) → I s → I (record s { locals = l }))
    (locks : (s : Session) (t : LockTable)
      → I s
      → I (record s { tables = record s.tables { locks = t } })) where
  run_environment-Keeps : Keeps I (run_environment deps turns)
  run_environment-Keeps =
      run_environment-Ends deps turns I (λ (r : Result LocalCommandResult × Session). I r.1) quiet
        locals (λ r s i. i)
        (λ environment draft p run_key s _ _ i.
          run_locking-Keeps deps turns p I environment draft run_key (inv p draft.id)
            (λ t d. locals t _) (λ t. locals t _) s i)

  run_unblocked-Keeps : (o : Option LocalCommandResult) → Keeps I (run_unblocked deps turns o)
  unfolding run_unblocked clean_up
  run_unblocked-Keeps (some refusal) = return_pushed-Keeps deps turns I quiet refusal true
  run_unblocked-Keeps none = λ s i.
      let start = record s { locals = no_locals } in
      let s' = (catching (run_environment deps turns) (on_exception deps turns) start).1 in
      clean_up-Keeps deps turns I quiet locks s' (
        catching-Keeps I (run_environment deps turns) (on_exception deps turns)
          run_environment-Keeps (on_exception-Keeps deps turns I quiet (λ _ _ t u _ j. tasks t u j))
          start (locals s no_locals i))

  pub local_run_codex-Keeps : Keeps I (local_run_codex deps turns)
  unfolding local_run_codex
  local_run_codex-Keeps = run_unblocked-Keeps (ensure_local_profile deps run_name)
