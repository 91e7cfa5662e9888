-- ===== src/Commands/Invariant/Claimed.antt =====
-- The part of `localRunCodex` (vscode-extension/src/local/localCommandService.ts) from the request for
-- the lock to the check of the task's state: what it comes to, where the rest comes to it.
use shared_dev_context_layer.Base.{
  ◌≡◌, ℕ, refl, String, Bool, true, false, Option, none, some, string_Eq,
}
use shared_dev_context_layer.CommandValidation.{
  InvalidReason, CodexCommandValidationResult, executable, invalid,
  validate_codex_executable_command,
}
use shared_dev_context_layer.Persistence.RunLock.{acquire, serve}
use shared_dev_context_layer.Persistence.Idempotency.Claim.{
  ClaimResult, ClaimStatus, claimed, reclaimed, busy, replay,
}
use shared_dev_context_layer.Persistence.TaskState.{get_task_lifecycle_state}
use shared_dev_context_layer.Commands.Types.{LocalTaskDraft, EnvironmentSnapshot}
use shared_dev_context_layer.Commands.Session.{
  value, ◌>>◌, set_locals, Turn, Session, ActiveClaim, call,
}
use shared_dev_context_layer.Commands.Deps.{Deps}
use shared_dev_context_layer.Commands.Keeps.{Keeps, bind-Keeps, then-Keeps, call-Keeps}
use shared_dev_context_layer.Commands.Heartbeat.{start_lease_heartbeat}
use shared_dev_context_layer.Commands.Calls.{
  acquire_call, claim_call, return_pushed, with_open_claim, fail_claim,
}
use shared_dev_context_layer.Commands.Stages.{
  task_of, run_in_state, run_task, record_invalid_command_configuration_event, run_invalid,
  invalid_config, reason_text, run_validated, run_claimed, run_command_key, own_claim, run_replayed,
  run_with_claim, run_with_answer, run_locked, run_acquired, run_locking,
}
use shared_dev_context_layer.Commands.Quiet.{
  return_pushed-Keeps, with_open_claim-Keeps, fail_claim-Keeps,
}
use shared_dev_context_layer.Commands.Invariant.{start_lease_heartbeat-Keeps}
use shared_dev_context_layer.Commands.Types.{LocalCommandResult}
use shared_dev_context_layer.Commands.Session.{Result, Action, continue, ◌>>=◌}
use shared_dev_context_layer.Persistence.TaskState.{TaskKey}
use shared_dev_context_layer.Commands.Invariant.{IsLocked}
use shared_dev_context_layer.Commands.Invariant.Unlocked.{Ends, continue-Ends}

module _ (deps : Deps) (turns : ℕ → Turn) (project : String) (I : Session → Type 0)
    (inv : IsLocked deps turns project I) (Q : Result LocalCommandResult × Session → Type 0)
    (weaken : (r : Result LocalCommandResult) (s : Session) → I s → Q (r, s))
    (drafts : (s : Session) (d : Option String)
      → I s
      → I (record s { locals = record s.locals { draft_id_for_state = d } }))
    (environment : EnvironmentSnapshot) (draft : LocalTaskDraft) (run_key : String)
    (in_state : (command : String) (claim : ActiveClaim) (o : Option String) (s : Session)
      → s.locals.draft_id_for_state ≡ some draft.id
      → I s
      → Q (run_in_state deps turns environment draft project run_key command claim o s)) where
  Keeps-Ends : (m : Action LocalCommandResult) → Keeps I m → Ends I Q m
  Keeps-Ends m keeps s i = weaken (m s).0 (m s).1 (keeps s i)

  return_pushed-Ends :
      (result : LocalCommandResult) (is_error : Bool)
      → Ends I Q (return_pushed deps result is_error)
  return_pushed-Ends result is_error =
      Keeps-Ends (return_pushed deps result is_error)
        (return_pushed-Keeps deps turns I inv.quiet result is_error)

  -- `I`, and the draft of the run is known.
  abbrev HasDraft : Session → Type 0
  HasDraft s = I s × (s.locals.draft_id_for_state ≡ some draft.id)

  read_drafted-Keeps :
      (task : TaskKey)
      → Keeps HasDraft (call turns (λ turn t. (t, value (get_task_lifecycle_state task t.tasks))))
  read_drafted-Keeps task =
      call-Keeps HasDraft turns (λ turn t. (t, value (get_task_lifecycle_state task t.tasks)))
        (λ s (i, drafted). (inv.quiet.enters s i, drafted)) (λ turn s h. h)

  continue_drafted :
      {A : Type 0} (f : A → Action LocalCommandResult) (r : Result A × Session)
      → ((a : A) → Ends HasDraft Q (f a))
      → HasDraft r.1
      → Q (continue f r)
  continue_drafted f r ends h =
      continue-Ends HasDraft Q f r (λ r' s (i, drafted). weaken r' s i) ends h

  run_task-Ends :
      (command : String) (claim : ActiveClaim)
      → Ends I Q (run_task deps turns environment draft project run_key command claim)
  unfolding run_task
  run_task-Ends command claim s i =
      let task = task_of deps turns environment draft project run_key in
      let read = call turns (λ turn t. (t, value (get_task_lifecycle_state task t.tasks))) in
      let s1 = record s { locals = record s.locals { draft_id_for_state = some draft.id } } in
      continue_drafted (run_in_state deps turns environment draft project run_key command claim)
        (read s1) (λ o t (j, drafted). in_state command claim o t drafted j)
        (read_drafted-Keeps task s1 (drafts s (some draft.id) i, refl))

  run_invalid-Keeps :
      (claim : ActiveClaim) (reason : InvalidReason) (event : Option String)
      → Keeps I (run_invalid deps turns environment draft project run_key claim reason event)
  unfolding run_invalid
  run_invalid-Keeps claim reason event =
      let result = invalid_config deps turns environment draft project run_key reason event in
      let fails = fail_claim deps turns (reason_text reason) result in
      then-Keeps I (with_open_claim deps turns fails) (return_pushed deps result true)
        (with_open_claim-Keeps deps turns I inv.quiet fails
          (fail_claim-Keeps deps turns I inv.quiet (reason_text reason) result))
        (return_pushed-Keeps deps turns I inv.quiet result true)

  run_validated-Ends :
      (claim : ActiveClaim) (checked : CodexCommandValidationResult)
      → Ends I Q (run_validated deps turns environment draft project run_key claim checked)
  unfolding run_validated record_invalid_command_configuration_event
  run_validated-Ends claim (executable command) = run_task-Ends command claim
  run_validated-Ends claim (invalid reason) =
      let event =
        record_invalid_command_configuration_event deps turns environment draft project run_key in
      let reject = run_invalid deps turns environment draft project run_key claim reason in
      Keeps-Ends (event >>= reject)
        (bind-Keeps I event reject (λ s i. inv.saves _ s i) (run_invalid-Keeps claim reason))

  run_claimed-Ends :
      (claim : ActiveClaim)
      → Ends I Q (run_claimed deps turns environment draft project run_key claim)
  unfolding run_claimed
  run_claimed-Ends claim s i =
      let mark = set_locals (λ l. record l { active_claim = some claim }) in
      let beat = start_lease_heartbeat turns project deps.lock_uuid claim in
      let checked = validate_codex_executable_command deps.codex_cli_command in
      continue-Ends I Q
        (λ _. run_validated deps turns environment draft project run_key claim checked)
        ((mark >> beat) s) weaken (λ _. run_validated-Ends claim checked)
        (then-Keeps I mark beat (λ t j. inv.quiet.flags t _ refl refl refl refl j)
          (start_lease_heartbeat-Keeps deps turns project I inv claim) s i)

  run_replayed-Ends :
      (result : ClaimResult) (o : Option String)
      → Ends I Q (run_replayed deps turns environment draft project run_key result o)
  unfolding run_replayed
  run_replayed-Ends result none = return_pushed-Ends _ true
  run_replayed-Ends result (some response) = return_pushed-Ends _ _

  run_with_claim-Ends :
      (result : ClaimResult) (status : ClaimStatus)
      → Ends I Q (run_with_claim deps turns environment draft project run_key result status)
  unfolding run_with_claim
  run_with_claim-Ends result replay = run_replayed-Ends result result.response_json
  run_with_claim-Ends result busy = return_pushed-Ends _ true
  run_with_claim-Ends result claimed =
      run_claimed-Ends (own_claim deps turns environment draft project run_key result)
  run_with_claim-Ends result reclaimed =
      run_claimed-Ends (own_claim deps turns environment draft project run_key result)

  run_with_answer-Ends :
      (result : ClaimResult)
      → Ends I Q (run_with_answer deps turns environment draft project run_key result)
  unfolding run_with_answer
  run_with_answer-Ends result s i =
      run_with_claim-Ends result result.status _ (inv.quiet.flags s _ refl refl refl refl i)

  run_locked-Ends : Ends I Q (run_locked deps turns environment draft project run_key)
  unfolding run_locked claim_call
  run_locked-Ends s i =
      let key = run_command_key deps turns environment draft project run_key in
      continue-Ends I Q (run_with_answer deps turns environment draft project run_key)
        (call turns (claim_call key deps.claim_uuid) s) weaken run_with_answer-Ends
        (call-Keeps I turns (claim_call key deps.claim_uuid) inv.quiet.enters
          (λ turn t j. inv.quiet.claims t _ j) s i)

  run_acquired-Ends :
      (acquired : Bool)
      → Ends I Q (run_acquired deps turns environment draft project run_key acquired)
  unfolding run_acquired
  run_acquired-Ends true = run_locked-Ends
  run_acquired-Ends false = return_pushed-Ends _ true

  pub run_locking-Ends : Ends I Q (run_locking deps turns environment draft project run_key)
  unfolding run_locking acquire_call serve
  run_locking-Ends s i =
      continue-Ends I Q (run_acquired deps turns environment draft project run_key)
        (call turns (acquire_call project deps.lock_uuid) s) weaken run_acquired-Ends
        (call-Keeps I turns (acquire_call project deps.lock_uuid) inv.quiet.enters
          (λ turn t j.
            inv.served t turn.now
              (acquire (record {
                project_id = project;
                owner = "local_run_codex";
                lock_id = deps.lock_uuid;
                ttl_seconds = 180;
              }))
              refl refl j)
          s i)
