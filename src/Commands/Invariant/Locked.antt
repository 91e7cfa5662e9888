-- ===== src/Commands/Invariant/Locked.antt =====
-- The part of `localRunCodex` (vscode-extension/src/local/localCommandService.ts) under the lock of
-- the project keeps what its steps keep.
use shared_dev_context_layer.Base.{ℕ, String, true, not, Option, none, some, ◌==◌, string_Eq}
use shared_dev_context_layer.Persistence.Idempotency.Claim.{ClaimStatus}
use shared_dev_context_layer.PostRun.Reconciler.{PostRunReconciliationResult}
use shared_dev_context_layer.Commands.Types.{LocalTaskDraft, EnvironmentSnapshot}
use shared_dev_context_layer.Commands.Session.{
  ◌>>◌, gets, set_locals, Turn, Session, ActiveClaim, call,
}
use shared_dev_context_layer.Commands.Deps.{Deps}
use shared_dev_context_layer.Commands.Keeps.{Keeps, bind-Keeps, then-Keeps, if-Keeps}
use shared_dev_context_layer.Commands.Reports.{is_ok}
use shared_dev_context_layer.Commands.Execution.{
  transition_call, reconcile_run, final_task_state_from_outcome,
}
use shared_dev_context_layer.Commands.Closing.{
  Ending, Persisted, persist_ending, run_result, classification_of,
}
use shared_dev_context_layer.Commands.Calls.{
  return_pushed, with_open_claim, finish_claim, report_run, conclude_run, closing_timer,
  conclude_in_time, close_run,
}
use shared_dev_context_layer.Commands.Stages.{
  request_of, task_of, ending_of, run_reconciled, run_prepared, run_in_state, not_prepared,
  run_locking,
}
use shared_dev_context_layer.Commands.Quiet.{
  IsQuiet, return_pushed-Keeps, transition-Keeps, with_open_claim-Keeps, finish_claim-Keeps,
}
use shared_dev_context_layer.Commands.Invariant.{IsInvariant, run_timer-Keeps, reconcile_run-Keeps}
use shared_dev_context_layer.Commands.Types.{LocalCommandResult}
use shared_dev_context_layer.Commands.Session.{Result}
use shared_dev_context_layer.Commands.Invariant.Claimed.{run_locking-Ends}

pub report_run-Keeps :
    (deps : Deps) (turns : ℕ → Turn) (I : Session → Type 0)
    → IsQuiet deps turns I
    → (end : Ending) (claim : ActiveClaim) (persisted : Persisted) (status : Option ClaimStatus)
    → Keeps I (report_run deps turns end claim persisted status)
unfolding report_run
report_run-Keeps deps turns I quiet end claim persisted status =
    let result = run_result end persisted status claim in
    then-Keeps I (with_open_claim deps turns (finish_claim deps turns end result))
      (return_pushed deps result (not (is_ok result.status)))
      (with_open_claim-Keeps deps turns I quiet (finish_claim deps turns end result)
        (finish_claim-Keeps deps turns I quiet end result))
      (return_pushed-Keeps deps turns I quiet result (not (is_ok result.status)))

module _ (deps : Deps) (turns : ℕ → Turn) (I : Session → Type 0) (end : Ending)
    (inv : IsInvariant deps turns end.project end.task I) where
  conclude_run-Keeps :
      (claim : ActiveClaim) (persisted : Persisted)
      → Keeps I (conclude_run deps turns end claim persisted)
  unfolding conclude_run
  conclude_run-Keeps claim persisted =
      let close = call turns (
        transition_call (record { project_id = end.project; task_id = end.task })
          (some "reconciling") (final_task_state_from_outcome (classification_of end).outcome)) in
      bind-Keeps I (close >> gets (λ s. s.locals.claim_status))
        (report_run deps turns end claim persisted)
        (then-Keeps I close (gets (λ s. s.locals.claim_status))
          (transition-Keeps deps turns I inv.locked.quiet _ (some "reconciling") _
            (inv.tasks (some "reconciling") _))
          (λ s i. i))
        (report_run-Keeps deps turns I inv.locked.quiet end claim persisted)

  close_run-Keeps : (claim : ActiveClaim) → Keeps I (close_run deps turns end claim)
  unfolding close_run
  close_run-Keeps claim =
      bind-Keeps I (persist_ending deps turns end) (conclude_in_time deps turns end claim)
        (inv.persists end)
        (λ persisted.
          then-Keeps I (closing_timer deps turns end claim)
            (conclude_run deps turns end claim persisted)
            (run_timer-Keeps deps turns end.project I inv.locked claim deps.beats_closing)
            (conclude_run-Keeps claim persisted))

module _ (deps : Deps) (turns : ℕ → Turn) (project : String) (I : Session → Type 0)
    (environment : EnvironmentSnapshot) (draft : LocalTaskDraft) (run_key : String)
    (inv : IsInvariant deps turns project draft.id I)
    (drafts : (s : Session) (d : Option String)
      → I s
      → I (record s { locals = record s.locals { draft_id_for_state = d } }))
    (starts : (s : Session)
      → I s
      → I (record s { locals = record s.locals { state_transition_started = true } })) where
  run_reconciled-Keeps :
      (claim : ActiveClaim) (reconciled : PostRunReconciliationResult)
      → Keeps I (run_reconciled deps turns environment draft project run_key claim reconciled)
  unfolding run_reconciled
  run_reconciled-Keeps claim reconciled s i =
      close_run-Keeps deps turns I
        (ending_of deps turns environment draft project run_key reconciled s.locals.heartbeat) inv
        claim s i

  run_prepared-Keeps :
      (command : String) (claim : ActiveClaim)
      → Keeps I (run_prepared deps turns environment draft project run_key command claim)
  unfolding run_prepared
  run_prepared-Keeps command claim =
      let start = call turns (
        transition_call (task_of deps turns environment draft project run_key) (some "prepared")
          "running") in
      let started = set_locals (λ l. record l { state_transition_started = true }) in
      let work =
        reconcile_run deps turns project deps.lock_uuid command claim
          (request_of deps turns environment draft project run_key) in
      bind-Keeps I (start >> started >> work)
        (run_reconciled deps turns environment draft project run_key claim)
        (then-Keeps I (start >> started) work
          (then-Keeps I start started
            (transition-Keeps deps turns I inv.locked.quiet _ (some "prepared") "running"
              (inv.tasks (some "prepared") "running"))
            starts)
          (reconcile_run-Keeps deps turns project I command claim
            (request_of deps turns environment draft project run_key) inv))
        (run_reconciled-Keeps claim)

  run_in_state-Keeps :
      (command : String) (claim : ActiveClaim) (o : Option String)
      → Keeps I (run_in_state deps turns environment draft project run_key command claim o)
  unfolding run_in_state
  run_in_state-Keeps command claim none =
      then-Keeps I
        (call turns
          (transition_call (task_of deps turns environment draft project run_key) none "prepared"))
        (run_prepared deps turns environment draft project run_key command claim)
        (transition-Keeps deps turns I inv.locked.quiet _ none "prepared"
          (inv.tasks none "prepared"))
        (run_prepared-Keeps command claim)
  run_in_state-Keeps command claim (some state) =
      let refusal = not_prepared deps turns environment draft project run_key state in
      if-Keeps I (state == "prepared")
        (run_prepared deps turns environment draft project run_key command claim)
        (return_pushed deps refusal true) (run_prepared-Keeps command claim)
        (return_pushed-Keeps deps turns I inv.locked.quiet refusal true)

  pub run_locking-Keeps : Keeps I (run_locking deps turns environment draft project run_key)
  run_locking-Keeps =
      run_locking-Ends deps turns project I inv.locked
        (λ (r : Result LocalCommandResult × Session). I r.1) (λ r s i. i) drafts environment draft
        run_key (λ command claim o s _ i. run_in_state-Keeps command claim o s i)
