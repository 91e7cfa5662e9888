-- ===== src/Commands/Calls.antt =====
-- The calls to the database in `localRunCodex` of
-- vscode-extension/src/local/localCommandService.ts, and what it does with its claim at the end.
use shared_dev_context_layer.Base.{
  ℕ, String, Bool, true, false, ◌&&◌, not, Option, none, some, if◌then◌else◌, string_Eq,
}
use shared_dev_context_layer.Persistence.RunLock.{
  acquire_project_run_lock, release_project_run_lock,
}
use shared_dev_context_layer.Persistence.Idempotency.{
  CommandKey, complete_idempotency_claim, fail_idempotency_claim,
}
use shared_dev_context_layer.Persistence.Idempotency.Claim.{
  ClaimStatus, ClaimResult, claim_idempotency,
}
use shared_dev_context_layer.Commands.Types.{LocalCommandResult, CommandStatus, Details}
use shared_dev_context_layer.Commands.Session.{
  Result, value, threw, Action, Call, ◌>>=◌, ◌>>◌, pure, throw, gets, set_locals, Turn, call,
  ActiveClaim,
}
use shared_dev_context_layer.Commands.Deps.{Deps}
use shared_dev_context_layer.Commands.Reports.{make_result, push_result, is_ok}
use shared_dev_context_layer.Commands.Heartbeat.{project_run_lock_ttl_seconds, run_timer}
use shared_dev_context_layer.Commands.Execution.{
  transition_call, final_task_state_from_outcome, is_lost,
}
use shared_dev_context_layer.Commands.Closing.{
  Ending, Persisted, persist_ending, run_result, message_of, classification_of,
}

abbrev pub run_name : String
run_name = "local_run_codex"

abbrev pub run_error : String → Details → LocalCommandResult
run_error message details = make_result run_name CommandStatus.error message (some details)

unfoldable pub acquire_call : String → String → Call Bool
acquire_call project lock turn t =
    let (locks, acquired) =
      acquire_project_run_lock turn.now
        (record {
          project_id = project;
          owner = run_name;
          lock_id = lock;
          ttl_seconds = project_run_lock_ttl_seconds;
        })
        t.locks in
    (record t { locks = locks }, value acquired)

unfoldable pub release_call : String → String → Call Unit
release_call project lock turn t = (
  record t {
    locks = release_project_run_lock (record { project_id = project; lock_id = lock }) t.locks;
  },
  value tt,
)

abbrev pub or_threw : Option ClaimResult → Result ClaimResult
or_threw none = threw "No se pudo resolver claim de idempotencia."
or_threw (some result) = value result

unfoldable pub claim_call : CommandKey → String → Call ClaimResult
claim_call key claim_id turn t =
    let (claims, result) =
      claim_idempotency turn.now
        (record {
          key = key;
          claim_id = claim_id;
          owner = run_name;
          ttl_seconds = project_run_lock_ttl_seconds;
        })
        turn.before_select turn.before_update t.claims in
    (record t { claims = claims }, or_threw result)

module _ (deps : Deps) where
  unfoldable pub complete_call : ActiveClaim → LocalCommandResult → Call Bool
  complete_call claim result turn t =
      let (claims, completed) =
        complete_idempotency_claim turn.now
          (record {
            key = claim.key;
            claim_id = claim.claim_id;
            response_json = deps.to_json result;
          })
          t.claims in
      (record t { claims = claims }, value completed)

  unfoldable pub fail_call : ActiveClaim → String → LocalCommandResult → Call Bool
  fail_call claim message result turn t =
      let (claims, failed) =
        fail_idempotency_claim turn.now
          (record {
            key = claim.key;
            claim_id = claim.claim_id;
            error_message = message;
            response_json = deps.to_json result;
          })
          t.claims in
      (record t { claims = claims }, value failed)

  -- `this.pushResult(result, isError); return result;`
  unfoldable pub return_pushed : LocalCommandResult → Bool → Action LocalCommandResult
  return_pushed result is_error = push_result deps result is_error >> pure result

abbrev pub set_completed : Action Unit
set_completed = set_locals (λ l. record l { claim_completed = true })

module _ (deps : Deps) (turns : ℕ → Turn) where
  unfoldable pub on_open_claim :
      (ActiveClaim → Action Unit) → Bool → Option ActiveClaim → Action Unit
  on_open_claim f completed none = pure tt
  on_open_claim f true (some claim) = pure tt
  on_open_claim f false (some claim) = f claim

  -- `if (activeClaim && !claimCompleted)`
  unfoldable pub with_open_claim : (ActiveClaim → Action Unit) → Action Unit
  with_open_claim f = gets (λ s. s.locals) >>= λ l. on_open_claim f l.claim_completed l.active_claim

  unfoldable pub completed_or_throw : Bool → Action Unit
  completed_or_throw true = set_completed
  completed_or_throw false = throw "No se pudo completar claim de idempotencia."

  unfoldable pub complete_claim : LocalCommandResult → ActiveClaim → Action Unit
  complete_claim result claim = call turns (complete_call deps claim result) >>= completed_or_throw

  unfoldable pub fail_claim : String → LocalCommandResult → ActiveClaim → Action Unit
  fail_claim message result claim =
      call turns (fail_call deps claim message result) >> set_completed

  unfoldable pub finish_claim : Ending → LocalCommandResult → ActiveClaim → Action Unit
  finish_claim end result claim =
      if is_ok result.status && not (is_lost end.heartbeat)
      then complete_claim result claim
      else fail_claim (message_of end) result claim

  unfoldable pub report_run :
      Ending → ActiveClaim → Persisted → Option ClaimStatus → Action LocalCommandResult
  report_run end claim persisted claim_status =
      let result = run_result end persisted claim_status claim in
      with_open_claim (finish_claim end result)
      >> return_pushed deps result (not (is_ok result.status))

  unfoldable pub conclude_run : Ending → ActiveClaim → Persisted → Action LocalCommandResult
  conclude_run end claim persisted =
      call turns (
        transition_call (record { project_id = end.project; task_id = end.task })
          (some "reconciling") (final_task_state_from_outcome (classification_of end).outcome))
      >> gets (λ s. s.locals.claim_status)
      >>= report_run end claim persisted

  abbrev pub closing_timer : Ending → ActiveClaim → Action Unit
  closing_timer end claim = run_timer turns end.project deps.lock_uuid claim deps.beats_closing

  -- The timer is stopped after the run only; what it finds now is too late to count.
  abbrev pub conclude_in_time : Ending → ActiveClaim → Persisted → Action LocalCommandResult
  conclude_in_time end claim persisted = closing_timer end claim >> conclude_run end claim persisted

  -- After the reconciliation.
  unfoldable pub close_run : Ending → ActiveClaim → Action LocalCommandResult
  close_run end claim = persist_ending deps turns end >>= conclude_in_time end claim
