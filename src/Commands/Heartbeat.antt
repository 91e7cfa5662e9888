-- ===== src/Commands/Heartbeat.antt =====
-- The heartbeat of a run: `startLeaseHeartbeat` of
-- vscode-extension/src/local/localCommandService.ts. A tick renews the lock and the claim; its two
-- calls are sent together, and where both fail the error of the lock is taken as the first.
use Prim.Native.String
use shared_dev_context_layer.Base.{
  ℕ, zero, suc, String, Bool, true, false, ◌||◌, not, Option, none, some, if◌then◌else◌,
}
use shared_dev_context_layer.Persistence.RunLock.{renew_project_run_lock}
use shared_dev_context_layer.Persistence.Idempotency.{renew_idempotency_claim}
use shared_dev_context_layer.Commands.Session.{
  Result, value, threw, Action, Call, ◌>>=◌, ◌>>◌, pure, attempt, Turn, call, Heartbeat,
  ActiveClaim, set_locals, gets,
}

abbrev pub project_run_lock_ttl_seconds : ℕ
project_run_lock_ttl_seconds = 180

abbrev pub first_reason : Option String → String → Option String
first_reason none reason = some reason
first_reason (some earlier) reason = some earlier

abbrev pub mark_lock : Bool → Heartbeat → Heartbeat
mark_lock true h = h
mark_lock false h = record h { lock_lease_lost = true; lease_lost_reason = some "lock_lease_lost" }

abbrev pub mark_claim : Bool → Heartbeat → Heartbeat
mark_claim true h = h
mark_claim false h = record h {
  claim_lease_lost = true;
  lease_lost_reason = first_reason h.lease_lost_reason "idempotency_claim_lost";
}

abbrev pub failed_beat : String → Heartbeat → Heartbeat
failed_beat message h = record h {
  lock_lease_lost = true;
  claim_lease_lost = true;
  lease_lost_reason = some (String.◌++◌ "heartbeat_error:" message);
}

unfoldable pub after_tick : Result Bool → Result Bool → Heartbeat → Heartbeat
after_tick (value lock_ok) (value claim_ok) h = mark_claim claim_ok (mark_lock lock_ok h)
after_tick (threw message) _ h = failed_beat message h
after_tick (value _) (threw message) h = failed_beat message h

abbrev pub lease_lost : Heartbeat → Bool
lease_lost h = h.lock_lease_lost || h.claim_lease_lost

abbrev pub quiet : Heartbeat
quiet = record {
  lock_lease_lost = false;
  claim_lease_lost = false;
  lease_lost_reason = none;
  timer = false;
}

-- `abortController.abort()`
abbrev pub abort_if : Bool → Action Unit
abort_if lost s = (value tt, record s { aborted = s.aborted || lost })

unfoldable pub renew_lock_call : String → String → Call Bool
renew_lock_call project lock turn t =
    let (locks, renewed) =
      renew_project_run_lock turn.now
        (record {
          project_id = project;
          lock_id = lock;
          ttl_seconds = project_run_lock_ttl_seconds;
        })
        t.locks in
    (record t { locks = locks }, value renewed)

unfoldable pub renew_claim_call : ActiveClaim → Call Bool
renew_claim_call claim turn t =
    let (claims, renewed) =
      renew_idempotency_claim turn.now
        (record {
          key = claim.key;
          claim_id = claim.claim_id;
          ttl_seconds = project_run_lock_ttl_seconds;
        })
        t.claims in
    (record t { claims = claims }, value renewed)

abbrev pub set_heartbeat : Heartbeat → Action Unit
set_heartbeat h = set_locals (λ l. record l { heartbeat = some h })

module _ (turns : ℕ → Turn) where
  unfoldable pub renew_tick : String → String → ActiveClaim → Heartbeat → Action Heartbeat
  renew_tick project lock claim h =
      attempt (call turns (renew_lock_call project lock)) >>= λ lock_answer.
      attempt (call turns (renew_claim_call claim)) >>= λ claim_answer.
      let h' = after_tick lock_answer claim_answer h in abort_if (lease_lost h') >> pure h'

  unfoldable pub start_lease_heartbeat : String → String → ActiveClaim → Action Unit
  start_lease_heartbeat project lock claim = renew_tick project lock claim quiet >>= λ h.
      set_heartbeat (record h { timer = not (lease_lost h) })

  -- The timer fires `n` times, if it is set.
  unfoldable pub timer_ticks : String → String → ActiveClaim → ℕ → Heartbeat → Action Heartbeat
  timer_ticks project lock claim zero h = pure h
  timer_ticks project lock claim (suc n) h =
      renew_tick project lock claim h >>= timer_ticks project lock claim n

  unfoldable pub timer_on : String → String → ActiveClaim → ℕ → Option Heartbeat → Action Unit
  timer_on project lock claim n none = pure tt
  timer_on project lock claim n (some h) =
      if h.timer then timer_ticks project lock claim n h >>= set_heartbeat else pure tt

  unfoldable pub run_timer : String → String → ActiveClaim → ℕ → Action Unit
  run_timer project lock claim n = gets (λ s. s.locals.heartbeat) >>= timer_on project lock claim n
