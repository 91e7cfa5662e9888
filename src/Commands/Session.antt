-- ===== src/Commands/Session.antt =====
-- What a command works on: the tables of the database, which it shares with other clients, the
-- runtime snapshot, and the local variables of `localRunCodex` of
-- vscode-extension/src/local/localCommandService.ts. An `Action` is a piece of the asynchronous code:
-- it passes the session on, also when it throws. A call to the database takes the next `Turn`: what
-- the others have done since the last call (to the tables, and to the abort signal), the time, and
-- whether the call works. The numbers of the turns count the calls.
use shared_dev_context_layer.Base.{ℕ, suc, String, Bool, ◌||◌, Option, List, none, some}
use shared_dev_context_layer.Persistence.RunLock.{LockTable}
use shared_dev_context_layer.Persistence.Idempotency.{ClaimTable, CommandKey, Statement}
use shared_dev_context_layer.Persistence.Idempotency.Claim.{ClaimStatus}
use shared_dev_context_layer.Persistence.IndexRuns.{IndexRunTable}
use shared_dev_context_layer.Persistence.TaskState.{TaskStore}
use shared_dev_context_layer.Persistence.Records.{Records, or_unchanged}
use shared_dev_context_layer.Commands.Types.{ProjectRuntimeSnapshot}

pub record Tables : Type 0 where
  pub locks : LockTable
  pub claims : ClaimTable
  pub tasks : TaskStore
  pub index_runs : IndexRunTable

-- `ActiveIdempotencyClaim`
pub record ActiveClaim : Type 0 where
  pub key : CommandKey
  pub claim_id : String

-- The state of `LeaseHeartbeatHandle`.
pub record Heartbeat : Type 0 where
  pub lock_lease_lost : Bool
  pub claim_lease_lost : Bool
  pub lease_lost_reason : Option String
  -- the interval timer is set
  pub timer : Bool

-- The variables that `catch` and `finally` read.
pub record Locals : Type 0 where
  pub lock_id : Option String
  pub project_id_for_lock : Option String
  pub draft_id_for_state : Option String
  pub state_transition_started : Bool
  pub transitioned_to_reconciling : Bool
  pub active_claim : Option ActiveClaim
  pub claim_completed : Bool
  pub claim_status : Option ClaimStatus
  pub heartbeat : Option Heartbeat

-- `records` are the rows of this client: no write of a run reads those of others. `runs` counts the
-- starts of Codex.
pub record Session : Type 0 where
  pub tables : Tables
  pub records : Records
  pub runtime : ProjectRuntimeSnapshot
  pub locals : Locals
  pub aborted : Bool
  pub calls : ℕ
  pub runs : ℕ

pub data Result (A : Type 0) : Type 0 where
  value : A → Result A
  threw : String → Result A

-- A call works, or it throws without effect, or it has its effect and the answer is lost.
pub data Fault : Type 0 where
  works : Fault
  fails unanswered : String → Fault

pub record Turn : Type 0 where
  pub now : ℕ
  pub others : Tables → Tables
  pub user_aborts : Bool
  pub fault : Fault
  -- the random id of a new row
  pub fresh_id : String
  -- what other clients do to the claims while `claimIdempotency` runs
  pub before_select : List (ℕ × Statement)
  pub before_update : List (ℕ × Statement)

abbrev pub Action : Type 0 → Type 0
Action A = Session → Result A × Session

abbrev pub continue : {A B : Type 0} → (A → Action B) → Result A × Session → Result B × Session
continue f (value a, s) = f a s
continue f (threw e, s) = (threw e, s)

infixl 5 ◌>>=◌ ◌>>◌
abbrev pub ◌>>=◌ : {A B : Type 0} → Action A → (A → Action B) → Action B
(m >>= f) s = continue f (m s)

abbrev pub ◌>>◌ : {A B : Type 0} → Action A → Action B → Action B
m >> k = m >>= λ _. k

abbrev pub pure : {A : Type 0} → A → Action A
pure a s = (value a, s)

abbrev pub throw : {A : Type 0} → String → Action A
throw e s = (threw e, s)

abbrev pub from_result : {A : Type 0} → Result A → Action A
from_result r s = (r, s)

abbrev pub gets : {A : Type 0} → (Session → A) → Action A
gets f s = (value (f s), s)

abbrev pub set_locals : (Locals → Locals) → Action Unit
set_locals f s = (value tt, record s { locals = f s.locals })

-- `store.update`
abbrev pub update_store : (ProjectRuntimeSnapshot → ProjectRuntimeSnapshot) → Action Unit
update_store f s = (value tt, record s { runtime = f s.runtime })

abbrev pub recover : {A : Type 0} → (String → Action A) → Result A × Session → Result A × Session
recover handler (value a, s) = (value a, s)
recover handler (threw e, s) = handler e s

-- The result as a value, thrown or not.
abbrev pub attempt : {A : Type 0} → Action A → Action (Result A)
attempt m s = let (r, s') = m s in (value r, s')

-- `try { … } catch (error) { … }`
abbrev pub catching : {A : Type 0} → Action A → (String → Action A) → Action A
catching m handler s = recover handler (m s)

-- `try { … } finally { … }`, for a block that does not throw.
abbrev pub finishing : {A : Type 0} → Action A → Action Unit → Action A
finishing m cleanup s = let (r, s') = m s in (r, (cleanup s').1)

-- A call that the database answers with a value or an error.
abbrev pub Call : Type 0 → Type 0
Call A = Turn → Tables → Tables × Result A

abbrev pub enter : Turn → Session → Session
enter turn s = record s {
  tables = turn.others s.tables;
  aborted = s.aborted || turn.user_aborts;
  calls = suc s.calls;
}

abbrev pub leave : {A : Type 0} → Session → Tables × Result A → Result A × Session
leave s (t, r) = (r, record s { tables = t })

abbrev pub answer_with : {A : Type 0} → Fault → Call A → Turn → Session → Result A × Session
answer_with works op turn s = leave s (op turn s.tables)
answer_with (fails e) op turn s = (threw e, s)
answer_with (unanswered e) op turn s =
    let (t, r) = op turn s.tables in (threw e, record s { tables = t })

-- A write of records, with the id of the new row; `none` is the error of a unique index. Only this
-- client writes records meanwhile.
abbrev pub Write : Type 0
Write = String → Records → Option (Records × String)

abbrev pub wrote : Option (Records × String) → Session → Result String × Session
wrote none s = (threw "duplicate key value violates unique constraint", s)
wrote (some (records, row)) s = (value row, record s { records = records })

abbrev pub write_with : Fault → Write → String → Session → Result String × Session
write_with works op id s = wrote (op id s.records) s
write_with (fails e) op id s = (threw e, s)
write_with (unanswered e) op id s =
    (threw e, record s { records = or_unchanged s.records (op id s.records) })

-- COMMIT, or a rollback to `saved`.
abbrev pub commit_with : {A : Type 0} → Fault → Records → A → Session → Result A × Session
commit_with works saved a s = (value a, s)
commit_with (fails e) saved a s = (threw e, record s { records = saved })
commit_with (unanswered e) saved a s = (threw e, s)

module _ (turns : ℕ → Turn) where
  unfoldable pub call : {A : Type 0} → Call A → Action A
  call op s = let turn = turns s.calls in answer_with turn.fault op turn (enter turn s)

  unfoldable pub write : Write → Action String
  write op s = let turn = turns s.calls in write_with turn.fault op turn.fresh_id (enter turn s)

  abbrev pub conclude : {A : Type 0} → Records → Result A × Session → Result A × Session
  conclude saved (value a, s) =
      let turn = turns s.calls in commit_with turn.fault saved a (enter turn s)
  conclude saved (threw e, s) = (threw e, record s { records = saved })

  -- `runInTransaction`: BEGIN, the operation, COMMIT, with a ROLLBACK where one of them throws.
  unfoldable pub run_in_transaction : {A : Type 0} → Action A → Action A
  run_in_transaction operation s =
      conclude s.records ((call (λ turn t. (t, value tt)) >> operation) s)
