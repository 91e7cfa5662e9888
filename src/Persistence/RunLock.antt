-- ===== src/Persistence/RunLock.antt =====
-- The run lock of a project: `acquireProjectRunLock`, `renewProjectRunLock`,
-- `releaseProjectRunLock` of vscode-extension/src/local/persistence/postgresPersistenceAdapter.ts.
-- Each is one SQL statement, so one atomic step on the table `project_run_locks`. A time is a number
-- of milliseconds; `now` is the clock of the client that runs the statement.
pub mod Lease
pub mod Exclusion
pub mod Fencing
use shared_dev_context_layer.Base.{
  ℕ, ◌+◌, ◌*◌, String, Bool, true, false, ◌&&◌, not, Option, none, some, List, [], ◌∷◌, leb, ltb,
  if◌then◌else◌, ◌==◌, string_Eq,
}
use shared_dev_context_layer.Base.Table.{lookup, insert, remove}

pub record LockRow : Type 0 where
  pub lock_id : String
  pub owner : String
  pub acquired_at : ℕ
  pub heartbeat_at : ℕ
  pub expires_at : ℕ

abbrev pub LockTable : Type 0
LockTable = List (String × LockRow)

pub record AcquireInput : Type 0 where
  pub project_id : String
  pub owner : String
  pub lock_id : String
  pub ttl_seconds : ℕ

pub record RenewInput : Type 0 where
  pub project_id : String
  pub lock_id : String
  pub ttl_seconds : ℕ

pub record ReleaseInput : Type 0 where
  pub project_id : String
  pub lock_id : String

-- `$4::timestamptz + make_interval(secs => $5::int)`
abbrev pub after_seconds : ℕ → ℕ → ℕ
after_seconds now secs = now + 1000 * secs

abbrev pub fresh_lock : ℕ → AcquireInput → LockRow
fresh_lock now input = record {
  lock_id = input.lock_id;
  owner = input.owner;
  acquired_at = now;
  heartbeat_at = now;
  expires_at = after_seconds now input.ttl_seconds;
}

-- INSERT … ON CONFLICT (project_id) DO UPDATE … WHERE expires_at <= now
acquire_on : ℕ → AcquireInput → LockTable → Option LockRow → LockTable × Bool
acquire_on now input t none = (insert input.project_id (fresh_lock now input) t, true)
acquire_on now input t (some row) =
    if leb row.expires_at now
    then (insert input.project_id (fresh_lock now input) t, true)
    else (t, false)

unfoldable pub acquire_project_run_lock : ℕ → AcquireInput → LockTable → LockTable × Bool
unfolding acquire_on
acquire_project_run_lock now input t = acquire_on now input t (lookup input.project_id t)

renew_on : ℕ → RenewInput → LockTable → Option LockRow → LockTable × Bool
renew_on now input t none = (t, false)
renew_on now input t (some row) =
    if row.lock_id == input.lock_id && ltb now row.expires_at
    then (
      insert input.project_id
          (record row { heartbeat_at = now; expires_at = after_seconds now input.ttl_seconds }) t,
      true,
    )
    else (t, false)

unfoldable pub renew_project_run_lock : ℕ → RenewInput → LockTable → LockTable × Bool
unfolding renew_on
renew_project_run_lock now input t = renew_on now input t (lookup input.project_id t)

release_on : ReleaseInput → LockTable → Option LockRow → LockTable
release_on input t none = t
release_on input t (some row) =
    if row.lock_id == input.lock_id then remove input.project_id t else t

unfoldable pub release_project_run_lock : ReleaseInput → LockTable → LockTable
unfolding release_on
release_project_run_lock input t = release_on input t (lookup input.project_id t)

-- What any client may ask of the table, and the answer: `release` answers nothing.
pub data LockRequest : Type 0 where
  acquire : AcquireInput → LockRequest
  renew : RenewInput → LockRequest
  release : ReleaseInput → LockRequest

unfoldable pub serve : ℕ → LockRequest → LockTable → LockTable × Bool
unfolding acquire_project_run_lock renew_project_run_lock release_project_run_lock
serve now (acquire input) t = acquire_project_run_lock now input t
serve now (renew input) t = renew_project_run_lock now input t
serve now (release input) t = (release_project_run_lock input t, false)

-- The project and the lock id that a request names.
abbrev pub on_project : LockRequest → String
on_project (acquire input) = input.project_id
on_project (renew input) = input.project_id
on_project (release input) = input.project_id

abbrev pub by_lock : LockRequest → String
by_lock (acquire input) = input.lock_id
by_lock (renew input) = input.lock_id
by_lock (release input) = input.lock_id

-- Requests in the order in which the database runs them, each with its client's clock.
unfoldable pub serve_all : List (ℕ × LockRequest) → LockTable → LockTable × List Bool
serve_all [] t = (t, [])
serve_all ((now, r) ∷ rs) t =
    let (t', granted) = serve now r t in
    let (t'', answers) = serve_all rs t' in (t'', granted ∷ answers)
