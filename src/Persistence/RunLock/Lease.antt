-- ===== src/Persistence/RunLock/Lease.antt =====
-- The lock table as the clients may think of it: for each project one optional lease, which a
-- request on that project alone reads and replaces.
use shared_dev_context_layer.Base.{
  ℕ, String, ◌≡◌, Bool, true, false, ◌&&◌, Option, none, some, arith, ltb, leb, if◌then◌else◌, ◌==◌,
  string_Eq, Bool-cases, ◌≢◌, ◌⊎◌,
}
use shared_dev_context_layer.Base.Table.{lookup, lookup-insert, lookup-remove}
use shared_dev_context_layer.Persistence.RunLock.{
  LockRow, LockTable, LockRequest, AcquireInput, RenewInput, ReleaseInput, acquire, renew, release,
  fresh_lock, after_seconds, serve, on_project, acquire_on, renew_on, release_on,
}

-- What a request does to the lease of its project.
unfoldable pub lease_step : ℕ → LockRequest → Option LockRow → Option LockRow × Bool
lease_step now (acquire i) none = (some (fresh_lock now i), true)
lease_step now (acquire i) (some row) =
    if leb row.expires_at now then (some (fresh_lock now i), true) else (some row, false)
lease_step now (renew i) none = (none, false)
lease_step now (renew i) (some row) =
    if row.lock_id == i.lock_id && ltb now row.expires_at
    then (
      some (record row { heartbeat_at = now; expires_at = after_seconds now i.ttl_seconds }),
      true,
    )
    else (some row, false)
lease_step now (release i) none = (none, false)
lease_step now (release i) (some row) =
    if row.lock_id == i.lock_id then (none, false) else (some row, false)

module _ (p : String) (now : ℕ) (t : LockTable) where
  acquire_on_lem :
      (i : AcquireInput) (o : Option LockRow)
      → lookup i.project_id t ≡ o
      → ((acquire_on now i t o).1 ≡ (lease_step now (acquire i) o).1)
        × (lookup p (acquire_on now i t o).0
            ≡ (if i.project_id == p then (lease_step now (acquire i) o).0 else lookup p t))
  unfolding acquire_on lease_step
  acquire_on_lem i none h = ground (
    arith,
    lookup-insert i.project_id p (fresh_lock now i) t,
    string_Eq.equals_iff i.project_id p,
  )
  acquire_on_lem i (some row) h = ground (
    arith,
    lookup-insert i.project_id p (fresh_lock now i) t,
    string_Eq.equals_iff i.project_id p,
  )

  renew_on_lem :
      (i : RenewInput) (o : Option LockRow)
      → lookup i.project_id t ≡ o
      → ((renew_on now i t o).1 ≡ (lease_step now (renew i) o).1)
        × (lookup p (renew_on now i t o).0
            ≡ (if i.project_id == p then (lease_step now (renew i) o).0 else lookup p t))
  unfolding renew_on lease_step
  renew_on_lem i none h = ground (arith, string_Eq.equals_iff i.project_id p)
  renew_on_lem i (some row) h = ground (
    arith,
    lookup-insert i.project_id p
        (record row { heartbeat_at = now; expires_at = after_seconds now i.ttl_seconds }) t,
    string_Eq.equals_iff i.project_id p,
  )

  release_on_lem :
      (i : ReleaseInput) (o : Option LockRow)
      → lookup i.project_id t ≡ o
      → lookup p (release_on i t o)
        ≡ (if i.project_id == p then (lease_step now (release i) o).0 else lookup p t)
  unfolding release_on lease_step
  release_on_lem i none h = ground (arith, string_Eq.equals_iff i.project_id p)
  release_on_lem i (some row) h =
      ground (arith, lookup-remove i.project_id p t, string_Eq.equals_iff i.project_id p)

release_answer :
    (now : ℕ) (i : ReleaseInput) (o : Option LockRow) → (lease_step now (release i) o).1 ≡ false
unfolding lease_step
release_answer now i none = ground arith
release_answer now i (some row) = ground arith

-- The table implements one independent lease per project: a request is answered from the lease of
-- its own project alone, replaces that lease by the abstract step, and changes no other project's.
pub serve-lease_step :
    (p : String) (now : ℕ) (r : LockRequest) (t : LockTable)
    → ((serve now r t).1 ≡ (lease_step now r (lookup (on_project r) t)).1)
      × (lookup p (serve now r t).0
          ≡ (if on_project r == p then (lease_step now r (lookup p t)).0 else lookup p t))
unfolding serve
serve-lease_step p now (acquire i) t =
    ground
      (arith, string_Eq.equals_iff i.project_id p, acquire_on_lem p now t i (lookup i.project_id t))
serve-lease_step p now (renew i) t =
    ground
      (arith, string_Eq.equals_iff i.project_id p, renew_on_lem p now t i (lookup i.project_id t))
serve-lease_step p now (release i) t = ground (
  arith,
  release_answer now i (lookup i.project_id t),
  string_Eq.equals_iff i.project_id p,
  release_on_lem p now t i (lookup i.project_id t),
)

module _ (p : String) (now : ℕ) (r : LockRequest) (t : LockTable) where
  pub serve_same :
      on_project r ≡ p
      → ((serve now r t).1 ≡ (lease_step now r (lookup p t)).1)
        × (lookup p (serve now r t).0 ≡ (lease_step now r (lookup p t)).0)
  serve_same e = ground (arith, serve-lease_step p now r t, string_Eq.equals_iff (on_project r) p)

  pub serve_other : on_project r ≢ p → lookup p (serve now r t).0 ≡ lookup p t
  serve_other ne = ground (arith, serve-lease_step p now r t, string_Eq.equals_iff (on_project r) p)

pub same_project : (p : String) (r : LockRequest) → (on_project r ≡ p) ⊎ (on_project r ≢ p)
same_project p r =
    ground (arith, string_Eq.equals_iff (on_project r) p, Bool-cases (on_project r == p))
