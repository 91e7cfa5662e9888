-- ===== src/Persistence/RunLock/Exclusion.antt =====
-- Mutual exclusion: while a lease runs, nobody else obtains, extends or removes the lock.
use shared_dev_context_layer.Base.{
  ℕ, ◌<◌, String, ◌≡◌, refl, ◌≢◌, Bool, true, false, Option, none, some, List, [], ◌∷◌, arith,
  string_Eq, inl, inr, ◌∙◌,
}
use shared_dev_context_layer.Base.Table.{lookup}
use shared_dev_context_layer.Persistence.RunLock.{
  LockRow, LockTable, LockRequest, AcquireInput, acquire, renew, release, fresh_lock, after_seconds,
  serve, serve_all, on_project, by_lock,
}
use shared_dev_context_layer.Persistence.RunLock.Lease.{
  lease_step, serve_same, serve_other, same_project,
}

-- The requests on project `p` are of others, and each is served before `end`.
abbrev pub OthersBefore : String → String → ℕ → List (ℕ × LockRequest) → Type 0
OthersBefore p id end [] = Unit
OthersBefore p id end ((now, r) ∷ rs) =
    (on_project r ≡ p → (now < end) × (by_lock r ≢ id)) × OthersBefore p id end rs

-- Every request on project `p` is refused.
abbrev pub AllRefused : String → List (ℕ × LockRequest) → List Bool → Type 0
AllRefused p [] _ = Unit
AllRefused p (_ ∷ _) [] = ⊥
AllRefused p ((now, r) ∷ rs) (granted ∷ answers) =
    (on_project r ≡ p → granted ≡ false) × AllRefused p rs answers

lease_step_other :
    (now : ℕ) (r : LockRequest) (row : LockRow)
    → now < row.expires_at
    → by_lock r ≢ row.lock_id
    → lease_step now r (some row) ≡ (some row, false)
unfolding lease_step
lease_step_other now (acquire i) row h ne = ground arith
lease_step_other now (renew i) row h ne = ground (arith, string_Eq.equals_iff row.lock_id i.lock_id)
lease_step_other now (release i) row h ne =
    ground (arith, string_Eq.equals_iff row.lock_id i.lock_id)

serve_held :
    (p : String) (row : LockRow) (now : ℕ) (r : LockRequest) (t : LockTable)
    → lookup p t ≡ some row
    → (on_project r ≡ p → (now < row.expires_at) × (by_lock r ≢ row.lock_id))
    → (lookup p (serve now r t).0 ≡ some row) × (on_project r ≡ p → (serve now r t).1 ≡ false)
serve_held p row now r t held others = elim (same_project p r) [
  | inl mine ↦
      let (before, ne) = others mine in
      let step = lease_step_other now r row before ne in ground (arith, serve_same p now r t mine)
  | inr other ↦ (serve_other p now r t other ∙ held, λ mine. absurd (other mine))
]

serve_all_held :
    (p : String) (row : LockRow) (rs : List (ℕ × LockRequest)) (t : LockTable)
    → lookup p t ≡ some row
    → OthersBefore p row.lock_id row.expires_at rs
    → (lookup p (serve_all rs t).0 ≡ some row) × AllRefused p rs (serve_all rs t).1
unfolding serve_all
serve_all_held p row [] t held others = (held, tt)
serve_all_held p row ((now, r) ∷ rs) t held (here, later) =
    let (still, refused) = serve_held p row now r t held here in
    let (kept, rest) = serve_all_held p row rs (serve now r t).0 still later in
    (kept, (refused, rest))

lease_step_granted :
    (now : ℕ) (i : AcquireInput) (o : Option LockRow)
    → (lease_step now (acquire i) o).1 ≡ true
    → (lease_step now (acquire i) o).0 ≡ some (fresh_lock now i)
unfolding lease_step
lease_step_granted now i none h = refl
lease_step_granted now i (some row) h = ground arith

acquire_granted :
    (now : ℕ) (i : AcquireInput) (t : LockTable)
    → (serve now (acquire i) t).1 ≡ true
    → lookup i.project_id (serve now (acquire i) t).0 ≡ some (fresh_lock now i)
acquire_granted now i t h = ground (
  arith,
  serve_same i.project_id now (acquire i) t refl,
  lease_step_granted now i (lookup i.project_id t),
)

-- Once a client has obtained the lock of a project for `ttl_seconds`, then whatever requests follow,
-- as long as those on this project name other lock ids and run before the lease ends, all of them
-- on this project are refused and the lock still is the one that the client obtained.
pub acquire-excludes_others :
    (now : ℕ) (i : AcquireInput) (t : LockTable) (rs : List (ℕ × LockRequest))
    → (serve now (acquire i) t).1 ≡ true
    → OthersBefore i.project_id i.lock_id (after_seconds now i.ttl_seconds) rs
    → let t' = (serve now (acquire i) t).0 in
      (lookup i.project_id (serve_all rs t').0 ≡ some (fresh_lock now i))
      × AllRefused i.project_id rs (serve_all rs t').1
acquire-excludes_others now i t rs granted others =
    serve_all_held i.project_id (fresh_lock now i) rs (serve now (acquire i) t).0
      (acquire_granted now i t granted) others
