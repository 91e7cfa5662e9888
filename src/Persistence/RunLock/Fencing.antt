-- ===== src/Persistence/RunLock/Fencing.antt =====
-- Fencing: a client that has lost its lock cannot extend it again, whatever the others do.
use shared_dev_context_layer.Base.{
  ℕ, String, ◌≡◌, refl, ◌≢◌, Bool, false, Option, none, some, List, [], ◌∷◌, arith, string_Eq, inl,
  inr, ◌∙◌,
}
use shared_dev_context_layer.Base.Table.{lookup}
use shared_dev_context_layer.Persistence.RunLock.{
  LockRow, LockTable, LockRequest, acquire, renew, release, serve, serve_all, on_project, by_lock,
}
use shared_dev_context_layer.Persistence.RunLock.Lease.{
  lease_step, serve_same, serve_other, same_project,
}

-- The lock is free, or another lock id has it (its lease may have run out).
abbrev pub NotHeldBy : String → Option LockRow → Type 0
NotHeldBy id none = Unit
NotHeldBy id (some row) = row.lock_id ≢ id

-- `id` is not used to acquire the lock of `p` anew.
abbrev pub IsNotAcquire : String → String → LockRequest → Type 0
IsNotAcquire p id (acquire i) = i.project_id ≡ p → i.lock_id ≢ id
IsNotAcquire p id (renew i) = Unit
IsNotAcquire p id (release i) = Unit

abbrev pub NeverReacquires : String → String → List (ℕ × LockRequest) → Type 0
NeverReacquires p id [] = Unit
NeverReacquires p id ((now, r) ∷ rs) = IsNotAcquire p id r × NeverReacquires p id rs

-- Every request of `id` on project `p` is refused.
abbrev pub AllRefusedTo : String → String → List (ℕ × LockRequest) → List Bool → Type 0
AllRefusedTo p id [] _ = Unit
AllRefusedTo p id (_ ∷ _) [] = ⊥
AllRefusedTo p id ((now, r) ∷ rs) (granted ∷ answers) =
    (on_project r ≡ p → by_lock r ≡ id → granted ≡ false) × AllRefusedTo p id rs answers

lease_step_lost :
    (id : String) (now : ℕ) (r : LockRequest) (o : Option LockRow)
    → NotHeldBy id o
    → IsNotAcquire (on_project r) id r
    → NotHeldBy id (lease_step now r o).0 × (by_lock r ≡ id → (lease_step now r o).1 ≡ false)
unfolding lease_step
lease_step_lost id now (acquire i) none lost other = ground (arith, other refl)
lease_step_lost id now (acquire i) (some row) lost other = ground (arith, other refl)
lease_step_lost id now (renew i) none lost other = ground arith
lease_step_lost id now (renew i) (some row) lost other =
    ground (arith, string_Eq.equals_iff row.lock_id i.lock_id)
lease_step_lost id now (release i) none lost other = ground arith
lease_step_lost id now (release i) (some row) lost other =
    ground (arith, string_Eq.equals_iff row.lock_id i.lock_id)

serve_lost :
    (p id : String) (now : ℕ) (r : LockRequest) (t : LockTable)
    → NotHeldBy id (lookup p t)
    → IsNotAcquire p id r
    → NotHeldBy id (lookup p (serve now r t).0)
      × (on_project r ≡ p → by_lock r ≡ id → (serve now r t).1 ≡ false)
serve_lost p id now r t lost fresh = elim (same_project p r) [
  | inl mine ↦
      let (answer, lease) = serve_same p now r t mine in
      let (kept, refused) = lease_step_lost id now r (lookup p t) lost (rw mine fresh) in
      (rw lease kept, λ _ e. answer ∙ refused e)
  | inr other ↦ (rw (serve_other p now r t other) lost, λ mine. absurd (other mine))
]

-- Once a project's lock is free or held under another lock id, a client whose lock id is not used
-- to acquire it anew gets every request of its own on this project refused, through any sequence of
-- requests by anybody at any clock readings, and never holds the lock again.
pub lost_lease_fenced :
    (p id : String) (rs : List (ℕ × LockRequest)) (t : LockTable)
    → NotHeldBy id (lookup p t)
    → NeverReacquires p id rs
    → NotHeldBy id (lookup p (serve_all rs t).0) × AllRefusedTo p id rs (serve_all rs t).1
unfolding serve_all
lost_lease_fenced p id [] t lost never = (lost, tt)
lost_lease_fenced p id ((now, r) ∷ rs) t lost (here, later) =
    let (still, refused) = serve_lost p id now r t lost here in
    let (kept, rest) = lost_lease_fenced p id rs (serve now r t).0 still later in
    (kept, (refused, rest))
