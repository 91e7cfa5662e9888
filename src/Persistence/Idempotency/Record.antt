-- ===== src/Persistence/Idempotency/Record.antt =====
-- One statement of the idempotency table seen at one key: it reads and replaces the record of its
-- own key alone.
use shared_dev_context_layer.Base.{
  ℕ, ◌≡◌, refl, ◌≢◌, ◌⊎◌, Bool, false, Option, some, List, [], ◌∷◌, arith, ◌==◌, Bool-cases, inl,
  inr, if◌then◌else◌,
}
use shared_dev_context_layer.Base.Table.{
  lookup, lookup-insert, updated, inserted, lookup-update_where, lookup-insert_absent,
}
use shared_dev_context_layer.Persistence.Idempotency.{
  CommandKey, command_key_Eq, ClaimRow, ClaimTable, claimed_row, reclaimable, reclaimed_row, owned,
  renewable, renewed_row, completed_row, failed_row, save_on, Statement, insert_stmt, reclaim_stmt,
  renew_stmt, complete_stmt, fail_stmt, save_stmt, at_key, execute, execute_all,
}

unfoldable pub record_step : ℕ → Statement → Option ClaimRow → Option ClaimRow × Bool
unfolding save_on
record_step now (insert_stmt i) o = inserted (claimed_row now i) o
record_step now (reclaim_stmt i) o = updated (reclaimable now) (reclaimed_row now i) o
record_step now (renew_stmt i) o = updated (renewable now i.claim_id) (renewed_row now i) o
record_step now (complete_stmt i) o = updated (owned i.claim_id) (completed_row now i) o
record_step now (fail_stmt i) o = updated (owned i.claim_id) (failed_row now i) o
record_step now (save_stmt i) o = (some (save_on now i o), false)

module _ (k : CommandKey) (now : ℕ) (t : ClaimTable) where
  execute-record_step :
      (s : Statement)
      → ((execute now s t).1 ≡ (record_step now s (lookup (at_key s) t)).1)
        × (lookup k (execute now s t).0
            ≡ (if at_key s == k then (record_step now s (lookup (at_key s) t)).0 else lookup k t))
  unfolding execute record_step
  execute-record_step (insert_stmt i) = lookup-insert_absent i.key k (claimed_row now i) t
  execute-record_step (reclaim_stmt i) =
      lookup-update_where i.key k (reclaimable now) (reclaimed_row now i) t
  execute-record_step (renew_stmt i) = lookup-update_where i.key k _ _ t
  execute-record_step (complete_stmt i) = lookup-update_where i.key k _ _ t
  execute-record_step (fail_stmt i) = lookup-update_where i.key k _ _ t
  execute-record_step (save_stmt i) = (refl, lookup-insert i.key k _ t)

  pub execute_same :
      (s : Statement)
      → at_key s ≡ k
      → ((execute now s t).1 ≡ (record_step now s (lookup k t)).1)
        × (lookup k (execute now s t).0 ≡ (record_step now s (lookup k t)).0)
  execute_same s e = ground (arith, execute-record_step s, command_key_Eq.equals_iff (at_key s) k)

  pub execute_other : (s : Statement) → at_key s ≢ k → lookup k (execute now s t).0 ≡ lookup k t
  execute_other s ne = ground (arith, execute-record_step s, command_key_Eq.equals_iff (at_key s) k)

pub same_key : (k : CommandKey) (s : Statement) → (at_key s ≡ k) ⊎ (at_key s ≢ k)
same_key k s = ground (arith, command_key_Eq.equals_iff (at_key s) k, Bool-cases (at_key s == k))

-- Each statement at key `k` satisfies `G`.
abbrev pub AllAt : CommandKey → (ℕ → Statement → Type 0) → List (ℕ × Statement) → Type 0
AllAt k G [] = Unit
AllAt k G ((now, s) ∷ ss) = (at_key s ≡ k → G now s) × AllAt k G ss

-- Each statement at key `k` has an answer that satisfies `A`.
abbrev pub AllAnswers :
    CommandKey → (Statement → Bool → Type 0) → List (ℕ × Statement) → List Bool → Type 0
AllAnswers k A [] _ = Unit
AllAnswers k A (_ ∷ _) [] = ⊥
AllAnswers k A ((now, s) ∷ ss) (answer ∷ answers) =
    (at_key s ≡ k → A s answer) × AllAnswers k A ss answers

-- The rule for sequences: what every statement at `k` keeps, all of them together keep.
module _ (k : CommandKey) (P : Option ClaimRow → Type 0) (G : ℕ → Statement → Type 0)
    (A : Statement → Bool → Type 0)
    (keep : (now : ℕ) (s : Statement) (o : Option ClaimRow)
      → P o
      → G now s
      → P (record_step now s o).0 × A s (record_step now s o).1) where
  execute_keep :
      (now : ℕ) (s : Statement) (t : ClaimTable)
      → P (lookup k t)
      → (at_key s ≡ k → G now s)
      → P (lookup k (execute now s t).0) × (at_key s ≡ k → A s (execute now s t).1)
  execute_keep now s t p g = elim (same_key k s) [
    | inl mine ↦
        let (answer, row) = execute_same k now t s mine in
        let (kept, good) = keep now s (lookup k t) p (g mine) in (rw row kept, λ _. rw answer good)
    | inr other ↦ (rw (execute_other k now t s other) p, λ mine. absurd (other mine))
  ]

  pub execute_all_keep :
      (ss : List (ℕ × Statement)) (t : ClaimTable)
      → P (lookup k t)
      → AllAt k G ss
      → P (lookup k (execute_all ss t).0) × AllAnswers k A ss (execute_all ss t).1
  unfolding execute_all
  execute_all_keep [] t p g = (p, tt)
  execute_all_keep ((now, s) ∷ ss) t p (here, later) =
      let (kept, good) = execute_keep now s t p here in
      let (still, rest) = execute_all_keep ss (execute now s t).0 kept later in
      (still, (good, rest))
